-- ===== src/Access/Acl.antt =====
-- ChannelCanReadACL, ChannelCanWriteACL, ChannelCanOverride and can_modify_uflag (src/channel.c).
use child.Prelude.{
  ℕ, Bool, true, false, ◌&&◌, ◌||◌, not, Option, none, some, [], ◌∷◌, ◌==◌, if◌then◌else◌,
}
use child.Prelude.Int.{le_ℤ}
use child.Prelude.Maybe.{◌>>=◌}
use child.Uflags.{
  has, flags, uflag_acl, uflag_owner, uflag_coowner, uflag_set, uflag_protect, uflag_autoprotect,
  uflag_noop, uflag_autokick, uflag_autokickban, uflag_autoowner,
}
use child.Registry.{Registry, Cflag, find_cflag, is_authed, is_super_admin}
use child.Access.{follow, super_admin_early, is_founder}

-- The two early answers of ChannelCanReadACL.
unfoldable pub read_acl_early : Registry → ℕ → Option (Option Bool)
read_acl_early r uptr = do
  admin ← is_super_admin r uptr
  user ← r.user_at uptr
  some (if admin || (user.authed && le_ℤ r.config.level_oper user.level) then some true else none)

unfoldable pub channel_can_read_acl : Registry → ℕ → Option ℕ → Option ℕ → Option Bool
unfolding follow read_acl_early
channel_can_read_acl r fuel uptr none = some false
channel_can_read_acl r fuel uptr (some chptr) =
    follow r fuel false (read_acl_early r)
      (λ u _ cflag.
        let founder = is_founder r fuel (some u) (some chptr) in
        if cflag.suspended
        then some false
        else (if not (cflag.uflags == 0)
              && not (
                  has cflag.uflags uflag_autokick
                  || (has cflag.uflags uflag_autokickban || has cflag.uflags uflag_noop))
            then some true
            else founder))
      chptr uptr

-- The flags that rank an entry: owner, co-owner, protected.
abbrev pub ranked : ℕ → Bool
ranked u = has u uflag_owner || (has u uflag_coowner || has u uflag_protect)

-- The four tests of rank that ChannelCanWriteACL and ChannelCanOverride share.
unfoldable pub outranks : ℕ → ℕ → Bool
outranks u1 u2 =
    has u1 uflag_owner
    || ((has u1 uflag_coowner && not (has u2 uflag_owner))
        || ((has u1 uflag_protect && not (ranked u2)) || (not (ranked u1) && not (ranked u2))))

-- ChannelCanWriteACL from the search for the source's entry on, behind its founder test.
unfoldable pub write_acl_entries : Registry → ℕ → ℕ → ℕ → Cflag → Option Bool
unfolding outranks
write_acl_entries r target chptr a1 cflag1 =
    if not (has cflag1.uflags uflag_acl) then some false else (do
      found ← find_cflag r chptr target
      elim found [
        | none ↦ some true
        | some a2 ↦ do
          cflag2 ← r.cflag_at a2
          some (outranks cflag1.uflags cflag2.uflags || a1 == a2)
      ])

unfoldable pub channel_can_write_acl : Registry → ℕ → Option ℕ → Option ℕ → Option ℕ → Option Bool
unfolding follow write_acl_entries
channel_can_write_acl r fuel source none chptr = some false
channel_can_write_acl r fuel source (some target) none = some false
channel_can_write_acl r fuel source (some target) (some chptr) =
    follow r fuel false (super_admin_early r)
      (λ u a1 cflag1.
        let by_founder : Option Bool = (do
          founder ← is_founder r fuel (some u) (some chptr)
          if founder then some true else write_acl_entries r target chptr a1 cflag1) in
        if cflag1.suspended then some false else by_founder)
      chptr source

-- The two early answers of ChannelCanOverride.
unfoldable pub override_early : Registry → ℕ → ℕ → Option (Option Bool)
override_early r target source = do
  admin ← is_super_admin r source
  authed ← is_authed r target
  some (if admin || not authed then some true else none)

-- ChannelCanOverride from the search for the target's entry on.
unfoldable pub override_entries : Registry → ℕ → ℕ → ℕ → ℕ → ℕ → Cflag → Option Bool
unfolding outranks
override_entries r fuel target chptr source _ cflag1 = do
  found ← find_cflag r chptr target
  elim found [
    | none ↦ some true
    | some a2 ↦ do
      cflag2 ← r.cflag_at a2
      let by_founder : Option Bool = (do
        founder ← is_founder r fuel (some source) (some chptr)
        some (founder || outranks cflag1.uflags cflag2.uflags))
      if cflag1.suspended then some false else (if cflag2.suspended then some true else by_founder)
  ]

unfoldable pub channel_can_override : Registry → ℕ → Option ℕ → Option ℕ → Option ℕ → Option Bool
unfolding follow override_early override_entries
channel_can_override r fuel source none chptr = some false
channel_can_override r fuel source (some target) none = some false
channel_can_override r fuel source (some target) (some chptr) =
    follow r fuel false (override_early r target) (override_entries r fuel target chptr) chptr
      source

-- The ladder of can_modify_uflag over the flags of the entry and the flag to modify.
unfoldable pub modify_right : ℕ → ℕ → ℕ
modify_right uflags uflag =
    if has uflag uflag_owner
    then 0
    else (if has uflag (flags (uflag_coowner ∷ uflag_autoowner ∷ []))
        then (if has uflags uflag_owner then 2 else (if has uflags uflag_coowner then 1 else 0))
        else (if has uflag uflag_protect
            then (if has uflags (flags (uflag_owner ∷ uflag_coowner ∷ [])) then 2 else 0)
            else (if has uflag uflag_autoprotect
                then (if has uflags (flags (uflag_owner ∷ uflag_coowner ∷ []))
                    then 2
                    else (if has uflags uflag_protect then 1 else 0))
                else (if has uflag uflag_acl
                    then (if has uflags (flags (uflag_owner ∷ uflag_coowner ∷ uflag_protect ∷ []))
                        then 2
                        else 0)
                    else (if has uflag uflag_set
                        then (if has uflags
                              (flags (uflag_owner ∷ uflag_coowner ∷ uflag_protect ∷ []))
                            then 2
                            else 0)
                        else 2)))))

-- The answer for the entry that can_modify_uflag finds.
unfoldable pub modify_entry : Registry → ℕ → Option ℕ → Option ℕ
unfolding modify_right
modify_entry r uflag none = some 0
modify_entry r uflag (some a) = do cflag ← r.cflag_at a; some (modify_right cflag.uflags uflag)

unfoldable pub can_modify_uflag : Registry → ℕ → ℕ → ℕ → Option ℕ
unfolding modify_entry
can_modify_uflag r uptr chptr uflag = do
  admin ← is_super_admin r uptr
  if admin then some 2 else find_cflag r chptr uptr >>= modify_entry r uflag
