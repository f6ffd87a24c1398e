-- ===== src/Access/Ranks.antt =====
-- The ranks of access entries, and what they protect an entry from.
use child.Prelude.{
  bit_and, bit_or, ap, ◌∙◌, ℕ, suc, ◌<◌, ◌≡◌, refl, Bool, true, false, not, ◌||◌, ◌&&◌, leb, Option,
  none, some, arith, if◌then◌else◌, ◌==◌, [], ◌∷◌,
}
use child.Prelude.Maybe.{◌>>=◌, >>=-eq-some}
use child.Uflags.{
  has, flags, uflag_owner, uflag_coowner, uflag_protect, uflag_autoprotect, uflag_acl, uflag_set,
  uflag_autoowner,
}
use child.Prelude.Bits.{bit_and-bit_or, bit_or-le_left, bit_or_comm, zero-bit_or}
use child.Registry.{Registry, Cflag, find_cflag, is_super_admin}
use child.Access.{is_founder, super_admin_early, follow, on_entry, unless_answered}
use child.Access.Acl.{
  ranked, outranks, channel_can_write_acl, write_acl_entries, modify_right, modify_entry,
  can_modify_uflag,
}

-- Owner 3, co-owner 2, protected 1, others 0.
abbrev pub rank_of : ℕ → ℕ
rank_of u =
    if has u uflag_owner
    then 3
    else (if has u uflag_coowner then 2 else (if has u uflag_protect then 1 else 0))

ranks_lem :
    (o1 c1 p1 o2 c2 p2 : Bool)
    → (o1
        || ((c1 && not o2)
            || ((p1 && not (o2 || (c2 || p2)))
                || (not (o1 || (c1 || p1)) && not (o2 || (c2 || p2))))))
      ≡ (leb
            (if o2 then 3 else (if c2 then 2 else (if p2 then 1 else 0)))
            (if o1 then 3 else (if c1 then 2 else (if p1 then 1 else 0)))
          && not (
              ((if o1 then 3 else (if c1 then 2 else (if p1 then 1 else 0))) == 1)
              && ((if o2 then 3 else (if c2 then 2 else (if p2 then 1 else 0))) == 1)))
ranks_lem true c1 p1 true c2 p2 = refl
ranks_lem true c1 p1 false true p2 = refl
ranks_lem true c1 p1 false false true = refl
ranks_lem true c1 p1 false false false = refl
ranks_lem false true p1 true c2 p2 = ground arith
ranks_lem false true p1 false c2 p2 = ground arith
ranks_lem false false true o2 c2 p2 = ground arith
ranks_lem false false false o2 c2 p2 = ground arith

-- The rank tests of the access checks compare ranks: an entry may act on one of at most its own rank,
-- but a protected entry not on another protected one.
pub outranks-rank_of :
    (u1 u2 : ℕ)
    → outranks u1 u2
      ≡ (leb (rank_of u2) (rank_of u1) && not ((rank_of u1 == 1) && (rank_of u2 == 1)))
unfolding outranks
outranks-rank_of u1 u2 =
    ranks_lem (has u1 uflag_owner) (has u1 uflag_coowner) (has u1 uflag_protect)
      (has u2 uflag_owner) (has u2 uflag_coowner) (has u2 uflag_protect)

-- A union is held if one of its parts is.
has-bit_or : (u f g : ℕ) → has u (bit_or f g) ≡ (has u f || has u g)
has-bit_or u f g = ground (
  arith,
  bit_and-bit_or u f g,
  bit_or-le_left (bit_and u f) (bit_and u g),
  bit_or-le_left (bit_and u g) (bit_and u f),
  bit_or_comm (bit_and u f) (bit_and u g),
  zero-bit_or (bit_and u g),
)

has-owners :
    (u : ℕ)
    → has u (flags (uflag_owner ∷ uflag_coowner ∷ [])) ≡ (has u uflag_owner || has u uflag_coowner)
has-owners u = has-bit_or u uflag_owner uflag_coowner

has-ranked : (u : ℕ) → has u (flags (uflag_owner ∷ uflag_coowner ∷ uflag_protect ∷ [])) ≡ ranked u
has-ranked u =
    has-bit_or u uflag_owner (flags (uflag_coowner ∷ uflag_protect ∷ []))
    ∙ ap (λ b. has u uflag_owner || b) (has-bit_or u uflag_coowner uflag_protect)

-- What an entry must hold for can_modify_uflag to answer more than 0 for a flag.
abbrev pub Permits : ℕ → ℕ → Type 0
Permits uflags uflag =
    (has uflag uflag_owner ≡ false)
    × ((not (has uflag uflag_coowner || has uflag uflag_autoowner)
          || (has uflags uflag_owner || has uflags uflag_coowner))
        ≡ true)
    × ((not (
            has uflag uflag_protect
            || (has uflag uflag_autoprotect || (has uflag uflag_acl || has uflag uflag_set)))
          || ranked uflags)
        ≡ true)

modify_ladder :
    (own co pro auto acl set o c oc p ocp : Bool)
    → oc ≡ (o || c)
    → ocp ≡ (o || (c || p))
    → 0 < (
        if own
        then 0
        else (if co
            then (if o then 2 else (if c then 1 else 0))
            else (if pro
                then (if oc then 2 else 0)
                else (if auto
                    then (if oc then 2 else (if p then 1 else 0))
                    else (if acl
                        then (if ocp then 2 else 0)
                        else (if set then (if ocp then 2 else 0) else 2))))))
    → (own ≡ false)
      × ((not co || (o || c)) ≡ true)
      × ((not (pro || (auto || (acl || set))) || (o || (c || p))) ≡ true)
modify_ladder own co pro auto acl set o c oc p ocp e f h = ground arith

-- What the answer of an entry means for the flag asked about.
pub modify_right-Permits : (uflags uflag : ℕ) → 0 < modify_right uflags uflag → Permits uflags uflag
unfolding modify_right
modify_right-Permits uflags uflag h = rw (← has-bit_or uflag uflag_coowner uflag_autoowner) (
    modify_ladder (has uflag uflag_owner) (has uflag (flags (uflag_coowner ∷ uflag_autoowner ∷ [])))
      (has uflag uflag_protect) (has uflag uflag_autoprotect) (has uflag uflag_acl)
      (has uflag uflag_set) (has uflags uflag_owner) (has uflags uflag_coowner)
      (has uflags (flags (uflag_owner ∷ uflag_coowner ∷ []))) (has uflags uflag_protect)
      (has uflags (flags (uflag_owner ∷ uflag_coowner ∷ uflag_protect ∷ []))) (has-owners uflags)
      (has-ranked uflags) h)

modify_entry-Permits :
    (r : Registry) (uflag : ℕ) (found : Option ℕ) (k : ℕ)
    → modify_entry r uflag found ≡ some k
    → 0 < k
    → (a : ℕ) × (cflag : Cflag) × (found ≡ some a)
      × (r.cflag_at a ≡ some cflag)
      × Permits cflag.uflags uflag
unfolding modify_entry
modify_entry-Permits r uflag none k run h = grind arith
modify_entry-Permits r uflag (some a) k run h =
    let (cflag, read, answer) = >>=-eq-some (r.cflag_at a) _ run in
    (a, cflag, refl, read, modify_right-Permits cflag.uflags uflag (grind arith))

-- A user who is no super administrator may modify a flag only through an access entry of his own on
-- the channel. No entry permits the owner flag; the flags of a co-owner take an owner or a co-owner,
-- and the flags PROTECT, AUTOPROTECT, ACL and SET an entry that is protected at least.
pub can_modify_uflag-Permits :
    (r : Registry) (u c uflag k : ℕ)
    → is_super_admin r u ≡ some false
    → can_modify_uflag r u c uflag ≡ some k
    → 0 < k
    → (a : ℕ) × (cflag : Cflag) × (find_cflag r c u ≡ some (some a))
      × (r.cflag_at a ≡ some cflag)
      × Permits cflag.uflags uflag
unfolding can_modify_uflag
can_modify_uflag-Permits r u c uflag k plain run h =
    let (found, search, answer) =
      >>=-eq-some (find_cflag r c u) (modify_entry r uflag) (by_entry run) in
    let (a, cflag, e, read, permits) = modify_entry-Permits r uflag found k answer h in
    (a, cflag, cc, read, permits)
  where
    by_entry :
        (is_super_admin r u >>= λ admin.
        if admin then some 2 else find_cflag r c u >>= modify_entry r uflag)
          ≡ some k
        → (find_cflag r c u >>= modify_entry r uflag) ≡ some k
    by_entry = rw plain (λ h. h)

ranks_answer :
    (acl same : Bool) (u1 u2 : ℕ)
    → same ≡ false
    → (if not acl then some false else some (outranks u1 u2 || same))
      ≡ some
          (acl && (leb (rank_of u2) (rank_of u1) && not ((rank_of u1 == 1) && (rank_of u2 == 1))))
ranks_answer acl same u1 u2 distinct = rw (outranks-rank_of u1 u2) (
    by_tests acl same
      (leb (rank_of u2) (rank_of u1) && not ((rank_of u1 == 1) && (rank_of u2 == 1))) distinct)
  where
    by_tests :
        (acl same test : Bool)
        → same ≡ false
        → (if not acl then some false else some (test || same)) ≡ some (acl && test)
    by_tests acl same test = ground arith

-- The answer of channel_can_write_acl for a user who is no super administrator and no founder, and who
-- has an entry of his own on the channel that is not suspended, about another entry of the channel: it
-- is yes just when his entry has the ACL flag and a rank of at least the other's, and not both have the
-- rank of a protected entry, where an owner ranks above a co-owner, above a protected entry, above all
-- others.
pub channel_can_write_acl-rank_of :
    (r : Registry) (fuel u target c a b : ℕ) (cflag1 cflag2 : Cflag)
    → super_admin_early r u ≡ some none
    → find_cflag r c u ≡ some (some a)
    → r.cflag_at a ≡ some cflag1
    → cflag1.suspended ≡ false
    → is_founder r (suc fuel) (some u) (some c) ≡ some false
    → find_cflag r c target ≡ some (some b)
    → r.cflag_at b ≡ some cflag2
    → (a == b) ≡ false
    → channel_can_write_acl r (suc fuel) (some u) (some target) (some c)
      ≡ some (
          has cflag1.uflags uflag_acl
          && (leb (rank_of cflag2.uflags) (rank_of cflag1.uflags)
              && not ((rank_of cflag1.uflags == 1) && (rank_of cflag2.uflags == 1))))
unfolding channel_can_write_acl follow on_entry write_acl_entries unless_answered
channel_can_write_acl-rank_of r fuel u target c a b cflag1 cflag2 early entry read active common
      other read2 distinct =
    rw (early, entry, read, active, common, other, read2)
      (ranks_answer (has cflag1.uflags uflag_acl) (a == b) cflag1.uflags cflag2.uflags distinct)
