-- ===== src/Protocol/Joins.antt =====
-- m_join (src/parseline.c): a nick joins channels, gets what its access gives it, and meets the
-- timebans.
use child.Prelude.{
  ℕ, Bool, true, false, not, ◌==◌, ◌&&◌, ◌||◌, ◌++◌, Option, none, some, List, [], ◌∷◌,
  if◌then◌else◌,
}
use child.Prelude.Int.{ℤ, pos, lt_ℤ, le_ℤ, eq_ℤ}
use child.Core.{unless_aborted}
use child.Prelude.Maybe.{◌>>=◌}
use child.Strings.{Str, strncpy, separate_word?}
use child.Strings.Masks.{match_mask}
use child.Uflags.{ChanLevels, has, flags}
use child.Notices.{entry}
use child.Registry.{
  Registry, Nick, User, Cflag, ban, notice, send, put, find_nick, find_account, find_channel,
  find_wchan, copt_noauto, copt_axxflags, copt_secure,
}
use child.Access.{find_cflag_recursive, get_flag, is_founder}
use child.Channels.{channel_botname, cflag_auto_on}
use child.Channels.Members.{
  add_user_to_wchan, create_wchan, kick_user, chfl_op, chfl_halfop, chfl_voice, chfl_protect,
  chfl_owner,
}
use child.Accounts.Sync.{
  sync_cflag, out_of_chan, give_if, cflag_auto_off, cflag_auto_voice, cflag_auto_op,
}
use child.Protocol.{Hooks, run_hooks, after_colon}
use child.Protocol.Identity.{if_found}
use child.Protocol.Renames.{is_authed?}
use child.Services.Options.{copt_avoice, copt_aop}
use child.Services.Upkeep.{hidden_mask}

abbrev pub hook_join : ℕ
hook_join = 0x1

abbrev pub hook_pre_join : ℕ
hook_pre_join = 0x400

-- The status of a founder, and of the levels down to a half-operator.
unfoldable pub own_status : ChanLevels → Bool → ℤ → Option ℕ
own_status l founder flag =
    if founder
    then some (flags (chfl_owner ∷ chfl_op ∷ []))
    else (if le_ℤ l.chlev_admin flag
        then some (flags (chfl_protect ∷ chfl_op ∷ []))
        else (if le_ℤ l.chlev_op flag
            then some chfl_op
            else (if le_ℤ l.chlev_halfop flag then some chfl_halfop else none)))

-- The levels below: a voice, a kick, a ban with a kick, or nothing. Whether the user has access.
unfoldable pub enter_low :
    (Registry → ℕ) → Registry → ℕ → Nick → User → Str → Str → Cflag → ℤ → Option (Bool × Registry)
unfolding give_if
enter_low malloc r nptr nick user name bot member flag =
    let l = r.config.levels in
    let voiced : Option (Bool × Registry) = (do
      given ← give_if (not (member.automode == cflag_auto_off)) nptr name chfl_voice bot r
      some (true, given)) in
    let kicked : Option (Bool × Registry) = (do
      left ← kick_user malloc r bot user.nick name out_of_chan
      some (true, left)) in
    let banned : Option (Bool × Registry) = (do
      left ← kick_user malloc (send (ban bot name nick.hiddenhost) r) bot user.nick name out_of_chan
      some (true, left)) in
    if le_ℤ l.chlev_voice flag
    then voiced
    else (if eq_ℤ flag l.chlev_akick
        then kicked
        else (if eq_ℤ flag l.chlev_akb then banned else some (eq_ℤ flag l.chlev_nostatus, r)))

-- What a level gives to one who joins.
unfoldable pub enter_by_level :
    (Registry → ℕ)
    → Registry
    → ℕ
    → Nick
    → User
    → Str
    → Str
    → Cflag
    → Bool
    → ℤ
    → Option (Bool × Registry)
unfolding own_status enter_low give_if
enter_by_level malloc r nptr nick user name bot member founder flag =
    elim (own_status r.config.levels founder flag) [
      | none ↦ enter_low malloc r nptr nick user name bot member flag
      | some own ↦ do
        let full = (member.automode == cflag_auto_on) || (member.automode == cflag_auto_op)
        let voice = le_ℤ r.config.levels.chlev_voice flag && (member.automode == cflag_auto_voice)
        given ← give_if (full || voice) nptr name (if full then own else chfl_voice) bot r
        some (true, given)
    ]

-- The entry of the user: a channel that goes by flags synchronises it.
unfoldable pub enter_entry :
    (Registry → ℕ) → Registry → ℕ → ℕ → ℕ → ℕ → Str → Str → ℕ → Option (Bool × Registry)
unfolding enter_by_level
enter_entry malloc r fuel nptr uptr chptr name bot a = do
  chan ← r.chan_at chptr
  member ← r.cflag_at a
  nick ← r.nick_at nptr
  user ← r.user_at uptr
  let synced : Option (Bool × Registry) = (do s ← sync_cflag malloc r a; some (false, s))
  let by_level : Option (Bool × Registry) = (do
    founder ← is_founder r fuel (some uptr) (some chptr)
    flag ← get_flag r fuel (some uptr) (some chptr)
    enter_by_level malloc r nptr nick user name bot member founder flag)
  if has chan.options copt_axxflags then synced else by_level

-- m_join up to the label skip_flags: whether the user has access, and what that made of the registry.
unfoldable pub enter_with_access :
    (Registry → ℕ) → Registry → ℕ → ℕ → Option ℕ → ℕ → Str → Str → Option (Bool × Registry)
unfolding enter_entry
enter_with_access malloc r fuel nptr none chptr name bot = some (false, r)
enter_with_access malloc r fuel nptr (some uptr) chptr name bot = do
  chan ← r.chan_at chptr
  user ← r.user_at uptr
  let entered : Option (Bool × Registry) = (do
    found ← find_cflag_recursive r fuel chptr uptr
    elim found [
      | none ↦ some (false, r)
      | some a ↦ enter_entry malloc r fuel nptr uptr chptr name bot a
    ])
  if not user.authed || has chan.options copt_noauto then some (false, r) else entered

-- The time at which a user with access was last seen.
unfoldable pub note_seen : Registry → ℕ → Option ℕ → ℕ → Option Registry
note_seen r fuel uptr chptr = do
  authed ← is_authed? r uptr
  let seen : Option Registry = (do
    founder ← is_founder r fuel uptr (some chptr)
    flag ← get_flag r fuel uptr (some chptr)
    chan ← r.chan_at chptr
    let noted : Registry = record r {
      chan_at = put r.chan_at chptr (some (record chan { lastseen = r.now }));
    }
    some (if founder || lt_ℤ (pos 0) flag then noted else r))
  if authed then seen else some r

-- The options AVOICE and AOP, for one without access.
unfoldable pub give_by_options : Registry → ℕ → Option ℕ → ℕ → Str → Str → Bool → Option Registry
unfolding give_if
give_by_options r nptr uptr chptr name bot access = do
  chan ← r.chan_at chptr
  authed ← is_authed? r uptr
  let wanted =
      not (has chan.options copt_noauto)
      && not access
      && (authed || not (has chan.options copt_secure))
  voiced ← give_if (wanted && has chan.options copt_avoice) nptr name chfl_voice bot r
  give_if (wanted && has chan.options copt_aop) nptr name chfl_op bot voiced

-- The masks of a nick, with its hidden host and with its host.
abbrev pub real_mask : Nick → Str
real_mask nick = nick.name ++ b'!' ∷ (nick.ident ++ b'@' ∷ nick.host)

-- The loop over the timebans of the channel: the first that matches bans and kicks.
unfoldable pub meet_timebans :
    (Registry → ℕ) → (Str → Str → Bool) → Registry → Nick → Str → Str → List ℕ → Option Registry
meet_timebans malloc match_regex r nick name bot [] = some r
meet_timebans malloc match_regex r nick name bot (a ∷ as') =
    let later = meet_timebans malloc match_regex r nick name bot as' in
    do
      tb ← r.timeban_at a
      hidden ← match_mask match_regex tb.mask (hidden_mask nick)
      let real : Option Bool = match_mask match_regex tb.mask (real_mask nick)
      matches ← if hidden then some true else real
      let kicked : Option Registry =
          kick_user malloc (send (ban bot name nick.hiddenhost) r) bot nick.name name tb.reason
      if matches then kicked else later

-- m_join on a registered channel.
unfoldable pub join_known :
    (Registry → ℕ)
    → (Str → Str → Bool)
    → Hooks
    → Registry
    → ℕ
    → ℕ
    → Option ℕ
    → Str
    → ℕ
    → Option Registry
unfolding enter_with_access note_seen give_by_options meet_timebans run_hooks
join_known malloc match_regex hooks r fuel nptr uptr name chptr = do
  chan ← r.chan_at chptr
  bot ← channel_botname r chan
  entered ← enter_with_access malloc r fuel nptr uptr chptr name bot
  seen ← note_seen entered.1 fuel uptr chptr
  given ← give_by_options seen nptr uptr chptr name bot entered.0
  nick ← given.nick_at nptr
  let told : Registry = elim chan.entrymsg [
    | [] ↦ given
    | c ∷ s ↦ send (notice bot nick.name (entry chan.channelname chan.entrymsg)) given
  ]
  ran ←
      run_hooks hooks hook_join
        (record { nptr = some nptr; uptr = uptr; chptr = some chptr; parv = [] }) told
  nick2 ← ran.1.nick_at nptr
  chan2 ← ran.1.chan_at chptr
  meet_timebans malloc match_regex ran.1 nick2 name bot chan2.timebans

-- find_wchan, or CreateWchan; the hash of a name that it has no room for aborts.
unfoldable pub wchan_of_name : (Registry → ℕ) → Registry → Str → Option (ℕ × Registry)
unfolding unless_aborted
wchan_of_name malloc r name = unless_aborted name (elim (find_wchan r (some name)) [
  | some wchan ↦ some (wchan, r)
  | none ↦
      let (created, made) = create_wchan malloc r name in do wchan ← created; some (wchan, made)
])

-- The body of the loop of m_join.
unfoldable pub join_one :
    (Registry → ℕ)
    → (Str → Str → Bool)
    → Hooks
    → Registry
    → ℕ
    → ℕ
    → Option ℕ
    → Str
    → Option Registry
unfolding wchan_of_name join_known run_hooks if_found
join_one malloc match_regex hooks r fuel nptr uptr name = do
  found ← wchan_of_name malloc r name
  added ← add_user_to_wchan malloc found.1 nptr found.0
  let chptr = find_channel added.1 (some name)
  ran ←
      run_hooks hooks hook_pre_join
        (record { nptr = some nptr; uptr = uptr; chptr = chptr; parv = some name ∷ [] }) added.1
  let joined : Option Registry =
      if_found ran.1 (join_known malloc match_regex hooks ran.1 fuel nptr uptr name) chptr
  if ran.0 then some ran.1 else joined

unfoldable pub join_each :
    (Registry → ℕ)
    → (Str → Str → Bool)
    → Hooks
    → Registry
    → ℕ
    → ℕ
    → Option ℕ
    → List Str
    → Option Registry
unfolding join_one
join_each malloc match_regex hooks r fuel nptr uptr [] = some r
join_each malloc match_regex hooks r fuel nptr uptr (name ∷ names) = do
  joined ← join_one malloc match_regex hooks r fuel nptr uptr name
  join_each malloc match_regex hooks joined fuel nptr uptr names

-- A token, unless it is empty.
unfoldable pub push_word : Str → List Str → List Str
push_word [] words = words
push_word (c ∷ word) words = (c ∷ word) ∷ words

-- The tokens of strtok for one separator: runs of the other bytes.
unfoldable pub tokens_from : ℕ → Str → Str → List Str
unfolding push_word
tokens_from sep word [] = push_word word []
tokens_from sep word (x ∷ s) =
    let cut = tokens_from sep [] s in
    let longer = tokens_from sep (word ++ x ∷ []) s in
    if x == sep then push_word word cut else longer

unfoldable pub tokens : ℕ → Str → List Str
unfolding tokens_from
tokens sep s = tokens_from sep [] s

-- The colon that the list of channels may begin with is skipped.
unfoldable pub join_list :
    (Registry → ℕ) → (Str → Str → Bool) → Hooks → Registry → ℕ → Str → Str → Option Registry
unfolding join_each tokens if_found
join_list malloc match_regex hooks r fuel nick chans =
    find_nick r nick
    >>= if_found r (λ nptr. do
      uptr ← find_account r nptr
      join_each malloc match_regex hooks r fuel nptr uptr (tokens b',' (strncpy 1024 chans)))

unfoldable pub m_join :
    (Registry → ℕ) → (Str → Str → Bool) → Hooks → Registry → ℕ → Str → Option Str → Option Registry
unfolding join_list after_colon
m_join malloc match_regex hooks r fuel sender tail = elim ((separate_word? tail).0) [
  | some (c ∷ chans) ↦
      let rest : Option Registry =
        join_list malloc match_regex hooks r fuel (after_colon sender) chans in
      let whole : Option Registry =
        join_list malloc match_regex hooks r fuel (after_colon sender) (c ∷ chans) in
      if c == b':' then rest else whole
  | _ ↦ some r
]
