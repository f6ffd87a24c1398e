-- ===== src/Services/Options.antt =====
-- The options of a channel (src/modules/m_chan.c): chan_set_nojoin, chan_set_private, chan_set_noauto,
-- chan_set_avoice, chan_set_aop, chan_set_secure, chan_set_strictop, chan_set_mass,
-- chan_set_protectops, chan_set_axxflags, chan_set_enftopic, chan_set_autolimit, chan_set_mlock and
-- chan_set_founder.
use child.Prelude.{
  ℕ, suc, Bool, true, false, ◌==◌, ◌&&◌, ◌||◌, Option, none, some, [], ◌∷◌, if◌then◌else◌,
}
use child.Prelude.Int.{ℤ, pos, le_ℤ}
use child.Prelude.Maybe.{◌>>=◌}
use child.Strings.{Str, strncpy, str_eq, separate_word?}
use child.Notices.{
  Notice, ChanOption, access_denied, syntax_chan_option, chan_option_is, nojoin_of_bot,
  autolimit_is, autolimit_off, mlock_removed, mlock_sign, mlock_is, founder_unknown, founder_is,
}
use child.Registry.{
  Registry, quit_channel, mode_lock, send, put, find_user, has_umode, copt_nojoin, copt_noauto,
  copt_secure, copt_enftopic, copt_axxflags,
}
use child.Uflags.{uflag_chanowner, chlev_owner}
use child.Access.{is_founder, is_true_owner}
use child.Access.Rights.{channel_can_set}
use child.Channels.{nicklen, channel_botname, delete_user_from_channel, add_user_to_channel}
use child.Channels.Limits.{add_limit}
use child.Channels.Members.{change_flags}
use child.Protocol.Rooms.{join_channel}
use child.Protocol.Umodes.{umode_oper}
use child.Services.{notice_to_user}
use child.Services.Rights.{Right, guarded}

abbrev pub copt_avoice : ℕ
copt_avoice = 0x8

abbrev pub copt_private : ℕ
copt_private = 0x10

abbrev pub copt_strictop : ℕ
copt_strictop = 0x20

abbrev pub copt_aop : ℕ
copt_aop = 0x40

abbrev pub copt_protectops : ℕ
copt_protectops = 0x800

abbrev pub copt_mass : ℕ
copt_mass = 0x1000

abbrev pub on : Str
on = b'o' ∷ b'n' ∷ []

abbrev pub off : Str
off = b'o' ∷ b'f' ∷ b'f' ∷ []

-- SetOption or ClearOption on a channel, and the notice.
unfoldable pub change_option : Registry → ℕ → ℕ → ChanOption → ℕ → Bool → Option Registry
unfolding change_flags notice_to_user
change_option r nptr chptr option flag what = do
  chan ← r.chan_at chptr
  let changed : Registry = record r {
    chan_at =
        put r.chan_at chptr (some (record chan { options = change_flags what chan.options flag }));
  }
  notice_to_user changed nptr (chan_option_is option what chan.channelname)

-- What the word `on` or `off` asks for; any other is a misuse.
unfoldable pub on_or_off :
    Registry → ℕ → Notice → Option Str → (Bool → Option Registry) → Option Registry
unfolding notice_to_user
on_or_off r nptr syntax arg1 act =
    let set : Option Registry = act true in
    let cleared : Option Registry = act false in
    let misused : Option Registry = notice_to_user r nptr syntax in
    if str_eq arg1 (some on) then set else (if str_eq arg1 (some off) then cleared else misused)

-- The text of the options that are on or off and do nothing else.
unfoldable pub set_option :
    Right → ChanOption → ℕ → Registry → ℕ → ℕ → Option ℕ → ℕ → Option Str → Option Registry
unfolding change_option on_or_off guarded
set_option can option flag r fuel nptr uptr chptr all =
    let (arg1, _) = separate_word? all in
    guarded can access_denied r fuel nptr uptr chptr
      (on_or_off r nptr (syntax_chan_option option) arg1 (change_option r nptr chptr option flag))

-- A command of `CHAN SET`; the channel is not NULL.
abbrev pub SetCommand : Type 0
SetCommand = Registry → ℕ → ℕ → Option ℕ → ℕ → Option Str → Option Registry

unfoldable pub chan_set_private : SetCommand
unfolding set_option
chan_set_private = set_option channel_can_set ChanOption.private copt_private

unfoldable pub chan_set_noauto : SetCommand
unfolding set_option
chan_set_noauto = set_option channel_can_set ChanOption.noauto copt_noauto

unfoldable pub chan_set_avoice : SetCommand
unfolding set_option
chan_set_avoice = set_option channel_can_set ChanOption.avoice copt_avoice

unfoldable pub chan_set_aop : SetCommand
unfolding set_option
chan_set_aop = set_option channel_can_set ChanOption.aop copt_aop

unfoldable pub chan_set_secure : SetCommand
unfolding set_option
chan_set_secure = set_option channel_can_set ChanOption.secure copt_secure

unfoldable pub chan_set_strictop : SetCommand
unfolding set_option
chan_set_strictop = set_option channel_can_set ChanOption.strictop copt_strictop

unfoldable pub chan_set_mass : SetCommand
unfolding set_option
chan_set_mass = set_option channel_can_set ChanOption.mass copt_mass

unfoldable pub chan_set_protectops : SetCommand
unfolding set_option
chan_set_protectops = set_option channel_can_set ChanOption.protectops copt_protectops

-- Only a founder may change whether the channel goes by flags.
unfoldable pub chan_set_axxflags : SetCommand
unfolding set_option
chan_set_axxflags = set_option is_founder ChanOption.axxflags copt_axxflags

unfoldable pub chan_set_enftopic : SetCommand
unfolding set_option
chan_set_enftopic = set_option channel_can_set ChanOption.enftopic copt_enftopic

-- The option, the notice, and the part or the join of the services.
unfoldable pub change_nojoin : Registry → ℕ → ℕ → Bool → Option Registry
unfolding change_option join_channel
change_nojoin r nptr chptr what = do
  chan ← r.chan_at chptr
  changed ← change_option r nptr chptr ChanOption.nojoin copt_nojoin what
  let joined : Option Registry = join_channel changed r.config.nick chan.channelname
  if what then some (send (quit_channel r.config.nick chan.channelname) changed) else joined

unfoldable pub chan_set_nojoin : SetCommand
unfolding guarded change_nojoin on_or_off notice_to_user
chan_set_nojoin r fuel nptr uptr chptr all =
    let (arg1, _) = separate_word? all in
    guarded channel_can_set access_denied r fuel nptr uptr chptr (do
      chan ← r.chan_at chptr
      let change : Option Registry =
          on_or_off r nptr (syntax_chan_option ChanOption.nojoin) arg1 (change_nojoin r nptr chptr)
      elim chan.chanbot [ some bot ↦ notice_to_user r nptr nojoin_of_bot | none ↦ change ])

-- chan_set_autolimit for the number that atoi reads.
unfoldable pub set_autolimit : (Registry → ℕ) → Registry → ℕ → ℕ → ℤ → Option Registry
unfolding add_limit notice_to_user
set_autolimit malloc r nptr chptr (pos (suc n)) = do
  chan ← r.chan_at chptr
  told ←
      notice_to_user
        (record r {
          chan_at = put r.chan_at chptr (some (record chan { autolimit = pos (suc n) }));
        })
        nptr (autolimit_is chan.channelname (suc n))
  add_limit malloc told chptr
set_autolimit malloc r nptr chptr _ = do
  chan ← r.chan_at chptr
  notice_to_user
      (record r { chan_at = put r.chan_at chptr (some (record chan { autolimit = pos 0 })) }) nptr
      (autolimit_off chan.channelname)

-- `atoi` is the C library's; it reads a string.
unfoldable pub chan_set_autolimit : (Registry → ℕ) → (Str → ℤ) → SetCommand
unfolding guarded set_autolimit
chan_set_autolimit malloc atoi r fuel nptr uptr chptr all =
    let (arg1, _) = separate_word? all in
    guarded channel_can_set access_denied r fuel nptr uptr chptr
      (do number ← arg1; set_autolimit malloc r nptr chptr (atoi number))

abbrev pub mlocklen : ℕ
mlocklen = 50

unfoldable pub remove_mlock : Registry → ℕ → ℕ → Option Registry
unfolding notice_to_user
remove_mlock r nptr chptr = do
  chan ← r.chan_at chptr
  notice_to_user (record r { chan_at = put r.chan_at chptr (some (record chan { mlock = [] })) })
      nptr (mlock_removed chan.channelname)

unfoldable pub set_mlock : Registry → ℕ → ℕ → Str → Option Registry
unfolding notice_to_user
set_mlock r nptr chptr modes = do
  chan ← r.chan_at chptr
  let lock = strncpy mlocklen modes
  told ←
      notice_to_user
        (record r { chan_at = put r.chan_at chptr (some (record chan { mlock = lock })) }) nptr
        (mlock_is chan.channelname lock)
  bot ← channel_botname r chan
  some (send (mode_lock bot chan.channelname lock) told)

-- chan_set_mlock for what is asked: nothing, a sign alone, or a sign and modes.
unfoldable pub mlock_to : Registry → ℕ → ℕ → Option Str → Option Registry
unfolding remove_mlock set_mlock notice_to_user
mlock_to r nptr chptr (some (sign ∷ modes)) =
    let removed : Option Registry = remove_mlock r nptr chptr in
    let set : Option Registry = set_mlock r nptr chptr (sign ∷ modes) in
    let unsigned : Option Registry = notice_to_user r nptr mlock_sign in
    if (sign == b'+') || (sign == b'-') then elim modes [ [] ↦ removed | c ∷ s ↦ set ] else unsigned
mlock_to r nptr chptr _ = remove_mlock r nptr chptr

unfoldable pub chan_set_mlock : SetCommand
unfolding guarded mlock_to
chan_set_mlock r fuel nptr uptr chptr all =
    guarded channel_can_set access_denied r fuel nptr uptr chptr (mlock_to r nptr chptr all)

-- `uptr->level >= level_oper && IsOper(nptr)`, which reads through `uptr`.
unfoldable pub is_services_oper : Registry → ℕ → Option ℕ → Option Bool
is_services_oper r nptr none = none
is_services_oper r nptr (some uptr) = do
  user ← r.user_at uptr
  oper ← has_umode r (some nptr) umode_oper
  some (le_ℤ r.config.level_oper user.level && oper)

-- The old founder loses his entry, and the new one gets that of a founder.
unfoldable pub change_founder : (Registry → ℕ) → Registry → ℕ → ℕ → Str → Option ℕ → Option Registry
unfolding notice_to_user
change_founder malloc r nptr chptr name none = notice_to_user r nptr (founder_unknown name)
change_founder malloc r nptr chptr name (some uptr2) = do
  chan ← r.chan_at chptr
  uptr3 ← find_user r (some chan.owner)
  left ← delete_user_from_channel r uptr3 chptr
  chan2 ← left.chan_at chptr
  let owned : Registry = record left {
    chan_at = put left.chan_at chptr (some (record chan2 { owner = strncpy nicklen name }));
  }
  cleared ← delete_user_from_channel owned uptr2 chptr
  entered ← add_user_to_channel malloc cleared uptr2 chptr chlev_owner uflag_chanowner
  notice_to_user entered.1 nptr (founder_is chan.channelname name)

unfoldable pub chan_set_founder : (Registry → ℕ) → SetCommand
unfolding change_founder is_services_oper notice_to_user
chan_set_founder malloc r fuel nptr uptr chptr all = do
  owner ← is_true_owner r fuel uptr (some chptr)
  let oper : Option Bool = is_services_oper r nptr uptr
  may ← if owner == 0 then oper else some true
  let (arg1, _) = separate_word? all
  let change : Option Registry = (do
    name ← arg1
    change_founder malloc r nptr chptr name (find_user r (some name)))
  let refused : Option Registry = notice_to_user r nptr access_denied
  if may then change else refused
