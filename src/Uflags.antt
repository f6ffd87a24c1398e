-- ===== src/Uflags.antt =====
-- The access flags of a channel user (src/channel.h), their text form, and the flags that a level
-- stands for: parse_uflags, get_uflags_string and GetUFlagsFromLevel (src/channel.c).
pub mod Text
pub mod Levels
use child.Prelude.{
  ℕ, ◌≡◌, Bool, true, false, ◌&&◌, List, [], ◌∷◌, bit_and, bit_or, ◌==◌, if◌then◌else◌,
}
use child.Prelude.Int.{ℤ, pos, lt_ℤ, le_ℤ, eq_ℤ}
use child.Strings.{Str}

abbrev pub uflag_op : ℕ
uflag_op = 0x1

abbrev pub uflag_voice : ℕ
uflag_voice = 0x2

abbrev pub uflag_autoop : ℕ
uflag_autoop = 0x4

abbrev pub uflag_autovoice : ℕ
uflag_autovoice = 0x8

abbrev pub uflag_acl : ℕ
uflag_acl = 0x10

abbrev pub uflag_invite : ℕ
uflag_invite = 0x20

abbrev pub uflag_topic : ℕ
uflag_topic = 0x40

abbrev pub uflag_owner : ℕ
uflag_owner = 0x80

abbrev pub uflag_coowner : ℕ
uflag_coowner = 0x100

abbrev pub uflag_halfop : ℕ
uflag_halfop = 0x200

abbrev pub uflag_set : ℕ
uflag_set = 0x400

abbrev pub uflag_autohalfop : ℕ
uflag_autohalfop = 0x800

abbrev pub uflag_protect : ℕ
uflag_protect = 0x1000

abbrev pub uflag_autoprotect : ℕ
uflag_autoprotect = 0x2000

abbrev pub uflag_noop : ℕ
uflag_noop = 0x4000

abbrev pub uflag_autokick : ℕ
uflag_autokick = 0x8000

abbrev pub uflag_autokickban : ℕ
uflag_autokickban = 0x10000

abbrev pub uflag_autoowner : ℕ
uflag_autoowner = 0x20000

-- `|` of several flags.
abbrev pub flags : List ℕ → ℕ
flags [] = 0
flags (f ∷ fs) = bit_or f (flags fs)

abbrev pub uflag_chanowner : ℕ
uflag_chanowner = flags (
    uflag_op ∷ uflag_voice ∷ uflag_acl ∷ uflag_invite ∷ uflag_topic ∷ uflag_owner ∷ uflag_halfop
    ∷ uflag_set ∷ uflag_protect ∷ uflag_autoowner ∷ uflag_autoop ∷ [])

abbrev pub uflag_chancoowner : ℕ
uflag_chancoowner = flags (
    uflag_op ∷ uflag_voice ∷ uflag_acl ∷ uflag_invite ∷ uflag_topic ∷ uflag_coowner ∷ uflag_halfop
    ∷ uflag_set ∷ uflag_protect ∷ uflag_autoowner ∷ uflag_autoop ∷ [])

abbrev pub uflag_chansadmin : ℕ
uflag_chansadmin = flags (
    uflag_op ∷ uflag_voice ∷ uflag_acl ∷ uflag_invite ∷ uflag_topic ∷ uflag_halfop ∷ uflag_set
    ∷ uflag_protect ∷ uflag_autoprotect ∷ uflag_autoop ∷ [])

abbrev pub uflag_chanadmin : ℕ
uflag_chanadmin = flags (
    uflag_op ∷ uflag_voice ∷ uflag_acl ∷ uflag_invite ∷ uflag_topic ∷ uflag_halfop ∷ uflag_protect
    ∷ uflag_autoprotect ∷ uflag_autoop ∷ [])

abbrev pub uflag_chanop : ℕ
uflag_chanop =
    flags (uflag_op ∷ uflag_voice ∷ uflag_autoop ∷ uflag_invite ∷ uflag_topic ∷ uflag_halfop ∷ [])

abbrev pub uflag_chanhalfop : ℕ
uflag_chanhalfop =
    flags (uflag_voice ∷ uflag_invite ∷ uflag_topic ∷ uflag_halfop ∷ uflag_autohalfop ∷ [])

abbrev pub uflag_chanvoice : ℕ
uflag_chanvoice = flags (uflag_voice ∷ uflag_autovoice ∷ uflag_invite ∷ [])

-- The truth of `options & flag`.
abbrev pub has : ℕ → ℕ → Bool
has options flag = if bit_and options flag == 0 then false else true

-- The switch of parse_uflags; a byte of no case adds nothing.
unfoldable pub flag_of : ℕ → ℕ
flag_of c =
    if c == b'o'
    then uflag_op
    else (if c == b'v'
        then uflag_voice
        else (if c == b'O'
            then uflag_autoop
            else (if c == b'V'
                then uflag_autovoice
                else (if c == b'x'
                    then uflag_acl
                    else (if c == b'i'
                        then uflag_invite
                        else (if c == b't'
                            then uflag_topic
                            else (if c == b'F'
                                then uflag_owner
                                else (if c == b'f'
                                    then uflag_coowner
                                    else (if c == b'h'
                                        then uflag_halfop
                                        else (if c == b's'
                                            then uflag_set
                                            else (if c == b'H'
                                                then uflag_autohalfop
                                                else (if c == b'p'
                                                    then uflag_protect
                                                    else (if c == b'P'
                                                        then uflag_autoprotect
                                                        else (if c == b'N'
                                                            then uflag_noop
                                                            else (if c == b'k'
                                                            then uflag_autokick
                                                            else (if c == b'b'
                                                            then uflag_autokickban
                                                            else (if c == b'w'
                                                            then uflag_autoowner
                                                            else 0)))))))))))))))))

-- The loop of parse_uflags over the rest of the text.
unfoldable pub parse_uflags_from : ℕ → Str → ℕ
unfolding flag_of
parse_uflags_from uflags [] = uflags
parse_uflags_from uflags (c ∷ s) = parse_uflags_from (bit_or uflags (flag_of c)) s

unfoldable pub parse_uflags : Str → ℕ
unfolding parse_uflags_from
parse_uflags = parse_uflags_from 0

-- `if (uflags & flag) strcat(str, letter)`, and what is appended after it.
unfoldable pub emit : ℕ → ℕ → ℕ → Str → Str
emit uflags flag letter rest = if has uflags flag then letter ∷ rest else rest

unfoldable pub get_uflags_string : ℕ → Str
unfolding emit
get_uflags_string u =
    b'+'
    ∷ emit u uflag_op b'o' (
        emit u uflag_autoop b'O' (
          emit u uflag_voice b'v' (
            emit u uflag_autovoice b'V' (
              emit u uflag_acl b'x' (
                emit u uflag_invite b'i' (
                  emit u uflag_topic b't' (
                    emit u uflag_owner b'F' (
                      emit u uflag_coowner b'f' (
                        emit u uflag_halfop b'h' (
                          emit u uflag_set b's' (
                            emit u uflag_autohalfop b'H' (
                              emit u uflag_protect b'p' (
                                emit u uflag_autoprotect b'P' (
                                  emit u uflag_noop b'N' (
                                    emit u uflag_autokick b'k' (
                                      emit u uflag_autokickban b'b'
                                        (emit u uflag_autoowner b'w' [])))))))))))))))))

abbrev pub chlev_owner : ℤ
chlev_owner = pos 10000

abbrev pub chlev_coowner : ℤ
chlev_coowner = pos 9999

-- The thresholds of struct config (src/core.h) for channel levels.
pub record ChanLevels : Type 0 where
  pub chlev_sadmin : ℤ
  pub chlev_admin : ℤ
  pub chlev_op : ℤ
  pub chlev_halfop : ℤ
  pub chlev_voice : ℤ
  pub chlev_nostatus : ℤ
  pub chlev_akick : ℤ
  pub chlev_akb : ℤ
  pub chlev_invite : ℤ

-- GetUFlagsFromLevel
unfoldable pub get_uflags_from_level : ChanLevels → ℤ → ℕ
get_uflags_from_level config level =
    if eq_ℤ level chlev_owner
    then uflag_chanowner
    else (if eq_ℤ level chlev_coowner
        then uflag_chancoowner
        else (if lt_ℤ level chlev_coowner && le_ℤ config.chlev_sadmin level
            then uflag_chansadmin
            else (if lt_ℤ level config.chlev_sadmin && le_ℤ config.chlev_admin level
                then uflag_chanadmin
                else (if lt_ℤ level config.chlev_admin && le_ℤ config.chlev_op level
                    then uflag_chanop
                    else (if lt_ℤ level config.chlev_op && le_ℤ config.chlev_halfop level
                        then uflag_chanhalfop
                        else (if lt_ℤ level config.chlev_halfop && le_ℤ config.chlev_voice level
                            then uflag_chanvoice
                            else (if lt_ℤ level config.chlev_voice && le_ℤ config.chlev_invite level
                                then uflag_invite
                                else (if lt_ℤ level (pos 0) && le_ℤ config.chlev_nostatus level
                                    then uflag_noop
                                    else (if lt_ℤ level config.chlev_nostatus
                                          && le_ℤ config.chlev_akick level
                                        then uflag_autokick
                                        else uflag_autokickban)))))))))
