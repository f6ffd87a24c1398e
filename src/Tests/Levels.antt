-- ===== src/Tests/Levels.antt =====
-- The table of commands and a trusted network at concrete inputs.
use child.Prelude.{◌↔◌, ◌-◌, ◌*◌, ◌/◌, ◌^◌, true, arith, ◌≡◌, refl, Option, none, some, [], ◌∷◌}
use child.Prelude.Int.{ℤ, pos}
use child.Strings.{Str}
use child.Registry.{put}
use child.Registry.Reads.{AllLive}
use child.Commands.{Command, Commands, setcmdlev2}
use child.Trust.{match_ipmask}
use child.Trust.Mask.{match_ipmask_iff}
use child.Commands.Level.{SetsLevel, setcmdlev2-SetsLevel}

abbrev nick_command : Command
nick_command = record {
  name = b'n' ∷ b'i' ∷ b'c' ∷ b'k' ∷ [];
  desc = [];
  type = 0;
  subtype = 0;
  level = pos 0;
  func = 77;
}

abbrev table : Commands
table = record { list = 1 ∷ []; command_at = put (λ a. none) 1 (some nick_command) }

table-AllLive : AllLive table.command_at table.list
table-AllLive = ((nick_command, refl), tt)

abbrev five : Option Str → ℤ
five word = pos 5

-- `nick 5`
abbrev line : Str
line = b'n' ∷ b'i' ∷ b'c' ∷ b'k' ∷ b' ' ∷ b'5' ∷ []

setcmdlev2-SetsLevel_example :
    (level : ℤ) × SetsLevel (pos 100) table level (setcmdlev2 five (pos 100) table (some line))
setcmdlev2-SetsLevel_example = setcmdlev2-SetsLevel (pos 100) table table-AllLive five (some line)

-- 10.1.2.3 in 10.1.0.0/16.
match_ipmask_iff_example :
    (match_ipmask 0x0a010203 0x0a010000 16 ≡ true)
    ↔ (0x0a010203 / 2 ^ (32 - 16) * 2 ^ (32 - 16) ≡ 0x0a010000)
match_ipmask_iff_example = match_ipmask_iff 0x0a010203 0x0a010000 16 (omega arith) (omega arith)

matched : match_ipmask 0x0a010203 0x0a010000 16 ≡ true
unfolding match_ipmask
matched = refl
