-- ===== src/Protocol/Leaving.antt =====
-- Sequences of lines by which nicks leave and change, and what they keep: the calls of m_part, m_quit,
-- m_sethost, m_setident and m_umode in parse_line (src/parseline.c).
use child.Prelude.{ℕ, refl, Option, none, some, List, [], ◌∷◌}
use child.Prelude.Maybe.{◌>>=◌}
use child.Strings.{Str, separate_word?}
use child.Core.{name_key}
use child.Registry.{Registry}
use child.Accounts.Network.{IsNetwork, EndsNetwork}
use child.Protocol.{Hooks}
use child.Protocol.Identity.{m_sethost, m_setident, m_quit}
use child.Protocol.Rooms.{m_part}
use child.Protocol.Umodes.{m_umode, strtok_colon}
use child.Protocol.Kept.{
  HasRoom, IsKeeping, m_part-IsNetwork, m_quit-IsNetwork, m_sethost-IsNetwork, m_setident-IsNetwork,
  umode_words-IsNetwork,
}

-- A line by which a nick leaves or changes.
pub data Line : Type 0 where
  quit : Str → Line
  part : Str → Option Str → Line
  sethost : Str → Option Str → Line
  setident : Str → Option Str → Line
  umode : Str → Option Str → Line

-- A line that does not end the program: m_sethost and m_setident copy the word that must be there, and the
-- hash of a name has room for it.
abbrev pub IsSafe : Line → Type 0
IsSafe (part sender tail) = HasRoom ((separate_word? tail).0)
IsSafe (sethost sender none) = ⊥
IsSafe (setident sender none) = ⊥
IsSafe _ = Unit

abbrev pub AllSafe : List Line → Type 0
AllSafe [] = Unit
AllSafe (line ∷ lines) = IsSafe line × AllSafe lines

unfoldable pub handle : (Registry → ℕ) → Hooks → Line → Registry → Option Registry
unfolding m_quit m_part m_sethost m_setident m_umode
handle malloc hooks (quit sender) r = m_quit malloc hooks r sender
handle malloc hooks (part sender tail) r = m_part malloc r sender tail
handle malloc hooks (sethost sender tail) r = m_sethost r sender tail
handle malloc hooks (setident sender tail) r = m_setident r sender tail
handle malloc hooks (umode sender tail) r = m_umode hooks r sender tail

unfoldable pub handle_all : (Registry → ℕ) → Hooks → List Line → Registry → Option Registry
unfolding handle
handle_all malloc hooks [] r = some r
handle_all malloc hooks (line ∷ lines) r = do
  handled ← handle malloc hooks line r
  handle_all malloc hooks lines handled

handle-IsNetwork :
    (malloc : Registry → ℕ) (hooks : Hooks) (line : Line) (r : Registry)
    → IsKeeping hooks
    → IsSafe line
    → IsNetwork r
    → EndsNetwork (handle malloc hooks line r)
unfolding handle m_umode
handle-IsNetwork malloc hooks (quit sender) r keeping safe net =
    m_quit-IsNetwork r net malloc hooks sender keeping
handle-IsNetwork malloc hooks (part sender tail) r keeping safe net =
    m_part-IsNetwork r net malloc sender tail safe
handle-IsNetwork malloc hooks (sethost sender none) r keeping safe net = absurd safe
handle-IsNetwork malloc hooks (sethost sender (some tail)) r keeping safe net =
    m_sethost-IsNetwork r net sender tail
handle-IsNetwork malloc hooks (setident sender none) r keeping safe net = absurd safe
handle-IsNetwork malloc hooks (setident sender (some tail)) r keeping safe net =
    m_setident-IsNetwork r net sender tail
handle-IsNetwork malloc hooks (umode sender tail) r keeping safe net =
    umode_words-IsNetwork r net hooks (strtok_colon sender) (separate_word? tail).0 keeping

-- Any sequence of QUIT, PART, SETHOST, SETIDENT and UMODE2 lines is handled to its end, without a fault,
-- and the registries stay those of a network, if each SETHOST and SETIDENT line has a word, each name
-- of a channel in a PART line has fewer than 1024 bytes, and the hooks of the modules end, keep the
-- registries those of a network and free no nick.
pub handle_all-IsNetwork :
    (malloc : Registry → ℕ) (hooks : Hooks) (lines : List Line) (r : Registry)
    → IsKeeping hooks
    → AllSafe lines
    → IsNetwork r
    → EndsNetwork (handle_all malloc hooks lines r)
unfolding handle_all
handle_all-IsNetwork malloc hooks [] r keeping safe net = (r, refl, net)
handle_all-IsNetwork malloc hooks (line ∷ lines) r keeping (safe, all) net =
    let (r1, run1, net1) = handle-IsNetwork malloc hooks line r keeping safe net in
    let (r2, run2, net2) = handle_all-IsNetwork malloc hooks lines r1 keeping all net1 in
    (r2, rw run1 run2, net2)
