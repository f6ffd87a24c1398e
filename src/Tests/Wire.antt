-- ===== src/Tests/Wire.antt =====
-- The theorems on the buffers of the uplink at concrete inputs.
use child.Prelude.{◌≡◌, refl, some, List, [], ◌∷◌, ◌++◌, arith}
use child.Strings.{Str}
use child.Net.{read_lines}
use child.Net.Lines.{split_lines, nonempty, joined}
use child.Net.Sendq.{Event, write, flush, outputs, all_framed, outputs-IsFifo}
use child.Net.Framed.{no_eol, AreLines, read_lines-all_framed}

abbrev pings : Str
pings = b'h' ∷ b'i' ∷ 13 ∷ 10 ∷ b'y' ∷ b'o' ∷ 10 ∷ b'u' ∷ []

-- Two chunks that cut a line, and its end, in two.
abbrev chunks : List Str
chunks = (b'h' ∷ []) ∷ (b'i' ∷ 13 ∷ []) ∷ (10 ∷ b'y' ∷ b'o' ∷ 10 ∷ b'u' ∷ []) ∷ []

two_lines :
    split_lines [] (joined chunks) ≡ ((b'h' ∷ b'i' ∷ []) ∷ (b'y' ∷ b'o' ∷ []) ∷ [], b'u' ∷ [])
unfolding split_lines joined nonempty
two_lines = refl

abbrev messages : List Event
messages =
    write (b'h' ∷ []) ∷ flush (λ queue. some 2) ∷ write (b'y' ∷ []) ∷ flush (λ queue. some 9) ∷ []

outputs-IsFifo_example :
    (outputs messages []).0 ++ (outputs messages []).1 ≡ [] ++ all_framed (outputs messages []).2
outputs-IsFifo_example = outputs-IsFifo messages []

abbrev texts : List Str
texts = (b'h' ∷ b'i' ∷ []) ∷ (b'y' ∷ b'o' ∷ []) ∷ []

texts-AreLines : AreLines texts
unfolding AreLines no_eol
texts-AreLines = (refl, omega arith, (refl, omega arith, tt))

read_lines-all_framed_example : read_lines 5 (all_framed texts) ≡ (texts, [])
read_lines-all_framed_example = read_lines-all_framed texts 5 texts-AreLines (omega arith)
