-- ===== src/Protocol/Signs.antt =====
-- Modes behind signs, and how often m_mode sends the lock of a channel for them (src/parseline.c).
use child.Prelude.{
  ℕ, ◌+◌, ◌≡◌, ◌∙◌, refl, ap, true, Bool, false, Option, none, some, [], ◌∷◌, ◌++◌, ◌==◌, arith,
  ==_iff,
}
use child.Strings.{Str, is_char_in_string, behind_char}
use child.Protocol.Locks.{upto, count_in, locked, lock_hits, lock_sends}

-- A text without a byte.
abbrev pub Lacks : ℕ → Str → Type 0
Lacks c [] = Unit
Lacks c (x ∷ s) = ((c == x) ≡ false) × Lacks c s

-- Modes without a sign.
abbrev pub IsPlain : Str → Type 0
IsPlain s = Lacks b'+' s × Lacks b'-' s

==_refl : (a : ℕ) → (a == a) ≡ true
==_refl a = (==_iff a a).1 refl

flip : (a b : ℕ) → (a == b) ≡ false → (b == a) ≡ false
flip a b h = ground (arith, h)

upto-Lacks : (c : ℕ) (s : Str) → Lacks c s → upto c s ≡ s
unfolding upto
upto-Lacks c [] l = refl
upto-Lacks c (x ∷ s) (h, l) = rw (flip c x h, upto-Lacks c s l) refl

upto-cut : (c : ℕ) (s t : Str) → Lacks c s → upto c (s ++ c ∷ t) ≡ s
unfolding upto
upto-cut c [] t l = ground arith
upto-cut c (x ∷ s) t (h, l) = rw (flip c x h, upto-cut c s t l) refl

behind_char-cut : (c : ℕ) (s t : Str) → Lacks c s → behind_char c (s ++ c ∷ t) ≡ some t
unfolding behind_char
behind_char-cut c [] t l = ground arith
behind_char-cut c (x ∷ s) t (h, l) = rw (h, behind_char-cut c s t l) refl

is_char_in_string-Lacks : (c : ℕ) (s : Str) → Lacks c s → is_char_in_string c s ≡ false
unfolding is_char_in_string
is_char_in_string-Lacks c [] l = refl
is_char_in_string-Lacks c (x ∷ s) (h, l) = rw (h, is_char_in_string-Lacks c s l) refl

locked-behind_char :
    (sign other : ℕ) (s t : Str) → behind_char sign s ≡ some t → locked sign other s ≡ upto other t
unfolding locked
locked-behind_char sign other s t e = ap (λ x. elim x [ none ↦ [] | some l ↦ upto other l ]) e

behind_char-Lacks : (c : ℕ) (s : Str) → Lacks c s → behind_char c s ≡ none
unfolding behind_char
behind_char-Lacks c [] l = refl
behind_char-Lacks c (x ∷ s) (h, l) = rw (h, behind_char-Lacks c s l) refl

-- A text of one part, or of two with different signs.
abbrev pub parts : ℕ → ℕ → Str → Option Str → Str
parts first second p none = first ∷ p
parts first second p (some q) = first ∷ p ++ second ∷ q

abbrev pub part_or_none : Option Str → Str
part_or_none none = []
part_or_none (some q) = q

unlocked : (sign other : ℕ) (s : Str) → behind_char sign s ≡ none → locked sign other s ≡ []
unfolding locked
unlocked sign other s e = ap (λ x. elim x [ none ↦ [] | some l ↦ upto other l ]) e

locked-parts :
    (first second : ℕ) (p : Str) (q : Option Str)
    → (first == second) ≡ false
    → Lacks second p
    → Lacks first p
    → Lacks first (part_or_none q)
    → (locked first second (parts first second p q) ≡ p)
      × (locked second first (parts first second p q) ≡ part_or_none q)
locked-parts first second p none distinct sp fp fq = (
  locked-behind_char first second _ _ (behind_char-cut first [] p tt) ∙ upto-Lacks second p sp,
  unlocked second first _ (behind_char-Lacks second (first ∷ p) (flip first second distinct, sp)),
)
locked-parts first second p (some q) distinct sp fp fq = (
  locked-behind_char first second _ _ (behind_char-cut first [] (p ++ second ∷ q) tt)
      ∙ upto-cut second p q sp,
  locked-behind_char second first _ _
        (behind_char-cut second (first ∷ p) q (flip first second distinct, sp))
      ∙ upto-Lacks first q fq,
)

count_in-Lacks_one : (c : ℕ) (p l : Str) → Lacks c l → count_in (c ∷ p) l ≡ count_in p l
unfolding count_in
count_in-Lacks_one c p l lacks = rw (is_char_in_string-Lacks c l lacks) refl

-- The parts of a change against the two parts of a lock, for either order of the signs.
lock_hits-parts :
    (sign other : ℕ) (p : Str) (q : Option Str) (locks mine yours : Str)
    → (sign == other) ≡ false
    → Lacks other p
    → Lacks sign yours
    → locked sign other locks ≡ mine
    → locked other sign locks ≡ yours
    → lock_hits sign other (parts sign other p q) locks
      ≡ count_in p yours + count_in (part_or_none q) mine
unfolding lock_hits upto behind_char count_in
lock_hits-parts sign other p none locks mine yours distinct op sy m y =
    rw
      (
        distinct,
        flip sign other distinct,
        upto-Lacks other p op,
        behind_char-Lacks other p op,
        y,
        is_char_in_string-Lacks sign yours sy,
      )
      refl
lock_hits-parts sign other p (some q) locks mine yours distinct op sy m y =
    rw
      (
        distinct,
        flip sign other distinct,
        upto-cut other p q op,
        behind_char-cut other p q op,
        m,
        y,
      )
      (ap (λ n. n + count_in q mine) (count_in-Lacks_one sign p yours sy))

-- The modes of a change or a lock: the first part, whether it stands behind a plus, and the second part,
-- behind the other sign, if there is one.
abbrev pub Signed : Type 0
Signed = Bool × Str × Option Str

abbrev pub text : Signed → Str
text (true, first, second) = parts b'+' b'-' first second
text (false, first, second) = parts b'-' b'+' first second

-- The modes behind a plus, and those behind a minus.
abbrev pub given : Signed → Str
given (true, first, second) = first
given (false, first, second) = part_or_none second

abbrev pub taken : Signed → Str
taken (true, first, second) = part_or_none second
taken (false, first, second) = first

abbrev pub HasPlainParts : Signed → Type 0
HasPlainParts (plus, first, second) = IsPlain first × IsPlain (part_or_none second)

-- The modes of a lock under each sign.
locked-text :
    (lock : Signed)
    → HasPlainParts lock
    → (locked b'+' b'-' (text lock) ≡ given lock) × (locked b'-' b'+' (text lock) ≡ taken lock)
locked-text (true, p, q) ((pp, pm), (qp, qm)) = locked-parts b'+' b'-' p q refl pm pp qp
locked-text (false, p, q) ((pp, pm), (qp, qm)) =
    let (minus, plus) = locked-parts b'-' b'+' p q refl pp pm qm in (plus, minus)

given-IsPlain : (s : Signed) → HasPlainParts s → IsPlain (given s)
given-IsPlain (true, p, q) (first, second) = first
given-IsPlain (false, p, q) (first, second) = second

taken-IsPlain : (s : Signed) → HasPlainParts s → IsPlain (taken s)
taken-IsPlain (true, p, q) (first, second) = second
taken-IsPlain (false, p, q) (first, second) = first

pub lock_sends-text :
    (change lock : Signed)
    → HasPlainParts change
    → HasPlainParts lock
    → lock_sends (text change) (text lock)
      ≡ count_in (given change) (taken lock) + count_in (taken change) (given lock)
unfolding lock_sends
lock_sends-text (true, p, none) lock ((pp, pm), _) plain =
    lock_hits-parts b'+' b'-' p none (text lock) (given lock) (taken lock) refl pm
      (taken-IsPlain lock plain).0 (locked-text lock plain).0 (locked-text lock plain).1
lock_sends-text (true, p, some q) lock ((pp, pm), _) plain =
    lock_hits-parts b'+' b'-' p (some q) (text lock) (given lock) (taken lock) refl pm
      (taken-IsPlain lock plain).0 (locked-text lock plain).0 (locked-text lock plain).1
lock_sends-text (false, p, none) lock ((pp, pm), _) plain =
    lock_hits-parts b'-' b'+' p none (text lock) (taken lock) (given lock) refl pp
      (given-IsPlain lock plain).1 (locked-text lock plain).1 (locked-text lock plain).0
    ∙ omega arith
lock_sends-text (false, p, some q) lock ((pp, pm), _) plain =
    lock_hits-parts b'-' b'+' p (some q) (text lock) (taken lock) (given lock) refl pp
      (given-IsPlain lock plain).1 (locked-text lock plain).1 (locked-text lock plain).0
    ∙ omega arith
