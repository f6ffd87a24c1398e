-- ===== src/Llist/Ring.antt =====
-- The macros of src/llist.h on a ring do what lists do: appending, removing and walking.
use child.Prelude.{
  ℕ, zero, suc, ◌<◌, ◌≡◌, refl, ◌∙◌, true, false, List, [], ◌∷◌, ◌++◌, ◌==◌, length, arith, ==_iff,
  append-nil,
}
use child.Llist.{Links, init, insert_tail, remove_elem, walk, foreach_entry}

-- The nodes of a list stand between two nodes, linked both ways.
abbrev pub Linked : Links → ℕ → List ℕ → ℕ → Type 0
Linked m a [] b = (m.next a ≡ b) × (m.prev b ≡ a)
Linked m a (x ∷ xs) b = (m.next a ≡ x) × (m.prev x ≡ a) × Linked m x xs b

abbrev pub Absent : ℕ → List ℕ → Type 0
Absent a [] = Unit {0}
Absent a (x ∷ xs) = ((a == x) ≡ false) × Absent a xs

abbrev pub NoTwice : List ℕ → Type 0
NoTwice [] = Unit {0}
NoTwice (x ∷ xs) = Absent x xs × NoTwice xs

-- A ring from the head through distinct nodes back to the head.
pub record IsRing (m : Links) (head : ℕ) (xs : List ℕ) : Type 0 where
  pub linked : Linked m head xs head
  pub distinct : NoTwice (head ∷ xs)

abbrev pub last_of : ℕ → List ℕ → ℕ
last_of a [] = a
last_of a (x ∷ xs) = last_of x xs

Linked-last : (m : Links) (a b : ℕ) (xs : List ℕ) → Linked m a xs b → m.prev b ≡ last_of a xs
Linked-last m a b [] l = l.1
Linked-last m a b (x ∷ xs) l = Linked-last m x b xs l.2

-- Every node of the first list is absent from the second.
abbrev Apart : List ℕ → List ℕ → Type 0
Apart [] ws = Unit {0}
Apart (y ∷ ys) ws = Absent y ws × Apart ys ws

same : (a : ℕ) → (a == a) ≡ true
same a = (==_iff a a).1 refl

==_symm : (a b : ℕ) → (a == b) ≡ false → (b == a) ≡ false
==_symm a b h = ground arith

Absent-append : (a : ℕ) (xs ys : List ℕ) → Absent a xs → Absent a ys → Absent a (xs ++ ys)
Absent-append a [] ys h g = g
Absent-append a (x ∷ xs) ys h g = (h.0, Absent-append a xs ys h.1 g)

Absent-of_append : (a : ℕ) (xs ys : List ℕ) → Absent a (xs ++ ys) → Absent a xs × Absent a ys
Absent-of_append a [] ys h = (tt, h)
Absent-of_append a (x ∷ xs) ys h =
    let (left, right) = Absent-of_append a xs ys h.1 in ((h.0, left), right)

NoTwice-of_append : (xs ys : List ℕ) → NoTwice (xs ++ ys) → NoTwice xs × NoTwice ys × Apart xs ys
NoTwice-of_append [] ys d = (tt, d, tt)
NoTwice-of_append (x ∷ xs) ys d =
    let (left, right, apart) = NoTwice-of_append xs ys d.1 in
    let (off, on) = Absent-of_append x xs ys d.0 in ((off, left), right, (on, apart))

NoTwice-append : (xs ys : List ℕ) → NoTwice xs → NoTwice ys → Apart xs ys → NoTwice (xs ++ ys)
NoTwice-append [] ys d g apart = g
NoTwice-append (x ∷ xs) ys d g apart =
    (Absent-append x xs ys d.0 apart.0, NoTwice-append xs ys d.1 g apart.1)

Apart-single : (xs : List ℕ) (e : ℕ) → Absent e xs → Apart xs (e ∷ [])
Apart-single [] e h = tt
Apart-single (x ∷ xs) e h = ((==_symm e x h.0, tt), Apart-single xs e h.1)

Apart-head : (xs ws : List ℕ) (e : ℕ) → Apart xs (e ∷ ws) → Absent e xs
Apart-head [] ws e h = tt
Apart-head (x ∷ xs) ws e h = (==_symm x e h.0.0, Apart-head xs ws e h.1)

Apart-tail : (xs ws : List ℕ) (e : ℕ) → Apart xs (e ∷ ws) → Apart xs ws
Apart-tail [] ws e h = tt
Apart-tail (x ∷ xs) ws e h = (h.0.1, Apart-tail xs ws e h.1)

last-Absent : (a : ℕ) (xs ws : List ℕ) → Apart (a ∷ xs) ws → Absent (last_of a xs) ws
last-Absent a [] ws h = h.0
last-Absent a (x ∷ xs) ws h = last-Absent x xs ws h.1

last_off : (a x : ℕ) (xs : List ℕ) → Absent a (x ∷ xs) → (last_of x xs == a) ≡ false
last_off a x [] h = ==_symm a x h.0
last_off a x (y ∷ xs) h = last_off a y xs h.1

Linked-of_append :
    (m : Links) (a e b : ℕ) (xs ys : List ℕ)
    → Linked m a (xs ++ e ∷ ys) b
    → Linked m a xs e × Linked m e ys b
Linked-of_append m a e b [] ys l = ((l.0, l.1), l.2)
Linked-of_append m a e b (x ∷ xs) ys l =
    let (left, right) = Linked-of_append m x e b xs ys l.2 in ((l.0, l.1, left), right)

Linked-append :
    (m : Links) (a e b : ℕ) (xs ys : List ℕ)
    → Linked m a xs e
    → Linked m e ys b
    → Linked m a (xs ++ e ∷ ys) b
Linked-append m a e b [] ys l r = (l.0, l.1, r)
Linked-append m a e b (x ∷ xs) ys l r = (l.0, l.1, Linked-append m x e b xs ys l.2 r)

-- Writes to `next` at the last node and at `off`, and to `prev` at `to`, at `off` and at the new end.
Linked-retarget :
    (m m' : Links) (a b end off to : ℕ) (xs : List ℕ)
    → Linked m a xs b
    → NoTwice (a ∷ xs)
    → Absent off (a ∷ xs)
    → Absent to xs
    → ((c : ℕ) → (last_of a xs == c) ≡ false → (off == c) ≡ false → m'.next c ≡ m.next c)
    → ((c : ℕ) → (to == c) ≡ false → (off == c) ≡ false → m'.prev c ≡ m.prev c)
    → m'.next (last_of a xs) ≡ end
    → m'.prev end ≡ last_of a xs
    → Linked m' a xs end
Linked-retarget m m' a b end off to [] l d new apart nexts prevs there back = (there, back)
Linked-retarget m m' a b end off to (x ∷ xs) l d new apart nexts prevs there back = (
  nexts a (last_off a x xs d.0) new.0 ∙ l.0,
  prevs x apart.0 new.1.0 ∙ l.1,
  Linked-retarget m m' x b end off to xs l.2 d.1 new.1 apart.1 nexts prevs there back,
)

-- Nodes that no write touches stay linked.
Linked-same :
    (m m' : Links) (a b from off to : ℕ) (xs : List ℕ)
    → Linked m a xs b
    → Absent from (a ∷ xs)
    → Absent off (a ∷ xs)
    → Absent to xs
    → (to == b) ≡ false
    → (off == b) ≡ false
    → ((c : ℕ) → (from == c) ≡ false → (off == c) ≡ false → m'.next c ≡ m.next c)
    → ((c : ℕ) → (to == c) ≡ false → (off == c) ≡ false → m'.prev c ≡ m.prev c)
    → Linked m' a xs b
Linked-same m m' a b from off to [] l f o t tb ob nexts prevs =
    (nexts a f.0 o.0 ∙ l.0, prevs b tb ob ∙ l.1)
Linked-same m m' a b from off to (x ∷ xs) l f o t tb ob nexts prevs = (
  nexts a f.0 o.0 ∙ l.0,
  prevs x t.0 o.1.0 ∙ l.1,
  Linked-same m m' x b from off to xs l.2 f.1 o.1 t.1 tb ob nexts prevs,
)

-- LLIST_INIT makes an empty ring.
pub init-IsRing : (m : Links) (head : ℕ) → IsRing (init m head) head []
unfolding init
init-IsRing m head = record {
  linked = (rw ((==_iff head head).1 refl) refl, rw ((==_iff head head).1 refl) refl);
  distinct = (tt, tt);
}

-- LLIST_INSERT_TAIL of a node that is not in the ring appends it.
pub insert_tail-IsRing :
    (m : Links) (head elem : ℕ) (xs : List ℕ)
    → IsRing m head xs
    → Absent elem (head ∷ xs)
    → IsRing (insert_tail m head elem) head (xs ++ elem ∷ [])
unfolding insert_tail
insert_tail-IsRing m head elem xs ring new =
    let last = Linked-last m head head xs ring.linked in
    record {
      linked =
          Linked-append (insert_tail m head elem) head elem head xs []
            (Linked-retarget m (insert_tail m head elem) head head elem elem head xs ring.linked
              ring.distinct new ring.distinct.0 (λ c at off. rw (new.0, last, at, off) refl)
              (λ c at off. rw (at, off) refl) (rw (new.0, last, same (last_of head xs)) refl)
              (rw (==_symm elem head new.0, same elem) last))
            (rw (new.0, last, end_off, same elem) refl, rw (same head) refl);
      distinct =
          NoTwice-append (head ∷ xs) (elem ∷ []) ring.distinct (tt, tt)
            (Apart-single (head ∷ xs) elem new);
    }
  where
    end_off : (last_of head xs == elem) ≡ false
    end_off = (last-Absent head xs (elem ∷ []) (Apart-single (head ∷ xs) elem new)).0

-- The six writes of LLIST_REMOVE between two nodes.
record Unlinks (m m' : Links) (elem p n : ℕ) : Type 0 where
  nexts : (c : ℕ) → (p == c) ≡ false → (elem == c) ≡ false → m'.next c ≡ m.next c
  prevs : (c : ℕ) → (n == c) ≡ false → (elem == c) ≡ false → m'.prev c ≡ m.prev c
  there : m'.next p ≡ n
  back : m'.prev n ≡ p
  own : Linked m' elem [] elem

remove_elem-Unlinks :
    (m : Links) (elem p n : ℕ)
    → m.prev elem ≡ p
    → m.next elem ≡ n
    → (elem == p) ≡ false
    → (elem == n) ≡ false
    → Unlinks m (remove_elem m elem) elem p n
unfolding remove_elem
remove_elem-Unlinks m elem p n before after off on =
    let off' = ==_symm elem p off in
    let on' = ==_symm elem n on in
    record {
      nexts = λ c at other. rw (other, after, on', before, at) refl;
      prevs = λ c at other. rw (other, after, at) refl;
      there = rw (off, after, on', before, same p) refl;
      back = rw (on, after, same n) before;
      own = (rw (same elem) refl, rw (same elem) refl);
    }

own-IsRing : (m : Links) (elem : ℕ) → Linked m elem [] elem → IsRing m elem []
own-IsRing m elem l = record { linked = l; distinct = (tt, tt) }

-- LLIST_REMOVE of a node of a ring takes it out, whatever stands around it, and leaves it a ring of
-- its own.
pub remove_elem-IsRing :
    (m : Links) (head elem : ℕ) (ys zs : List ℕ)
    → IsRing m head (ys ++ elem ∷ zs)
    → IsRing (remove_elem m elem) head (ys ++ zs) × IsRing (remove_elem m elem) elem []
remove_elem-IsRing m head elem ys [] ring =
    let (left, right) = Linked-of_append m head elem head ys [] ring.linked in
    let (before, _, apart) = NoTwice-of_append (head ∷ ys) (elem ∷ []) ring.distinct in
    let off = Apart-head (head ∷ ys) [] elem apart in
    let p = last_of head ys in
    let done =
      remove_elem-Unlinks m elem p head (Linked-last m head elem ys left) right.0
        (==_symm p elem (last-Absent head ys (elem ∷ []) apart).0) off.0 in
    (
      record {
        linked = rw (append-nil ys) (
            Linked-retarget m (remove_elem m elem) head elem head elem head ys left before off
              before.0 done.nexts done.prevs done.there done.back);
        distinct = rw (append-nil ys) before;
      },
      own-IsRing (remove_elem m elem) elem done.own,
    )
remove_elem-IsRing m head elem ys (z ∷ zs) ring =
    let (left, right) = Linked-of_append m head elem head ys (z ∷ zs) ring.linked in
    let (before, behind, apart) = NoTwice-of_append (head ∷ ys) (elem ∷ z ∷ zs) ring.distinct in
    let off = Apart-head (head ∷ ys) (z ∷ zs) elem apart in
    let rest = Apart-tail (head ∷ ys) (z ∷ zs) elem apart in
    let p = last_of head ys in
    let p_off = last-Absent head ys (elem ∷ z ∷ zs) apart in
    let done =
      remove_elem-Unlinks m elem p z (Linked-last m head elem ys left) right.0
        (==_symm p elem p_off.0) behind.0.0 in
    (
      record {
        linked =
            Linked-append (remove_elem m elem) head z head ys zs
              (Linked-retarget m (remove_elem m elem) head elem z elem z ys left before off
                (Apart-head ys zs z rest.1) done.nexts done.prevs done.there done.back)
              (Linked-same m (remove_elem m elem) z head p elem z zs right.2 p_off.1 behind.0
                behind.1.0 (==_symm head z rest.0.0) off.0 done.nexts done.prevs);
        distinct = NoTwice-append (head ∷ ys) (z ∷ zs) before behind.1 rest;
      },
      own-IsRing (remove_elem m elem) elem done.own,
    )

walk-Linked :
    (m : Links) (fuel head a : ℕ) (xs : List ℕ)
    → Linked m a xs head
    → Absent head xs
    → length xs < fuel
    → walk fuel m head (m.next a) ≡ xs
unfolding walk
walk-Linked m zero head a xs l off h = absurd (omega arith)
walk-Linked m (suc fuel) head a [] l off h = rw (l.0, same head) refl
walk-Linked m (suc fuel) head a (x ∷ xs) l off h =
    rw (l.0, ==_symm head x off.0, walk-Linked m fuel head x xs l.2 off.1 (omega arith)) refl

-- LLIST_FOREACH_ENTRY visits the nodes of a ring in their order and ends.
pub foreach_entry-IsRing :
    (m : Links) (fuel head : ℕ) (xs : List ℕ)
    → IsRing m head xs
    → length xs < fuel
    → foreach_entry fuel m head ≡ xs
unfolding foreach_entry
foreach_entry-IsRing m fuel head xs ring h =
    walk-Linked m fuel head head xs ring.linked ring.distinct.0 h
