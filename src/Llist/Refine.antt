-- ===== src/Llist/Refine.antt =====
-- The rings of src/llist.h refine the lists of addresses of the registries, in any sequence of
-- insertions and removals.
use child.Prelude.{
  ℕ, ◌<◌, ◌≡◌, refl, sym, ap, inl, inr, Bool, true, false, List, [], ◌∷◌, ◌++◌, ◌==◌, if◌then◌else◌,
  length, Bool-cases, ==_iff,
}
use child.Registry.{remove}
use child.Llist.{Links, init, insert_tail, remove_elem, foreach_entry}
use child.Llist.Ring.{
  IsRing, Absent, init-IsRing, insert_tail-IsRing, remove_elem-IsRing, foreach_entry-IsRing,
}

-- The steps on one list.
pub data Step : Type 0 where
  add_last : ℕ → Step
  take_out : ℕ → Step

unfoldable pub is_in : ℕ → List ℕ → Bool
is_in a [] = false
is_in a (x ∷ xs) = if a == x then true else is_in a xs

-- A step on the ring of a head, and on a list.
unfoldable pub on_ring : Links → ℕ → List Step → Links
unfolding insert_tail remove_elem
on_ring m head [] = m
on_ring m head (add_last a ∷ steps) = on_ring (insert_tail m head a) head steps
on_ring m head (take_out a ∷ steps) = on_ring (remove_elem m a) head steps

unfoldable pub on_list : List ℕ → List Step → List ℕ
on_list xs [] = xs
on_list xs (add_last a ∷ steps) = on_list (xs ++ a ∷ []) steps
on_list xs (take_out a ∷ steps) = on_list (remove a xs) steps

-- A node is added that is not there, and removed when it is.
unfoldable pub AreFit : ℕ → List ℕ → List Step → Type 0
unfolding is_in
AreFit head xs [] = Unit {0}
AreFit head xs (add_last a ∷ steps) = Absent a (head ∷ xs) × AreFit head (xs ++ a ∷ []) steps
AreFit head xs (take_out a ∷ steps) = (is_in a xs ≡ true) × AreFit head (remove a xs) steps

remove-split :
    (a : ℕ) (xs : List ℕ)
    → is_in a xs ≡ true
    → (ys zs : List ℕ) × (xs ≡ ys ++ a ∷ zs) × (remove a xs ≡ ys ++ zs)
unfolding is_in
remove-split a [] h = cc
remove-split a (x ∷ xs) h = elim (Bool-cases (a == x)) [
  | inl e ↦ ([], xs, ap (λ y. y ∷ xs) (sym ((==_iff a x).0 e)), rw e refl)
  | inr e ↦
      let (ys, zs, whole, less) = remove-split a xs (rw e at h) in
      (x ∷ ys, zs, ap (λ l. x ∷ l) whole, rw (e, less) refl)
]

on_ring-IsRing :
    (m : Links) (head : ℕ) (xs : List ℕ) (steps : List Step)
    → IsRing m head xs
    → AreFit head xs steps
    → IsRing (on_ring m head steps) head (on_list xs steps)
unfolding on_ring on_list AreFit
on_ring-IsRing m head xs [] ring fit = ring
on_ring-IsRing m head xs (add_last a ∷ steps) ring (new, fit) =
    on_ring-IsRing (insert_tail m head a) head (xs ++ a ∷ []) steps
      (insert_tail-IsRing m head a xs ring new) fit
on_ring-IsRing m head xs (take_out a ∷ steps) ring (there, fit) =
    let (ys, zs, whole, less) = remove-split a xs there in
    on_ring-IsRing (remove_elem m a) head (remove a xs) steps
      (rw less (remove_elem-IsRing m head a ys zs (rw whole at ring)).0) fit

-- From LLIST_INIT on, after any sequence of LLIST_INSERT_TAIL of nodes that are not in the list and
-- LLIST_REMOVE of nodes that are, LLIST_FOREACH_ENTRY ends and visits the nodes that appending and
-- removing on a list give, in their order.
pub foreach_entry-on_list :
    (m : Links) (head fuel : ℕ) (steps : List Step)
    → AreFit head [] steps
    → length (on_list [] steps) < fuel
    → foreach_entry fuel (on_ring (init m head) head steps) head ≡ on_list [] steps
foreach_entry-on_list m head fuel steps fit enough =
    foreach_entry-IsRing (on_ring (init m head) head steps) fuel head (on_list [] steps)
      (on_ring-IsRing (init m head) head [] steps (init-IsRing m head) fit) enough
