-- ===== src/Llist.antt =====
-- The intrusive lists of src/llist.h: a ring of nodes through their head, each with the addresses of
-- the next and of the previous one.
pub mod Ring
pub mod Refine
use child.Prelude.{ℕ, zero, suc, Bool, List, [], ◌∷◌, ◌==◌, if◌then◌else◌}

-- The two pointers of struct llist_head, of every node.
pub record Links : Type 0 where
  pub next : ℕ → ℕ
  pub prev : ℕ → ℕ

abbrev pub set_link : (ℕ → ℕ) → ℕ → ℕ → ℕ → ℕ
set_link link a b = λ c. if a == c then b else link c

-- LLIST_INIT
unfoldable pub init : Links → ℕ → Links
init m head = record { next = set_link m.next head head; prev = set_link m.prev head head }

-- LLIST_INSERT_TAIL, one write after the other.
unfoldable pub insert_tail : Links → ℕ → ℕ → Links
insert_tail m head elem =
    let next1 = set_link m.next elem head in
    let prev1 = set_link m.prev elem (m.prev head) in
    let next2 = set_link next1 (prev1 head) elem in
    record { next = next2; prev = set_link prev1 head elem }

-- LLIST_REMOVE
unfoldable pub remove_elem : Links → ℕ → Links
remove_elem m elem =
    let prev1 = set_link m.prev (m.next elem) (m.prev elem) in
    let next1 = set_link m.next (prev1 elem) (m.next elem) in
    record { next = set_link next1 elem elem; prev = set_link prev1 elem elem }

-- LLIST_EMPTY
unfoldable pub is_empty_list : Links → ℕ → Bool
is_empty_list m head = m.next head == head

-- The nodes that LLIST_FOREACH_ENTRY visits, if the body leaves the list alone.
unfoldable pub walk : ℕ → Links → ℕ → ℕ → List ℕ
walk zero m head a = []
walk (suc fuel) m head a =
    let later = walk fuel m head (m.next a) in if a == head then [] else a ∷ later

unfoldable pub foreach_entry : ℕ → Links → ℕ → List ℕ
unfolding walk
foreach_entry fuel m head = walk fuel m head (m.next head)
