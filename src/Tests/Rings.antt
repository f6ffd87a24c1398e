-- ===== src/Tests/Rings.antt =====
-- The pointer rings of lists at a concrete sequence of steps.
use child.Prelude.{◌≡◌, refl, [], ◌∷◌, List, arith}
use child.Llist.{Links, init, foreach_entry, insert_tail, remove_elem, walk}
use child.Llist.Refine.{
  Step, add_last, take_out, AreFit, is_in, on_ring, on_list, foreach_entry-on_list,
}

abbrev wild : Links
wild = record { next = λ a. 7; prev = λ a. 7 }

abbrev steps : List Step
steps = add_last 1 ∷ add_last 2 ∷ add_last 3 ∷ take_out 2 ∷ add_last 4 ∷ []

steps-AreFit : AreFit 0 [] steps
unfolding AreFit is_in
steps-AreFit = (
  (refl, tt),
  ((refl, (refl, tt)), ((refl, (refl, (refl, tt))), (refl, ((refl, (refl, (refl, tt))), tt)))),
)

foreach_entry-on_list_example : foreach_entry 9 (on_ring (init wild 0) 0 steps) 0 ≡ 1 ∷ 3 ∷ 4 ∷ []
unfolding on_list
foreach_entry-on_list_example = foreach_entry-on_list wild 0 9 steps steps-AreFit (omega arith)

visited : foreach_entry 9 (on_ring (init wild 0) 0 steps) 0 ≡ 1 ∷ 3 ∷ 4 ∷ []
unfolding foreach_entry walk on_ring init insert_tail remove_elem
visited = refl
