-- ===== src/Access/Follow.antt =====
-- The walk along links from a user to its masters: when it ends, and how two walks compare.
use child.Prelude.{
  ℕ, zero, suc, ◌<◌, ◌≡◌, refl, Bool, true, false, if◌then◌else◌, Option, none, some, arith,
}
use child.Prelude.Maybe.{◌>>=◌}
use child.Registry.{Registry, Cflag, get_link_master}
use child.Registry.Reads.{IsLive, Found, IsSound, find_cflag-Found, get_link_master-Found}
use child.Access.{follow, on_entry, unless_answered}

-- Links lead to users of a lower rank: they form no cycle.
abbrev pub Ranked : Registry → (ℕ → ℕ) → Type 0
Ranked r rank = (u m : ℕ) → get_link_master r u ≡ some (some m) → rank m < rank u

-- A call that ends with an answer.
abbrev pub Ends : {A : Type 0} → Option A → Type 0
Ends {A} m = (x : A) × (m ≡ some x)

pub Ends-bind :
    {A B : Type 0} (m : Option A) (f : A → Option B)
    → Ends m
    → ((a : A) → m ≡ some a → Ends (f a))
    → Ends (m >>= f)
Ends-bind m f (a, e) k = rw e (k a e)

pub Ends-if : {A : Type 0} (b : Bool) {m n : Option A} → Ends m → Ends n → Ends (if b then m else n)
Ends-if true p q = p
Ends-if false p q = q

module _ {A : Type 0} (r : Registry) where
  on_entry-Ends :
      (body : ℕ → Cflag → Option A) (rest : Option A) (o : Option ℕ)
      → Found r.cflag_at o
      → ((a : ℕ) (c : Cflag) → Ends (body a c))
      → Ends rest
      → Ends (on_entry r body rest o)
  unfolding on_entry
  on_entry-Ends body rest none found bs ends = ends
  on_entry-Ends body rest (some a) (c, at) bs ends = rw at (bs a c)

  unless_answered-Ends :
      (rest : Option A) (o : Option A) → Ends rest → Ends (unless_answered rest o)
  unfolding unless_answered
  unless_answered-Ends rest none ends = ends
  unless_answered-Ends rest (some x) ends = (x, refl)

module _ {A : Type 0} (r : Registry) (sound : IsSound r) (rank : ℕ → ℕ)
    (ranked : Ranked r rank) where
  -- A walk whose steps end, ends with an answer if its fuel exceeds the rank of its user.
  pub follow-Ends :
      (fuel bound : ℕ) (nothing : A) (early : ℕ → Option (Option A))
      (body : ℕ → ℕ → Cflag → Option A) (chptr : ℕ)
      → ((u : ℕ) → IsLive r.user_at u → Ends (early u))
      → ((u a : ℕ) (c : Cflag) → IsLive r.user_at u → rank u < bound → Ends (body u a c))
      → (uptr : ℕ) → IsLive r.user_at uptr
      → rank uptr < bound
      → rank uptr < fuel
      → Ends (follow r fuel nothing early body chptr (some uptr))
  unfolding follow
  follow-Ends zero bound nothing early body chptr es bs uptr live low h = elim h [ ]
  follow-Ends (suc fuel) bound nothing early body chptr es bs uptr live low h =
      let (o, answered) = es uptr live in
      let (f, searched, found) = find_cflag-Found r sound chptr uptr live in
      let (m, linked, master) = get_link_master-Found r sound uptr live in
      let rest = follow-Ends fuel bound nothing early body chptr es bs in
      rw (answered, searched, linked)
        (unless_answered-Ends r _ o (
          on_entry-Ends r (body uptr) _ f found (λ a c. bs uptr a c live low)
            (next m linked master rest)))
    where
      next :
          (m : Option ℕ)
          → get_link_master r uptr ≡ some m
          → Found r.user_at m
          → ((v : ℕ)
              → IsLive r.user_at v
              → rank v < bound
              → rank v < fuel
              → Ends (follow r fuel nothing early body chptr (some v)))
          → Ends (follow r fuel nothing early body chptr m)
      next none linked master rest = (nothing, refl)
      next (some v) linked master rest =
          let lower = ranked uptr v linked in rest v master (omega arith) (omega arith)
