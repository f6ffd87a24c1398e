-- ===== src/Tests/Clones.antt =====
-- The count of clones for a host that has one.
use child.Prelude.{◌≡◌, refl, some, [], ◌∷◌, arith}
use child.Strings.{Str, strcasecmp, tolower}
use child.Registry.{Registry, howmanyclones, find_clone, find_in_names}
use child.Accounts.Clones.{CountsUp, count_clone-uncount_clone}
use child.Tests.House.{house}

abbrev host : Str
host = b'h' ∷ []

abbrev cloned : Registry
cloned = record house {
  clones = (host, 8) ∷ [];
  clone_at = λ a. some (record { host = host; count = 1 });
}

one_clone : howmanyclones cloned host ≡ some 1
unfolding howmanyclones find_clone find_in_names strcasecmp tolower
one_clone = refl

count_clone-uncount_clone_example : CountsUp (λ r. 9) cloned host 1
count_clone-uncount_clone_example =
    count_clone-uncount_clone (λ r. 9) cloned host 1 (omega arith) one_clone (λ e. omega arith)
