-- ===== src/RateLimit/Examples.antt =====
-- Three requests at two per minute.
use openunion.Prelude.{ℕ, ◌≡◌, ◌≤◌, ◌+◌, ◌*◌, refl, some, none, [], ◌∷◌, arith}
use openunion.Prelude.Tables.{find}
use openunion.RateLimit.{unit}
use openunion.RateLimit.Bound.{bucket_of, requests, rate_bounded}

none_yet : bucket_of 7 [] ≡ none
unfolding find
none_yet = refl

rate_bounded_example :
    (n : ℕ) × (requests 7 2 (1000 ∷ 2000 ∷ 31000 ∷ []) [] ≡ some n)
    × (n * unit + 1000 * 2 ≤ 2 * unit + 31000 * 2)
rate_bounded_example =
    rate_bounded 7 2 1000 31000 (2000 ∷ 31000 ∷ []) [] none_yet
      (omega arith, (omega arith, omega arith))
