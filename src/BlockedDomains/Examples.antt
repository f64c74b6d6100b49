-- ===== src/BlockedDomains/Examples.antt =====
-- A host below a blocked domain, and one that a wildcard in a blocked domain catches.
use openunion.Prelude.{ℕ, ◌≡◌, refl, true, List, [], ◌∷◌}
use openunion.BlockedDomains.{is_hostname_blocked}
use openunion.BlockedDomains.Suffix.{blocked_iff, is_below}

abbrev domain : List ℕ
domain = b'a' ∷ b'.' ∷ b'b' ∷ []

abbrev host : List ℕ
host = b'x' ∷ b'.' ∷ b'a' ∷ b'.' ∷ b'b' ∷ []

blocked_iff_example : is_hostname_blocked host (domain ∷ []) ≡ is_below host (domain ∷ [])
blocked_iff_example = blocked_iff host (domain ∷ []) refl ((refl, (refl, (refl, tt))), tt)

below_blocked : is_hostname_blocked host (domain ∷ []) ≡ true
unfolding is_hostname_blocked
below_blocked = refl

-- The domain `a_b` blocks `x.a-b`, which is not below it.
wildcard_blocks :
    is_hostname_blocked (b'x' ∷ b'.' ∷ b'a' ∷ b'-' ∷ b'b' ∷ []) ((b'a' ∷ b'_' ∷ b'b' ∷ []) ∷ [])
    ≡ true
unfolding is_hostname_blocked
wildcard_blocks = refl
