-- ===== src/Addresses/Examples.antt =====
-- 10.1.2.3
use openunion.Prelude.{◌≡◌, refl, true, some, [], ◌∷◌, arith}
use openunion.Addresses.{is_private_or_special_ipv4}
use openunion.Addresses.Special.{blocks_refused}

blocks_refused_example : is_private_or_special_ipv4 (some 10 ∷ some 1 ∷ some 2 ∷ some 3 ∷ []) ≡ true
blocks_refused_example = blocks_refused 10 1 2 3 (omega arith) (omega arith) (omega arith) refl
