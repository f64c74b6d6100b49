-- ===== src/Addresses.antt =====
-- src/buyer.ts, isPrivateOrSpecialIpv4: the addresses that the origin checks must not reach. The
-- parts are what `Number` reads between the dots; `none` is what is no number from 0 to 255.
mod Examples
pub mod Special
use openunion.Prelude.{
  ℕ, Bool, true, false, Option, none, some, List, [], ◌∷◌, ◌&&◌, ◌||◌, leb, ◌==◌,
}

unfoldable pub is_special : ℕ → ℕ → Bool
is_special a b =
    a == 0
    || a == 10
    || a == 127
    || a == 169 && b == 254
    || a == 172 && leb 16 b && leb b 31
    || a == 192 && b == 168
    || a == 192 && b == 0
    || a == 192 && b == 88
    || a == 198 && (b == 18 || b == 19)
    || a == 192 && b == 2
    || a == 198 && b == 51
    || a == 203 && b == 0
    || leb 224 a

unfoldable pub is_private_or_special_ipv4 : List (Option ℕ) → Bool
unfolding is_special
is_private_or_special_ipv4 (some a ∷ some b ∷ some c ∷ some d ∷ []) = is_special a b
is_private_or_special_ipv4 _ = true
