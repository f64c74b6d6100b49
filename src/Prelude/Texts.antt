-- ===== src/Prelude/Texts.antt =====
-- Tests on whole texts.
use Prim.Native.String.{String}
use text.Mathlib.Text.{◌==◌}
use text.Mathlib.TextEquality.{eq_iff}
use mathlib.Core.Path.{◌≡◌, refl, ap}
use mathlib.Core.Logic.{inl, inr}
use mathlib.Core.Bool.{Bool, true, false, ◌||◌}
use mathlib.Core.List.{List, [], ◌∷◌, ◌++◌}
use native.Mathlib.Omega.{arith}
use openunion.Prelude.Tests.{Bool-cases}
use openunion.Prelude.Tables.{IsIn, IsIn-cons}

-- `list.includes(s)`
unfoldable pub includes : List String → String → Bool
includes [] s = false
includes (t ∷ ts) s = t == s || includes ts s

pub includes-IsIn : (ts : List String) (s : String) → includes ts s ≡ true → IsIn s ts
unfolding includes
includes-IsIn [] s h = absurd (ground (arith, h))
includes-IsIn (t ∷ ts) s h = elim (Bool-cases (t == s)) [
  | inl same ↦ ([], ts, ap (λ x. x ∷ ts) ((eq_iff t s).0 same))
  | inr other ↦ IsIn-cons s t ts (includes-IsIn ts s (rw other at h))
]

pub includes_there :
    (before : List String) (s : String) (after : List String)
    → includes (before ++ s ∷ after) s ≡ true
unfolding includes
includes_there [] s after = ground (arith, (eq_iff s s).1 refl)
includes_there (t ∷ ts) s after = ground (arith, includes_there ts s after)
