-- ===== src/IntelPolicy/Decision.antt =====
-- src/intel/policy.ts: when a repository is allowed, and which minimum of stars counts.
use openunion.Prelude.{
  ℕ, ◌≤◌, ◌≡◌, ◌≢◌, ◌⊎◌, All, [], ◌∷◌, Bool, true, false, Option, none, some, List, not, arith,
  is_some,
}
use openunion.Prelude.Tables.{IsIn}
use openunion.IntelPolicy.{
  Mode, suggest, auto_apply, PolicyDecision, allowed, refused, PolicyEnv, RepoInput,
  decide_repo_policy, in_allow, asked_stars, RequestStars, undefined_stars, not_finite, given_stars,
  request_minimum,
}

abbrev pub is_allowed : PolicyDecision → Bool
is_allowed allowed = true
is_allowed (refused _) = false

-- The licence is known where it has to be, and on the list where there is one.
abbrev pub is_licensed : Mode → Option ℕ → Option (List ℕ) → Bool
is_licensed auto_apply l allow = elim l [ none ↦ false | some k ↦ in_allow allow k ]
is_licensed suggest l allow = elim l [ none ↦ not (is_some allow) | some k ↦ in_allow allow k ]

-- The licence is known, and on the list.
abbrev pub IsListed : Option ℕ → List ℕ → Type 0
IsListed license xs = (k : ℕ) × (license ≡ some k) × IsIn k xs

-- The repository has the stars that the request or, where it names no number, the environment asks
-- for; a request of `null` asks for none.
abbrev pub HasStars : PolicyEnv → RequestStars → ℕ → Type 0
HasStars env asked stars =
    ((n : ℕ) → asked ≡ given_stars n → n ≤ stars)
    × (asked ≡ undefined_stars → env.min_stars ≤ stars)
    × (asked ≡ not_finite → env.min_stars ≤ stars)

-- The licence is not a denied one.
abbrev pub IsUndenied : PolicyEnv → Option ℕ → Type 0
IsUndenied env license = (k : ℕ) → license ≡ some k → All (λ d. d ≢ k) env.deny

-- The licence is known where the repository is applied without a person. It is on the request's list
-- if that has an entry, and else on the environment's if that has one, in either mode.
abbrev pub IsLicensed : PolicyEnv → Mode → Option ℕ → Option (List ℕ) → Type 0
IsLicensed env mode license asked =
    (mode ≡ auto_apply → (k : ℕ) × (license ≡ some k))
    × ((x : ℕ) (xs : List ℕ) → asked ≡ some (x ∷ xs) → IsListed license (x ∷ xs))
    × ((x : ℕ) (xs : List ℕ)
        → (asked ≡ none) ⊎ (asked ≡ some [])
        → env.allow ≡ x ∷ xs
        → IsListed license (x ∷ xs))

stars_of : PolicyEnv → RequestStars → ℕ
stars_of env asked = elim (request_minimum asked) [ none ↦ env.min_stars | some n ↦ n ]

-- The environment's minimum of stars never counts in the server's calls: a request that names no
-- minimum is decided as if there were none, whatever INTEL_MIN_STARS_DEFAULT says.
pub minimum_ignored :
    (env : PolicyEnv) (input : RepoInput) (asked : Option ℕ) (minimum : ℕ)
    → input.request_min_stars ≡ asked_stars asked
    → decide_repo_policy (record env { min_stars = minimum }) input ≡ decide_repo_policy env input
unfolding decide_repo_policy
minimum_ignored env input none minimum h = ground (arith, h)
minimum_ignored env input (some n) minimum h = ground (arith, h)
