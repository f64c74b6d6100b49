-- ===== src/IntelPolicy.antt =====
-- src/intel/policy.ts: which repositories a search may suggest or apply. A licence is a number, for
-- its trimmed identifier in upper case; `none` is an empty one. The parsed lists of licences come
-- from the environment and the request.
pub mod Decision
mod Examples
use openunion.Prelude.{
  ℕ, Bool, true, false, Option, none, some, List, [], ◌∷◌, ◌&&◌, ◌||◌, not, ltb, ◌==◌,
  if◌then◌else◌, is_some,
}

pub data Mode : Type 0 where
  suggest auto_apply : Mode

pub data PolicyCode : Type 0 where
  policy_blocked_security policy_blocked_quality policy_blocked_license : PolicyCode

pub data PolicyDecision : Type 0 where
  allowed : PolicyDecision
  refused : PolicyCode → PolicyDecision

-- `requestMinStars` as JavaScript has it: `undefined`, `null`, something that is no finite number, or
-- a number, rounded down and not below 0.
pub data RequestStars : Type 0 where
  undefined_stars null_stars not_finite : RequestStars
  given_stars : ℕ → RequestStars

pub record PolicyEnv : Type 0 where
  pub min_stars : ℕ
  pub deny : List ℕ
  pub allow : List ℕ

pub record RepoInput : Type 0 where
  pub mode : Mode
  pub license : Option ℕ
  pub archived : Bool
  pub stars : ℕ
  pub request_allow : Option (List ℕ)
  pub request_min_stars : RequestStars

-- `Number.isFinite(Number(x)) ? Math.max(0, Math.floor(Number(x))) : null`; `Number(null)` is 0.
abbrev pub request_minimum : RequestStars → Option ℕ
request_minimum undefined_stars = none
request_minimum null_stars = some 0
request_minimum not_finite = none
request_minimum (given_stars n) = some n

abbrev pub min_stars_of : PolicyEnv → RepoInput → ℕ
min_stars_of env input = elim (request_minimum input.request_min_stars) [
  | none ↦ env.min_stars
  | some n ↦ n
]

abbrev pub has : List ℕ → ℕ → Bool
has [] k = false
has (x ∷ xs) k = x == k || has xs k

abbrev is_empty : List ℕ → Bool
is_empty [] = true
is_empty (x ∷ xs) = false

abbrev pub allow_env : List ℕ → Option (List ℕ)
allow_env allow = if is_empty allow then none else some allow

-- The request's list, unless it is empty, or the environment's, unless it is.
abbrev pub allow_of : PolicyEnv → Option (List ℕ) → Option (List ℕ)
allow_of env none = allow_env env.allow
allow_of env (some xs) = if is_empty xs then allow_env env.allow else some xs

abbrev pub in_allow : Option (List ℕ) → ℕ → Bool
in_allow none l = true
in_allow (some xs) l = has xs l

pub decide_listed : Mode → Option ℕ → Option (List ℕ) → PolicyDecision
decide_listed auto_apply none allow = refused policy_blocked_license
decide_listed auto_apply (some l) none = allowed
decide_listed auto_apply (some l) (some xs) =
    if not (has xs l) then refused policy_blocked_license else allowed
decide_listed suggest l none = allowed
decide_listed suggest none (some xs) = refused policy_blocked_license
decide_listed suggest (some l) (some xs) =
    if not (has xs l) then refused policy_blocked_license else allowed

abbrev pub is_denied : List ℕ → Option ℕ → Bool
is_denied deny none = false
is_denied deny (some l) = has deny l

unfoldable pub decide_repo_policy : PolicyEnv → RepoInput → PolicyDecision
unfolding decide_listed
decide_repo_policy env input =
    let minimum = min_stars_of env input in
    if input.archived
    then refused policy_blocked_security
    else if ltb 0 minimum && ltb input.stars minimum
    then refused policy_blocked_quality
    else if is_denied env.deny input.license
    then refused policy_blocked_license
    else decide_listed input.mode input.license (allow_of env input.request_allow)

-- How the server calls it: `constraints.minStars ?? null`.
abbrev pub asked_stars : Option ℕ → RequestStars
asked_stars none = null_stars
asked_stars (some n) = given_stars n
