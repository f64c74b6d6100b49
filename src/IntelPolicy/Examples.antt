-- ===== src/IntelPolicy/Examples.antt =====
-- One repository under src/intel/policy.ts.
use openunion.Prelude.{◌≡◌, refl, false, none, some, [], ◌∷◌}
use openunion.IntelPolicy.{PolicyEnv, RepoInput, auto_apply, null_stars, decide_repo_policy}
use openunion.IntelPolicy.Decision.{minimum_ignored}

abbrev env : PolicyEnv
env = record { min_stars = 50; deny = 9 ∷ []; allow = 1 ∷ 2 ∷ [] }

abbrev input : RepoInput
input = record {
  mode = auto_apply;
  license = some 1;
  archived = false;
  stars = 3;
  request_allow = none;
  request_min_stars = null_stars;
}

minimum_ignored_example :
    decide_repo_policy (record env { min_stars = 0 }) input ≡ decide_repo_policy env input
minimum_ignored_example = minimum_ignored env input none 0 refl
