-- ===== src/Claimable/Examples.antt =====
-- The one job of a published bounty is offered.
use openunion.Prelude.{All, ◌≡◌, refl, false, some, none, [], ◌∷◌}
use openunion.Prelude.Tables.{find, select, count, IsIn}
use openunion.Rows.{Db, Bounty, published}
use openunion.Samples.{draft_db, sample_bounty, sample_job}
use openunion.Claimable.{
  Lookup, Options, find_claimable_job, claimable_rows, is_row, is_offered, expected_pass_rate,
  worker_duplicate_rate,
}
use openunion.Claimable.Best.{offers_best, IsNoMore}
use openunion.Claimable.Meets.{IsJoined, IsQueried, IsFitting}

abbrev bounty : Bounty
bounty = record sample_bounty { status = published }

abbrev db : Db
db = record draft_db { bounties = bounty ∷ []; jobs = sample_job ∷ [] }

abbrev lookup : Lookup
lookup = record {
  descriptor = λ j b. record { task_type = none; capability_tags = []; freshness_sla_sec = 0 };
  row_type = λ j b. none;
  is_public_origin = λ t o. false;
  verified_origins = λ org. [];
  normalize_origin = λ o. some o;
  browser = 1;
}

abbrev opts : Options
opts = record {
  capability_tag = none;
  supported_tags = none;
  min_payout_cents = 0;
  task_type = none;
  exclude_job_ids = [];
  require_job_id = none;
  require_bounty_id = none;
}

offered_it : find_claimable_job lookup 5 false opts 1000000 db ≡ some (sample_job, bounty)
unfolding find_claimable_job claimable_rows is_row is_offered expected_pass_rate
    worker_duplicate_rate find select count
offered_it = refl

offers_best_example :
    IsIn (sample_job, bounty) (claimable_rows lookup opts 1000000 db)
    × IsJoined (bounty ∷ []) (sample_job ∷ []) (sample_job, bounty)
    × IsQueried lookup opts 1000000 (sample_job, bounty)
    × IsFitting lookup false opts 1000000 (sample_job, bounty)
    × All
        (λ c.
          IsFitting lookup false opts 1000000 c
          → IsNoMore (expected_pass_rate 5 db) (worker_duplicate_rate 5 db) c.1 bounty)
        (claimable_rows lookup opts 1000000 db)
offers_best_example = offers_best lookup 5 false opts 1000000 db (sample_job, bounty) offered_it
