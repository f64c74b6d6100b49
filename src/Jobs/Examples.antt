-- ===== src/Jobs/Examples.antt =====
-- The leases of src/store.ts on one job.
use openunion.Prelude.{◌≡◌, refl, arith, true, none, some, List, [], ◌∷◌, is_some}
use openunion.Prelude.Tables.{find, update, select, count}
use openunion.Rows.{Job}
use openunion.Samples.{sample_job}
use openunion.Jobs.{claim, claimed_job, get_active_job_for_worker}
use openunion.Jobs.{lease_job, release_job_lease, leased_row}
use openunion.Jobs.Exclusive.{lease_exclusive, release_reopens}
use openunion.Jobs.Leases.{IsLeased, leases, passes, stop, next, one_job_each}

abbrev jobs : List Job
jobs = sample_job ∷ record sample_job { id = 7 } ∷ []

abbrev leased : Job
leased = leased_row 5 1002000 42 sample_job

abbrev after : List Job
after = leased ∷ record sample_job { id = 7 } ∷ []

jobs-IsLeased : IsLeased 1000000 jobs
unfolding count
jobs-IsLeased = record { distinct = (refl, (refl, tt)); single = λ w. omega arith }

took : lease_job 42 1000000 3 5 2000 jobs ≡ some (after, leased)
unfolding lease_job find update
took = refl

one_job_each_example : IsLeased 1001000 after
one_job_each_example =
    one_job_each (next (leases 42 3 5 2000 took) (next (passes (omega arith)) stop)) jobs-IsLeased

lease_exclusive_example : lease_job 43 1001000 3 8 2000 after ≡ none
lease_exclusive_example =
    lease_exclusive 42 43 1000000 1001000 3 5 8 2000 2000 jobs after leased jobs-IsLeased took
      (omega arith)

gave_back : release_job_lease 3 5 42 after ≡ some (jobs, sample_job)
unfolding release_job_lease find update
gave_back = refl

release_reopens_example : is_some (lease_job 44 1001000 3 8 2000 jobs) ≡ true
unfolding find
release_reopens_example =
    (release_reopens 42 44 1001000 3 5 8 2000 after jobs sample_job gave_back refl).2

claimed_it : claim 42 1000000 3 5 2000 jobs ≡ (after, claimed_job leased)
unfolding claim lease_job get_active_job_for_worker find update select
claimed_it = refl
