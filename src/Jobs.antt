-- ===== src/Jobs.antt =====
-- Jobs and their leases: `leaseJob`, `releaseJobLease`, `getActiveJobForWorker` and
-- `reapExpiredLeases` of src/store.ts, and the claim and release endpoints of src/server.ts. The
-- advisory lock makes a lease one step.
pub mod Claims
pub mod Exclusive
mod Examples
pub mod Leases
use openunion.Prelude.{
  ℕ, ◌+◌, ◌*◌, Bool, true, false, Option, none, some, List, [], ◌∷◌, ◌&&◌, ◌||◌, not, ltb, ◌==◌,
  if◌then◌else◌, is_some, opt_is,
}
use openunion.Prelude.Tables.{find, update, select}
use openunion.Rows.{Job, JobStatus, open_job, claimed, submitted, verifying, expired}

abbrev pub is_open_job : JobStatus → Bool
is_open_job open_job = true
is_open_job _ = false

abbrev pub is_claimed : JobStatus → Bool
is_claimed claimed = true
is_claimed _ = false

abbrev pub is_in_review : JobStatus → Bool
is_in_review submitted = true
is_in_review verifying = true
is_in_review _ = false

-- `lease_expires_at < now()`, which is not true of NULL
abbrev pub lapsed : ℕ → Option ℕ → Bool
lapsed now none = false
lapsed now (some t) = ltb t now

-- lease_worker_id = worker AND (status IN ('submitted', 'verifying') OR (status = 'claimed' AND
-- (lease_expires_at IS NULL OR lease_expires_at >= now())))
abbrev pub active_of : ℕ → ℕ → Job → Bool
active_of worker_id now j =
    opt_is j.lease_worker_id worker_id
    && (is_in_review j.status || is_claimed j.status && not (lapsed now j.lease_expires_at))

-- status = 'open' OR (status = 'claimed' AND lease_expires_at < now())
abbrev pub leasable : ℕ → Job → Bool
leasable now j = is_open_job j.status || is_claimed j.status && lapsed now j.lease_expires_at

abbrev pub leased_row : ℕ → ℕ → ℕ → Job → Job
leased_row worker_id expires nonce j = record j {
  status = claimed;
  lease_worker_id = some worker_id;
  lease_expires_at = some expires;
  lease_nonce = some nonce;
}

-- `none` is `undefined`: the worker has a job, or the job cannot be leased.
pub lease_job : ℕ → ℕ → ℕ → ℕ → ℕ → List Job → Option (List Job × Job)
lease_job nonce now job_id worker_id ttl_ms jobs =
    let at : Job → Bool = λ j. j.id == job_id && leasable now j in
    if is_some (find (active_of worker_id now) jobs) then none else elim (find at jobs) [
      | none ↦ none
      | some j ↦ some (
        update at (leased_row worker_id (now + ttl_ms) nonce) jobs,
        leased_row worker_id (now + ttl_ms) nonce j,
      )
    ]

abbrev pub leased_with : ℕ → ℕ → ℕ → Job → Bool
leased_with job_id worker_id nonce j =
    j.id == job_id
    && opt_is j.lease_worker_id worker_id
    && opt_is j.lease_nonce nonce
    && is_claimed j.status

abbrev pub freed_row : JobStatus → Job → Job
freed_row status j = record j {
  status = status;
  lease_worker_id = none;
  lease_expires_at = none;
  lease_nonce = none;
}

pub release_job_lease : ℕ → ℕ → ℕ → List Job → Option (List Job × Job)
release_job_lease job_id worker_id nonce jobs =
    elim (find (leased_with job_id worker_id nonce) jobs) [
      | none ↦ none
      | some j ↦ some (
        update (leased_with job_id worker_id nonce) (freed_row open_job) jobs,
        freed_row open_job j,
      )
    ]

abbrev pub overdue : ℕ → Job → Bool
overdue now j = is_claimed j.status && lapsed now j.lease_expires_at

abbrev ids_of : List Job → List ℕ
ids_of [] = []
ids_of (j ∷ jobs) = j.id ∷ ids_of jobs

-- The rows that it expires, and their ids.
pub reap_expired_leases : ℕ → List Job → List Job × List ℕ
reap_expired_leases now jobs =
    (update (overdue now) (freed_row expired) jobs, ids_of (select (overdue now) jobs))

abbrev pub unfinished_of : ℕ → Job → Bool
unfinished_of worker_id j =
    opt_is j.lease_worker_id worker_id && (is_claimed j.status || is_in_review j.status)

-- ORDER BY created_at DESC: the first of the latest.
pub latest : Option Job → List Job → Option Job
latest best [] = best
latest none (j ∷ jobs) = latest (some j) jobs
latest (some b) (j ∷ jobs) = latest (some (if ltb b.created_at j.created_at then j else b)) jobs

pub get_active_job_for_worker : ℕ → List Job → Option Job
unfolding latest
get_active_job_for_worker worker_id jobs = latest none (select (unfinished_of worker_id) jobs)

-- `isLeaseExpired` of src/utils.ts
unfoldable pub is_lease_expired : ℕ → Option ℕ → Bool
is_lease_expired now none = false
is_lease_expired now (some t) = ltb t now

pub data ClaimReply : Type 0 where
  already_claimed job_not_found stale_job not_available : ClaimReply
  claimed_job : Job → ClaimReply

-- `freshnessSlaSec > 0 && job.createdAt && now - createdAt > freshnessSlaSec * 1000`
unfoldable pub is_stale_job : ℕ → Job → Bool
is_stale_job now j =
    ltb 0 j.freshness_sla_sec
    && not (j.created_at == 0)
    && ltb (j.created_at + j.freshness_sla_sec * 1000) now

pub claim_row : ℕ → ℕ → ℕ → ℕ → Job → List Job → List Job × ClaimReply
unfolding is_stale_job is_lease_expired
claim_row nonce now worker_id ttl_ms job jobs =
    if is_stale_job now job
    then (jobs, stale_job)
    else if not (is_open_job job.status) && not (is_lease_expired now job.lease_expires_at)
    then (jobs, not_available)
    else elim (lease_job nonce now job.id worker_id ttl_ms jobs) [
      | none ↦ (jobs, not_available)
      | some (jobs', lease) ↦ (jobs', claimed_job lease)
    ]

-- POST /api/jobs/:jobId/claim
pub claim : ℕ → ℕ → ℕ → ℕ → ℕ → List Job → List Job × ClaimReply
unfolding claim_row
claim nonce now job_id worker_id ttl_ms jobs =
    if is_some (get_active_job_for_worker worker_id jobs)
    then (jobs, already_claimed)
    else elim (find (λ (j : Job). j.id == job_id) jobs) [
      | none ↦ (jobs, job_not_found)
      | some job ↦ claim_row nonce now worker_id ttl_ms job jobs
    ]

pub data ReleaseReply : Type 0 where
  released_lease release_not_found not_the_holder nonce_mismatch not_releasable : ReleaseReply

-- Why a lease was not released.
refusal : ℕ → ℕ → Option Job → ReleaseReply
refusal worker_id nonce none = release_not_found
refusal worker_id nonce (some j) =
    if not (opt_is j.lease_worker_id worker_id)
    then not_the_holder
    else if is_some j.lease_nonce && not (opt_is j.lease_nonce nonce)
    then nonce_mismatch
    else not_releasable

-- POST /api/jobs/:jobId/release, less its audit entry.
pub release : ℕ → ℕ → ℕ → List Job → List Job × ReleaseReply
unfolding refusal
release job_id worker_id nonce jobs = elim (release_job_lease job_id worker_id nonce jobs) [
  | none ↦ (jobs, refusal worker_id nonce (find (λ (j : Job). j.id == job_id) jobs))
  | some (jobs', _) ↦ (jobs', released_lease)
]
