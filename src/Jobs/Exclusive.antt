-- ===== src/Jobs/Exclusive.antt =====
-- The leases of src/store.ts: a job under a lease, and a job that is released.
use openunion.Prelude.{
  ℕ, ◌+◌, ◌≤◌, ◌≡◌, refl, true, false, none, some, List, [], ◌∷◌, map, arith, ◌==◌, ==_iff, is_some,
  Bool-cases, Option-cases, inl, inr, ap,
}
use openunion.Prelude.Tables.{find, update, find-updated}
use openunion.Rows.{Job, open_job}
use openunion.Accounts.Ledger.{Distinct, contains}
use openunion.Jobs.{active_of, leased_row, lease_job, leased_with, freed_row, release_job_lease}
use openunion.Jobs.Leases.{IsLeased, id_of, at, lease_job-eq-some}

absent :
    (job_id now later worker_id expires nonce : ℕ) (jobs : List Job)
    → contains (map id_of jobs) job_id ≡ false
    → (find (at job_id now) jobs ≡ none)
      × (find (at job_id later) (update (at job_id now) (leased_row worker_id expires nonce) jobs)
          ≡ none)
unfolding find update
absent job_id now later worker_id expires nonce [] h = (refl, refl)
absent job_id now later worker_id expires nonce (j ∷ jobs) h =
    let ih = absent job_id now later worker_id expires nonce jobs (ground arith) in
    (ground (arith, ih.0), ground (arith, ih.1))

unleasable :
    (job_id now later worker_id expires nonce : ℕ) (jobs : List Job)
    → later ≤ expires
    → Distinct (map id_of jobs)
    → is_some (find (at job_id now) jobs) ≡ true
    → find (at job_id later) (update (at job_id now) (leased_row worker_id expires nonce) jobs)
      ≡ none
unfolding find update
unleasable job_id now later worker_id expires nonce [] le d h = refl
unleasable job_id now later worker_id expires nonce (j ∷ jobs) le d h =
    elim (Bool-cases (j.id == job_id)) [
      | inl here ↦
          let e : j.id ≡ job_id = (==_iff j.id job_id).0 here in
          let (gone, gone') =
            absent job_id now later worker_id expires nonce jobs (ground (arith, d.0, e)) in
          ground (arith, gone, gone', here, h, le)
      | inr other ↦
          let ih = unleasable job_id now later worker_id expires nonce jobs le d.1 in
          ground (arith, ih, other, h)
    ]

-- Until a lease ends, no lease of the same job succeeds, whichever worker asks for it and whatever its
-- time to live is.
pub lease_exclusive :
    (nonce nonce' now later job_id worker_id other_id ttl_ms ttl' : ℕ) (jobs jobs' : List Job)
    (j : Job)
    → IsLeased now jobs
    → lease_job nonce now job_id worker_id ttl_ms jobs ≡ some (jobs', j)
    → later ≤ now + ttl_ms
    → lease_job nonce' later job_id other_id ttl' jobs' ≡ none
lease_exclusive nonce nonce' now later job_id worker_id other_id ttl_ms ttl' jobs jobs' j l h le =
    let (_, e, job, here, _) = lease_job-eq-some nonce now job_id worker_id ttl_ms jobs h in
    let shut : find (at job_id later) jobs' ≡ none = rw e (
      unleasable job_id now later worker_id (now + ttl_ms) nonce jobs le l.distinct
        (ap is_some here)) in
    unfold lease_job in ground (arith, shut)

-- A release takes the worker and the nonce of the lease, and the job can be leased again: by any
-- worker that has no active job, at any time.
pub release_reopens :
    (nonce nonce' now job_id worker_id other_id ttl' : ℕ) (jobs jobs' : List Job) (j : Job)
    → release_job_lease job_id worker_id nonce jobs ≡ some (jobs', j)
    → find (active_of other_id now) jobs' ≡ none
    → (job : Job) × (find (leased_with job_id worker_id nonce) jobs ≡ some job)
      × (is_some (lease_job nonce' now job_id other_id ttl' jobs') ≡ true)
release_reopens nonce nonce' now job_id worker_id other_id ttl' jobs jobs' j h idle =
    elim (Option-cases (find (leased_with job_id worker_id nonce) jobs)) [
      | inl gone ↦ absurd (unfold release_job_lease in ground (arith, gone, h))
      | inr (job, here) ↦
          let e : jobs' ≡ update (leased_with job_id worker_id nonce) (freed_row open_job) jobs =
            unfold release_job_lease in ground (arith, here, h) in
          let free : is_some (find (at job_id now) jobs') ≡ true = rw e (
            find-updated (at job_id now) (leased_with job_id worker_id nonce) (freed_row open_job)
              jobs (λ x hit. ground arith) (ap is_some here)) in
          (job, here, unfold lease_job in ground (arith, idle, free))
    ]
