-- ===== src/Jobs/Claims.antt =====
-- src/server.ts, POST /api/jobs/:jobId/claim: one claim after another.
use openunion.Prelude.{
  ℕ, ◌+◌, ◌≡◌, refl, ap, true, none, some, List, [], ◌∷◌, arith, is_some, ==_refl, ◌==◌, ltb,
  if◌then◌else◌, Bool-cases, Option-cases, inl, inr,
}
use openunion.Prelude.Tables.{find, select, find-updated}
use openunion.Rows.{Job}
use openunion.Jobs.{
  lease_job, claim, claim_row, claimed_job, already_claimed, get_active_job_for_worker, latest,
  unfinished_of, leased_row,
}
use openunion.Jobs.Leases.{at, lease_job-eq-some}

latest-some : (xs : List Job) (b : Job) → is_some (latest (some b) xs) ≡ true
unfolding latest
latest-some [] b = refl
latest-some (x ∷ xs) b = latest-some xs (if ltb b.created_at x.created_at then x else b)

active_some :
    (w : ℕ) (xs : List Job)
    → is_some (find (unfinished_of w) xs) ≡ true
    → is_some (latest none (select (unfinished_of w) xs)) ≡ true
unfolding find select latest
active_some w [] h = absurd (ground (arith, h))
active_some w (x ∷ xs) h = elim (Bool-cases (unfinished_of w x)) [
  | inl hit ↦ rw hit (latest-some (select (unfinished_of w) xs) x)
  | inr miss ↦ rw miss (active_some w xs (rw miss at h))
]

claim-eq-claimed :
    (nonce now job_id w ttl_ms : ℕ) (jobs : List Job) {jobs' : List Job} {lease : Job}
    → claim nonce now job_id w ttl_ms jobs ≡ (jobs', claimed_job lease)
    → (j : Job) × (lease_job nonce now j.id w ttl_ms jobs ≡ some (jobs', lease))
unfolding claim claim_row
claim-eq-claimed nonce now job_id w ttl_ms jobs h =
    elim (Option-cases (find (λ (j : Job). j.id == job_id) jobs)) [
      | inl gone ↦ absurd (ground (arith, gone, h))
      | inr (j, here) ↦ (j, ground (arith, here, h))
    ]

-- A worker whose claim succeeded gets no other job by a second claim, whichever job it asks for and
-- however late: not even once the lease is over, as long as nothing was released or reaped.
claim_once :
    (nonce nonce' now now' job_id other_id w ttl_ms ttl' : ℕ) (jobs jobs' : List Job) (lease : Job)
    → claim nonce now job_id w ttl_ms jobs ≡ (jobs', claimed_job lease)
    → claim nonce' now' other_id w ttl' jobs' ≡ (jobs', already_claimed)
claim_once nonce nonce' now now' job_id other_id w ttl_ms ttl' jobs jobs' lease h =
    let (j, took) = claim-eq-claimed nonce now job_id w ttl_ms jobs h in
    let (_, e, _, here, _) = lease_job-eq-some nonce now j.id w ttl_ms jobs took in
    let mine : is_some (find (unfinished_of w) jobs') ≡ true = rw e (
      find-updated (unfinished_of w) (at j.id now) (leased_row w (now + ttl_ms) nonce) jobs
        (λ x hit. ground (arith, ==_refl w)) (ap is_some here)) in
    let busy : is_some (get_active_job_for_worker w jobs') ≡ true =
      unfold get_active_job_for_worker in active_some w jobs' mine in
    unfold claim in ground (arith, busy)
