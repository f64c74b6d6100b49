-- ===== src/Jobs/Leases.antt =====
-- The leases of src/store.ts: who may hold one, for how long, and how many.
use openunion.Prelude.{
  ℕ, ◌+◌, ◌≤◌, ◌≡◌, refl, Bool, false, none, some, List, [], ◌∷◌, map, ◌&&◌, arith, ◌==◌, ==_iff,
  Bool-cases, inl, inr, subst,
}
use openunion.Prelude.Tables.{
  find, update, count, map-update, count-none, count-update_le, count-update_add, count_le,
}
use openunion.Rows.{Job, JobStatus, open_job, expired}
use openunion.Accounts.Ledger.{Distinct, contains}
use openunion.Jobs.{
  active_of, leasable, leased_row, lease_job, leased_with, freed_row, release_job_lease, overdue,
  reap_expired_leases,
}

abbrev pub id_of : Job → ℕ
id_of j = j.id

-- No two jobs have one id, and no worker has two active jobs.
pub record IsLeased (now : ℕ) (jobs : List Job) : Type 0 where
  pub distinct : Distinct (map id_of jobs)
  pub single : (w : ℕ) → count (active_of w now) jobs ≤ 1

abbrev pub at : ℕ → ℕ → Job → Bool
at job_id now j = j.id == job_id && leasable now j

not_among :
    (job_id now : ℕ) (jobs : List Job)
    → contains (map id_of jobs) job_id ≡ false
    → count (at job_id now) jobs ≡ 0
unfolding count
not_among job_id now [] h = refl
not_among job_id now (j ∷ jobs) h = ground (arith, not_among job_id now jobs)

one_row :
    (job_id now : ℕ) (jobs : List Job) → Distinct (map id_of jobs) → count (at job_id now) jobs ≤ 1
unfolding count
one_row job_id now [] d = omega arith
one_row job_id now (j ∷ jobs) d = elim (Bool-cases (j.id == job_id)) [
  | inl here ↦
      let e : j.id ≡ job_id = (==_iff j.id job_id).0 here in
      let none_left : count (at job_id now) jobs ≡ 0 =
        not_among job_id now jobs (ground (arith, d.0, e)) in
      rw none_left (ground arith)
  | inr other ↦ rw other (omega (arith, one_row job_id now jobs d.1))
]

pub lease_job-eq-some :
    (nonce now job_id worker_id ttl_ms : ℕ) (jobs : List Job) {jobs' : List Job} {j : Job}
    → lease_job nonce now job_id worker_id ttl_ms jobs ≡ some (jobs', j)
    → (find (active_of worker_id now) jobs ≡ none)
      × (jobs' ≡ update (at job_id now) (leased_row worker_id (now + ttl_ms) nonce) jobs)
      × (job : Job) × (find (at job_id now) jobs ≡ some job)
      × (j ≡ leased_row worker_id (now + ttl_ms) nonce job)
unfolding lease_job
lease_job-eq-some nonce now job_id worker_id ttl_ms jobs h = ground arith

-- A lease leaves every worker with at most one active job.
pub lease_job-IsLeased :
    (nonce now job_id worker_id ttl_ms : ℕ) (jobs jobs' : List Job) (j : Job)
    → IsLeased now jobs
    → lease_job nonce now job_id worker_id ttl_ms jobs ≡ some (jobs', j)
    → IsLeased now jobs'
lease_job-IsLeased nonce now job_id worker_id ttl_ms jobs jobs' j l h =
    let (idle, e, _, _, _) = lease_job-eq-some nonce now job_id worker_id ttl_ms jobs h in
    let f = leased_row worker_id (now + ttl_ms) nonce in
    record {
      distinct = rw (e, map-update id_of (at job_id now) f jobs (λ x. refl)) l.distinct;
      single = λ w. elim (Bool-cases (worker_id == w)) [
        | inl same ↦
            let e' : worker_id ≡ w = (==_iff worker_id w).0 same in
            let zero_now = count-none (active_of worker_id now) jobs idle in
            let step = count-update_add (active_of worker_id now) (at job_id now) f jobs in
            subst (λ v. count (active_of v now) jobs' ≤ 1) e'
              (rw e (omega (arith, zero_now, step, one_row job_id now jobs l.distinct)))
        | inr other ↦
            let step =
              count-update_le (active_of w now) (at job_id now) f jobs (λ x. rw other refl) in
            rw e (omega (arith, step, l.single w))
      ];
    }

freed-IsLeased :
    (now : ℕ) (p : Job → Bool) (status : JobStatus) (jobs : List Job)
    → IsLeased now jobs
    → IsLeased now (update p (freed_row status) jobs)
freed-IsLeased now p status jobs l = record {
  distinct = rw (map-update id_of p (freed_row status) jobs (λ x. refl)) l.distinct;
  single = λ w.
      omega (
        arith,
        count-update_le (active_of w now) p (freed_row status) jobs (λ x. refl),
        l.single w,
      );
}

-- So does a release.
pub release-IsLeased :
    (now job_id worker_id nonce : ℕ) (jobs jobs' : List Job) (j : Job)
    → IsLeased now jobs
    → release_job_lease job_id worker_id nonce jobs ≡ some (jobs', j)
    → IsLeased now jobs'
unfolding release_job_lease
release-IsLeased now job_id worker_id nonce jobs jobs' j l h =
    subst (IsLeased now) (ground (arith, h))
      (freed-IsLeased now (leased_with job_id worker_id nonce) open_job jobs l)

-- And so does a reaping.
pub reap-IsLeased :
    (now at_time : ℕ) (jobs : List Job)
    → IsLeased now jobs
    → IsLeased now (reap_expired_leases at_time jobs).0
unfolding reap_expired_leases
reap-IsLeased now at_time jobs l = freed-IsLeased now (overdue at_time) expired jobs l

-- Time only ends leases.
pub later-IsLeased :
    (now later : ℕ) (jobs : List Job) → now ≤ later → IsLeased now jobs → IsLeased later jobs
later-IsLeased now later jobs le l = record {
  distinct = l.distinct;
  single = λ w. omega (
    arith,
    count_le (active_of w later) (active_of w now) jobs (λ j h. ground arith),
    l.single w,
  );
}

-- What becomes of the jobs while the service runs.
pub data Step : ℕ → List Job → ℕ → List Job → Type 0 where
  leases :
      {now : ℕ} {jobs jobs' : List Job} {j : Job} (nonce job_id worker_id ttl_ms : ℕ)
      → lease_job nonce now job_id worker_id ttl_ms jobs ≡ some (jobs', j)
      → Step now jobs now jobs'
  releases :
      {now : ℕ} {jobs jobs' : List Job} {j : Job} (job_id worker_id nonce : ℕ)
      → release_job_lease job_id worker_id nonce jobs ≡ some (jobs', j)
      → Step now jobs now jobs'
  reaps : {now : ℕ} {jobs : List Job} → Step now jobs now (reap_expired_leases now jobs).0
  passes : {now later : ℕ} {jobs : List Job} → now ≤ later → Step now jobs later jobs

pub data Steps : ℕ → List Job → ℕ → List Job → Type 0 where
  stop : {now : ℕ} {jobs : List Job} → Steps now jobs now jobs
  next :
      {now mid later : ℕ} {jobs jobs1 jobs2 : List Job}
      → Step now jobs mid jobs1
      → Steps mid jobs1 later jobs2
      → Steps now jobs later jobs2

Step-IsLeased :
    {now later : ℕ} {jobs jobs' : List Job}
    → Step now jobs later jobs'
    → IsLeased now jobs
    → IsLeased later jobs'
Step-IsLeased (leases nonce job_id worker_id ttl_ms h) l =
    lease_job-IsLeased nonce _ job_id worker_id ttl_ms _ _ _ l h
Step-IsLeased (releases job_id worker_id nonce h) l =
    release-IsLeased _ job_id worker_id nonce _ _ _ l h
Step-IsLeased reaps l = reap-IsLeased _ _ _ l
Step-IsLeased (passes le) l = later-IsLeased _ _ _ le l

-- However leases are taken, released, reaped and left to lapse, no worker ever has two active jobs
-- where none had at first, and the jobs keep distinct ids.
pub one_job_each :
    {now later : ℕ} {jobs jobs' : List Job}
    → Steps now jobs later jobs'
    → IsLeased now jobs
    → IsLeased later jobs'
one_job_each stop l = l
one_job_each (next s rest) l = one_job_each rest (Step-IsLeased s l)
