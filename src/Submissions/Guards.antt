-- ===== src/Submissions/Guards.antt =====
-- src/server.ts, POST /api/jobs/:jobId/submit: what it takes to be taken in.
use openunion.Prelude.{
  ℕ, ◌+◌, ◌*◌, ◌≤◌, ◌<◌, ◌≡◌, refl, Bool, true, false, inl, inr, Option-cases, Option, none, some,
  List, arith, ◌==◌, ==_iff, All, subst,
}
use openunion.Prelude.Tables.{find, find_sound, All-imp, IsIn}
use openunion.Prelude.Texts.{includes, includes-IsIn}
use Prim.Native.String.{String}
use openunion.Artifacts.Attach.{Named, IsUsable, attach-IsUsable}
use openunion.Jobs.{is_lease_expired, is_stale_job}
use openunion.Rows.{Db, Job, Bounty, Submission, Artifact}
use openunion.Verifications.{job_of, is_accepted_duplicate}
use openunion.Submissions.{
  SubmitEnv, SubmitBody, SubmitReply, new_submission, duplicate_submission, submit, submit_job,
  submit_held, submit_again, submit_fresh, submit_new, submit_attached, submit_checked,
  own_submission, named_submission, retry_submission, retry_attached, add_submission, is_long,
  resume_job, respond_with_existing, dedupe_key_of, new_row, check_origin,
}
use openunion.Artifacts.{ArtifactError, attach_submission_artifacts}

-- The submission that a reply says was taken in, and its job.
abbrev pub taken : SubmitReply → Option (Job × Submission)
taken (new_submission j s _) = some (j, s)
taken (duplicate_submission j s) = some (j, s)
taken _ = none

-- The replies of the other paths take nothing in.
retry_attached-taken :
    (fresh : ℕ → ℕ) (now : ℕ) (j : Job) (s : Submission)
    (attached : List Artifact × Option ArtifactError) (db : Db)
    → taken (retry_attached fresh now j s attached db).1 ≡ none
unfolding retry_attached resume_job respond_with_existing
retry_attached-taken fresh now j s (arts, some e) db = refl
retry_attached-taken fresh now j s (arts, none) db = ground arith

retry-taken :
    (env : SubmitEnv) (fresh : ℕ → ℕ) (now w : ℕ) (j : Job) (body : SubmitBody) (s : Submission)
    (db : Db)
    → taken (retry_submission env fresh now w j body s db).1 ≡ none
unfolding retry_submission
retry-taken env fresh now w j body s db =
    let attached = attach_submission_artifacts s.id j.id w body.artifact_index db.artifacts in
    ground (arith, retry_attached-taken fresh now j s attached db)

-- What is known of a submission that was taken in.
abbrev pub IsNew :
    SubmitEnv → (ℕ → ℕ) → ℕ → ℕ → SubmitBody → Db → Job → Bounty → Db × SubmitReply → Type 0
IsNew env fresh now w body db j b answer =
    let is_duplicate = is_accepted_duplicate b.id (dedupe_key_of env body) db in
    let row = new_row env (fresh 0) now j.id w body is_duplicate in
    let attached = attach_submission_artifacts row.id j.id w body.artifact_index db.artifacts in
    (check_origin env body b ≡ none)
    × (attached.1 ≡ none)
    × (answer ≡ submit_attached fresh now is_duplicate j row attached (add_submission row db))

attached-taken :
    (fresh : ℕ → ℕ) (now : ℕ) (is_duplicate : Bool) (j : Job) (s : Submission)
    (attached : List Artifact × Option ArtifactError) (db : Db) {t : Job × Submission}
    → taken (submit_attached fresh now is_duplicate j s attached db).1 ≡ some t
    → attached.1 ≡ none
unfolding submit_attached
attached-taken fresh now is_duplicate j s (arts, some e) db h = absurd (ground (arith, h))
attached-taken fresh now is_duplicate j s (arts, none) db h = refl

submit_new-IsNew :
    (env : SubmitEnv) (fresh : ℕ → ℕ) (now w : ℕ) (j : Job) (body : SubmitBody) (o : Option Bounty)
    (db : Db) {t : Job × Submission}
    → taken (submit_new env fresh now w j body o db).1 ≡ some t
    → (b : Bounty) × (o ≡ some b)
      × IsNew env fresh now w body db j b (submit_new env fresh now w j body o db)
unfolding submit_new submit_checked
submit_new-IsNew env fresh now w j body none db h = absurd (ground (arith, h))
submit_new-IsNew env fresh now w j body (some b) db {t = t} h =
    let is_duplicate = is_accepted_duplicate b.id (dedupe_key_of env body) db in
    let row = new_row env (fresh 0) now j.id w body is_duplicate in
    let attached = attach_submission_artifacts row.id j.id w body.artifact_index db.artifacts in
    elim (Option-cases (check_origin env body b)) [
      | inr (refusal, bad) ↦ absurd (ground (arith, bad, h))
      | inl good ↦
          let step : submit_new env fresh now w j body (some b) db
              ≡ submit_attached fresh now is_duplicate j row attached (add_submission row db) =
            ground (arith, good) in
          (
            b,
            refl,
            (
              good,
              attached-taken fresh now is_duplicate j row attached (add_submission row db) {t = t}
                  (ground (arith, good, h)),
              step,
            ),
          )
    ]

-- A submission that is taken in comes from the holder of the job's running lease, on a job that is
-- fresh and whose bounty is there and allows its origin.
pub submit-IsNew :
    (env : SubmitEnv) (fresh : ℕ → ℕ) (now job_id w : ℕ) (body : SubmitBody) (db : Db)
    {t : Job × Submission}
    → taken (submit env fresh now job_id w body db).1 ≡ some t
    → (j : Job) × (job_of job_id db ≡ some j)
      × (j.lease_worker_id ≡ some w)
      × (is_lease_expired now j.lease_expires_at ≡ false)
      × (is_stale_job now j ≡ false)
      × (is_long body.idempotency_key ≡ false)
      × (b : Bounty) × (find (λ (x : Bounty). x.id == j.bounty_id) db.bounties ≡ some b)
      × IsNew env fresh now w body db j b (submit env fresh now job_id w body db)
unfolding submit submit_job submit_held submit_again submit_fresh respond_with_existing
submit-IsNew env fresh now job_id w body db h = elim (Option-cases (job_of job_id db)) [
  | inl gone ↦ absurd (ground (arith, gone, h))
  | inr (j, here) ↦ elim (Option-cases (own_submission w j db)) [
    | inr (s, mine) ↦ absurd (ground (arith, here, mine, h))
    | inl none_yet ↦ elim (Option-cases (named_submission j.id w body db)) [
      | inr (s, named) ↦
          absurd (ground (arith, here, none_yet, named, h, retry-taken env fresh now w j body s db))
      | inl unnamed ↦
          let o = find (λ (x : Bounty). x.id == j.bounty_id) db.bounties in
          let step : submit env fresh now job_id w body db
              ≡ submit_new env fresh now w j body o db =
            ground (arith, here, none_yet, unnamed, h) in
          let (b, of_bounty, new) = submit_new-IsNew env fresh now w j body o db (rw step at h) in
          (
            j,
            here,
            ground (arith, here, h),
            ground (arith, here, h),
            ground (arith, here, none_yet, unnamed, h),
            ground (arith, here, h),
            b,
            of_bounty,
            rw step new,
          )
    ]
  ]
]

-- The lease's end, if it has one, has not passed.
abbrev pub IsRunning : ℕ → Job → Type 0
IsRunning now j = (ends : ℕ) → j.lease_expires_at ≡ some ends → now ≤ ends

-- A job that has a freshness limit and a time of creation is within the limit.
abbrev pub IsInTime : ℕ → Job → Type 0
IsInTime now j =
    0 < j.freshness_sla_sec → 0 < j.created_at → now ≤ j.created_at + j.freshness_sla_sec * 1000

-- A final address, if there is one, has an origin, and it is one of the bounty's.
abbrev pub IsAllowed : SubmitEnv → SubmitBody → Bounty → Type 0
IsAllowed env body b =
    (url : String)
    → body.final_url ≡ some url
    → (o : String) × (env.origin url ≡ some o) × IsIn o b.allowed_origins

is_lease_expired-IsRunning :
    (now : ℕ) (j : Job) → is_lease_expired now j.lease_expires_at ≡ false → IsRunning now j
unfolding is_lease_expired
is_lease_expired-IsRunning now j h ends at = ground (arith, h, at)

is_stale_job-IsInTime : (now : ℕ) (j : Job) → is_stale_job now j ≡ false → IsInTime now j
unfolding is_stale_job
is_stale_job-IsInTime now j h limited made = ground (arith, h, limited, made)

origin-IsAllowed :
    (env : SubmitEnv) (body : SubmitBody) (b : Bounty)
    → check_origin env body b ≡ none
    → IsAllowed env body b
unfolding check_origin
origin-IsAllowed env body b h url at = elim (Option-cases (env.origin url)) [
  | inl no_origin ↦ absurd (ground (arith, h, at, no_origin))
  | inr (o, is_origin) ↦
      let found : includes b.allowed_origins o ≡ true = ground (arith, h, at, is_origin) in
      (o, is_origin, includes-IsIn b.allowed_origins o found)
]

-- A submission is taken in only from the worker who holds the job's lease, and not after the lease's
-- end, if it has one; within the job's freshness limit, if the job has one and a time of creation; and
-- for a bounty that is there. If it has a final address, the address has an origin that the bounty
-- allows. Each of its artifacts that is named by an id is there, scanned, not deleted, and not another
-- worker's or another job's; nothing is asked of the references that have no id.
pub submit_guarded :
    (env : SubmitEnv) (fresh : ℕ → ℕ) (now job_id w : ℕ) (body : SubmitBody) (db db' : Db)
    (reply : SubmitReply) (t : Job × Submission)
    → submit env fresh now job_id w body db ≡ (db', reply)
    → taken reply ≡ some t
    → (j : Job) × (job_of job_id db ≡ some j)
      × (j.lease_worker_id ≡ some w)
      × IsRunning now j
      × IsInTime now j
      × (b : Bounty) × (find (λ (x : Bounty). x.id == j.bounty_id) db.bounties ≡ some b)
      × IsAllowed env body b
      × All (λ ref. Named (IsUsable job_id w) db.artifacts ref.artifact_id) body.artifact_index
submit_guarded env fresh now job_id w body db db' reply t sent took =
    let (j, here, lease, runs, fresh_job, _, b, found, (origin, attached, _)) =
      submit-IsNew env fresh now job_id w body db {t = t} (rw sent took) in
    let own : j.id ≡ job_id = (==_iff j.id job_id).0 (find_sound _ _ j here) in
    let each = attach-IsUsable (fresh 0) j.id w body.artifact_index db.artifacts attached in
    (
      j,
      here,
      lease,
      is_lease_expired-IsRunning now j runs,
      is_stale_job-IsInTime now j fresh_job,
      b,
      found,
      origin-IsAllowed env body b origin,
      subst
          (λ k. All (λ ref. Named (IsUsable k w) db.artifacts ref.artifact_id) body.artifact_index)
          own (All-imp _ _ body.artifact_index (λ x (before, _). before) each),
    )
