-- ===== src/Submissions.antt =====
-- Submissions: `addSubmission` and `findSubmissionByIdempotency` of src/store.ts, and the submit
-- endpoint of src/server.ts. The digests and the URL parser are parameters.
pub mod Duplicates
mod Examples
pub mod Guards
pub mod Repeat
use Prim.Native.String.{String}
use openunion.Prelude.{
  ℕ, ◌+◌, ◌*◌, Bool, true, false, Option, none, some, List, [], ◌∷◌, ◌++◌, take, ◌&&◌, ◌||◌, not,
  ltb, ◌==◌, if◌then◌else◌, is_some, opt_is, get_or,
}
use openunion.Prelude.Tables.{find, update}
use openunion.Prelude.Texts.{includes}
use openunion.Prelude.Result.{Result, ok, err, ◌>>=◌, ◌>>◌, guard, require}
use openunion.Rows.{
  Db, Bounty, Job, JobStatus, open_job, claimed, verifying, done_job, Submission, sub_submitted,
  duplicate, sub_none, fail, Verification, queued, Artifact, ArtifactStatus, art_scanned,
  art_blocked, art_accepted,
}
use openunion.Artifacts.{ArtifactRef, ArtifactError, attach_submission_artifacts, is_other}
use openunion.Jobs.{is_lease_expired, is_stale_job}
use openunion.Verifications.{
  submission_of, job_of, update_job, find_verification, queued_verification, add_verification,
  request_verification, is_accepted_duplicate, is_queued,
}

-- WHERE job_id = ... AND worker_id = ... AND idempotency_key = ...
abbrev pub idempotent_of : ℕ → ℕ → ℕ → Submission → Bool
idempotent_of job_id worker_id key s =
    s.job_id == job_id && s.worker_id == worker_id && opt_is s.idempotency_key key

abbrev pub find_submission_by_idempotency : ℕ → ℕ → ℕ → Db → Option Submission
find_submission_by_idempotency job_id worker_id key db =
    find (idempotent_of job_id worker_id key) db.submissions

abbrev pub add_submission : Submission → Db → Db
add_submission s db = record db { submissions = db.submissions ++ s ∷ [] }

-- The request: its manifest's bounty, final address and observed text (code units), its artifacts,
-- and the trimmed Idempotency-Key header with its length, where it is not empty.
pub record SubmitBody : Type 0 where
  pub manifest_bounty_id : ℕ
  pub final_url : Option String
  pub observed : List ℕ
  pub notes : Option String
  pub artifact_index : List ArtifactRef
  pub idempotency_key : Option (ℕ × ℕ)

-- `sha256` of the request and of the manifest's key, and `new URL(url).origin`.
pub record SubmitEnv : Type 0 where
  pub request_hash : SubmitBody → ℕ
  pub observed_hash : ℕ → List ℕ → ℕ
  pub origin : String → Option String

pub data OriginError : Type 0 where
  invalid_url origin_violation : OriginError

pub data SubmitReply : Type 0 where
  job_not_found not_owner lease_expired key_too_long idempotency_conflict stale : SubmitReply
  bounty_not_found : SubmitReply
  refused_origin : OriginError → SubmitReply
  invalid_artifact : ArtifactError → SubmitReply
  existing_submission : Job → Submission → SubmitReply
  duplicate_submission : Job → Submission → SubmitReply
  new_submission : Job → Submission → ℕ → SubmitReply

abbrev is_startable : JobStatus → Bool
is_startable open_job = true
is_startable claimed = true
is_startable _ = false

-- `currentSubmissionId` is set where it is missing, and a leased job goes to verification.
abbrev pub healed_job : Submission → Job → Job
healed_job s j = record j {
  current_submission_id = some s.id;
  status = if is_startable j.status then verifying else j.status;
}

unfoldable pub respond_with_existing : Job → Submission → Db → Db × SubmitReply
respond_with_existing j s db =
    if is_some j.current_submission_id
    then (db, existing_submission j s)
    else (update_job (healed_job s j) db, existing_submission (healed_job s j) s)

-- The first attempt of a retried submission is there, and is asked for until somebody claims it.
unfoldable pub ensure_verification : (ℕ → ℕ) → ℕ → ℕ → Option Verification → Db → Db
ensure_verification fresh now submission_id none db =
    request_verification (fresh 2) (fresh 1) submission_id 1 now
      (add_verification (queued_verification (fresh 1) submission_id 1) db)
ensure_verification fresh now submission_id (some v) db =
    if is_queued v.status then request_verification (fresh 2) v.id submission_id 1 now db else db

-- `Ensure job status is consistent.`
unfoldable pub resume_job : Job → Submission → Db → Db × SubmitReply
unfolding respond_with_existing
resume_job j s db =
    let j' : Job = record j { status = verifying; current_submission_id = some s.id } in
    if is_startable j.status
    then respond_with_existing j' s (update_job j' db)
    else respond_with_existing j s db

pub retry_attached :
    (ℕ → ℕ) → ℕ → Job → Submission → List Artifact × Option ArtifactError → Db → Db × SubmitReply
unfolding resume_job ensure_verification
retry_attached fresh now j s (artifacts, some e) db =
    (record db { artifacts = artifacts }, invalid_artifact e)
retry_attached fresh now j s (artifacts, none) db = resume_job j s (
    ensure_verification fresh now s.id (find_verification s.id 1 db)
      (record db { artifacts = artifacts }))

-- The second idempotency path: the header's submission is there.
pub retry_submission :
    SubmitEnv → (ℕ → ℕ) → ℕ → ℕ → Job → SubmitBody → Submission → Db → Db × SubmitReply
unfolding retry_attached attach_submission_artifacts
retry_submission env fresh now worker_id j body s db =
    if is_other s.request_hash (env.request_hash body)
    then (db, idempotency_conflict)
    else retry_attached fresh now j s
        (attach_submission_artifacts s.id j.id worker_id body.artifact_index db.artifacts) db

-- Why the manifest's final address is refused.
unfoldable pub check_origin : SubmitEnv → SubmitBody → Bounty → Option OriginError
unfolding includes
check_origin env body b = elim body.final_url [
  | none ↦ none
  | some url ↦ elim (env.origin url) [
    | none ↦ some invalid_url
    | some o ↦ if includes b.allowed_origins o then none else some origin_violation
  ]
]

abbrev pub dedupe_key_of : SubmitEnv → SubmitBody → ℕ
dedupe_key_of env body = env.observed_hash body.manifest_bounty_id (take 200 body.observed)

abbrev pub new_row : SubmitEnv → ℕ → ℕ → ℕ → ℕ → SubmitBody → Bool → Submission
new_row env id now job_id worker_id body is_duplicate = record {
  id = id;
  job_id = job_id;
  worker_id = worker_id;
  idempotency_key = elim body.idempotency_key [ none ↦ none | some k ↦ some k.0 ];
  request_hash = some (env.request_hash body);
  status = if is_duplicate then duplicate else sub_submitted;
  dedupe_key = some (dedupe_key_of env body);
  final_verdict = none;
  final_reason = none;
  final_quality_score = none;
  payout_status = sub_none;
  created_at = now;
}

-- A duplicate ends the job; any other submission goes to its first verification.
pub submit_attached :
    (ℕ → ℕ)
    → ℕ
    → Bool
    → Job
    → Submission
    → List Artifact × Option ArtifactError
    → Db
    → Db × SubmitReply
submit_attached fresh now is_duplicate j s (artifacts, some e) db =
    (record db { artifacts = artifacts }, invalid_artifact e)
submit_attached fresh now true j s (artifacts, none) db =
    let j' : Job = record j {
      current_submission_id = some s.id;
      status = done_job;
      final_verdict = some fail;
      final_quality_score = some 0;
    } in
    (update_job j' (record db { artifacts = artifacts }), duplicate_submission j' s)
submit_attached fresh now false j s (artifacts, none) db =
    let j' : Job = record j { current_submission_id = some s.id; status = verifying } in
    let v = queued_verification (fresh 1) s.id 1 in
    (
      update_job j' (
          request_verification (fresh 2) (fresh 1) s.id 1 now
            (add_verification v (record db { artifacts = artifacts }))),
      new_submission j' s (fresh 1),
    )

pub submit_checked :
    SubmitEnv
    → (ℕ → ℕ)
    → ℕ
    → ℕ
    → Job
    → SubmitBody
    → Bounty
    → Option OriginError
    → Db
    → Db × SubmitReply
unfolding submit_attached attach_submission_artifacts
submit_checked env fresh now worker_id j body b (some refusal) db = (db, refused_origin refusal)
submit_checked env fresh now worker_id j body b none db =
    let is_duplicate = is_accepted_duplicate b.id (dedupe_key_of env body) db in
    let s = new_row env (fresh 0) now j.id worker_id body is_duplicate in
    submit_attached fresh now is_duplicate j s
      (attach_submission_artifacts s.id j.id worker_id body.artifact_index db.artifacts)
      (add_submission s db)

pub submit_new :
    SubmitEnv → (ℕ → ℕ) → ℕ → ℕ → Job → SubmitBody → Option Bounty → Db → Db × SubmitReply
unfolding submit_checked check_origin
submit_new env fresh now worker_id j body none db = (db, bounty_not_found)
submit_new env fresh now worker_id j body (some b) db =
    submit_checked env fresh now worker_id j body b (check_origin env body b) db

pub submit_fresh : SubmitEnv → (ℕ → ℕ) → ℕ → ℕ → Job → SubmitBody → Db → Db × SubmitReply
unfolding submit_new
submit_fresh env fresh now worker_id j body db =
    if is_stale_job now j
    then (db, stale)
    else submit_new env fresh now worker_id j body
        (find (λ (b : Bounty). b.id == j.bounty_id) db.bounties) db

-- The submission that the Idempotency-Key header names.
abbrev pub named_submission : ℕ → ℕ → SubmitBody → Db → Option Submission
named_submission job_id worker_id body db = elim body.idempotency_key [
  | none ↦ none
  | some k ↦ find_submission_by_idempotency job_id worker_id k.0 db
]

pub submit_again :
    SubmitEnv → (ℕ → ℕ) → ℕ → ℕ → Job → SubmitBody → Option Submission → Db → Db × SubmitReply
unfolding submit_fresh retry_submission
submit_again env fresh now worker_id j body none db = submit_fresh env fresh now worker_id j body db
submit_again env fresh now worker_id j body (some s) db =
    retry_submission env fresh now worker_id j body s db

-- The job's own submission, if it is this worker's.
abbrev pub own_submission : ℕ → Job → Db → Option Submission
own_submission worker_id j db = elim j.current_submission_id [
  | none ↦ none
  | some id ↦ elim (submission_of id db) [
    | none ↦ none
    | some s ↦ if s.worker_id == worker_id then some s else none
  ]
]

pub submit_held :
    SubmitEnv → (ℕ → ℕ) → ℕ → ℕ → Job → SubmitBody → Option Submission → Db → Db × SubmitReply
unfolding submit_again respond_with_existing
submit_held env fresh now worker_id j body none db =
    submit_again env fresh now worker_id j body (named_submission j.id worker_id body db) db
submit_held env fresh now worker_id j body (some s) db = respond_with_existing j s db

abbrev is_long : Option (ℕ × ℕ) → Bool
is_long none = false
is_long (some k) = ltb 200 k.1

pub submit_job : SubmitEnv → (ℕ → ℕ) → ℕ → ℕ → SubmitBody → Option Job → Db → Db × SubmitReply
unfolding submit_held is_lease_expired
submit_job env fresh now worker_id body none db = (db, job_not_found)
submit_job env fresh now worker_id body (some j) db =
    if not (opt_is j.lease_worker_id worker_id)
    then (db, not_owner)
    else if is_lease_expired now j.lease_expires_at
    then (db, lease_expired)
    else if is_long body.idempotency_key
    then (db, key_too_long)
    else submit_held env fresh now worker_id j body (own_submission worker_id j db) db

-- POST /api/jobs/:jobId/submit. The reply holds the job and the submission as they are written.
unfoldable pub submit : SubmitEnv → (ℕ → ℕ) → ℕ → ℕ → ℕ → SubmitBody → Db → Db × SubmitReply
unfolding submit_job
submit env fresh now job_id worker_id body db =
    submit_job env fresh now worker_id body (job_of job_id db) db
