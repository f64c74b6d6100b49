-- ===== src/Submissions/Repeat.antt =====
-- src/server.ts, POST /api/jobs/:jobId/submit: one submission after another.
use openunion.Prelude.{
  ℕ, ◌≡◌, refl, Bool, true, false, Option, none, some, List, [], ◌∷◌, arith, ==_refl, ◌==◌, ==_iff,
  ◌++◌, subst,
}
use openunion.Prelude.Tables.{find, update, find-append, find-update, find_sound}
use openunion.Jobs.{is_lease_expired}
use openunion.Submissions.Guards.{taken, submit-IsNew}
use openunion.Rows.{Db, Job, Submission, Artifact, done_job, verifying, fail}
use openunion.Verifications.{submission_of, job_of, job_row, is_accepted_duplicate}
use openunion.Submissions.{
  SubmitEnv, SubmitBody, SubmitReply, existing_submission, submit, submit_job, submit_held,
  submit_attached, add_submission, is_long, respond_with_existing, dedupe_key_of, new_row,
}
use openunion.Artifacts.{ArtifactError, attach_submission_artifacts}

-- What a submission that was taken in leaves: the job is under its worker's lease, as it was, and
-- points at it.
abbrev pub IsTaken : ℕ → ℕ → Job → Submission → Db → Type 0
IsTaken job_id worker_id j s db =
    (job_of job_id db ≡ some j)
    × (j.lease_worker_id ≡ some worker_id)
    × (j.current_submission_id ≡ some s.id)
    × (s.worker_id ≡ worker_id)
    × (submission_of s.id db ≡ some s)

written-IsTaken :
    (j j1 : Job) (s : Submission) (w : ℕ) (db db' : Db) {j' : Job} {s' : Submission}
    → job_of j.id db ≡ some j
    → job_row j1 j ≡ j1
    → j1.current_submission_id ≡ some s.id
    → j1.lease_worker_id ≡ some w
    → s.worker_id ≡ w
    → submission_of s.id db ≡ none
    → db'.jobs ≡ update (λ (x : Job). x.id == j.id) (job_row j1) db.jobs
    → db'.submissions ≡ db.submissions ++ s ∷ []
    → ◌≡◌ {A = Option (Job × Submission)} (some (j1, s)) (some (j', s'))
    → IsTaken j.id w j' s' db'
unfolding find
written-IsTaken j j1 s w db db' here row points lease own new jobs submissions h =
    let moved =
      find-update (λ (x : Job). x.id == j.id) (λ (x : Job). x.id == j.id) (job_row j1) db.jobs
        (λ x. refl) in
    let added = find-append (λ (x : Submission). x.id == s.id) db.submissions (s ∷ []) in
    ground (
      arith,
      moved,
      added,
      here,
      row,
      points,
      lease,
      own,
      new,
      jobs,
      submissions,
      h,
      ==_refl s.id,
      ==_refl j.id,
    )

attached-IsTaken :
    (fresh : ℕ → ℕ) (now : ℕ) (is_duplicate : Bool) (j : Job) (s : Submission)
    (attached : List Artifact × Option ArtifactError) (db : Db) {j' : Job} {s' : Submission} (w : ℕ)
    → job_of j.id db ≡ some j
    → j.lease_worker_id ≡ some w
    → s.worker_id ≡ w
    → submission_of s.id db ≡ none
    → taken (submit_attached fresh now is_duplicate j s attached (add_submission s db)).1
      ≡ some (j', s')
    → IsTaken j.id w j' s'
        (submit_attached fresh now is_duplicate j s attached (add_submission s db)).0
unfolding submit_attached
attached-IsTaken fresh now is_duplicate j s (arts, some e) db w here lease own new h =
    absurd (ground (arith, h))
attached-IsTaken fresh now true j s (arts, none) db w here lease own new h =
    let j1 : Job = record j {
      current_submission_id = some s.id;
      status = done_job;
      final_verdict = some fail;
      final_quality_score = some 0;
    } in
    written-IsTaken j j1 s w db
      (submit_attached fresh now true j s (arts, none) (add_submission s db)).0 here refl refl lease
      own new refl refl h
attached-IsTaken fresh now false j s (arts, none) db w here lease own new h =
    let j1 : Job = record j { current_submission_id = some s.id; status = verifying } in
    written-IsTaken j j1 s w db
      (submit_attached fresh now false j s (arts, none) (add_submission s db)).0 here refl refl
      lease own new refl refl h

-- A second submission for the job.
submit_own :
    (env : SubmitEnv) (fresh : ℕ → ℕ) (now job_id w : ℕ) (body : SubmitBody) (db : Db) (j : Job)
    (s : Submission)
    → IsTaken job_id w j s db
    → is_lease_expired now j.lease_expires_at ≡ false
    → is_long body.idempotency_key ≡ false
    → submit env fresh now job_id w body db ≡ (db, existing_submission j s)
unfolding submit submit_job submit_held respond_with_existing
submit_own env fresh now job_id w body db j s (here, lease, points, own, found) running short =
    ground (arith, here, lease, points, own, found, running, short, ==_refl w)

submit-IsTaken :
    (env : SubmitEnv) (fresh : ℕ → ℕ) (now job_id w : ℕ) (body : SubmitBody) (db : Db) {j : Job}
    {s : Submission}
    → submission_of (fresh 0) db ≡ none
    → taken (submit env fresh now job_id w body db).1 ≡ some (j, s)
    → IsTaken job_id w j s (submit env fresh now job_id w body db).0
submit-IsTaken env fresh now job_id w body db {j = j'} {s = s} new h =
    let (j, here, lease, _, _, _, b, _, (_, _, step)) =
      submit-IsNew env fresh now job_id w body db h in
    let own : j.id ≡ job_id = (==_iff j.id job_id).0 (find_sound _ _ j here) in
    let is_duplicate = is_accepted_duplicate b.id (dedupe_key_of env body) db in
    let row = new_row env (fresh 0) now j.id w body is_duplicate in
    let attached = attach_submission_artifacts row.id j.id w body.artifact_index db.artifacts in
    let done : IsTaken j.id w j' s (submit env fresh now job_id w body db).0 = rw step (
      attached-IsTaken fresh now is_duplicate j row attached db w (rw own here) lease refl new
        (rw step at h)) in
    subst (λ k. IsTaken k w j' s (submit env fresh now job_id w body db).0) own done

-- A submission is taken in once: while the lease runs, whatever its worker sends for the job next,
-- the first submission itself again or another, leaves the database as it is and is answered with
-- the first one, as long as a fresh identifier was used for that and the header is not too long.
pub submit_once :
    (env env' : SubmitEnv) (fresh fresh' : ℕ → ℕ) (now now' job_id w : ℕ) (body body' : SubmitBody)
    (db db' : Db) (reply : SubmitReply) (j : Job) (s : Submission)
    → submission_of (fresh 0) db ≡ none
    → submit env fresh now job_id w body db ≡ (db', reply)
    → taken reply ≡ some (j, s)
    → is_lease_expired now' j.lease_expires_at ≡ false
    → is_long body'.idempotency_key ≡ false
    → submit env' fresh' now' job_id w body' db' ≡ (db', existing_submission j s)
submit_once env env' fresh fresh' now now' job_id w body body' db db' reply j s new first took
      running short =
    let mine = submit-IsTaken env fresh now job_id w body db {j = j} {s = s} new (rw first took) in
    submit_own env' fresh' now' job_id w body' db' j s (rw first at mine) running short
