-- ===== src/Submissions/Examples.antt =====
-- A submission with an artifact, the same again, and one whose content was accepted before.
use openunion.Prelude.{ℕ, ◌+◌, ◌≡◌, refl, true, false, some, none, List, [], ◌∷◌, All, ◌==◌}
use openunion.Prelude.Tables.{find, update}
use openunion.Prelude.Texts.{includes}
use openunion.Rows.{
  Db, Job, Bounty, Submission, Artifact, art_scanned, published, claimed, verifying, done_job, fail,
}
use openunion.Jobs.{is_lease_expired, is_stale_job}
use openunion.Samples.{draft_db, sample_bounty, sample_job, sample_fresh}
use openunion.Outbox.{enqueue_outbox}
use openunion.Verifications.{
  submission_of, job_of, claimed_verification, queued_verification, record_reputation,
  register_accepted_dedupe,
}
use openunion.Verifications.Verdict.{give_verdict, judged, max_attempt}
use openunion.Payouts.{add_payout, bounty_of_submission, context_of_submission}
use openunion.Fees.{compute_payout_split_cents, proofwork_fee_bps}
use openunion.Verifications.Examples.{env, review_db, passing, paid_job, submission, job}
use openunion.Submissions.{
  SubmitEnv, SubmitBody, submit, existing_submission, check_origin, new_submission,
  duplicate_submission, new_row,
}
use openunion.Artifacts.{ArtifactRef, attach_submission_artifacts, attach_one, check_artifact}
use openunion.Artifacts.Attach.{Named, IsUsable}
use openunion.Submissions.Guards.{submit_guarded, IsRunning, IsInTime, IsAllowed}
use openunion.Submissions.Repeat.{submit_once}
use openunion.Submissions.Duplicates.{accepted_once, IsDropped}

abbrev upload : Artifact
upload = record {
  id = 60;
  submission_id = none;
  job_id = some 3;
  worker_id = some 5;
  kind = "screenshot";
  label = none;
  sha256 = none;
  content_type = some "image/png";
  size_bytes = some 1000;
  status = art_scanned;
  deleted_at = none;
}

abbrev refs : List ArtifactRef
refs =
    record {
      artifact_id = some 60;
      kind = "screenshot";
      label = "after";
      sha256 = 12;
      size_bytes = none;
      content_type = none;
    }
    ∷ []

abbrev leased_job : Job
leased_job = record sample_job {
  status = claimed;
  lease_worker_id = some 5;
  lease_expires_at = some 3000000;
  lease_nonce = some 42;
}

abbrev bounty : Bounty
bounty = record sample_bounty { status = published; allowed_origins = "https://a.test" ∷ [] }

abbrev job_db : Db
job_db = record draft_db { bounties = bounty ∷ []; jobs = leased_job ∷ []; artifacts = upload ∷ [] }

abbrev senv : SubmitEnv
senv = record {
  request_hash = λ body. body.manifest_bounty_id;
  observed_hash = λ id text. 9;
  origin = λ url. some "https://a.test";
}

abbrev body : SubmitBody
body = record {
  manifest_bounty_id = 2;
  final_url = some "https://a.test/x";
  observed = b'o' ∷ b'k' ∷ [];
  notes = none;
  artifact_index = refs;
  idempotency_key = some (700, 20);
}

abbrev sent_db : Db
unfolding submit attach_submission_artifacts attach_one check_artifact find update check_origin
    includes is_lease_expired is_stale_job enqueue_outbox
sent_db = (submit senv sample_fresh 1000000 3 5 body job_db).0

abbrev sent_job : Job
sent_job = record leased_job { status = verifying; current_submission_id = some 100 }

abbrev sent_submission : Submission
sent_submission = new_row senv 100 1000000 3 5 body false

sent_it :
    submit senv sample_fresh 1000000 3 5 body job_db
    ≡ (sent_db, new_submission sent_job sent_submission 101)
unfolding sent_db
sent_it = refl

new_id : submission_of (sample_fresh 0) job_db ≡ none
unfolding find
new_id = refl

running : is_lease_expired 1100000 sent_job.lease_expires_at ≡ false
unfolding is_lease_expired
running = refl

submit_guarded_example :
    (j : Job) × (job_of 3 job_db ≡ some j)
    × (j.lease_worker_id ≡ some 5)
    × IsRunning 1000000 j
    × IsInTime 1000000 j
    × (b : Bounty) × (find (λ (x : Bounty). x.id == j.bounty_id) job_db.bounties ≡ some b)
    × IsAllowed senv body b
    × All (λ ref. Named (IsUsable 3 5) job_db.artifacts ref.artifact_id) refs
submit_guarded_example =
    submit_guarded senv sample_fresh 1000000 3 5 body job_db sent_db
      (new_submission sent_job sent_submission 101) (sent_job, sent_submission) sent_it refl

submit_once_example :
    submit senv sample_fresh 1100000 3 5 (record body { artifact_index = [] }) sent_db
    ≡ (sent_db, existing_submission sent_job sent_submission)
submit_once_example =
    submit_once senv senv sample_fresh sample_fresh 1000000 1100000 3 5 body
      (record body { artifact_index = [] }) job_db sent_db
      (new_submission sent_job sent_submission 101) sent_job sent_submission new_id sent_it refl
      running refl

-- Another job of the bounty, under a lease, when the first was accepted.
abbrev second_job : Job
second_job = record leased_job { id = 7; current_submission_id = none }

abbrev two_db : Db
two_db = record review_db {
  jobs = job ∷ second_job ∷ [];
  verifications = claimed_verification 77 1 1600000 (queued_verification 30 4 1) ∷ [];
}

abbrev accepted_db : Db
unfolding give_verdict find update add_payout compute_payout_split_cents proofwork_fee_bps
    enqueue_outbox context_of_submission bounty_of_submission record_reputation
    register_accepted_dedupe max_attempt
accepted_db = (give_verdict env sample_fresh 1100000 passing two_db).0

judged_it : give_verdict env sample_fresh 1100000 passing two_db ≡ (accepted_db, judged paid_job)
unfolding accepted_db
judged_it = refl

abbrev copy : SubmitBody
copy = record body { final_url = none; artifact_index = [] }

abbrev fresh_later : ℕ → ℕ
fresh_later n = 200 + n

abbrev dropped_db : Db
unfolding accepted_db submit attach_submission_artifacts check_origin is_lease_expired is_stale_job
dropped_db = (submit senv fresh_later 1200000 7 5 copy accepted_db).0

abbrev dropped_job : Job
dropped_job = record second_job {
  current_submission_id = some 200;
  status = done_job;
  final_verdict = some fail;
  final_quality_score = some 0;
}

abbrev dropped_row : Submission
dropped_row = new_row senv 200 1200000 7 5 copy true

dropped_it :
    submit senv fresh_later 1200000 7 5 copy accepted_db
    ≡ (dropped_db, duplicate_submission dropped_job dropped_row)
unfolding dropped_db
dropped_it = refl

second_found : job_of 7 accepted_db ≡ some second_job
unfolding accepted_db
second_found = refl

first_found : submission_of 4 two_db ≡ some submission
unfolding find
first_found = refl

accepted_once_example : IsDropped dropped_job dropped_row accepted_db dropped_db
accepted_once_example =
    accepted_once env sample_fresh 1100000 1200000 passing submission two_db accepted_db dropped_db
      paid_job 9 senv fresh_later 5 copy second_job dropped_job dropped_row
      (duplicate_submission dropped_job dropped_row) refl first_found refl judged_it second_found
      refl refl dropped_it refl
