-- ===== src/Verifications.antt =====
-- Verification of submissions: the statements of src/store.ts on submissions, verifications,
-- reputation and accepted dedupe keys, and the verifier's claim endpoint of src/server.ts.
pub mod Claims
pub mod Examples
pub mod Reputations
pub mod Verdict
use Prim.Native.String.{String}
use openunion.Prelude.{
  ℕ, ◌+◌, ◌*◌, max, Bool, true, false, Option, none, some, List, [], ◌∷◌, ◌++◌, ◌&&◌, not, ltb,
  ◌==◌, if◌then◌else◌, is_some, opt_is,
}
use openunion.Prelude.Tables.{find, update}
use openunion.Rows.{
  Db, Job, Submission, Verification, VerificationStatus, queued, in_progress, finished, Reputation,
  AcceptedDedupe, Artifact, art_accepted, verification_requested, verification_key,
  verification_payload,
}
use openunion.Outbox.{enqueue_outbox}

abbrev pub submission_of : ℕ → Db → Option Submission
submission_of id db = find (λ (s : Submission). s.id == id) db.submissions

abbrev pub job_of : ℕ → Db → Option Job
job_of id db = find (λ (j : Job). j.id == id) db.jobs

-- The columns that `updateJob` writes.
abbrev pub job_row : Job → Job → Job
job_row j row = record row {
  status = j.status;
  lease_worker_id = j.lease_worker_id;
  lease_expires_at = j.lease_expires_at;
  lease_nonce = j.lease_nonce;
  current_submission_id = j.current_submission_id;
  final_verdict = j.final_verdict;
  final_reason = j.final_reason;
  final_quality_score = j.final_quality_score;
  done_at = j.done_at;
}

abbrev pub update_job : Job → Db → Db
update_job j db = record db { jobs = update (λ (x : Job). x.id == j.id) (job_row j) db.jobs }

-- The columns that `updateSubmission` writes.
abbrev pub submission_row : Submission → Submission → Submission
submission_row s row = record row {
  status = s.status;
  dedupe_key = s.dedupe_key;
  final_verdict = s.final_verdict;
  final_reason = s.final_reason;
  final_quality_score = s.final_quality_score;
  payout_status = s.payout_status;
}

abbrev pub update_submission : Submission → Db → Db
update_submission s db = record db {
  submissions = update (λ (x : Submission). x.id == s.id) (submission_row s) db.submissions;
}

-- WHERE submission_id = ... AND attempt_no = ...
abbrev pub attempt_of : ℕ → ℕ → Verification → Bool
attempt_of submission_id attempt_no v =
    v.submission_id == submission_id && v.attempt_no == attempt_no

abbrev pub find_verification : ℕ → ℕ → Db → Option Verification
find_verification submission_id attempt_no db =
    find (attempt_of submission_id attempt_no) db.verifications

-- The row of an attempt that nobody has claimed.
abbrev pub queued_verification : ℕ → ℕ → ℕ → Verification
queued_verification id submission_id attempt_no = record {
  id = id;
  submission_id = submission_id;
  attempt_no = attempt_no;
  status = queued;
  claim_token = none;
  claimed_by = none;
  claim_expires_at = none;
  verdict = none;
  reason = none;
  quality_score = none;
}

abbrev pub add_verification : Verification → Db → Db
add_verification v db = record db { verifications = db.verifications ++ v ∷ [] }

-- The columns that `updateVerification` writes.
abbrev pub verification_row : Verification → Verification → Verification
verification_row v row = record row {
  status = v.status;
  claim_token = v.claim_token;
  claimed_by = v.claimed_by;
  claim_expires_at = v.claim_expires_at;
  verdict = v.verdict;
  reason = v.reason;
  quality_score = v.quality_score;
}

abbrev pub update_verification : Verification → Db → Db
update_verification v db = record db {
  verifications = update (λ (x : Verification). x.id == v.id) (verification_row v) db.verifications;
}

-- The event that asks for the verification of an attempt, once for each.
abbrev pub request_verification : ℕ → ℕ → ℕ → ℕ → ℕ → Db → Db
request_verification event_id verification_id submission_id attempt_no now db = record db {
  outbox =
      enqueue_outbox event_id verification_requested
        (verification_payload verification_id submission_id attempt_no) none
        (some (verification_key submission_id attempt_no)) now db.outbox;
}

-- A worker starts at 2 passes and 2 failures.
abbrev pub scored : Bool → Reputation → Reputation
scored passed r =
    if passed then record r { alpha = r.alpha + 1 } else record r { beta = r.beta + 1 }

abbrev pub worker_is : ℕ → Reputation → Bool
worker_is worker_id r = r.worker_id == worker_id

unfoldable pub record_reputation : ℕ → Bool → List Reputation → List Reputation
record_reputation worker_id passed rows =
    let new : Reputation = record { worker_id = worker_id; alpha = 2; beta = 2 } in
    elim (find (worker_is worker_id) rows) [
      | none ↦ rows ++ scored passed new ∷ []
      | some _ ↦ update (worker_is worker_id) (scored passed) rows
    ]

abbrev pub dedupe_is : ℕ → ℕ → AcceptedDedupe → Bool
dedupe_is bounty_id key a = a.bounty_id == bounty_id && a.dedupe_key == key

-- ON CONFLICT (bounty_id, dedupe_key) DO NOTHING
unfoldable pub register_accepted_dedupe : ℕ → ℕ → List AcceptedDedupe → List AcceptedDedupe
register_accepted_dedupe bounty_id key rows =
    if is_some (find (dedupe_is bounty_id key) rows)
    then rows
    else rows ++ record { bounty_id = bounty_id; dedupe_key = key } ∷ []

abbrev pub is_accepted_duplicate : ℕ → ℕ → Db → Bool
is_accepted_duplicate bounty_id key db = is_some (find (dedupe_is bounty_id key) db.accepted)

-- UPDATE artifacts SET status = 'accepted' WHERE submission_id = ...
abbrev pub mark_submission_artifacts_accepted : ℕ → Db → Db
mark_submission_artifacts_accepted id db = record db {
  artifacts =
      update (λ (a : Artifact). opt_is a.submission_id id) (λ a. record a { status = art_accepted })
        db.artifacts;
}

abbrev pub is_queued : VerificationStatus → Bool
is_queued queued = true
is_queued _ = false

abbrev is_in_progress : VerificationStatus → Bool
is_in_progress in_progress = true
is_in_progress _ = false

-- `verification.claimExpiresAt && verification.claimExpiresAt > Date.now()`
abbrev pub runs_on : ℕ → Option ℕ → Bool
runs_on now none = false
runs_on now (some t) = not (t == 0) && ltb now t

abbrev pub claim_is_held : ℕ → Verification → Bool
claim_is_held now v = is_in_progress v.status && runs_on now v.claim_expires_at

abbrev pub claimed_verification : ℕ → ℕ → ℕ → Verification → Verification
claimed_verification token verifier expires v = record v {
  status = in_progress;
  claim_token = some token;
  claimed_by = some verifier;
  claim_expires_at = some expires;
}

pub data ClaimReply : Type 0 where
  claim_no_submission already_claimed claim_no_job claim_no_bounty : ClaimReply
  claimed_with : ℕ → ℕ → ClaimReply

-- What a claim answers once it is written: the verification and its token, where the job's
-- specification can be built.
claim_reply : ℕ → ℕ → Option Job → Db → ClaimReply
claim_reply id token none db = claim_no_job
claim_reply id token (some j) db =
    if is_some (find (λ b. b.id == j.bounty_id) db.bounties)
    then claimed_with id token
    else claim_no_bounty

pub take_claim : ℕ → ℕ → ℕ → ℕ → Submission → Verification → Db → Db × ClaimReply
unfolding claim_reply
take_claim token now verifier ttl_sec s v db =
    if claim_is_held now v then (db, already_claimed) else (
      update_verification (claimed_verification token verifier (now + ttl_sec * 1000) v) db,
      claim_reply v.id token (job_of s.job_id db) db,
    )

pub claim_attempt : ℕ → ℕ → ℕ → ℕ → ℕ → ℕ → Submission → Option Verification → Db → Db × ClaimReply
unfolding take_claim
claim_attempt id token now verifier ttl_sec attempt_no s none db =
    let new = queued_verification id s.id attempt_no in
    take_claim token now verifier ttl_sec s new (add_verification new db)
claim_attempt id token now verifier ttl_sec attempt_no s (some v) db =
    take_claim token now verifier ttl_sec s v db

pub claim_submission : ℕ → ℕ → ℕ → ℕ → ℕ → ℕ → Option Submission → Db → Db × ClaimReply
unfolding claim_attempt
claim_submission id token now verifier ttl_sec attempt_no none db = (db, claim_no_submission)
claim_submission id token now verifier ttl_sec attempt_no (some s) db =
    claim_attempt id token now verifier ttl_sec attempt_no s (find_verification s.id attempt_no db)
      db

-- POST /api/verifier/claim. `id` and `token` are the fresh identifiers that it may use.
unfoldable pub claim_verification : ℕ → ℕ → ℕ → ℕ → ℕ → ℕ → ℕ → Db → Db × ClaimReply
unfolding claim_submission
claim_verification id token now verifier ttl_sec submission_id attempt_no db =
    claim_submission id token now verifier ttl_sec attempt_no (submission_of submission_id db) db
