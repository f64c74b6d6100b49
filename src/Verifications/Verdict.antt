-- ===== src/Verifications/Verdict.antt =====
-- The verdict endpoint of src/server.ts, POST /api/verifier/verdict.
pub mod Attempts
pub mod Once
pub mod Paid
pub mod Registered
pub mod Unpaid
use Prim.Native.String.{String}
use openunion.Prelude.{
  ℕ, ◌+◌, ◌*◌, max, Bool, true, false, Option, none, some, List, [], ◌∷◌, not, ltb, ◌==◌, ◌&&◌,
  if◌then◌else◌, is_some, opt_is,
}
use openunion.Prelude.Tables.{find, update}
use openunion.Prelude.Result.{Result, ok, err}
use openunion.Fees.{FeeError}
use openunion.Rows.{
  Db, Job, verifying, done_job, Bounty, Submission, SubmissionStatus, accepted, sub_failed,
  sub_inconclusive, SubmissionPayout, sub_pending, sub_none, Verification, VerificationStatus,
  finished, Verdict, pass, fail, inconclusive, Payout, payout_requested, payout_payload, payout_key,
}
use openunion.Outbox.{enqueue_outbox}
use openunion.Payouts.{FeeEnv, add_payout}
use openunion.Verifications.{
  submission_of, job_of, update_job, update_submission, find_verification, queued_verification,
  add_verification, update_verification, request_verification, record_reputation,
  register_accepted_dedupe, mark_submission_artifacts_accepted,
}

-- The fields of the request that the endpoint reads.
pub record VerdictBody : Type 0 where
  pub submission_id : ℕ
  pub attempt_no : ℕ
  pub claim_token : ℕ
  pub verdict : Verdict
  pub reason : String
  pub quality_score : ℕ

-- `MAX_VERIFICATION_ATTEMPTS` and the fees of the environment.
pub record VerdictEnv : Type 0 where
  pub max_attempts : ℕ
  pub fees : FeeEnv

pub data VerdictReply : Type 0 where
  no_verification invalid_claim claim_expired no_submission no_job no_bounty : VerdictReply
  fee_failed : FeeError → VerdictReply
  already_finished : Option Job → VerdictReply
  requeued : Job → ℕ → VerdictReply
  judged : Job → VerdictReply

abbrev pub is_pass : Verdict → Bool
is_pass pass = true
is_pass _ = false

abbrev pub is_inconclusive : Verdict → Bool
is_inconclusive inconclusive = true
is_inconclusive _ = false

abbrev pub is_finished : VerificationStatus → Bool
is_finished finished = true
is_finished _ = false

abbrev pub status_of : Verdict → SubmissionStatus
status_of pass = accepted
status_of fail = sub_failed
status_of inconclusive = sub_inconclusive

abbrev pub payout_status_of : Verdict → SubmissionPayout
payout_status_of v = if is_pass v then sub_pending else sub_none

abbrev pub finished_verification : VerdictBody → Verification → Verification
finished_verification body v = record v {
  status = finished;
  verdict = some body.verdict;
  reason = some body.reason;
  quality_score = some body.quality_score;
}

abbrev pub judged_submission : VerdictBody → Submission → Submission
judged_submission body s = record s {
  final_verdict = some body.verdict;
  final_reason = some body.reason;
  status = status_of body.verdict;
  final_quality_score = some body.quality_score;
  payout_status = payout_status_of body.verdict;
}

abbrev pub judged_job : VerdictBody → Job → Job
judged_job body j = record j {
  final_verdict = some body.verdict;
  final_reason = some body.reason;
  final_quality_score = some body.quality_score;
}

-- The greatest attempt of a submission, or `m`.
unfoldable pub max_attempt : ℕ → ℕ → List Verification → ℕ
max_attempt submission_id m [] = m
max_attempt submission_id m (v ∷ vs) =
    max_attempt submission_id (if v.submission_id == submission_id then max m v.attempt_no else m)
      vs

-- `bounty.disputeWindowSec && bounty.disputeWindowSec > 0`
abbrev pub available_at : ℕ → Bounty → Option ℕ
available_at now b =
    if ltb 0 b.dispute_window_sec then some (now + b.dispute_window_sec * 1000) else none

abbrev pub request_payout : ℕ → ℕ → Bounty → Submission → Payout → Db → Db
request_payout event_id now b s payout db = record db {
  outbox =
      enqueue_outbox event_id payout_requested (payout_payload payout.id (some s.id) s.worker_id)
        (available_at now b) (some (payout_key payout.id)) now db.outbox;
}

pub pay_submission :
    ℕ → ℕ → Bounty → Submission → Job → Result FeeError (Db × Payout) → Db → Db × VerdictReply
pay_submission event_id now b s j (err e) db = (db, fee_failed e)
pay_submission event_id now b s j (ok (db', payout)) db =
    (mark_submission_artifacts_accepted s.id (request_payout event_id now b s payout db'), judged j)

pub pay_bounty :
    VerdictEnv → (ℕ → ℕ) → ℕ → Submission → Job → Option Bounty → Db → Db × VerdictReply
unfolding pay_submission
pay_bounty env fresh now s j none db = (db, no_bounty)
pay_bounty env fresh now s j (some b) db =
    pay_submission (fresh 1) now b s j
      (add_payout env.fees (fresh 0) now s.id s.worker_id b.payout_cents db) db

abbrev pub completed : ℕ → Job → Job
completed now j = record j { status = done_job; done_at = some now }

-- The job is done; a pass is paid.
pub finish_job : VerdictEnv → (ℕ → ℕ) → ℕ → VerdictBody → Submission → Job → Db → Db × VerdictReply
unfolding pay_bounty
finish_job env fresh now body s j db =
    let j' = completed now j in
    let db' = update_job j' db in
    if is_pass body.verdict
    then pay_bounty env fresh now s j' (find (λ (b : Bounty). b.id == j.bounty_id) db.bounties) db'
    else (db', judged j')

-- Another attempt is queued.
abbrev next_attempt : (ℕ → ℕ) → ℕ → Submission → Job → ℕ → Db → Db × VerdictReply
next_attempt fresh now s j n db =
    let j' : Job = record j { status = verifying } in
    (
      update_job j' (
          request_verification (fresh 1) (fresh 0) s.id n now
            (add_verification (queued_verification (fresh 0) s.id n) db)),
      requeued j' n,
    )

pub conclude :
    VerdictEnv → (ℕ → ℕ) → ℕ → VerdictBody → Submission → Option Job → Db → Db × VerdictReply
unfolding finish_job max_attempt
conclude env fresh now body s none db = (db, no_job)
conclude env fresh now body s (some j) db =
    let last = max_attempt s.id 1 db.verifications in
    if is_inconclusive body.verdict && ltb last env.max_attempts
    then next_attempt fresh now s (judged_job body j) (last + 1) db
    else finish_job env fresh now body s (judged_job body j) db

-- The dedupe key of an accepted submission; `none` is the error of a job without a bounty.
pub register_pass : Submission → Option ℕ → Option Job → Db → Option Db
unfolding register_accepted_dedupe
register_pass s none job db = some db
register_pass s (some key) none db = some db
register_pass s (some key) (some j) db =
    if is_some (find (λ (b : Bounty). b.id == j.bounty_id) db.bounties)
    then some record db { accepted = register_accepted_dedupe j.bounty_id key db.accepted }
    else none

pub register_key : VerdictBody → Submission → Db → Option Db
unfolding register_pass
register_key body s db =
    if is_pass body.verdict then register_pass s s.dedupe_key (job_of s.job_id db) db else some db

pub conclude_registered :
    VerdictEnv → (ℕ → ℕ) → ℕ → VerdictBody → Submission → Option Db → Db → Db × VerdictReply
unfolding conclude
conclude_registered env fresh now body s none db = (db, no_bounty)
conclude_registered env fresh now body s (some db') db =
    conclude env fresh now body s (job_of s.job_id db') db'

-- The verdict on the submission, and on the worker.
abbrev pub judged_db : VerdictBody → Submission → Db → Db
judged_db body s db = record (update_submission (judged_submission body s) db) {
  reputation = record_reputation s.worker_id (is_pass body.verdict) db.reputation;
}

pub judge : VerdictEnv → (ℕ → ℕ) → ℕ → VerdictBody → Option Submission → Db → Db × VerdictReply
unfolding conclude_registered register_key
judge env fresh now body none db = (db, no_submission)
judge env fresh now body (some s) db =
    let s' = judged_submission body s in
    let db' = judged_db body s db in
    conclude_registered env fresh now body s' (register_key body s' db') db'

-- `verification.claimExpiresAt && verification.claimExpiresAt < Date.now()`
abbrev pub is_over : ℕ → Option ℕ → Bool
is_over now none = false
is_over now (some t) = not (t == 0) && ltb t now

pub judge_verification :
    VerdictEnv → (ℕ → ℕ) → ℕ → VerdictBody → Option Verification → Db → Db × VerdictReply
unfolding judge
judge_verification env fresh now body none db = (db, no_verification)
judge_verification env fresh now body (some v) db =
    let s = submission_of body.submission_id db in
    if not (opt_is v.claim_token body.claim_token)
    then (db, invalid_claim)
    else if is_finished v.status
    then (db, already_finished (elim s [ none ↦ none | some x ↦ job_of x.job_id db ]))
    else if is_over now v.claim_expires_at
    then (db, claim_expired)
    else judge env fresh now body s (update_verification (finished_verification body v) db)

-- POST /api/verifier/verdict
unfoldable pub give_verdict : VerdictEnv → (ℕ → ℕ) → ℕ → VerdictBody → Db → Db × VerdictReply
unfolding judge_verification
give_verdict env fresh now body db =
    judge_verification env fresh now body (find_verification body.submission_id body.attempt_no db)
      db
