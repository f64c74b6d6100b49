-- ===== src/Admin.antt =====
-- The administrator's endpoints of src/server.ts on verifications and submissions; those on payouts
-- and outbox events are below, in Payouts.
mod Examples
pub mod Payouts
pub mod Reviews
use Prim.Native.String.{String}
use openunion.Prelude.{
  ℕ, ◌+◌, ◌*◌, Bool, true, false, Option, none, some, List, [], ◌∷◌, ◌++◌, ltb, ◌==◌, if◌then◌else◌,
  is_some, get_or,
}
use openunion.Prelude.Tables.{find, update}
use openunion.Prelude.Result.{Result, ok, err}
use openunion.Fees.{FeeError}
use openunion.Rows.{
  Db, Bounty, Job, done_job, Submission, SubmissionPayout, sub_paid, sub_payout_failed, reversed,
  duplicate, Verdict, pass, fail, inconclusive, Verification, queued, Payout, PayoutStatus, pending,
  paid, failed, refunded, OutboxEvent, waiting, sent, payout_requested, payout_key, payout_payload,
}
use openunion.Accounts.{admin_audit}
use openunion.Outbox.{addressed, new_event}
use openunion.Disputes.{next_at}
use openunion.Payouts.{FeeEnv, payout_of, add_payout, mark_payout_status, PayoutMeta}
use openunion.Verifications.{
  submission_of, job_of, update_job, update_submission, update_verification,
  register_accepted_dedupe,
}
use openunion.Verifications.Verdict.{is_pass, status_of, payout_status_of, request_payout}

-- `undefined` leaves a column empty.
abbrev pub unclaimed : Verification → Verification
unclaimed v = record v { status = queued; claim_token = none; claim_expires_at = none }

requeue_found : ℕ → Option Verification → Db → Option Db
requeue_found now none db = none
requeue_found now (some v) db =
    some (admin_audit "verification.requeue" v.id now (update_verification (unclaimed v) db))

-- POST /api/admin/verifications/:verificationId/requeue; `none` is the 404, here as below.
unfoldable pub requeue_verification : ℕ → ℕ → Db → Option Db
unfolding requeue_found
requeue_verification now id db =
    requeue_found now (find (λ (v : Verification). v.id == id) db.verifications) db

abbrev pub duplicate_row : Submission → Submission
duplicate_row s = record s {
  status = duplicate;
  final_verdict = some fail;
  final_reason = some "admin_mark_duplicate";
}

abbrev pub failed_job : Job → Job
failed_job j = record j {
  status = done_job;
  final_verdict = some fail;
  final_reason = some "admin_mark_duplicate";
}

pub close_failed : Option Job → Db → Db
close_failed none db = db
close_failed (some j) db = update_job (failed_job j) db

pub mark_found : ℕ → Option Submission → Db → Option Db
unfolding close_failed
mark_found now none db = none
mark_found now (some s) db =
    let db' = update_submission (duplicate_row s) db in
    some (admin_audit "submission.mark_duplicate" s.id now (close_failed (job_of s.job_id db') db'))

-- POST /api/admin/submissions/:submissionId/mark-duplicate
unfoldable pub mark_duplicate : ℕ → ℕ → Db → Option Db
unfolding mark_found
mark_duplicate now id db = mark_found now (submission_of id db) db

-- `admin_override:${verdict}`
abbrev pub override_reason : Verdict → String
override_reason pass = "admin_override:pass"
override_reason fail = "admin_override:fail"
override_reason inconclusive = "admin_override:inconclusive"

abbrev pub overridden_submission : Verdict → Option ℕ → Submission → Submission
overridden_submission v score s = record s {
  final_verdict = some v;
  final_reason = some (override_reason v);
  status = status_of v;
  final_quality_score = some (elim score [ none ↦ get_or s.final_quality_score 0 | some n ↦ n ]);
  payout_status = payout_status_of v;
}

abbrev pub overridden_job : Submission → Verdict → Job → Job
overridden_job s v j = record j {
  final_verdict = some v;
  final_reason = s.final_reason;
  final_quality_score = s.final_quality_score;
  status = done_job;
}

pub data OverrideReply : Type 0 where
  override_not_found override_no_job override_no_bounty overridden : OverrideReply
  override_fee_failed : FeeError → OverrideReply

abbrev pub audit_override : ℕ → Submission → Db → Db
audit_override now s db = admin_audit "submission.override_verdict" s.id now db

abbrev pub register_override : Submission → Job → Db → Db
register_override s j db = elim s.dedupe_key [
  | none ↦ db
  | some key ↦ record db { accepted = register_accepted_dedupe j.bounty_id key db.accepted }
]

override_paid :
    (ℕ → ℕ)
    → ℕ
    → Submission
    → Job
    → Bounty
    → Result FeeError (Db × Payout)
    → Db
    → Db × OverrideReply
override_paid fresh now s j b (err e) db = (db, override_fee_failed e)
override_paid fresh now s j b (ok (db', payout)) db = (
  audit_override now s (register_override s j (request_payout (fresh 1) now b s payout db')),
  overridden,
)

override_bounty : FeeEnv → (ℕ → ℕ) → ℕ → Submission → Job → Option Bounty → Db → Db × OverrideReply
unfolding override_paid
override_bounty fees fresh now s j none db = (db, override_no_bounty)
override_bounty fees fresh now s j (some b) db =
    override_paid fresh now s j b (add_payout fees (fresh 0) now s.id s.worker_id b.payout_cents db)
      db

override_job : FeeEnv → (ℕ → ℕ) → ℕ → Verdict → Submission → Option Job → Db → Db × OverrideReply
unfolding override_bounty
override_job fees fresh now v s none db =
    if is_pass v then (db, override_no_job) else (audit_override now s db, overridden)
override_job fees fresh now v s (some j) db =
    let j' = overridden_job s v j in
    let db' = update_job j' db in
    if is_pass v
    then override_bounty fees fresh now s j'
        (find (λ (b : Bounty). b.id == j.bounty_id) db.bounties) db'
    else (audit_override now s db', overridden)

override_found :
    FeeEnv → (ℕ → ℕ) → ℕ → Verdict → Option ℕ → Option Submission → Db → Db × OverrideReply
unfolding override_job
override_found fees fresh now v score none db = (db, override_not_found)
override_found fees fresh now v score (some s) db =
    let s' = overridden_submission v score s in
    let db' = update_submission s' db in override_job fees fresh now v s' (job_of s.job_id db') db'

-- POST /api/admin/submissions/:submissionId/override-verdict, with a verdict that is one.
unfoldable pub override_verdict :
    FeeEnv → (ℕ → ℕ) → ℕ → ℕ → Verdict → Option ℕ → Db → Db × OverrideReply
unfolding override_found
override_verdict fees fresh now id v score db =
    override_found fees fresh now v score (submission_of id db) db
