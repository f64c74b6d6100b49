-- ===== src/Admin/Payouts.antt =====
-- The administrator's endpoints of src/server.ts on payouts and outbox events.
pub mod Status
use Prim.Native.String.{String}
use openunion.Prelude.{
  ℕ, ◌+◌, ◌*◌, Bool, true, false, Option, none, some, List, [], ◌∷◌, ◌++◌, ltb, ◌==◌, if◌then◌else◌,
  is_some, get_or,
}
use openunion.Prelude.Tables.{find, update}
use openunion.Prelude.Result.{Result, ok, err}
use openunion.Fees.{FeeError}
use openunion.Rows.{
  Db, Bounty, Job, done_job, Submission, SubmissionPayout, sub_paid, sub_payout_failed, reversed,
  duplicate, Verdict, pass, fail, inconclusive, Verification, queued, Payout, PayoutStatus, pending,
  paid, failed, refunded, OutboxEvent, waiting, sent, payout_requested, payout_key, payout_payload,
}
use openunion.Accounts.{admin_audit}
use openunion.Outbox.{addressed, new_event}
use openunion.Disputes.{next_at}
use openunion.Payouts.{FeeEnv, payout_of, add_payout, mark_payout_status, PayoutMeta}
use openunion.Verifications.{
  submission_of, job_of, update_job, update_submission, update_verification,
  register_accepted_dedupe,
}
use openunion.Verifications.Verdict.{is_pass, status_of, payout_status_of, request_payout}

pub data RetryReply : Type 0 where
  retry_not_found already_paid already_refunded payout_blocked retried : RetryReply

abbrev pub cleared : PayoutMeta
cleared = record { provider = some none; provider_ref = some none }

-- The event starts over, its attempts too.
abbrev pub restarted_row : ℕ → OutboxEvent → OutboxEvent
restarted_row next e = record e {
  status = waiting;
  attempts = 0;
  available_at = next;
  locked_at = none;
  locked_by = none;
  last_error = none;
  sent_at = none;
}

pub restart_event : ℕ → ℕ → ℕ → Payout → List OutboxEvent → List OutboxEvent
restart_event id next now p outbox =
    elim (find (addressed payout_requested (payout_key p.id)) outbox) [
      | none ↦
          outbox
          ++ new_event id payout_requested (some (payout_key p.id))
              (payout_payload p.id (some p.submission_id) p.worker_id) next now
            ∷ []
      | some e ↦ update (λ (x : OutboxEvent). x.id == e.id) (restarted_row next) outbox
    ]

pub retry_status : (ℕ → ℕ) → ℕ → Payout → PayoutStatus → Db → Db × RetryReply
unfolding restart_event
retry_status fresh now p paid db = (db, already_paid)
retry_status fresh now p refunded db = (db, already_refunded)
retry_status fresh now p _ db = if is_some p.blocked_reason then (db, payout_blocked) else (
  admin_audit "payout.retry" p.id now (record (mark_payout_status p.id pending cleared now db) {
    outbox = restart_event (fresh 0) (next_at p.hold_until now) now p db.outbox;
  }),
  retried,
)

pub retry_found : (ℕ → ℕ) → ℕ → Option Payout → Db → Db × RetryReply
unfolding retry_status
retry_found fresh now none db = (db, retry_not_found)
retry_found fresh now (some p) db = retry_status fresh now p p.status db

-- POST /api/admin/payouts/:payoutId/retry
unfoldable pub retry_payout : (ℕ → ℕ) → ℕ → ℕ → Db → Db × RetryReply
unfolding retry_found
retry_payout fresh now id db = retry_found fresh now (payout_of id db) db

-- The statuses that the endpoint takes.
pub data MarkStatus : Type 0 where
  mark_paid mark_failed mark_refunded : MarkStatus

abbrev pub marked_status : MarkStatus → PayoutStatus
marked_status mark_paid = paid
marked_status mark_failed = failed
marked_status mark_refunded = refunded

abbrev pub mirrored_status : MarkStatus → SubmissionPayout
mirrored_status mark_paid = sub_paid
mirrored_status mark_failed = sub_payout_failed
mirrored_status mark_refunded = reversed

abbrev pub stopped_row : ℕ → OutboxEvent → OutboxEvent
stopped_row now e = record e {
  status = sent;
  sent_at = some now;
  locked_at = none;
  locked_by = none;
  last_error = none;
}

pub data MarkReply : Type 0 where
  mark_not_found reason_required marked : MarkReply

abbrev pub mark_meta : Option String → Option ℕ → PayoutMeta
mark_meta provider ref = record {
  provider = some (some (get_or provider "manual"));
  provider_ref = some ref;
}

pub mark_payout_found :
    ℕ → MarkStatus → Option String → Option ℕ → Bool → Option Payout → Db → Db × MarkReply
mark_payout_found now status provider ref has_reason none db = (db, mark_not_found)
mark_payout_found now status provider ref false (some p) db = (db, reason_required)
mark_payout_found now status provider ref true (some p) db =
    let db' = mark_payout_status p.id (marked_status status) (mark_meta provider ref) now db in
    (
      admin_audit "payout.mark_status" p.id now (record db' {
        outbox = update (addressed payout_requested (payout_key p.id)) (stopped_row now) db.outbox;
        submissions =
            update (λ (s : Submission). s.id == p.submission_id)
              (λ s. record s { payout_status = mirrored_status status }) db.submissions;
      }),
      marked,
    )

-- POST /api/admin/payouts/:payoutId/mark; `has_reason` is the test of the trimmed reason.
unfoldable pub mark_payout :
    ℕ → ℕ → MarkStatus → Option String → Option ℕ → Bool → Db → Db × MarkReply
unfolding mark_payout_found
mark_payout now id status provider ref has_reason db =
    mark_payout_found now status provider ref has_reason (payout_of id db) db

abbrev pub requeued_event : ℕ → OutboxEvent → OutboxEvent
requeued_event now e = record e {
  status = waiting;
  available_at = now;
  locked_at = none;
  locked_by = none;
  last_error = none;
}

-- POST /api/admin/outbox/:id/requeue
unfoldable pub requeue_event : ℕ → ℕ → Db → Option Db
requeue_event now id db = elim (find (λ (e : OutboxEvent). e.id == id) db.outbox) [
  | none ↦ none
  | some e ↦ some (
      admin_audit "outbox.requeue" id now (record db {
        outbox = update (λ (x : OutboxEvent). x.id == id) (requeued_event now) db.outbox;
      }))
]
