-- ===== src/Disputes.antt =====
-- Disputes: `createDispute`, `cancelDispute` and `resolveDisputeAdmin` of src/store.ts, and the
-- handler of workers/handlers.ts that refunds when the hold is over. Each is one transaction: an
-- error leaves the database as it was. The clock is read once.
pub mod AutoRefund
mod Examples
pub mod Blocked
pub mod Cancel
pub mod Refund
use Prim.Native.String.{String}
use openunion.Prelude.{
  ℕ, ◌-◌, Bool, true, false, Option, none, some, List, [], ◌∷◌, ◌++◌, ◌&&◌, not, ltb, ◌==◌,
  if◌then◌else◌, is_some, opt_is, get_or,
}
use openunion.Prelude.Tables.{find, update}
use openunion.Prelude.Result.{Result, ok, err, ◌>>=◌, ◌>>◌, guard, require}
use openunion.Rows.{
  Db, Actor, Bounty, Payout, PayoutStatus, refunded, Dispute, DisputeStatus, dispute_is_open,
  resolved, cancelled, Resolution, refund, uphold, cancelled_by_org, BlockedReason, dispute_open,
  dispute_refund, Submission, reversed, OutboxEvent, waiting, sent, payout_requested,
  auto_refund_requested, payout_key, auto_refund_key, payout_payload, dispute_payload, Payload,
  dispute_refund_event, system, AuditEvent,
}
use openunion.Outbox.{addressed, new_event, enqueue_outbox}
use openunion.Accounts.{ensure_account, post_credit}
use openunion.Payouts.{payout_of, bounty_of_submission}
use openunion.PayoutEnv.{is_paid}

pub data DisputeError : Type 0 where
  missing_target target_not_found forbidden payout_already_paid payout_missing : DisputeError
  dispute_window_disabled dispute_window_expired dispute_already_open : DisputeError
  not_found not_open no_result : DisputeError

-- The row of the joins: the bounty, the submission, and the payout where there is one.
pub record Target : Type 0 where
  pub bounty : Bounty
  pub submission_id : ℕ
  pub payout : Option Payout

pub target_of_payout : Db → Option Payout → Option Target
target_of_payout db none = none
target_of_payout db (some p) = elim (bounty_of_submission p.submission_id db) [
  | none ↦ none
  | some b ↦ some (record { bounty = b; submission_id = p.submission_id; payout = some p })
]

pub target_of_submission : Db → ℕ → Option Target
target_of_submission db submission_id = elim (bounty_of_submission submission_id db) [
  | none ↦ none
  | some b ↦ some (record {
    bounty = b;
    submission_id = submission_id;
    payout = find (λ (p : Payout). p.submission_id == submission_id) db.payouts;
  })
]

-- By the payout where the input names one, else by the submission.
pub target_of : Option ℕ → Option ℕ → Db → Result DisputeError Target
unfolding target_of_payout target_of_submission
target_of (some payout_id) submission_id db =
    require (target_of_payout db (payout_of payout_id db)) target_not_found
target_of none (some submission_id) db =
    require (target_of_submission db submission_id) target_not_found
target_of none none db = err missing_target

abbrev pub is_open : DisputeStatus → Bool
is_open dispute_is_open = true
is_open _ = false

abbrev pub open_on : ℕ → Dispute → Bool
open_on payout_id d = opt_is d.payout_id payout_id && is_open d.status

abbrev pub blocked_row : ℕ → Payout → Payout
blocked_row now p = record p { blocked_reason = some dispute_open; updated_at = now }

abbrev pub sent_row : ℕ → OutboxEvent → OutboxEvent
sent_row now e = record e {
  status = sent;
  sent_at = some now;
  locked_at = none;
  locked_by = none;
  last_error = none;
}

-- The payout's `payout.requested` event will not fire.
abbrev pub stop_payout : ℕ → ℕ → List OutboxEvent → List OutboxEvent
stop_payout payout_id now =
    update (addressed payout_requested (payout_key payout_id)) (sent_row now)

abbrev pub audited : Actor → String → ℕ → ℕ → List AuditEvent → List AuditEvent
audited actor action target_id now audit =
    audit ++ record { actor = actor; action = action; target_id = target_id; created_at = now } ∷ []

-- What a new dispute writes.
unfoldable pub post_dispute : (ℕ → ℕ) → ℕ → Dispute → ℕ → ℕ → Actor → Db → Db
post_dispute fresh now dispute payout_id hold_until actor db = record db {
  disputes = db.disputes ++ dispute ∷ [];
  payouts = update (λ (p : Payout). p.id == payout_id) (blocked_row now) db.payouts;
  outbox =
      enqueue_outbox (fresh 1) auto_refund_requested (dispute_payload dispute.id) (some hold_until)
        (some (auto_refund_key dispute.id)) now (stop_payout payout_id now db.outbox);
  audit = audited actor "dispute.open" dispute.id now db.audit;
}

pub open_dispute :
    (ℕ → ℕ) → ℕ → ℕ → String → Actor → Target → Payout → ℕ → Db → Result DisputeError (Db × Dispute)
open_dispute fresh now org_id reason actor target payout hold_until db = do
  guard (ltb now hold_until) dispute_window_expired
  guard (not (is_some (find (open_on payout.id) db.disputes))) dispute_already_open
  let dispute : Dispute = record {
    id = fresh 0;
    org_id = org_id;
    bounty_id = target.bounty.id;
    submission_id = some target.submission_id;
    payout_id = some payout.id;
    status = dispute_is_open;
    reason = reason;
    resolution = none;
    resolution_notes = none;
    created_at = now;
    resolved_at = none;
    resolver = none;
  }
  ok (post_dispute fresh now dispute payout.id hold_until actor db, dispute)

-- `payout_status` is the empty string where there is no payout.
pub check_payout : Option Payout → Result DisputeError Payout
check_payout none = err payout_missing
check_payout (some p) = if is_paid p.status then err payout_already_paid else ok p

pub create_dispute :
    (ℕ → ℕ) → ℕ → ℕ → Option ℕ → Option ℕ → String → Actor → Db → Result DisputeError (Db × Dispute)
unfolding check_payout
create_dispute fresh now org_id payout_id submission_id reason actor db = do
  target ← target_of payout_id submission_id db
  guard (target.bounty.org_id == org_id) forbidden
  payout ← check_payout target.payout
  hold_until ← require payout.hold_until dispute_window_disabled
  open_dispute fresh now org_id reason actor target payout hold_until db

abbrev pub unblocked_row : ℕ → Payout → Payout
unblocked_row now p = record p { blocked_reason = none; updated_at = now }

-- `payoutRow.hold_until && payoutRow.hold_until > now ? payoutRow.hold_until : now`
pub next_at : Option ℕ → ℕ → ℕ
next_at none now = now
next_at (some t) now = if ltb now t then t else now

-- Only the cancellation clears `sent_at`.
abbrev pub requeued_row : Bool → ℕ → OutboxEvent → OutboxEvent
requeued_row clear_sent next e = record e {
  status = waiting;
  available_at = next;
  locked_at = none;
  locked_by = none;
  last_error = none;
  sent_at = if clear_sent then none else e.sent_at;
}

pub requeue_payout : Bool → ℕ → ℕ → Payload → ℕ → ℕ → List OutboxEvent → List OutboxEvent
requeue_payout clear_sent id payout_id payload next now outbox =
    elim (find (addressed payout_requested (payout_key payout_id)) outbox) [
      | none ↦
          outbox
          ++ new_event id payout_requested (some (payout_key payout_id)) payload next now ∷ []
      | some e ↦ update (λ x. x.id == e.id) (requeued_row clear_sent next) outbox
    ]

-- The payout may be paid again, when its hold is over.
unfoldable pub unblock_payout : Bool → (ℕ → ℕ) → ℕ → Payout → Option ℕ → Db → Db
unfolding next_at
unblock_payout clear_sent fresh now p submission_id db = record db {
  payouts = update (λ (q : Payout). q.id == p.id) (unblocked_row now) db.payouts;
  outbox =
      requeue_payout clear_sent (fresh 0) p.id (payout_payload p.id submission_id p.worker_id)
        (next_at p.hold_until now) now db.outbox;
}

abbrev pub closed_row : ℕ → DisputeStatus → Resolution → Option String → Actor → Dispute → Dispute
closed_row now status resolution notes actor d = record d {
  status = status;
  resolved_at = some now;
  resolver = some actor;
  resolution = some resolution;
  resolution_notes = notes;
}

-- The dispute's row and its audit entry, the last writes of each transaction.
unfoldable pub close_dispute :
    ℕ → ℕ → DisputeStatus → Resolution → Option String → Actor → String → Db → Db
close_dispute now id status resolution notes actor action db = record db {
  disputes =
      update (λ (d : Dispute). d.id == id) (closed_row now status resolution notes actor)
        db.disputes;
  audit = audited actor action id now db.audit;
}

abbrev pub dispute_of : ℕ → Db → Option Dispute
dispute_of id db = find (λ (d : Dispute). d.id == id) db.disputes

-- The payout of a dispute that is cancelled; a row that is missing throws.
pub cancel_payout : (ℕ → ℕ) → ℕ → Option ℕ → Db → Result DisputeError Db
cancel_payout fresh now none db = ok db
cancel_payout fresh now (some payout_id) db = do
  p ← require (payout_of payout_id db) no_result
  ok (unblock_payout true fresh now p (some p.submission_id) db)

pub cancel_dispute : (ℕ → ℕ) → ℕ → ℕ → ℕ → Actor → Db → Result DisputeError Db
unfolding cancel_payout
cancel_dispute fresh now org_id id actor db = do
  row ← require (dispute_of id db) not_found
  guard (row.org_id == org_id) forbidden
  guard (is_open row.status) not_open
  released ← cancel_payout fresh now row.payout_id db
  ok (close_dispute now id cancelled cancelled_by_org none actor "dispute.cancel" released)

-- `Math.max(0, amount - proofworkFee)`
pub refund_cents : Payout → ℕ
refund_cents p = p.amount_cents - get_or p.proofwork_fee_cents 0

abbrev pub refunded_row : ℕ → Payout → Payout
refunded_row now p = record p {
  status = refunded;
  blocked_reason = some dispute_refund;
  updated_at = now;
}

-- The organisation's account, found or made, gets the refund, unless that is nothing.
unfoldable pub credit_refund : (ℕ → ℕ) → ℕ → ℕ → ℕ → Db → Db
credit_refund fresh now org_id amount db =
    let acct = ensure_account org_id now db.accounts in
    let with_account : Db = record db { accounts = acct.0 } in
    if ltb 0 amount
    then post_credit (fresh 0) now acct.1.id dispute_refund_event amount with_account
    else with_account

abbrev pub reverse_submission : Option ℕ → List Submission → List Submission
reverse_submission none submissions = submissions
reverse_submission (some id) submissions =
    update (λ (s : Submission). s.id == id) (λ s. record s { payout_status = reversed }) submissions

-- The payout, its submission and its event, once it is refunded.
unfoldable pub mark_refunded : ℕ → Dispute → ℕ → Db → Db
mark_refunded now row payout_id db = record db {
  payouts = update (λ (p : Payout). p.id == payout_id) (refunded_row now) db.payouts;
  submissions = reverse_submission row.submission_id db.submissions;
  outbox = stop_payout payout_id now db.outbox;
}

abbrev pub is_refunded : PayoutStatus → Bool
is_refunded refunded = true
is_refunded _ = false

pub settle_dispute : (ℕ → ℕ) → ℕ → Dispute → Payout → Resolution → Option String → Actor → Db → Db
unfolding refund_cents
settle_dispute fresh now row p refund notes actor db =
    close_dispute now row.id resolved refund notes actor "dispute.resolve_refund"
      (mark_refunded now row p.id (credit_refund fresh now row.org_id (refund_cents p) db))
settle_dispute fresh now row p _ notes actor db =
    close_dispute now row.id resolved uphold notes actor "dispute.resolve_uphold"
      (unblock_payout false fresh now p row.submission_id db)

pub resolve_dispute_admin :
    (ℕ → ℕ) → ℕ → ℕ → Resolution → Option String → Actor → Db → Result DisputeError Db
resolve_dispute_admin fresh now id resolution notes actor db = do
  row ← require (dispute_of id db) not_found
  guard (is_open row.status) not_open
  payout_id ← require row.payout_id payout_missing
  p ← require (payout_of payout_id db) no_result
  guard (not (is_paid p.status)) payout_already_paid
  if is_refunded p.status
      then ok db
      else ok (settle_dispute fresh now row p resolution notes actor db)

-- The errors that the handler takes for an end that was reached before.
abbrev pub is_settled_error : DisputeError → Bool
is_settled_error not_found = true
is_settled_error not_open = true
is_settled_error payout_missing = true
is_settled_error payout_already_paid = true
is_settled_error _ = false

abbrev pub system_actor : Actor
system_actor = record { actor_type = system; actor_id = none }

pub absorb : Db → Result DisputeError Db → Result DisputeError Db
absorb db (ok db') = ok db'
absorb db (err e) = if is_settled_error e then ok db else err e

pub handle_dispute_auto_refund_requested : (ℕ → ℕ) → ℕ → ℕ → Db → Result DisputeError Db
unfolding absorb
handle_dispute_auto_refund_requested fresh now id db =
    absorb db (resolve_dispute_admin fresh now id refund (some "auto_refund") system_actor db)
