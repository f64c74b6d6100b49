-- ===== src/Billing.antt =====
-- Budgets: `publishBounty` and `setBountyStatus` of src/store.ts, and the admin top-up of
-- src/server.ts.
pub mod Limits
mod Examples
pub mod Books
pub mod Release
pub mod Reserve
use Prim.Native.String.{String}
use mathlib.Core.Option
use openunion.Prelude.{
  ℕ, zero, suc, ◌+◌, ◌-◌, ◌*◌, ◌/◌, ◌%◌, max, Bool, true, false, Option, none, some, List, [], ◌∷◌,
  ◌++◌, ◌&&◌, ◌||◌, not, ltb, leb, ◌==◌, if◌then◌else◌, length, is_some, get_or,
}
use openunion.Prelude.Int.{ℤ, pos, neg, neg_part, ◌+ℤ◌}
use openunion.Prelude.Tables.{find, update, sum, count}
use openunion.Prelude.Result.{Result, ok, err, ◌>>=◌, ◌>>◌, guard, require}
use openunion.Rows.{
  Db, Org, Account, BillingEvent, EventType, bounty_budget_reserve, bounty_budget_release,
  dispute_refund_event, admin_topup, Reservation, ReservationStatus, active, released, Bounty,
  BountyStatus, published, closed, Job, JobStatus, open_job, claimed, submitted, verifying, Payout,
  PayoutStatus, pending, paid, failed, refunded, Submission, Actor, admin_token,
}
use openunion.Accounts.{
  acct_id, ensure_account, day_start, month_start, event_sum, spent_since, can_pay, debited,
  credited, debit, credit, post_credit, post_reserve, admin_audit,
}

pub data PublishError : Type 0 where
  bounty_not_found daily_spend_limit_exceeded monthly_spend_limit_exceeded : PublishError
  insufficient_funds max_open_jobs_exceeded : PublishError

check_limit : Option ℕ → ℕ → ℕ → PublishError → Result PublishError (Unit {0})
check_limit none spent reserve_cents e = ok tt
check_limit (some limit) spent reserve_cents e = guard (not (ltb limit (spent + reserve_cents))) e

-- The columns of the organisation that bound its spending; a missing row bounds nothing.
abbrev limit_of : (Org → Option ℕ) → Option Org → Option ℕ
limit_of column none = none
limit_of column (some org) = column org

-- Reserve the budget, once for a bounty.
pub reserve_budget : (ℕ → ℕ) → ℕ → ℕ → ℕ → Account → Option Org → Db → Result PublishError Db
unfolding check_limit
reserve_budget fresh now bounty_id reserve_cents account org db =
    if is_some (find (λ (r : Reservation). r.bounty_id == bounty_id) db.reservations)
      || reserve_cents == 0
    then ok db
    else do
      check_limit (limit_of (λ o. o.daily_spend_limit_cents) org)
          (spent_since account.id (day_start now) db.events) reserve_cents
          daily_spend_limit_exceeded
      check_limit (limit_of (λ o. o.monthly_spend_limit_cents) org)
          (spent_since account.id (month_start now) db.events) reserve_cents
          monthly_spend_limit_exceeded
      guard (is_some (find (can_pay account.id reserve_cents) db.accounts)) insufficient_funds
      ok (post_reserve fresh now bounty_id reserve_cents account db)

-- One open job for each fingerprint class.
pub new_jobs : (ℕ → ℕ) → ℕ → ℕ → Bounty → List String → List Job
new_jobs fresh i now bounty [] = []
new_jobs fresh i now bounty (fp ∷ fps) =
    record {
      id = fresh i;
      bounty_id = bounty.id;
      fingerprint_class = fp;
      status = open_job;
      lease_worker_id = none;
      lease_expires_at = none;
      lease_nonce = none;
      current_submission_id = none;
      final_verdict = none;
      final_reason = none;
      final_quality_score = none;
      done_at = none;
      created_at = now;
      freshness_sla_sec = bounty.freshness_sla_sec;
    }
    ∷ new_jobs fresh (i + 1) now bounty fps

abbrev is_unfinished : JobStatus → Bool
is_unfinished open_job = true
is_unfinished claimed = true
is_unfinished submitted = true
is_unfinished verifying = true
is_unfinished _ = false

-- jobs INNER JOIN bounties: the job's bounty belongs to the organisation.
abbrev job_of_org : ℕ → List Bounty → Job → Bool
job_of_org org_id bounties j = elim (find (λ (b : Bounty). b.id == j.bounty_id) bounties) [
  | none ↦ false
  | some b ↦ b.org_id == org_id
]

pub open_jobs : ℕ → Db → ℕ
open_jobs org_id db = count (λ j. is_unfinished j.status && job_of_org org_id db.bounties j) db.jobs

abbrev within : Option ℕ → ℕ → Bool
within none n = true
within (some limit) n = leb n limit

pub generate_jobs : (ℕ → ℕ) → ℕ → Bounty → Option Org → Db → Result PublishError Db
generate_jobs fresh now bounty org db =
    let fps = bounty.fingerprint_classes in
    if not (count (λ (j : Job). j.bounty_id == bounty.id) db.jobs == 0) || length fps == 0
    then ok db
    else do
      guard (within (limit_of (λ o. o.max_open_jobs) org) (open_jobs bounty.org_id db + length fps))
          max_open_jobs_exceeded
      ok (record db { jobs = db.jobs ++ new_jobs fresh 2 now bounty fps })

abbrev pub reserve_cents_of : Bounty → ℕ
reserve_cents_of b = b.payout_cents * max 1 (length b.fingerprint_classes)

abbrev pub published_row : ℕ → Bounty → Bounty
published_row now b = record b { status = published; published_at = some now }

pub mark_published : ℕ → ℕ → Db → Db
mark_published now bounty_id db = record db {
  bounties = update (λ (b : Bounty). b.id == bounty_id) (published_row now) db.bounties;
}

abbrev pub org_of : Bounty → Db → Option Org
org_of b db = find (λ (o : Org). o.id == b.org_id) db.orgs

-- The transaction, once the bounty's row is read.
pub publish_row : (ℕ → ℕ) → ℕ → ℕ → Bounty → Db → Result PublishError (Db × Bounty)
publish_row fresh now bounty_id existing db = do
  let acct = ensure_account existing.org_id now db.accounts
  let funded : Db = record db { accounts = acct.0 }
  reserved ←
      reserve_budget fresh now bounty_id (reserve_cents_of existing) acct.1 (org_of existing db)
        funded
  finished ←
      generate_jobs fresh now (published_row now existing) (org_of existing db)
        (mark_published now bounty_id reserved)
  ok (finished, published_row now existing)

pub publish_bounty : (ℕ → ℕ) → ℕ → ℕ → Db → Result PublishError (Db × Bounty)
publish_bounty fresh now bounty_id db = do
  existing ← require (find (λ (b : Bounty). b.id == bounty_id) db.bounties) bounty_not_found
  publish_row fresh now bounty_id existing db

-- payouts INNER JOIN submissions INNER JOIN jobs: the payout is for a job of the bounty.
abbrev payout_of_bounty : ℕ → Db → Payout → Bool
payout_of_bounty bounty_id db p =
    elim (find (λ (s : Submission). s.id == p.submission_id) db.submissions) [
      | none ↦ false
      | some s ↦ elim (find (λ (j : Job). j.id == s.job_id) db.jobs) [
        | none ↦ false
        | some j ↦ j.bounty_id == bounty_id
      ]
    ]

abbrev is_committed : PayoutStatus → Bool
is_committed paid = true
is_committed pending = true
is_committed failed = true
is_committed refunded = true

pub committed_cents : ℕ → Db → ℕ
committed_cents bounty_id db =
    sum (λ p. is_committed p.status && payout_of_bounty bounty_id db p) (λ p. p.amount_cents)
      db.payouts

abbrev is_released : ReservationStatus → Bool
is_released released = true
is_released active = false

pub mark_released : ℕ → ℕ → Db → Db
mark_released now reservation_id db = record db {
  reservations =
      update (λ (r : Reservation). r.id == reservation_id)
        (λ r. record r { status = released; released_at = some now }) db.reservations;
}

-- Give back what the payouts of the bounty do not hold; `-` stops at 0, as `Math.max(0, …)` does.
pub release_reservation : (ℕ → ℕ) → ℕ → ℕ → Reservation → Db → Db
release_reservation fresh now bounty_id res db =
    let remaining = res.amount_cents - committed_cents bounty_id db in
    let refilled =
      if ltb 0 remaining
      then post_credit (fresh 0) now res.account_id bounty_budget_release remaining db
      else db in
    mark_released now res.id refilled

abbrev is_closed : BountyStatus → Bool
is_closed closed = true
is_closed _ = false

pub settle_reservation : (ℕ → ℕ) → ℕ → ℕ → Option Reservation → Db → Db
settle_reservation fresh now bounty_id none db = db
settle_reservation fresh now bounty_id (some res) db =
    if is_released res.status then db else release_reservation fresh now bounty_id res db

abbrev pub with_status : ℕ → BountyStatus → Db → Db
with_status bounty_id status db = record db {
  bounties =
      update (λ (b : Bounty). b.id == bounty_id) (λ b. record b { status = status }) db.bounties;
}

abbrev pub reservation_of : ℕ → Db → Option Reservation
reservation_of bounty_id db = find (λ (r : Reservation). r.bounty_id == bounty_id) db.reservations

-- `none` is `undefined`: there is no such bounty.
pub set_bounty_status : (ℕ → ℕ) → ℕ → ℕ → BountyStatus → Db → Option (Db × Bounty)
unfolding settle_reservation
set_bounty_status fresh now bounty_id status db =
    elim (find (λ (b : Bounty). b.id == bounty_id) db.bounties) [
      | none ↦ none
      | some row ↦
          let moved = with_status bounty_id status db in
          some (
            if is_closed status
                then settle_reservation fresh now bounty_id (reservation_of bounty_id moved) moved
                else moved,
            record row { status = status },
          )
    ]

-- POST /api/admin/billing/orgs/:orgId/topup; `none` is the reply 400 to an amount that is not > 0.
pub admin_top_up : (ℕ → ℕ) → ℕ → ℕ → ℕ → Db → Option Db
unfolding admin_audit
admin_top_up fresh now org_id amount_cents db =
    let acct = ensure_account org_id now db.accounts in
    if amount_cents == 0
    then none
    else some (
        admin_audit "billing.topup" acct.1.id now (
          post_credit (fresh 0) now acct.1.id admin_topup amount_cents
            (record db { accounts = acct.0 })))
