-- ===== src/Accounts.antt =====
-- Billing accounts: the statements on `billing_accounts` and `billing_events` that src/store.ts and
-- src/server.ts make. An account's id is `acct_<org>`, so it is its organisation's number.
pub mod Ledger
pub mod Postings
use Prim.Native.String.{String}
use mathlib.Core.Option
use openunion.Prelude.{
  ℕ, zero, suc, ◌+◌, ◌-◌, ◌*◌, ◌/◌, ◌%◌, max, Bool, true, false, Option, none, some, List, [], ◌∷◌,
  ◌++◌, ◌&&◌, ◌||◌, not, ltb, leb, ◌==◌, if◌then◌else◌, length, is_some, get_or,
}
use openunion.Prelude.Int.{ℤ, pos, neg, neg_part, ◌+ℤ◌}
use openunion.Prelude.Tables.{find, update, sum, count}
use openunion.Prelude.Result.{Result, ok, err, ◌>>=◌, ◌>>◌, guard, require}
use openunion.Rows.{
  Db, Org, Account, BillingEvent, EventType, bounty_budget_reserve, bounty_budget_release,
  dispute_refund_event, admin_topup, Reservation, ReservationStatus, active, released, Bounty,
  BountyStatus, published, closed, Job, JobStatus, open_job, claimed, submitted, verifying, Payout,
  PayoutStatus, pending, paid, failed, refunded, Submission, Actor, admin_token,
}

-- `acct_${orgId}`
abbrev pub acct_id : ℕ → ℕ
acct_id org_id = org_id

-- SELECT the organisation's account, or INSERT an empty one.
unfoldable pub ensure_account : ℕ → ℕ → List Account → List Account × Account
ensure_account org_id now accounts =
    let new : Account = record {
      id = acct_id org_id;
      org_id = org_id;
      balance_cents = 0;
      updated_at = now;
    } in
    elim (find (λ a. a.org_id == org_id) accounts) [
      | none ↦ (accounts ++ new ∷ [], new)
      | some account ↦ (accounts, account)
    ]

-- Date.UTC(year, month, day), and Date.UTC(year, month, 1): the proleptic Gregorian calendar.
abbrev day_ms : ℕ
day_ms = 86400000

unfoldable pub day_start : ℕ → ℕ
day_start now = now - now % day_ms

day_of_month : ℕ → ℕ
day_of_month days =
    let z = days + 719468 in
    let doe = z % 146097 in
    let yoe = (doe - doe / 1460 + doe / 36524 - doe / 146096) / 365 in
    let doy = doe - (365 * yoe + yoe / 4 - yoe / 100) in
    let mp = (5 * doy + 2) / 153 in doy - (153 * mp + 2) / 5 + 1

unfoldable pub month_start : ℕ → ℕ
unfolding day_of_month
month_start now = day_start now - (day_of_month (now / day_ms) - 1) * day_ms

-- coalesce(sum(amount_cents), 0)
unfoldable pub event_sum : (BillingEvent → Bool) → List BillingEvent → ℤ
event_sum p [] = pos 0
event_sum p (e ∷ es) = (if p e then e.amount_cents else pos 0) +ℤ event_sum p es

abbrev is_spend : EventType → Bool
is_spend bounty_budget_reserve = true
is_spend bounty_budget_release = true
is_spend dispute_refund_event = true
is_spend _ = false

-- `Math.max(0, -sum)` over the account's budget events since a time.
unfoldable pub spent_since : ℕ → ℕ → List BillingEvent → ℕ
spent_since account_id start events = neg_part (
    event_sum (λ e. e.account_id == account_id && is_spend e.event_type && leb start e.created_at)
      events)

-- WHERE id = account AND balance_cents >= reserve
abbrev pub can_pay : ℕ → ℕ → Account → Bool
can_pay account_id amount a = a.id == account_id && leb amount a.balance_cents

abbrev pub debited : ℕ → ℕ → Account → Account
debited amount now a = record a { balance_cents = a.balance_cents - amount; updated_at = now }

abbrev pub credited : ℕ → ℕ → Account → Account
credited amount now a = record a { balance_cents = a.balance_cents + amount; updated_at = now }

abbrev pub debit : ℕ → ℕ → ℕ → List Account → List Account
debit account_id amount now = update (can_pay account_id amount) (debited amount now)

abbrev pub credit : ℕ → ℕ → ℕ → List Account → List Account
credit account_id amount now = update (λ a. a.id == account_id) (credited amount now)

-- The account is credited, with the event that records it.
unfoldable pub post_credit : ℕ → ℕ → ℕ → EventType → ℕ → Db → Db
post_credit event_id now account_id event_type amount db = record db {
  accounts = credit account_id amount now db.accounts;
  events =
      db.events
      ++ record {
        id = event_id;
        account_id = account_id;
        event_type = event_type;
        amount_cents = pos amount;
        created_at = now;
      }
        ∷ [];
}

-- The account is debited, with the event and the reservation that record it.
unfoldable pub post_reserve : (ℕ → ℕ) → ℕ → ℕ → ℕ → Account → Db → Db
post_reserve fresh now bounty_id reserve_cents account db = record db {
  accounts = debit account.id reserve_cents now db.accounts;
  events =
      db.events
      ++ record {
        id = fresh 0;
        account_id = account.id;
        event_type = bounty_budget_reserve;
        amount_cents = neg reserve_cents;
        created_at = now;
      }
        ∷ [];
  reservations =
      db.reservations
      ++ record {
        id = fresh 1;
        account_id = account.id;
        bounty_id = bounty_id;
        amount_cents = reserve_cents;
        status = active;
        released_at = none;
      }
        ∷ [];
}

unfoldable pub admin_audit : String → ℕ → ℕ → Db → Db
admin_audit action target_id now db = record db {
  audit =
      db.audit
      ++ record {
        actor = record { actor_type = admin_token; actor_id = none };
        action = action;
        target_id = target_id;
        created_at = now;
      }
        ∷ [];
}
