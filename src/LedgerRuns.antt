-- ===== src/LedgerRuns.antt =====
-- Every operation of src/store.ts and src/server.ts that is modelled and posts to the billing ledger,
-- in any order.
use Prim.Native.String.{String}
use openunion.Prelude.{ℕ, ◌≡◌, Option, some}
use openunion.Prelude.Result.{ok}
use openunion.Rows.{Db, Actor, Bounty, BountyStatus, Resolution, Dispute}
use openunion.Billing.{publish_bounty, set_bounty_status, admin_top_up}
use openunion.Billing.Books.{IsSound, publish-IsSound}
use openunion.Billing.Release.{set_bounty_status-IsSound, admin_top_up-IsSound}
use openunion.Disputes.{
  create_dispute, cancel_dispute, resolve_dispute_admin, handle_dispute_auto_refund_requested,
}
use openunion.Disputes.Refund.{resolve-IsSound}
use openunion.Disputes.AutoRefund.{auto_refund-IsSound}
use openunion.Stripe.{credit_checkout}
use openunion.Stripe.Ledger.{checkout-IsSound}
use openunion.Disputes.Blocked.{create_dispute-IsSound}
use openunion.Disputes.Cancel.{cancel_dispute-IsSound}

-- One request or one event, with its clock and ids.
pub data Step : Db → Db → Type 0 where
  publishes :
      {db db' : Db} {b : Bounty} (fresh : ℕ → ℕ) (now bounty_id : ℕ)
      → publish_bounty fresh now bounty_id db ≡ ok (db', b)
      → Step db db'
  moves :
      {db db' : Db} {b : Bounty} (fresh : ℕ → ℕ) (now bounty_id : ℕ) (status : BountyStatus)
      → set_bounty_status fresh now bounty_id status db ≡ some (db', b)
      → Step db db'
  tops_up :
      {db db' : Db} (fresh : ℕ → ℕ) (now org_id amount_cents : ℕ)
      → admin_top_up fresh now org_id amount_cents db ≡ some db'
      → Step db db'
  disputes :
      {db db' : Db} {d : Dispute} (fresh : ℕ → ℕ) (now org_id : ℕ)
      (payout_id submission_id : Option ℕ) (reason : String) (actor : Actor)
      → create_dispute fresh now org_id payout_id submission_id reason actor db ≡ ok (db', d)
      → Step db db'
  withdraws :
      {db db' : Db} (fresh : ℕ → ℕ) (now org_id id : ℕ) (actor : Actor)
      → cancel_dispute fresh now org_id id actor db ≡ ok db'
      → Step db db'
  resolves :
      {db db' : Db} (fresh : ℕ → ℕ) (now id : ℕ) (resolution : Resolution) (notes : Option String)
      (actor : Actor)
      → resolve_dispute_admin fresh now id resolution notes actor db ≡ ok db'
      → Step db db'
  refunds :
      {db db' : Db} (fresh : ℕ → ℕ) (now id : ℕ)
      → handle_dispute_auto_refund_requested fresh now id db ≡ ok db'
      → Step db db'
  pays_in :
      {db db' : Db} (event_id now account n : ℕ)
      → credit_checkout event_id now account n db ≡ some db'
      → Step db db'

pub data Run : Db → Db → Type 0 where
  done_run : {db : Db} → Run db db
  next_step : {db db1 db2 : Db} → Step db db1 → Run db1 db2 → Run db db2

Step-IsSound :
    {opening : ℕ → ℕ} {db db' : Db} → Step db db' → IsSound opening db → IsSound opening db'
Step-IsSound (publishes fresh now bounty_id h) s = publish-IsSound fresh now bounty_id _ _ _ s h
Step-IsSound (moves fresh now bounty_id status h) s =
    set_bounty_status-IsSound fresh now bounty_id status _ _ _ s h
Step-IsSound (tops_up fresh now org_id n h) s = admin_top_up-IsSound fresh now org_id n _ _ s h
Step-IsSound (disputes fresh now org_id pid sid reason actor h) s =
    create_dispute-IsSound fresh now org_id pid sid reason actor _ _ _ s h
Step-IsSound (withdraws fresh now org_id id actor h) s =
    cancel_dispute-IsSound fresh now org_id id actor _ _ s h
Step-IsSound (resolves fresh now id resolution notes actor h) s =
    resolve-IsSound fresh now id resolution notes actor _ _ s h
Step-IsSound (refunds fresh now id h) s = auto_refund-IsSound fresh now id _ _ s h
Step-IsSound (pays_in event_id now account n h) s = checkout-IsSound event_id now account n _ _ s h

-- However bounties are published, paused, reopened and closed, accounts topped up by an administrator
-- or by a paid checkout of Stripe, and disputes opened,
-- withdrawn, resolved and refunded automatically, in whatever order and at whatever times: where every
-- account's balance was its opening balance and the sum of its billing events, it still is.
pub run-IsSound :
    {opening : ℕ → ℕ} {db db' : Db} → Run db db' → IsSound opening db → IsSound opening db'
run-IsSound done_run s = s
run-IsSound (next_step step rest) s = run-IsSound rest (Step-IsSound step s)
