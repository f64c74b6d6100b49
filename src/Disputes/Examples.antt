-- ===== src/Disputes/Examples.antt =====
-- Disputes of src/store.ts on one payout.
use openunion.Prelude.{ℕ, ◌≡◌, refl, arith, none, some, [], ◌∷◌, if◌then◌else◌, ◌==◌}
use openunion.Prelude.Int.{◌+ℤ◌}
use openunion.Prelude.Tables.{find, update}
use openunion.Prelude.Result.{ok}
use openunion.Fees.{compute_payout_split_cents, proofwork_fee_bps}
use openunion.Rows.{Db, Payout, Dispute, refund, refunded, paid, dispute_is_open}
use openunion.Outbox.{enqueue_outbox, new_event}
use openunion.Accounts.{event_sum, ensure_account, post_credit}
use openunion.Accounts.Ledger.{balance_of}
use openunion.Payouts.{payout_of, context_of_submission, bounty_of_submission}
use openunion.Handlers.{handler_split}
use openunion.Billing.Books.{IsSound}
use openunion.Disputes.{
  create_dispute, cancel_dispute, resolve_dispute_admin, handle_dispute_auto_refund_requested,
  refund_cents, dispute_of, target_of, target_of_payout, check_payout, open_dispute, post_dispute,
  cancel_payout, unblock_payout, requeue_payout, next_at, close_dispute, settle_dispute,
  credit_refund, mark_refunded, absorb, system_actor,
}
use openunion.Disputes.Blocked.{dispute_stops}
use openunion.Disputes.Cancel.{cancel_unblocks, refunded_is_paid}
use openunion.Disputes.Refund.{refund_credits}
use openunion.Disputes.AutoRefund.{auto_refund_once}
use openunion.Samples.{sample_fresh, sample_now, sample_actor, sample_payout, payout_db, sample_env}

abbrev dispute : Dispute
dispute = record {
  id = 100;
  org_id = 1;
  bounty_id = 2;
  submission_id = some 4;
  payout_id = some 6;
  status = dispute_is_open;
  reason = "wrong page";
  resolution = none;
  resolution_notes = none;
  created_at = sample_now;
  resolved_at = none;
  resolver = none;
}

abbrev opened : Db → Db
unfolding create_dispute target_of target_of_payout check_payout open_dispute post_dispute find
    update enqueue_outbox bounty_of_submission
opened db =
    elim (create_dispute sample_fresh sample_now 1 (some 6) none "wrong page" sample_actor db) [
      | ok (db', _) ↦ db'
      | _ ↦ db
    ]

abbrev withdrawn : Db → Db
unfolding cancel_dispute cancel_payout unblock_payout requeue_payout next_at close_dispute find
    update new_event
withdrawn db = elim (cancel_dispute sample_fresh 1000500 1 100 sample_actor db) [
  | ok db' ↦ db'
  | _ ↦ db
]

-- The payout as a refund leaves it.
abbrev refunded_payout : Payout
refunded_payout = record sample_payout { status = refunded }

abbrev refunded_db : Db
refunded_db = record payout_db { payouts = refunded_payout ∷ [] }

opening_one :
    create_dispute sample_fresh sample_now 1 (some 6) none "wrong page" sample_actor payout_db
    ≡ ok (opened payout_db, dispute)
unfolding opened
opening_one = refl

opening_refunded :
    create_dispute sample_fresh sample_now 1 (some 6) none "wrong page" sample_actor refunded_db
    ≡ ok (opened refunded_db, dispute)
unfolding opened
opening_refunded = refl

cancelling_refunded :
    cancel_dispute sample_fresh 1000500 1 100 sample_actor (opened refunded_db)
    ≡ ok (withdrawn (opened refunded_db))
unfolding opened withdrawn
cancelling_refunded = refl

dispute_stops_example :
    dispute.payout_id
    ≡ some
        (dispute_stops sample_fresh sample_fresh sample_now 2000001 1
          (some 6)
          none
          "wrong page"
          sample_actor
          sample_env
          payout_db
          (opened payout_db)
          dispute
          opening_one).1.id
dispute_stops_example =
    (dispute_stops sample_fresh sample_fresh sample_now 2000001 1 (some 6) none "wrong page"
      sample_actor sample_env payout_db (opened payout_db) dispute opening_one).10

cancel_unblocks_example :
    payout_of 6 (withdrawn (opened refunded_db))
    ≡ some (record refunded_payout { blocked_reason = none; updated_at = 1000500 })
unfolding find
cancel_unblocks_example =
    (cancel_unblocks sample_fresh sample_fresh sample_now 1000500 1 1 6 "wrong page" sample_actor
      sample_actor refunded_payout refunded_db (opened refunded_db) (withdrawn (opened refunded_db))
      dispute refl refl opening_refunded cancelling_refunded).0

refunded_found : payout_of 6 refunded_db ≡ some refunded_payout
unfolding find
refunded_found = refl

unused_id : dispute_of 100 refunded_db ≡ none
unfolding find
unused_id = refl

shares :
    handler_split sample_env refunded_payout
      (context_of_submission 4 (withdrawn (opened refunded_db)))
    ≡ ok (100, record { platform_fee_cents = 50; proofwork_fee_cents = 9; net_cents = 941 })
unfolding opened withdrawn find handler_split compute_payout_split_cents proofwork_fee_bps
    context_of_submission bounty_of_submission
shares = refl

refunded_is_paid_example :
    (refunded_is_paid sample_env sample_fresh sample_fresh sample_fresh sample_now 1000500 2000001 1
      1 6 "wrong page" sample_actor sample_actor refunded_payout
      (100, record { platform_fee_cents = 50; proofwork_fee_cents = 9; net_cents = 941 })
      ("mock", 55)
      refunded_db
      (opened refunded_db)
      (withdrawn (opened refunded_db))
      dispute
      refunded_found
      refl
      unused_id
      opening_refunded
      cancelling_refunded
      refl
      refl
      shares
      refl).0.status
    ≡ paid
refunded_is_paid_example =
    (refunded_is_paid sample_env sample_fresh sample_fresh sample_fresh sample_now 1000500 2000001 1
      1 6 "wrong page" sample_actor sample_actor refunded_payout
      (100, record { platform_fee_cents = 50; proofwork_fee_cents = 9; net_cents = 941 })
      ("mock", 55) refunded_db (opened refunded_db) (withdrawn (opened refunded_db)) dispute
      refunded_found refl unused_id opening_refunded cancelling_refunded refl refl shares refl).2

abbrev opening_balance : ℕ → ℕ
opening_balance k = if 1 == k then 5000 else 0

abbrev disputed_db : Db
disputed_db = record payout_db { disputes = dispute ∷ [] }

disputed_db-IsSound : IsSound opening_balance disputed_db
unfolding find event_sum ◌+ℤ◌
disputed_db-IsSound = record {
  ledger = record { named = (refl, tt); distinct = (refl, tt); balanced = λ k. ground arith };
  backed = (refl, tt);
}

dispute_found : dispute_of 100 disputed_db ≡ some dispute
unfolding find
dispute_found = refl

payout_found : payout_of 6 disputed_db ≡ some sample_payout
unfolding find
payout_found = refl

-- 1,000 cents less a fee of 9.
refund_credits_example :
    balance_of 1
      (refund_credits opening_balance sample_fresh 2000000 100 1 dispute 6 sample_payout none
        sample_actor disputed_db disputed_db-IsSound dispute_found refl refl payout_found refl
        refl).0.accounts
    ≡ 5991
unfolding find refund_cents
refund_credits_example =
    (refund_credits opening_balance sample_fresh 2000000 100 1 dispute 6 sample_payout none
      sample_actor disputed_db disputed_db-IsSound dispute_found refl refl payout_found refl refl).2

abbrev resolved_db : Db
unfolding resolve_dispute_admin settle_dispute mark_refunded credit_refund close_dispute
    ensure_account post_credit refund_cents find update
resolved_db =
    elim (resolve_dispute_admin sample_fresh 2000000 100 refund (some "auto_refund") system_actor
      disputed_db) [ ok db ↦ db | _ ↦ disputed_db ]

resolving :
    resolve_dispute_admin sample_fresh 2000000 100 refund
      (some "auto_refund")
      system_actor
      disputed_db
    ≡ ok resolved_db
unfolding resolved_db
resolving = refl

auto_refund_once_example :
    handle_dispute_auto_refund_requested sample_fresh 2000500 100 resolved_db ≡ ok resolved_db
unfolding handle_dispute_auto_refund_requested absorb resolved_db
auto_refund_once_example =
    auto_refund_once sample_fresh sample_fresh 2000000 2000500 100 disputed_db resolved_db refl
