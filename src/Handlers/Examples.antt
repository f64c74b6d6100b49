-- ===== src/Handlers/Examples.antt =====
-- The payout handlers of workers/handlers.ts on one payout.
use openunion.Prelude.{◌≡◌, refl, arith, some, [], ◌∷◌}
use openunion.Prelude.Tables.{find, update, select}
use openunion.Prelude.Result.{ok}
use openunion.Fees.{PayoutSplit, compute_payout_split_cents, proofwork_fee_bps}
use openunion.Rows.{Db, Payout, Transfer, paid, net_transfer, confirmed, broadcast}
use openunion.Payouts.{context_of_submission, bounty_of_submission, mark_payout_status}
use openunion.Handlers.{
  handle_payout_requested, handle_payout_confirm_requested, handler_split, transfers_of,
  confirm_receipt, set_transfers, provider_meta,
}
use openunion.Handlers.Once.{paid_once}
use openunion.Handlers.Again.{Ready, broadcast_again}
use openunion.Handlers.Confirm.{Confirmed, confirm_pays}
use openunion.Samples.{sample_fresh, sample_payout, payout_db, sample_env, sample_chain_env}

abbrev pub sample_split : PayoutSplit
sample_split = record { platform_fee_cents = 50; proofwork_fee_cents = 9; net_cents = 941 }

paid_once_example : (handle_payout_requested sample_env sample_fresh 2000001 6 payout_db).1 ≡ ok tt
unfolding find context_of_submission bounty_of_submission handler_split compute_payout_split_cents
    proofwork_fee_bps
paid_once_example =
    (paid_once sample_env sample_env sample_fresh sample_fresh 2000001 2000002 6 sample_payout
      (100, sample_split) ("mock", 55) payout_db refl refl refl refl refl).0

ready : Ready sample_chain_env 6 sample_payout (100, sample_split) 99 88 payout_db
unfolding find context_of_submission bounty_of_submission handler_split compute_payout_split_cents
    proofwork_fee_bps
ready = record { here = refl; on = refl; shares = refl; fee_wallet = refl; worker = refl }

broadcast_again_example :
    (broadcast_again sample_chain_env sample_fresh sample_fresh 2000001 2000002 6 sample_payout
      (100, sample_split)
      99
      88
      1007
      1008
      payout_db
      ready
      refl
      (omega arith)
      refl
      refl).0.provider_ref
    ≡ some 1008
broadcast_again_example =
    (broadcast_again sample_chain_env sample_fresh sample_fresh 2000001 2000002 6 sample_payout
      (100, sample_split) 99 88 1007 1008 payout_db ready refl (omega arith) refl refl).3

abbrev sample_transfer : Transfer
sample_transfer = record {
  payout_id = 6;
  kind = net_transfer;
  to_address = some 88;
  amount_base_units = 9410000;
  tx_hash = some 1007;
  tx_nonce = 7;
  status = broadcast;
}

abbrev sent_db : Db
sent_db = record payout_db { transfers = sample_transfer ∷ [] }

abbrev confirmed_payout : Payout
confirmed_payout = record sample_payout {
  status = paid;
  updated_at = 2000100;
  provider = some "crypto_base_usdc";
  provider_ref = some 1007;
}

abbrev confirmed_db : Db
confirmed_db = record payout_db {
  transfers = record sample_transfer { status = confirmed } ∷ [];
  payouts = confirmed_payout ∷ [];
}

confirming :
    handle_payout_confirm_requested sample_chain_env 2000100 6 sent_db ≡ (confirmed_db, ok tt)
unfolding handle_payout_confirm_requested transfers_of confirm_receipt set_transfers provider_meta
    mark_payout_status find update select
confirming = refl

confirm_pays_example : Confirmed sample_chain_env (transfers_of 6 sent_db)
unfolding find
confirm_pays_example =
    confirm_pays sample_chain_env 2000100 6 sample_payout confirmed_payout sent_db confirmed_db refl
      refl confirming refl refl
