-- ===== src/Handlers.antt =====
-- workers/handlers.ts: `handlePayoutRequested` and `handlePayoutConfirmRequested`.
mod Examples
pub mod Once
pub mod Again
pub mod Confirm
use Prim.Native.String.{String}
use openunion.Prelude.{
  ℕ, ◌+◌, ◌-◌, ◌*◌, Bool, true, false, Option, none, some, List, [], ◌∷◌, ◌++◌, ltb, leb, ◌==◌,
  ◌&&◌, ◌||◌, if◌then◌else◌, is_some, get_or, not,
}
use openunion.Prelude.Tables.{find, update, select}
use openunion.Prelude.Result.{Result, ok, err}
use openunion.Fees.{
  FeeError, PayoutSplit, compute_payout_split_cents, proofwork_fee_bps, cents_to_usdc_base_units,
}
use openunion.Rows.{
  Db, Org, Bounty, Payout, PayoutStatus, pending, paid, failed, refunded, BlockedReason,
  worker_payout_address_missing, Worker, Transfer, TransferKind, net_transfer,
  platform_fee_transfer, proofwork_fee_transfer, TransferStatus, broadcast, confirmed,
  transfer_failed, kind_code, NonceRow, payout_confirm_requested, payout_confirm_key,
  confirm_payload,
}
use openunion.Outbox.{enqueue_outbox}
use openunion.Payouts.{
  FeeEnv, payout_of, context_of_submission, fee_bps_of, fee_wallet_of, mark_payout_status,
  PayoutMeta,
}
use openunion.PayoutEnv.{
  HandlerError, payout_not_found, invalid_fee_bps_of_org, platform_fee_wallet_missing,
  fee_wallet_not_configured, payout_transfers_missing, tx_hash_missing, tx_receipt_pending,
  tx_not_enough_confirmations, fee_error, external_error, SplitterCall, Receipt, ProviderKind,
  off_chain, on_chain, Env, is_paid, is_failed, is_pending, held, must_wait, split_row, set_payout,
  Outcome,
}
use openunion.OnChain.{pay_on_chain}

-- `res.status === 'paid'` or not, once the provider answered.
settle_off_chain : Env → ℕ → ℕ → Result String (Bool × (String × ℕ)) → Db → Outcome
settle_off_chain env now id (err message) db = (db, err (external_error message))
settle_off_chain env now id (ok (is_paid_now, ref)) db = (
  mark_payout_status id (if is_paid_now then paid else failed)
      (record { provider = some (some ref.0); provider_ref = some (some ref.1) }) now db,
  ok tt,
)

pay_off_chain : Env → ℕ → Payout → ℕ → Option ℕ → ℕ → PayoutSplit → Db → Outcome
unfolding settle_off_chain set_payout
pay_off_chain env now payout platform_bps platform_wallet pw_bps split db =
    settle_off_chain env now payout.id
      (env.create_payout payout.id split.net_cents payout.worker_id)
      (set_payout payout.id (split_row now platform_bps platform_wallet pw_bps split) db)

-- The split that the handler computes, from the organisation's and the environment's fees.
unfoldable pub handler_split :
    Env → Payout → Option (Bounty × Org) → Result HandlerError (ℕ × PayoutSplit)
handler_split env payout ctx =
    if ltb 10000 (fee_bps_of ctx)
    then err invalid_fee_bps_of_org
    else if ltb 0 (fee_bps_of ctx) && not (is_some (fee_wallet_of ctx))
    then err platform_fee_wallet_missing
    else elim (proofwork_fee_bps env.fees.bps env.fees.max_bps) [
      | err e ↦ err (fee_error e)
      | ok pw_bps ↦ elim (compute_payout_split_cents payout.amount_cents (fee_bps_of ctx) pw_bps) [
        | err e ↦ err (fee_error e)
        | ok split ↦ ok (pw_bps, split)
      ]
    ]

pay :
    Env
    → (ℕ → ℕ)
    → ℕ
    → Payout
    → Option (Bounty × Org)
    → ProviderKind
    → ℕ
    → PayoutSplit
    → Db
    → Outcome
unfolding pay_off_chain
pay env fresh now payout ctx off_chain pw_bps split db =
    pay_off_chain env now payout (fee_bps_of ctx) (fee_wallet_of ctx) pw_bps split db
pay env fresh now payout ctx on_chain pw_bps split db =
    pay_on_chain env fresh now payout (fee_bps_of ctx) (fee_wallet_of ctx) pw_bps split db

pay_split :
    Env
    → (ℕ → ℕ)
    → ℕ
    → Payout
    → Option (Bounty × Org)
    → Result HandlerError (ℕ × PayoutSplit)
    → Db
    → Outcome
unfolding pay
pay_split env fresh now payout ctx (err e) db = (db, err e)
pay_split env fresh now payout ctx (ok (pw_bps, split)) db =
    pay env fresh now payout ctx env.kind pw_bps split db

request_row : Env → (ℕ → ℕ) → ℕ → Option Payout → Db → Outcome
unfolding pay_split
request_row env fresh now none db = (db, err payout_not_found)
request_row env fresh now (some payout) db =
    let ctx = context_of_submission payout.submission_id db in
    if must_wait now payout
    then (db, ok tt)
    else pay_split env fresh now payout ctx (handler_split env payout ctx) db

unfoldable pub handle_payout_requested : Env → (ℕ → ℕ) → ℕ → ℕ → Db → Outcome
unfolding request_row
handle_payout_requested env fresh now payout_id db =
    request_row env fresh now (payout_of payout_id db) db

abbrev is_confirmed : TransferStatus → Bool
is_confirmed confirmed = true
is_confirmed _ = false

abbrev pub all_confirmed : List Transfer → Bool
all_confirmed [] = true
all_confirmed (t ∷ ts) = is_confirmed t.status && all_confirmed ts

pub transfers_of : ℕ → Db → List Transfer
transfers_of payout_id db = select (λ (t : Transfer). t.payout_id == payout_id) db.transfers

set_transfers : ℕ → TransferStatus → Db → Db
set_transfers payout_id status db = record db {
  transfers =
      update (λ (t : Transfer). t.payout_id == payout_id) (λ t. record t { status = status })
        db.transfers;
}

-- `payout.provider ?? 'crypto_base_usdc'`
provider_meta : Payout → Option ℕ → PayoutMeta
provider_meta payout hash = record {
  provider = some (some (get_or payout.provider "crypto_base_usdc"));
  provider_ref = some hash;
}

confirm_receipt : Env → ℕ → Payout → ℕ → Option Receipt → Db → Outcome
unfolding set_transfers provider_meta
confirm_receipt env now payout hash none db = (db, err tx_receipt_pending)
confirm_receipt env now payout hash (some r) db =
    let confirmations =
      if leb r.block env.latest_block then env.latest_block - r.block + 1 else 0 in
    if r.reverted
    then (
      mark_payout_status payout.id failed (provider_meta payout (some hash)) now
          (set_transfers payout.id transfer_failed db),
      ok tt,
    )
    else if ltb confirmations env.confirmations_required
    then (db, err tx_not_enough_confirmations)
    else (
      mark_payout_status payout.id paid (provider_meta payout (some hash)) now
          (set_transfers payout.id confirmed db),
      ok tt,
    )

confirm_transfers : Env → ℕ → Payout → List Transfer → Db → Outcome
unfolding confirm_receipt
confirm_transfers env now payout [] db = (db, err payout_transfers_missing)
confirm_transfers env now payout (t ∷ ts) db =
    if all_confirmed (t ∷ ts)
    then (mark_payout_status payout.id paid (provider_meta payout t.tx_hash) now db, ok tt)
    else elim t.tx_hash [
      | none ↦ (db, err tx_hash_missing)
      | some hash ↦ confirm_receipt env now payout hash (env.receipt hash) db
    ]

confirm_row : Env → ℕ → Option Payout → Db → Outcome
unfolding confirm_transfers transfers_of
confirm_row env now none db = (db, err payout_not_found)
confirm_row env now (some payout) db =
    if is_paid payout.status || is_failed payout.status
    then (db, ok tt)
    else confirm_transfers env now payout (transfers_of payout.id db) db

unfoldable pub handle_payout_confirm_requested : Env → ℕ → ℕ → Db → Outcome
unfolding confirm_row
handle_payout_confirm_requested env now payout_id db =
    confirm_row env now (payout_of payout_id db) db
