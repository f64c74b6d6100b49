-- ===== src/OnChain.antt =====
-- workers/handlers.ts, the on-chain branch of `handlePayoutRequested`: nonces and transfer legs.
mod Examples
pub mod Broadcast
use Prim.Native.String.{String}
use openunion.Prelude.{
  ℕ, ◌+◌, ◌-◌, ◌*◌, Bool, true, false, Option, none, some, List, [], ◌∷◌, ◌++◌, ltb, leb, ◌==◌,
  ◌&&◌, ◌||◌, if◌then◌else◌, is_some, get_or, not,
}
use openunion.Prelude.Tables.{find, update, select}
use openunion.Prelude.Result.{Result, ok, err}
use openunion.Fees.{
  FeeError, PayoutSplit, compute_payout_split_cents, proofwork_fee_bps, cents_to_usdc_base_units,
}
use openunion.Rows.{
  Db, Org, Bounty, Payout, PayoutStatus, pending, paid, failed, refunded, BlockedReason,
  worker_payout_address_missing, Worker, Transfer, TransferKind, net_transfer,
  platform_fee_transfer, proofwork_fee_transfer, TransferStatus, broadcast, confirmed,
  transfer_failed, kind_code, NonceRow, payout_confirm_requested, payout_confirm_key,
  confirm_payload,
}
use openunion.Outbox.{enqueue_outbox}
use openunion.Payouts.{
  FeeEnv, payout_of, context_of_submission, fee_bps_of, fee_wallet_of, mark_payout_status,
  PayoutMeta,
}
use openunion.PayoutEnv.{
  HandlerError, payout_not_found, invalid_fee_bps_of_org, platform_fee_wallet_missing,
  fee_wallet_not_configured, payout_transfers_missing, tx_hash_missing, tx_receipt_pending,
  tx_not_enough_confirmations, fee_error, external_error, SplitterCall, Receipt, ProviderKind,
  off_chain, on_chain, Env, is_paid, is_failed, is_pending, held, must_wait, split_row, set_payout,
  Outcome,
}

-- A payout whose worker has no verified address on the chain is blocked until there is one.
unfoldable pub block_payout : ℕ → ℕ → Db → Db
block_payout now id db = record db {
  payouts =
      update (λ (p : Payout). p.id == id && is_pending p.status)
        (λ p. record p { blocked_reason = some worker_payout_address_missing; updated_at = now })
        db.payouts;
}

-- INSERT ... ON CONFLICT (payout_id, kind) DO UPDATE
pub upsert_transfer : Transfer → List Transfer → List Transfer
upsert_transfer t transfers =
    let same : Transfer → Bool =
      λ u. u.payout_id == t.payout_id && kind_code u.kind == kind_code t.kind in
    if is_some (find same transfers)
    then update same
        (λ u. record u { tx_hash = t.tx_hash; tx_nonce = t.tx_nonce; status = broadcast }) transfers
    else transfers ++ t ∷ []

pub new_transfer : ℕ → TransferKind → Option ℕ → ℕ → ℕ → ℕ → Transfer
new_transfer payout_id kind to amount_base_units hash nonce = record {
  payout_id = payout_id;
  kind = kind;
  to_address = to;
  amount_base_units = amount_base_units;
  tx_hash = some hash;
  tx_nonce = nonce;
  status = broadcast;
}

abbrev pub nonce_at : Env → NonceRow → Bool
nonce_at env r = r.chain_id == env.chain_id && r.from_address == env.from

-- The stored nonce is reconciled with the chain's pending one.
unfoldable pub choose_nonce : Option ℕ → ℕ → ℕ
choose_nonce none chain_pending = chain_pending
choose_nonce (some stored) chain_pending =
    if ltb chain_pending stored
    then chain_pending
    else if ltb stored chain_pending
    then chain_pending
    else stored

pub save_nonce : Env → ℕ → List NonceRow → List NonceRow
save_nonce env nonce rows =
    if is_some (find (nonce_at env) rows)
    then update (nonce_at env) (λ r. record r { next_nonce = nonce + 1 }) rows
    else rows
      ++ record { chain_id = env.chain_id; from_address = env.from; next_nonce = nonce + 1 } ∷ []

-- The transfer legs of a broadcast: the net amount, and each fee that is not 0.
pub broadcast_transfers : ℕ → SplitterCall → ℕ → ℕ → List Transfer → List Transfer
unfolding upsert_transfer new_transfer
broadcast_transfers payout_id call hash nonce transfers =
    let with_net =
      upsert_transfer (new_transfer payout_id net_transfer (some call.worker) call.net hash nonce)
        transfers in
    let with_platform =
      if ltb 0 call.platform_fee
      then upsert_transfer
          (new_transfer payout_id platform_fee_transfer call.platform call.platform_fee hash nonce)
          with_net
      else with_net in
    if ltb 0 call.proofwork_fee
    then upsert_transfer
        (new_transfer payout_id proofwork_fee_transfer (some call.proofwork) call.proofwork_fee hash
          nonce)
        with_platform
    else with_platform

abbrev pub stored_nonce : Env → Db → Option ℕ
stored_nonce env db = elim (find (nonce_at env) db.nonces) [
  | none ↦ none
  | some r ↦ some r.next_nonce
]

-- The transaction, once the chain has accepted the call: nonce, payout, legs, confirmation event.
unfoldable pub record_broadcast :
    Env → (ℕ → ℕ) → ℕ → ℕ → SplitterCall → ℕ → ℕ → (Payout → Payout) → Db → Db
record_broadcast env fresh now id call hash nonce split db = record db {
  nonces = save_nonce env nonce db.nonces;
  payouts =
      update (λ (p : Payout). p.id == id)
        (λ p. record (split p) { provider = some env.name; provider_ref = some hash }) db.payouts;
  transfers = broadcast_transfers id call hash nonce db.transfers;
  outbox =
      enqueue_outbox (fresh 0) payout_confirm_requested (confirm_payload id) (some (now + 30000))
        (some (payout_confirm_key id)) now db.outbox;
}

-- A refused broadcast throws inside the transaction, which is rolled back.
unfoldable pub settle_broadcast :
    Env → (ℕ → ℕ) → ℕ → ℕ → SplitterCall → ℕ → (Payout → Payout) → Result String ℕ → Db → Outcome
settle_broadcast env fresh now id call nonce split (err message) db =
    (db, err (external_error message))
settle_broadcast env fresh now id call nonce split (ok hash) db =
    (record_broadcast env fresh now id call hash nonce split db, ok tt)

-- The payout's call to the splitter contract, in base units.
unfoldable pub splitter_call : ℕ → Option ℕ → ℕ → PayoutSplit → SplitterCall
splitter_call worker platform_wallet pw_wallet split = record {
  worker = worker;
  platform = if ltb 0 split.platform_fee_cents then platform_wallet else none;
  proofwork = pw_wallet;
  net = cents_to_usdc_base_units split.net_cents;
  platform_fee = cents_to_usdc_base_units split.platform_fee_cents;
  proofwork_fee = cents_to_usdc_base_units split.proofwork_fee_cents;
}

abbrev pub ready_address : Option Worker → Option ℕ
ready_address none = none
ready_address (some w) =
    if w.payout_chain_is_base && w.payout_address_verified then w.payout_address else none

unfoldable pub pay_to :
    Env → (ℕ → ℕ) → ℕ → Payout → ℕ → Option ℕ → ℕ → ℕ → PayoutSplit → Option ℕ → Db → Outcome
unfolding settle_broadcast splitter_call
pay_to env fresh now payout platform_bps platform_wallet pw_wallet pw_bps split none db =
    (block_payout now payout.id db, ok tt)
pay_to env fresh now payout platform_bps platform_wallet pw_wallet pw_bps split (some worker) db =
    let call = splitter_call worker platform_wallet pw_wallet split in
    let nonce = choose_nonce (stored_nonce env db) env.pending_nonce in
    settle_broadcast env fresh now payout.id call nonce
      (split_row now platform_bps platform_wallet pw_bps split) (env.send nonce call) db

unfoldable pub pay_with_wallet :
    Env → (ℕ → ℕ) → ℕ → Payout → ℕ → Option ℕ → Option ℕ → ℕ → PayoutSplit → Db → Outcome
unfolding pay_to
pay_with_wallet env fresh now payout platform_bps platform_wallet none pw_bps split db =
    (db, err fee_wallet_not_configured)
pay_with_wallet env fresh now payout platform_bps platform_wallet (some pw_wallet) pw_bps split db =
    pay_to env fresh now payout platform_bps platform_wallet pw_wallet pw_bps split
      (ready_address (find (λ (w : Worker). w.id == payout.worker_id) db.workers)) db

unfoldable pub pay_on_chain :
    Env → (ℕ → ℕ) → ℕ → Payout → ℕ → Option ℕ → ℕ → PayoutSplit → Db → Outcome
unfolding pay_with_wallet
pay_on_chain env fresh now payout platform_bps platform_wallet pw_bps split db =
    pay_with_wallet env fresh now payout platform_bps platform_wallet env.fees.wallet pw_bps split
      db
