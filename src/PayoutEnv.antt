-- ===== src/PayoutEnv.antt =====
-- What the payout handlers of workers/handlers.ts work with. The payment provider, the chain's RPC and
-- the signer are services and packages: they are fields of `Env`, functions of what they are sent.
use Prim.Native.String.{String}
use openunion.Prelude.{ℕ, Bool, true, false, Option, none, some, ltb, ◌==◌, ◌||◌, is_some}
use openunion.Prelude.Tables.{update}
use openunion.Prelude.Result.{Result}
use openunion.Fees.{FeeError, PayoutSplit}
use openunion.Rows.{Db, Payout, PayoutStatus, pending, paid, failed}
use openunion.Payouts.{FeeEnv}

pub data HandlerError : Type 0 where
  payout_not_found invalid_fee_bps_of_org platform_fee_wallet_missing : HandlerError
  fee_wallet_not_configured payout_transfers_missing tx_hash_missing : HandlerError
  tx_receipt_pending tx_not_enough_confirmations : HandlerError
  fee_error : FeeError → HandlerError
  external_error : String → HandlerError

-- What the splitter contract is called with.
pub record SplitterCall : Type 0 where
  pub worker : ℕ
  pub platform : Option ℕ
  pub proofwork : ℕ
  pub net : ℕ
  pub platform_fee : ℕ
  pub proofwork_fee : ℕ

pub record Receipt : Type 0 where
  pub reverted : Bool
  pub block : ℕ

pub data ProviderKind : Type 0 where
  off_chain on_chain : ProviderKind

pub record Env : Type 0 where
  pub kind : ProviderKind
  pub name : String
  pub fees : FeeEnv
  -- createPayout({ payoutId, amountCents, workerId }): whether it is paid, the provider and its reference
  pub create_payout : ℕ → ℕ → ℕ → Result String (Bool × (String × ℕ))
  pub chain_id : ℕ
  pub from : ℕ
  pub pending_nonce : ℕ
  -- signAndBroadcastSplitterTx, at a nonce: the transaction's hash
  pub send : ℕ → SplitterCall → Result String ℕ
  -- eth_getTransactionReceipt and eth_blockNumber
  pub receipt : ℕ → Option Receipt
  pub latest_block : ℕ
  pub confirmations_required : ℕ

abbrev pub is_paid : PayoutStatus → Bool
is_paid paid = true
is_paid _ = false

abbrev pub is_failed : PayoutStatus → Bool
is_failed failed = true
is_failed _ = false

abbrev pub is_pending : PayoutStatus → Bool
is_pending pending = true
is_pending _ = false

abbrev pub held : Option ℕ → ℕ → Bool
held none now = false
held (some t) now = ltb now t

-- The early returns of the handler.
abbrev pub must_wait : ℕ → Payout → Bool
must_wait now p = is_paid p.status || is_some p.blocked_reason || held p.hold_until now

-- The columns of the fee split, off chain and on chain.
abbrev pub split_row : ℕ → ℕ → Option ℕ → ℕ → PayoutSplit → Payout → Payout
split_row now platform_bps platform_wallet pw_bps split p = record p {
  net_amount_cents = some split.net_cents;
  platform_fee_cents = some split.platform_fee_cents;
  platform_fee_bps = some platform_bps;
  platform_fee_wallet = platform_wallet;
  proofwork_fee_cents = some split.proofwork_fee_cents;
  proofwork_fee_bps = some pw_bps;
  updated_at = now;
}

unfoldable pub set_payout : ℕ → (Payout → Payout) → Db → Db
set_payout id patch db = record db {
  payouts = update (λ (p : Payout). p.id == id) patch db.payouts;
}

-- What was written before a throw stays written: the database comes back with the outcome.
abbrev pub Outcome : Type 0
Outcome = Db × Result HandlerError (Unit {0})
