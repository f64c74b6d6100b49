-- ===== src/Payouts.antt =====
-- Payouts: `addPayout` and `markPayoutStatus` of src/store.ts. The in-process metric counters are
-- left out, here as everywhere.
mod Examples
pub mod Frame
pub mod Once
use Prim.Native.String.{String}
use openunion.Prelude.{
  ℕ, ◌+◌, ◌*◌, Bool, Option, none, some, List, [], ◌∷◌, ◌++◌, ltb, ◌==◌, if◌then◌else◌, get_or,
}
use openunion.Prelude.Tables.{find, update}
use openunion.Prelude.Result.{Result, ok, ◌>>=◌}
use openunion.Fees.{FeeError, PayoutSplit, compute_payout_split_cents, proofwork_fee_bps}
use openunion.Rows.{Db, Org, Bounty, Job, Submission, Payout, PayoutStatus, pending}

-- The environment's fee settings: the basis points and their bound, and Proofwork's wallet.
pub record FeeEnv : Type 0 where
  pub bps : ℕ
  pub max_bps : ℕ
  pub wallet : Option ℕ

abbrev pub payout_of : ℕ → Db → Option Payout
payout_of id db = find (λ (p : Payout). p.id == id) db.payouts

-- submissions INNER JOIN jobs INNER JOIN bounties, WHERE submissions.id = ...
unfoldable pub bounty_of_submission : ℕ → Db → Option Bounty
bounty_of_submission submission_id db =
    elim (find (λ (s : Submission). s.id == submission_id) db.submissions) [
      | none ↦ none
      | some s ↦ elim (find (λ (j : Job). j.id == s.job_id) db.jobs) [
        | none ↦ none
        | some j ↦ find (λ (b : Bounty). b.id == j.bounty_id) db.bounties
      ]
    ]

-- The same, INNER JOIN orgs.
unfoldable pub context_of_submission : ℕ → Db → Option (Bounty × Org)
context_of_submission submission_id db = elim (bounty_of_submission submission_id db) [
  | none ↦ none
  | some b ↦ elim (find (λ (o : Org). o.id == b.org_id) db.orgs) [
    | none ↦ none
    | some o ↦ some (b, o)
  ]
]

-- `ctx?.column ?? 0`
abbrev pub window_of : Option (Bounty × Org) → ℕ
window_of none = 0
window_of (some (b, o)) = b.dispute_window_sec

abbrev pub fee_bps_of : Option (Bounty × Org) → ℕ
fee_bps_of none = 0
fee_bps_of (some (b, o)) = o.platform_fee_bps

abbrev pub fee_wallet_of : Option (Bounty × Org) → Option ℕ
fee_wallet_of none = none
fee_wallet_of (some (b, o)) = o.platform_fee_wallet

abbrev pub hold_until_of : ℕ → ℕ → Option ℕ
hold_until_of now window_sec = if ltb 0 window_sec then some (now + window_sec * 1000) else none

-- The columns that `doUpdateSet` writes.
abbrev pub with_split : ℕ → ℕ → Option ℕ → Option ℕ → PayoutSplit → Payout → Payout
with_split now platform_bps platform_wallet hold split p = record p {
  net_amount_cents = some split.net_cents;
  platform_fee_cents = some split.platform_fee_cents;
  platform_fee_bps = some platform_bps;
  platform_fee_wallet = platform_wallet;
  proofwork_fee_cents = some split.proofwork_fee_cents;
  hold_until = hold;
  updated_at = now;
}

-- INSERT ... ON CONFLICT (submission_id) DO UPDATE, and the row that it returns.
pub upsert_payout : Payout → (Payout → Payout) → List Payout → List Payout × Payout
upsert_payout new patch payouts =
    let same : Payout → Bool = λ p. p.submission_id == new.submission_id in
    elim (find same payouts) [
      | none ↦ (payouts ++ new ∷ [], new)
      | some old ↦ (update same patch payouts, patch old)
    ]

-- The row that is inserted.
abbrev pub new_payout : ℕ → ℕ → ℕ → ℕ → ℕ → Option (Bounty × Org) → ℕ → PayoutSplit → Payout
new_payout id now submission_id worker_id amount_cents ctx pw_bps split = record {
  id = id;
  submission_id = submission_id;
  worker_id = worker_id;
  amount_cents = amount_cents;
  status = pending;
  provider = none;
  provider_ref = none;
  net_amount_cents = some split.net_cents;
  platform_fee_cents = some split.platform_fee_cents;
  platform_fee_bps = some (fee_bps_of ctx);
  platform_fee_wallet = fee_wallet_of ctx;
  proofwork_fee_cents = some split.proofwork_fee_cents;
  proofwork_fee_bps = some pw_bps;
  hold_until = hold_until_of now (window_of ctx);
  blocked_reason = none;
  created_at = now;
  updated_at = now;
}

-- What the row that is there becomes.
abbrev pub resplit : ℕ → Option (Bounty × Org) → ℕ → PayoutSplit → Payout → Payout
resplit now ctx pw_bps split p =
    record (with_split now (fee_bps_of ctx) (fee_wallet_of ctx) (hold_until_of now (window_of ctx))
      split p) { proofwork_fee_bps = some pw_bps }

unfoldable pub add_payout : FeeEnv → ℕ → ℕ → ℕ → ℕ → ℕ → Db → Result FeeError (Db × Payout)
unfolding upsert_payout
add_payout env id now submission_id worker_id amount_cents db = do
  let ctx = context_of_submission submission_id db
  pw_bps ← proofwork_fee_bps env.bps env.max_bps
  split ← compute_payout_split_cents amount_cents (fee_bps_of ctx) pw_bps
  let upserted =
      upsert_payout (new_payout id now submission_id worker_id amount_cents ctx pw_bps split)
        (resplit now ctx pw_bps split) db.payouts
  ok (record db { payouts = upserted.0 }, upserted.1)

-- `meta` holds a provider and its reference where the caller gives them; a missing one is kept.
pub record PayoutMeta : Type 0 where
  pub provider : Option (Option String)
  pub provider_ref : Option (Option ℕ)

abbrev pub status_row : PayoutStatus → PayoutMeta → ℕ → Payout → Payout
status_row status meta now p = record p {
  status = status;
  updated_at = now;
  provider = get_or meta.provider p.provider;
  provider_ref = get_or meta.provider_ref p.provider_ref;
}

unfoldable pub mark_payout_status : ℕ → PayoutStatus → PayoutMeta → ℕ → Db → Db
mark_payout_status id status meta now db = record db {
  payouts = update (λ (p : Payout). p.id == id) (status_row status meta now) db.payouts;
}
