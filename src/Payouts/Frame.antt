-- ===== src/Payouts/Frame.antt =====
-- src/store.ts, addPayout: what it leaves alone.
use openunion.Prelude.{ℕ, ◌≡◌, arith, inl, inr}
use openunion.Prelude.Result.{ok, Result-cases}
use openunion.Fees.{compute_payout_split_cents, proofwork_fee_bps}
use openunion.Rows.{Db, Payout}
use openunion.Payouts.{FeeEnv, add_payout, context_of_submission, fee_bps_of}

-- Only the payouts change.
pub add_payout-frame :
    (env : FeeEnv) (id now submission_id worker_id amount_cents : ℕ) (db : Db) {db' : Db}
    {row : Payout}
    → add_payout env id now submission_id worker_id amount_cents db ≡ ok (db', row)
    → db' ≡ record db { payouts = db'.payouts }
unfolding add_payout
add_payout-frame env id now submission_id worker_id amount_cents db h =
    let ctx = context_of_submission submission_id db in
    elim (Result-cases (proofwork_fee_bps env.bps env.max_bps)) [
      | inl (e, bad) ↦ absurd (ground (arith, bad, h))
      | inr (pw, good) ↦
          elim (Result-cases (compute_payout_split_cents amount_cents (fee_bps_of ctx) pw)) [
            | inl (e, bad) ↦ absurd (ground (arith, good, bad, h))
            | inr (split, made) ↦ ground (arith, good, made, h)
          ]
    ]
