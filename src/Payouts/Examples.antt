-- ===== src/Payouts/Examples.antt =====
-- A second payout of src/store.ts for one submission.
use openunion.Prelude.{◌≡◌, ◌≤◌, refl, arith, some}
use openunion.Prelude.Tables.{find, update, count}
use openunion.Prelude.Result.{ok, err}
use openunion.Fees.{compute_payout_split_cents, proofwork_fee_bps}
use openunion.Rows.{Db, Payout}
use openunion.Payouts.{FeeEnv, add_payout, context_of_submission, bounty_of_submission}
use openunion.Payouts.Once.{of_submission, add_payout_once}
use openunion.Samples.{payout_db, sample_payout}

abbrev fees : FeeEnv
fees = record { bps = 100; max_bps = 500; wallet = some 99 }

abbrev again_db : Db
unfolding add_payout find update context_of_submission bounty_of_submission
    compute_payout_split_cents proofwork_fee_bps
again_db = elim (add_payout fees 50 800000 4 5 1000 payout_db) [
  | ok (db, _) ↦ db
  | err _ ↦ payout_db
]

abbrev again_row : Payout
unfolding add_payout find update context_of_submission bounty_of_submission
    compute_payout_split_cents proofwork_fee_bps
again_row = elim (add_payout fees 50 800000 4 5 1000 payout_db) [
  | ok (_, p) ↦ p
  | err _ ↦ sample_payout
]

adding_again : add_payout fees 50 800000 4 5 1000 payout_db ≡ ok (again_db, again_row)
unfolding again_db again_row
adding_again = refl

one_payout : count (of_submission 4) payout_db.payouts ≤ 1
unfolding count
one_payout = omega arith

add_payout_once_example : count (of_submission 4) again_db.payouts ≤ 1
add_payout_once_example =
    (add_payout_once fees 50 800000 4 5 1000 4 payout_db again_db again_row one_payout
      adding_again).0
