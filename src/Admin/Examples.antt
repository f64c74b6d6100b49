-- ===== src/Admin/Examples.antt =====
-- An administrator's marks on the sample payout.
use openunion.Prelude.{ℕ, ◌≡◌, ◌⊎◌, refl, some, none}
use openunion.Prelude.Tables.{find, update}
use openunion.Prelude.Result.{ok}
use openunion.Fees.{PayoutSplit, compute_payout_split_cents, proofwork_fee_bps}
use openunion.Rows.{Db, Payout, pending, failed, paid}
use openunion.Payouts.{payout_of, mark_payout_status, bounty_of_submission, context_of_submission}
use openunion.Handlers.{handle_payout_requested, handler_split}
use openunion.Accounts.{admin_audit}
use openunion.Samples.{payout_db, sample_payout, sample_env, sample_fresh}
use openunion.Admin.{mark_duplicate}
use openunion.Admin.Payouts.{retry_payout, retried}
use openunion.Admin.Reviews.{duplicate_still_paid}
use openunion.Admin.Payouts.Status.{retry_restarts}

abbrev marked_db : Db
unfolding mark_duplicate find update admin_audit
marked_db = elim (mark_duplicate 1000000 4 payout_db) [ none ↦ payout_db | some db ↦ db ]

marked_it : mark_duplicate 1000000 4 payout_db ≡ some marked_db
unfolding marked_db
marked_it = refl

payout_found : payout_of 6 payout_db ≡ some sample_payout
unfolding find
payout_found = refl

abbrev split : ℕ × PayoutSplit
unfolding handler_split find context_of_submission bounty_of_submission compute_payout_split_cents
    proofwork_fee_bps
split = elim (handler_split sample_env sample_payout (context_of_submission 4 payout_db)) [
  | ok s ↦ s
  | _ ↦ (0, record { net_cents = 0; platform_fee_cents = 0; proofwork_fee_cents = 0 })
]

shares : handler_split sample_env sample_payout (context_of_submission 4 payout_db) ≡ ok split
unfolding split
shares = refl

duplicate_still_paid_example :
    (marked_db.payouts ≡ payout_db.payouts)
    × (marked_db.outbox ≡ payout_db.outbox)
    × (p' : Payout) × (payout_of 6
          (handle_payout_requested sample_env sample_fresh 3000000 6 marked_db).0
        ≡ some p')
    × (p'.status ≡ paid)
    × (p'.net_amount_cents ≡ some split.1.net_cents)
duplicate_still_paid_example =
    duplicate_still_paid sample_env sample_fresh 1000000 3000000 4 6 sample_payout split
      ("mock", 55) payout_db marked_db payout_found marked_it refl refl shares refl

abbrev retried_db : Db
unfolding retry_payout find update admin_audit mark_payout_status
retried_db = (retry_payout sample_fresh 1000000 6 payout_db).0

retried_it : retry_payout sample_fresh 1000000 6 payout_db ≡ (retried_db, retried)
unfolding retried_db
retried_it = refl

retry_restarts_example :
    (p : Payout) × (payout_of 6 payout_db ≡ some p) × ((p.status ≡ pending) ⊎ (p.status ≡ failed))
retry_restarts_example =
    let (p, here, was, _, _, _, _, _, _, _, _, _, _) =
      retry_restarts sample_fresh 1000000 6 payout_db retried_db retried_it in
    (p, here, was)
