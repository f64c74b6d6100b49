-- ===== src/Billing/Examples.antt =====
-- Budgets of src/store.ts on one bounty.
use openunion.Prelude.{ℕ, ◌≡◌, ◌+◌, refl, arith, some, if◌then◌else◌, ◌==◌}
use openunion.Prelude.Int.{◌+ℤ◌}
use openunion.Prelude.Tables.{find, update, count, sum}
use openunion.Prelude.Result.{ok}
use openunion.Rows.{Db, Bounty, paused, closed, published}
use openunion.Accounts.{
  event_sum, ensure_account, post_reserve, post_credit, spent_since, admin_audit, day_start,
  month_start,
}
use openunion.Accounts.Ledger.{balance_of}
use openunion.Billing.{
  publish_bounty, publish_row, reserve_budget, generate_jobs, mark_published, open_jobs,
  settle_reservation, release_reservation, mark_released, set_bounty_status, admin_top_up,
  committed_cents, published_row,
}
use openunion.LedgerRuns.{next_step, done_run, moves, publishes, run-IsSound}
use openunion.Billing.Books.{IsSound, publish-IsSound}
use openunion.Billing.Release.{set_bounty_status-IsSound, close_returns}
use openunion.Billing.Limits.{publish_reserves}
use openunion.Billing.Reserve.{reopened_unfunded}
use openunion.Samples.{
  sample_fresh, sample_now, sample_bounty, sample_reservation, draft_db, payout_db,
}

abbrev opening : ℕ → ℕ
opening k = if 1 == k then 5000 else 0

draft-IsSound : IsSound opening draft_db
unfolding find event_sum ◌+ℤ◌
draft-IsSound = record {
  ledger = record { named = (refl, tt); distinct = (refl, tt); balanced = λ k. ground arith };
  backed = tt;
}

payout_db-IsSound : IsSound opening payout_db
unfolding find event_sum ◌+ℤ◌
payout_db-IsSound = record {
  ledger = record { named = (refl, tt); distinct = (refl, tt); balanced = λ k. ground arith };
  backed = (refl, tt);
}

abbrev published_db : Db
unfolding publish_bounty publish_row reserve_budget generate_jobs mark_published open_jobs find
    update count event_sum ensure_account post_reserve spent_since day_start month_start
published_db = elim (publish_bounty sample_fresh sample_now 2 draft_db) [
  | ok (db, _) ↦ db
  | _ ↦ draft_db
]

published_bounty :
    publish_bounty sample_fresh sample_now 2 draft_db
    ≡ ok (published_db, published_row sample_now sample_bounty)
unfolding publish_bounty publish_row reserve_budget generate_jobs mark_published open_jobs find
    update count event_sum ensure_account post_reserve spent_since day_start month_start
    published_db
published_bounty = refl

publish-IsSound_example : IsSound opening published_db
publish-IsSound_example =
    publish-IsSound sample_fresh sample_now 2 draft_db published_db
      (published_row sample_now sample_bounty) draft-IsSound published_bounty

-- The account of organisation 1 is debited by 2,000 cents for two jobs.
publish_reserves_example : balance_of 1 published_db.accounts + 2000 ≡ 5000
unfolding find
publish_reserves_example =
    (publish_reserves opening sample_fresh sample_now 2 sample_bounty draft_db published_db
      (published_row sample_now sample_bounty) draft-IsSound refl refl (omega arith)
      published_bounty 1).0

-- The same bounty closed, paused and published again, with one payout made.
abbrev closed_db : Db
unfolding set_bounty_status settle_reservation release_reservation mark_released committed_cents
    post_credit find update sum
closed_db = elim (set_bounty_status sample_fresh sample_now 2 closed payout_db) [
  | some (db, _) ↦ db
  | _ ↦ payout_db
]

abbrev paused_db : Db
unfolding set_bounty_status settle_reservation release_reservation mark_released committed_cents
    post_credit find update sum closed_db
paused_db = elim (set_bounty_status sample_fresh sample_now 2 paused closed_db) [
  | some (db, _) ↦ db
  | _ ↦ closed_db
]

abbrev reopened_db : Db
unfolding publish_bounty publish_row reserve_budget generate_jobs mark_published open_jobs find
    update count event_sum ensure_account post_reserve spent_since day_start month_start paused_db
reopened_db = elim (publish_bounty sample_fresh sample_now 2 paused_db) [
  | ok (db, _) ↦ db
  | _ ↦ paused_db
]

closing :
    set_bounty_status sample_fresh sample_now 2 closed payout_db
    ≡ some (closed_db, record sample_bounty { status = closed })
unfolding closed_db set_bounty_status settle_reservation release_reservation mark_released
    committed_cents post_credit find update sum
closing = refl

pausing :
    set_bounty_status sample_fresh sample_now 2 paused closed_db
    ≡ some (paused_db, record sample_bounty { status = paused })
unfolding closed_db paused_db set_bounty_status settle_reservation release_reservation mark_released
    committed_cents post_credit find update sum
pausing = refl

reopening :
    publish_bounty sample_fresh sample_now 2 paused_db
    ≡ ok (reopened_db, published_row sample_now sample_bounty)
unfolding reopened_db closed_db paused_db set_bounty_status settle_reservation release_reservation
    mark_released committed_cents post_credit sum publish_bounty publish_row reserve_budget
    generate_jobs mark_published open_jobs find update count event_sum ensure_account post_reserve
    spent_since day_start month_start
reopening = refl

set_bounty_status-IsSound_example : IsSound opening closed_db
set_bounty_status-IsSound_example =
    set_bounty_status-IsSound sample_fresh sample_now 2 closed payout_db closed_db
      (record sample_bounty { status = closed }) payout_db-IsSound closing

-- 2,000 cents were reserved, and 1,000 are held by the payout.
close_returns_example : balance_of 1 closed_db.accounts ≡ 6000
unfolding find committed_cents sum
close_returns_example =
    close_returns sample_fresh sample_now 2 sample_reservation payout_db closed_db
      (record sample_bounty { status = closed }) refl refl refl closing 1

-- The 1,000 cents that the close gave back are still the organisation's.
reopened_unfunded_example :
    (balance_of 1 reopened_db.accounts ≡ 6000)
    × (row : Bounty) × (find (λ (x : Bounty). x.id == 2) reopened_db.bounties ≡ some row)
    × (row.status ≡ published)
unfolding find committed_cents sum
reopened_unfunded_example =
    let (balance, _, _, row, found, open_row) =
      reopened_unfunded sample_fresh sample_fresh sample_fresh sample_now sample_now sample_now 2
        sample_reservation payout_db closed_db paused_db reopened_db
        (record sample_bounty { status = closed }) (record sample_bounty { status = paused })
        (published_row sample_now sample_bounty) refl refl refl closing pausing reopening 1 in
    (balance, row, found, open_row)

abbrev topped_db : Db
unfolding admin_top_up admin_audit ensure_account post_credit find update
topped_db = elim (admin_top_up sample_fresh sample_now 1 700 draft_db) [
  | some db ↦ db
  | _ ↦ draft_db
]

topping_up : admin_top_up sample_fresh sample_now 1 700 draft_db ≡ some topped_db
unfolding topped_db admin_top_up admin_audit ensure_account post_credit find update
topping_up = refl

run-IsSound_example : IsSound opening reopened_db
run-IsSound_example =
    run-IsSound
      (next_step (moves sample_fresh sample_now 2 closed closing) (
        next_step (moves sample_fresh sample_now 2 paused pausing)
          (next_step (publishes sample_fresh sample_now 2 reopening) done_run)))
      payout_db-IsSound
