-- ===== src/Billing/Reserve.antt =====
-- src/store.ts, publishBounty: what a publication reserves, and how often.
use openunion.Prelude.{
  ℕ, ◌+◌, ◌-◌, ◌≡◌, refl, ap, true, is_some, if◌then◌else◌, Option, some, List, arith, ◌==◌,
  Option-cases, inl, inr, ◌∙◌,
}
use openunion.Prelude.Result.{ok}
use openunion.Prelude.Tables.{find, find_sound, find-update, update}
use openunion.Rows.{Db, Account, Reservation, Bounty, Org, published, paused, closed, active}
use openunion.Accounts.{acct_id, ensure_account}
use openunion.Billing.{
  reserve_budget, generate_jobs, publish_row, publish_bounty, reserve_cents_of, published_row,
  mark_published, org_of, reservation_of, set_bounty_status, committed_cents,
}
use openunion.Accounts.Ledger.{account_of, balance_of}
use openunion.Billing.Release.{close_once, close_returns, reservation_kept}
use openunion.Accounts.Postings.{new_balance}
use openunion.Billing.Books.{publish_row-eq-ok}

pub balance_of-ensure :
    (k org_id now : ℕ) (xs : List Account)
    → balance_of k (ensure_account org_id now xs).0 ≡ balance_of k xs
unfolding ensure_account
balance_of-ensure k org_id now xs =
    let new : Account = record {
      id = acct_id org_id;
      org_id = org_id;
      balance_cents = 0;
      updated_at = now;
    } in
    ground (arith, new_balance xs new refl k)

pub generate_jobs_keeps :
    (fresh : ℕ → ℕ) (now : ℕ) (b : Bounty) (org : Option Org) (db : Db) {db' : Db}
    → generate_jobs fresh now b org db ≡ ok db'
    → (db'.accounts ≡ db.accounts) × (db'.events ≡ db.events) × (db'.reservations ≡ db.reservations)
unfolding generate_jobs
generate_jobs_keeps fresh now b org db h = (ground arith, ground arith, ground arith)

generate_jobs_bounties :
    (fresh : ℕ → ℕ) (now : ℕ) (b : Bounty) (org : Option Org) (db : Db) {db' : Db}
    → generate_jobs fresh now b org db ≡ ok db'
    → db'.bounties ≡ db.bounties
unfolding generate_jobs
generate_jobs_bounties fresh now b org db h = ground arith

reserve_skipped :
    (fresh : ℕ → ℕ) (now bounty_id n : ℕ) (acct : Account) (org : Option Org) (db : Db)
    (res : Reservation)
    → reservation_of bounty_id db ≡ some res
    → reserve_budget fresh now bounty_id n acct org db ≡ ok db
unfolding reserve_budget
reserve_skipped fresh now bounty_id n acct org db res here = ground (arith, here)

publish_row_once :
    (fresh : ℕ → ℕ) (now bounty_id : ℕ) (existing : Bounty) (res : Reservation) (db db' : Db)
    (b : Bounty)
    → reservation_of bounty_id db ≡ some res
    → publish_row fresh now bounty_id existing db ≡ ok (db', b)
    → (k : ℕ)
    → (balance_of k db'.accounts ≡ balance_of k db.accounts)
      × (db'.events ≡ db.events)
      × (db'.reservations ≡ db.reservations)
      × (db'.bounties ≡ update (λ (x : Bounty). x.id == bounty_id) (published_row now) db.bounties)
unfolding mark_published
publish_row_once fresh now bounty_id existing res db db' b here h k =
    let (reserved, q, r, e) = publish_row-eq-ok fresh now bounty_id existing db h in
    let acct = (ensure_account existing.org_id now db.accounts).1 in
    let funded : Db = record db { accounts = (ensure_account existing.org_id now db.accounts).0 } in
    let skip =
      reserve_skipped fresh now bounty_id (reserve_cents_of existing) acct (org_of existing db)
        funded res here in
    let same : reserved ≡ funded = ground (arith, skip, q) in
    let keep =
      generate_jobs_keeps fresh now (published_row now existing) (org_of existing db)
        (mark_published now bounty_id reserved) r in
    (
      rw (keep.0, same) (balance_of-ensure k existing.org_id now db.accounts),
      keep.1 ∙ ap (λ (d : Db). d.events) same,
      keep.2 ∙ ap (λ (d : Db). d.reservations) same,
      generate_jobs_bounties fresh now (published_row now existing) (org_of existing db)
            (mark_published now bounty_id reserved) r
          ∙ ap (λ (d : Db). (mark_published now bounty_id d).bounties) same,
    )

-- A bounty that has a reservation is published without another: no balance, no event and no
-- reservation changes, whatever the reservation's status is, and the bounty's row is published.
pub publish_once :
    (fresh : ℕ → ℕ) (now bounty_id : ℕ) (res : Reservation) (db db' : Db) (b : Bounty)
    → reservation_of bounty_id db ≡ some res
    → publish_bounty fresh now bounty_id db ≡ ok (db', b)
    → (k : ℕ)
    → (balance_of k db'.accounts ≡ balance_of k db.accounts)
      × (db'.events ≡ db.events)
      × (db'.reservations ≡ db.reservations)
      × (row : Bounty) × (find (λ (x : Bounty). x.id == bounty_id) db'.bounties ≡ some row)
      × (row.status ≡ published)
unfolding publish_bounty
publish_once fresh now bounty_id res db db' b here h k =
    let is_it = λ (x : Bounty). x.id == bounty_id in
    elim (Option-cases (find is_it db.bounties)) [
      | inl gone ↦ absurd (ground (arith, gone, h))
      | inr (existing, found) ↦
          let (balance, events, reservations, bounties) =
            publish_row_once fresh now bounty_id existing res db db' b here
              (ground (arith, found, h)) k in
          let hit : is_it existing ≡ true = find_sound is_it db.bounties existing found in
          let moved = find-update is_it is_it (published_row now) db.bounties (λ x. refl) in
          (
            balance,
            events,
            reservations,
            published_row now existing,
            ground (arith, ap (find is_it) bounties, moved, found, hit),
            refl,
          )
    ]

paused_reservations :
    (fresh : ℕ → ℕ) (now bounty_id : ℕ) (db db' : Db) (b : Bounty)
    → set_bounty_status fresh now bounty_id paused db ≡ some (db', b)
    → db'.reservations ≡ db.reservations
unfolding set_bounty_status
paused_reservations fresh now bounty_id db db' b h = ground (arith, h)

-- A bounty with an active reservation that is closed, then paused and then published, at whatever
-- times, has a published row in the end, and its organisation keeps what the close gave back: every
-- balance is what it was before the close, with what the reservation exceeded the bounty's payouts by
-- added to the reservation's account. Neither the pause nor the publication posts a billing event or
-- changes a reservation.
pub reopened_unfunded :
    (fresh fresh' fresh'' : ℕ → ℕ) (now now' now'' bounty_id : ℕ) (res : Reservation)
    (db db1 db2 db3 : Db) (b1 b2 b3 : Bounty)
    → reservation_of bounty_id db ≡ some res
    → res.status ≡ active
    → is_some (account_of res.account_id db.accounts) ≡ true
    → set_bounty_status fresh now bounty_id closed db ≡ some (db1, b1)
    → set_bounty_status fresh' now' bounty_id paused db1 ≡ some (db2, b2)
    → publish_bounty fresh'' now'' bounty_id db2 ≡ ok (db3, b3)
    → (k : ℕ)
    → (balance_of k db3.accounts
        ≡ balance_of k db.accounts
          + (if res.account_id == k then res.amount_cents - committed_cents bounty_id db else 0))
      × (db3.events ≡ db1.events)
      × (db3.reservations ≡ db1.reservations)
      × (row : Bounty) × (find (λ (x : Bounty). x.id == bounty_id) db3.bounties ≡ some row)
      × (row.status ≡ published)
reopened_unfunded fresh fresh' fresh'' now now' now'' bounty_id res db db1 db2 db3 b1 b2 b3 here act
      there c p h k =
    let (r1, here1) = reservation_kept fresh now bounty_id closed db db1 b1 res here c in
    let (r2, here2) = reservation_kept fresh' now' bounty_id paused db1 db2 b2 r1 here1 p in
    let (accounts, events) =
      close_once fresh fresh' now now' bounty_id paused db db1 db2 b1 b2 c p in
    let back = close_returns fresh now bounty_id res db db1 b1 here act there c k in
    let (balance, no_event, no_reservation, row, found, open_row) =
      publish_once fresh'' now'' bounty_id r2 db2 db3 b3 here2 h k in
    (
      balance ∙ ap (λ (xs : List Account). balance_of k xs) accounts ∙ back,
      no_event ∙ events,
      no_reservation ∙ paused_reservations fresh' now' bounty_id db1 db2 b2 p,
      row,
      found,
      open_row,
    )
