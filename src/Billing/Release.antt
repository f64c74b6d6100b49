-- ===== src/Billing/Release.antt =====
-- src/store.ts, setBountyStatus, and the admin top-up of src/server.ts: what is given back and added.
use openunion.Prelude.{
  ℕ, ◌+◌, ◌-◌, ◌≡◌, refl, ap, subst, true, some, ◌&&◌, not, arith, ltb, ◌==◌, ==_refl,
  if◌then◌else◌, is_some, Bool-cases, Option-cases, inl, inr, ◌⊎◌,
}
use openunion.Prelude.Tables.{find-update, All-update, All_find}
use openunion.Rows.{
  Db, Reservation, Bounty, BountyStatus, bounty_budget_release, admin_topup, active, released,
  closed,
}
use openunion.Accounts.{ensure_account, credit, post_credit, admin_audit}
use openunion.Billing.{
  with_status, reservation_of, is_closed, is_released, mark_released, release_reservation,
  set_bounty_status, admin_top_up, committed_cents,
}
use openunion.Accounts.Ledger.{account_of, balance_of, balance_of-credit}
use openunion.Accounts.Postings.{ensure-IsLedger}
use openunion.Billing.Books.{IsSound, ensure-IsSound, post_credit-IsSound}

mark_released-IsSound :
    {opening : ℕ → ℕ} (now id : ℕ) (db : Db)
    → IsSound opening db
    → IsSound opening (mark_released now id db)
unfolding mark_released
mark_released-IsSound now id db s = record {
  ledger = s.ledger;
  backed = All-update _ _ _ _ db.reservations (λ r h. ground (arith, h)) s.backed;
}

release-IsSound :
    {opening : ℕ → ℕ} (fresh : ℕ → ℕ) (now bounty_id : ℕ) (res : Reservation) (db : Db)
    → IsSound opening db
    → is_some (account_of res.account_id db.accounts) ≡ true
    → IsSound opening (release_reservation fresh now bounty_id res db)
unfolding release_reservation
release-IsSound fresh now bounty_id res db s there =
    let remaining = res.amount_cents - committed_cents bounty_id db in
    elim (Bool-cases (ltb 0 remaining)) [
      | inl more ↦ rw more (
          mark_released-IsSound now res.id _ (
            post_credit-IsSound (fresh 0) now res.account_id bounty_budget_release remaining db s
              there))
      | inr less ↦ rw less (mark_released-IsSound now res.id db s)
    ]

-- A change of status either moves no money, or releases the bounty's reservation.
set_bounty_status-eq-some :
    (fresh : ℕ → ℕ) (now bounty_id : ℕ) (status : BountyStatus) (db : Db) {db' : Db} {b : Bounty}
    → set_bounty_status fresh now bounty_id status db ≡ some (db', b)
    → (with_status bounty_id status db ≡ db')
      ⊎ ((res : Reservation) × (reservation_of bounty_id db ≡ some res)
          × (release_reservation fresh now bounty_id res (with_status bounty_id status db) ≡ db'))
unfolding set_bounty_status
set_bounty_status-eq-some fresh now bounty_id status db h =
    elim (Option-cases (reservation_of bounty_id db)) [
      | inl gone ↦ inl (ground (arith, gone, h))
      | inr (res, here) ↦ elim (Bool-cases (is_closed status && not (is_released res.status))) [
        | inl open_res ↦ inr (res, here, ground (arith, here, h, open_res))
        | inr kept ↦ inl (ground (arith, here, h, kept))
      ]
    ]

-- Pausing, reopening or closing a bounty keeps the ledger sound, the release of its budget included.
pub set_bounty_status-IsSound :
    {opening : ℕ → ℕ} (fresh : ℕ → ℕ) (now bounty_id : ℕ) (status : BountyStatus) (db db' : Db)
    (b : Bounty)
    → IsSound opening db
    → set_bounty_status fresh now bounty_id status db ≡ some (db', b)
    → IsSound opening db'
set_bounty_status-IsSound {opening} fresh now bounty_id status db db' b s h =
    let s1 : IsSound opening (with_status bounty_id status db) = record {
      ledger = s.ledger;
      backed = s.backed;
    } in
    elim (set_bounty_status-eq-some fresh now bounty_id status db h) [
      | inl same ↦ subst (IsSound opening) same s1
      | inr (res, here, e) ↦ subst (IsSound opening) e (
          release-IsSound fresh now bounty_id res (with_status bounty_id status db) s1 (
            All_find (λ (r : Reservation). is_some (account_of r.account_id db.accounts) ≡ true) _
              db.reservations res s.backed here))
    ]

-- An admin's top-up keeps the ledger sound, for an organisation with or without an account.
pub admin_top_up-IsSound :
    {opening : ℕ → ℕ} (fresh : ℕ → ℕ) (now org_id n : ℕ) (db db' : Db)
    → IsSound opening db
    → admin_top_up fresh now org_id n db ≡ some db'
    → IsSound opening db'
unfolding admin_top_up
admin_top_up-IsSound {opening} fresh now org_id n db db' s h =
    let acct = ensure_account org_id now db.accounts in
    let funded : Db = record db { accounts = acct.0 } in
    let s1 = ensure-IsSound org_id now db s in
    let found = (ensure-IsLedger org_id now s.ledger).1 in
    let s2 =
      post_credit-IsSound (fresh 0) now acct.1.id admin_topup n funded s1 (ap is_some found) in
    let e : admin_audit "billing.topup" acct.1.id now
          (post_credit (fresh 0) now acct.1.id admin_topup n funded)
        ≡ db' =
      ground (arith, h) in
    subst (IsSound opening) e (record { ledger = s2.ledger; backed = s2.backed })

-- Closing a bounty whose reservation is active gives its account what the reservation exceeds the
-- bounty's payouts by, and every other account keeps its balance.
pub close_returns :
    (fresh : ℕ → ℕ) (now bounty_id : ℕ) (res : Reservation) (db db' : Db) (b : Bounty)
    → reservation_of bounty_id db ≡ some res
    → res.status ≡ active
    → is_some (account_of res.account_id db.accounts) ≡ true
    → set_bounty_status fresh now bounty_id closed db ≡ some (db', b)
    → (k : ℕ)
    → balance_of k db'.accounts
      ≡ balance_of k db.accounts
        + (if res.account_id == k then res.amount_cents - committed_cents bounty_id db else 0)
unfolding set_bounty_status release_reservation post_credit mark_released committed_cents
close_returns fresh now bounty_id res db db' b here act there h k =
    let n = res.amount_cents - committed_cents bounty_id db in
    let left : db'.accounts
        ≡ (if ltb 0 n then credit res.account_id n now db.accounts else db.accounts) =
      ground (arith, here, act, h) in
    elim (Option-cases (account_of res.account_id db.accounts)) [
      | inl gone ↦ absurd (ground (arith, gone, there))
      | inr (a, found) ↦ elim (Bool-cases (ltb 0 n)) [
        | inl more ↦
            rw left (rw more (balance_of-credit res.account_id n now db.accounts a found k))
        | inr less ↦ rw left (rw less (ground (arith, less)))
      ]
    ]

-- After a close the bounty's reservation, if it has one, is released.
closed-released :
    (fresh : ℕ → ℕ) (now bounty_id : ℕ) (db db1 : Db) (b1 : Bounty) (r : Reservation)
    → set_bounty_status fresh now bounty_id closed db ≡ some (db1, b1)
    → reservation_of bounty_id db1 ≡ some r
    → is_released r.status ≡ true
unfolding set_bounty_status release_reservation post_credit mark_released
closed-released fresh now bounty_id db db1 b1 r h k =
    elim (Option-cases (reservation_of bounty_id db)) [
      | inl gone ↦ absurd (ground (arith, gone, h, k))
      | inr (res, here) ↦
          let after =
            find-update (λ (x : Reservation). x.bounty_id == bounty_id) (λ x. x.id == res.id)
              (λ x. record x { status = released; released_at = some now }) db.reservations
              (λ x. refl) in
          ground (arith, here, h, k, after, ==_refl res.id)
    ]

-- Once a bounty was closed, closing it again, like pausing or reopening it, gives nothing back.
pub close_once :
    (fresh fresh' : ℕ → ℕ) (now now' bounty_id : ℕ) (status : BountyStatus) (db db1 db2 : Db)
    (b1 b2 : Bounty)
    → set_bounty_status fresh now bounty_id closed db ≡ some (db1, b1)
    → set_bounty_status fresh' now' bounty_id status db1 ≡ some (db2, b2)
    → (db2.accounts ≡ db1.accounts) × (db2.events ≡ db1.events)
unfolding set_bounty_status
close_once fresh fresh' now now' bounty_id status db db1 db2 b1 b2 h k =
    elim (Option-cases (reservation_of bounty_id db1)) [
      | inl gone ↦ (ground (arith, gone, k), ground (arith, gone, k))
      | inr (res, here) ↦
          let over = closed-released fresh now bounty_id db db1 b1 res h here in
          (ground (arith, here, k, over), ground (arith, here, k, over))
    ]

-- A change of status leaves the bounty its reservation.
pub reservation_kept :
    (fresh : ℕ → ℕ) (now bounty_id : ℕ) (status : BountyStatus) (db db' : Db) (b : Bounty)
    (res : Reservation)
    → reservation_of bounty_id db ≡ some res
    → set_bounty_status fresh now bounty_id status db ≡ some (db', b)
    → (r : Reservation) × (reservation_of bounty_id db' ≡ some r)
unfolding set_bounty_status release_reservation post_credit mark_released
reservation_kept fresh now bounty_id status db db' b res here h =
    let after =
      find-update (λ (x : Reservation). x.bounty_id == bounty_id) (λ x. x.id == res.id)
        (λ x. record x { status = released; released_at = some now }) db.reservations (λ x. refl) in
    elim (Option-cases (reservation_of bounty_id db')) [
      | inl gone ↦ absurd (ground (arith, here, h, after, gone))
      | inr found ↦ found
    ]
