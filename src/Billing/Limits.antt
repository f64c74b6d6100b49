-- ===== src/Billing/Limits.antt =====
-- src/store.ts, publishBounty: what a first publication debits, within which limits.
use openunion.Prelude.{
  ℕ, ◌+◌, ◌<◌, ◌≡◌, ap, subst, true, Option, none, some, List, arith, ◌==◌, if◌then◌else◌, is_some,
  Option-cases, inl, inr, sym, ◌∙◌,
}
use openunion.Prelude.Result.{ok}
use openunion.Prelude.Tables.{find, find_sound, All_find}
use openunion.Rows.{Db, Account, BillingEvent, Bounty, Org}
use openunion.Accounts.{
  ensure_account, can_pay, debit, post_reserve, spent_since, day_start, month_start,
}
use openunion.Billing.{
  limit_of, within, reserve_budget, publish_row, publish_bounty, reserve_cents_of, published_row,
  mark_published, org_of, reservation_of,
}
use openunion.Accounts.Ledger.{IsLedger, balance_of, account_of-can_pay, balance_of-debit}
use openunion.Accounts.Postings.{ensure-IsLedger}
use openunion.Billing.Books.{IsSound, publish_row-eq-ok}
use openunion.Billing.Reserve.{balance_of-ensure, generate_jobs_keeps}

-- The account that is found or made for an organisation is its own.
pub acct_id_lem :
    (opening : ℕ → ℕ) (org_id now : ℕ) (db : Db)
    → IsSound opening db
    → (ensure_account org_id now db.accounts).1.id ≡ org_id
unfolding ensure_account
acct_id_lem opening org_id now db s =
    elim (Option-cases (find (λ (a : Account). a.org_id == org_id) db.accounts)) [
      | inl gone ↦ ground (arith, gone)
      | inr (a, here) ↦
          let own : a.id ≡ a.org_id =
            All_find (λ x. x.id ≡ x.org_id) _ db.accounts a s.ledger.named here in
          ground
            (arith, here, own, find_sound (λ (x : Account). x.org_id == org_id) db.accounts a here)
    ]

-- What a reservation that is made checks and posts.
reserve_posted :
    (fresh : ℕ → ℕ) (now bounty_id n : ℕ) (acct : Account) (org : Option Org) (db : Db) {db' : Db}
    → reservation_of bounty_id db ≡ none
    → 0 < n
    → reserve_budget fresh now bounty_id n acct org db ≡ ok db'
    → (is_some (find (can_pay acct.id n) db.accounts) ≡ true)
      × (post_reserve fresh now bounty_id n acct db ≡ db')
      × (within
            (limit_of (λ o. o.daily_spend_limit_cents) org)
            (spent_since acct.id (day_start now) db.events + n)
          ≡ true)
      × (within
            (limit_of (λ o. o.monthly_spend_limit_cents) org)
            (spent_since acct.id (month_start now) db.events + n)
          ≡ true)
unfolding reserve_budget
reserve_posted fresh now bounty_id n acct org db gone more h =
    (ground (arith, gone), ground (arith, gone), ground (arith, gone), ground (arith, gone))

-- What a covered debit leaves, account by account.
debit_balance :
    {opening : ℕ → ℕ} {events : List BillingEvent} (a n now : ℕ) (xs : List Account)
    → IsLedger opening xs events
    → is_some (find (can_pay a n) xs) ≡ true
    → (k : ℕ) → balance_of k (debit a n now xs) + (if a == k then n else 0) ≡ balance_of k xs
debit_balance a n now xs l pays k = elim (Option-cases (find (can_pay a n) xs)) [
  | inl gone ↦ absurd (ground (arith, gone, pays))
  | inr (r, here) ↦
      balance_of-debit a n now xs r (account_of-can_pay a n xs r l.distinct here)
        (ground (arith, find_sound (can_pay a n) xs r here)) k
]

publish_row_reserves :
    (opening : ℕ → ℕ) (fresh : ℕ → ℕ) (now bounty_id : ℕ) (existing : Bounty) (db db' : Db)
    (b : Bounty)
    → IsSound opening db
    → reservation_of bounty_id db ≡ none
    → 0 < reserve_cents_of existing
    → publish_row fresh now bounty_id existing db ≡ ok (db', b)
    → (k : ℕ)
    → (balance_of k db'.accounts + (if existing.org_id == k then reserve_cents_of existing else 0)
        ≡ balance_of k db.accounts)
      × (within
            (limit_of (λ o. o.daily_spend_limit_cents) (org_of existing db))
            (spent_since existing.org_id (day_start now) db.events + reserve_cents_of existing)
          ≡ true)
      × (within
            (limit_of (λ o. o.monthly_spend_limit_cents) (org_of existing db))
            (spent_since existing.org_id (month_start now) db.events + reserve_cents_of existing)
          ≡ true)
unfolding mark_published post_reserve
publish_row_reserves opening fresh now bounty_id existing db db' b s gone more h k =
    let (reserved, q, r, e) = publish_row-eq-ok fresh now bounty_id existing db h in
    let acct = (ensure_account existing.org_id now db.accounts).1 in
    let funded : Db = record db { accounts = (ensure_account existing.org_id now db.accounts).0 } in
    let n = reserve_cents_of existing in
    let own : acct.id ≡ existing.org_id = acct_id_lem opening existing.org_id now db s in
    let found = (ensure-IsLedger existing.org_id now s.ledger).1 in
    let (pays, posted, daily, monthly) =
      reserve_posted fresh now bounty_id n acct (org_of existing db) funded gone more q in
    let keep =
      generate_jobs_keeps fresh now (published_row now existing) (org_of existing db)
        (mark_published now bounty_id reserved) r in
    (
      let paid =
            debit_balance acct.id n now funded.accounts
              (ensure-IsLedger existing.org_id now s.ledger).0 pays k in
          let accts : db'.accounts ≡ debit acct.id n now funded.accounts =
            keep.0 ∙ ap (λ (d : Db). d.accounts) (sym posted) in
          rw accts (
            subst
              (λ o.
                balance_of k (debit acct.id n now funded.accounts) + (if o == k then n else 0)
                ≡ balance_of k db.accounts)
              own (paid ∙ balance_of-ensure k existing.org_id now db.accounts)),
      rw own at daily,
      rw own at monthly,
    )

-- A first publication debits the bounty's organisation by the payout for each job, leaves every
-- other balance as it was, and is within the daily and the monthly limit that the organisation has.
pub publish_reserves :
    (opening : ℕ → ℕ) (fresh : ℕ → ℕ) (now bounty_id : ℕ) (existing : Bounty) (db db' : Db)
    (b : Bounty)
    → IsSound opening db
    → find (λ (x : Bounty). x.id == bounty_id) db.bounties ≡ some existing
    → reservation_of bounty_id db ≡ none
    → 0 < reserve_cents_of existing
    → publish_bounty fresh now bounty_id db ≡ ok (db', b)
    → (k : ℕ)
    → (balance_of k db'.accounts + (if existing.org_id == k then reserve_cents_of existing else 0)
        ≡ balance_of k db.accounts)
      × (within
            (limit_of (λ o. o.daily_spend_limit_cents) (org_of existing db))
            (spent_since existing.org_id (day_start now) db.events + reserve_cents_of existing)
          ≡ true)
      × (within
            (limit_of (λ o. o.monthly_spend_limit_cents) (org_of existing db))
            (spent_since existing.org_id (month_start now) db.events + reserve_cents_of existing)
          ≡ true)
unfolding publish_bounty
publish_reserves opening fresh now bounty_id existing db db' b s found gone more h k =
    publish_row_reserves opening fresh now bounty_id existing db db' b s gone more
      (ground (arith, found, h)) k
