-- ===== src/Billing/Books.antt =====
-- The operations of src/store.ts and src/server.ts that post to the ledger keep it sound.
use openunion.Prelude.{
  ℕ, ◌≡◌, refl, ap, true, Option, some, List, [], ◌∷◌, arith, ◌==◌, All, is_some, Option-cases, inl,
  inr, ◌⊎◌, ◌∙◌, subst,
}
use openunion.Prelude.Result.{ok}
use openunion.Prelude.Tables.{find, find-append, All-imp, All-append}
use openunion.Rows.{Db, Account, Reservation, Bounty, Org, EventType}
use openunion.Accounts.{acct_id, ensure_account, can_pay, debit, credit, post_credit, post_reserve}
use openunion.Billing.{
  reserve_budget, generate_jobs, publish_row, publish_bounty, reserve_cents_of, published_row,
  mark_published, org_of,
}
use openunion.Accounts.Ledger.{IsLedger, account_of, account_of-debit, account_of-credit}
use openunion.Accounts.Postings.{debit-IsLedger, credit-IsLedger, ensure-IsLedger}

-- The ledger adds up, and every reservation is of an account that is there.
pub record IsSound (opening : ℕ → ℕ) (db : Db) : Type 0 where
  pub ledger : IsLedger opening db.accounts db.events
  pub backed :
      All
        (λ (r : Reservation). is_some (account_of r.account_id db.accounts) ≡ true)
        db.reservations

is_some-debit :
    (k a n now : ℕ) (xs : List Account)
    → is_some (account_of k (debit a n now xs)) ≡ is_some (account_of k xs)
is_some-debit k a n now xs = ground (arith, account_of-debit a n now xs k)

pub is_some-credit :
    (k a n now : ℕ) (xs : List Account)
    → is_some (account_of k (credit a n now xs)) ≡ is_some (account_of k xs)
is_some-credit k a n now xs = ground (arith, account_of-credit a n now xs k)

-- A reservation that succeeds either was there already, or posts what the account can pay.
pub reserve_budget-eq-ok :
    (fresh : ℕ → ℕ) (now bounty_id n : ℕ) (acct : Account) (org : Option Org) (db : Db) {db' : Db}
    → reserve_budget fresh now bounty_id n acct org db ≡ ok db'
    → (db ≡ db')
      ⊎ ((is_some (find (can_pay acct.id n) db.accounts) ≡ true)
          × (post_reserve fresh now bounty_id n acct db ≡ db'))
unfolding reserve_budget
reserve_budget-eq-ok fresh now bounty_id n acct org db h = ground arith

post_reserve-IsSound :
    {opening : ℕ → ℕ} (fresh : ℕ → ℕ) (now bounty_id n : ℕ) (acct : Account) (db : Db)
    → IsSound opening db
    → account_of acct.id db.accounts ≡ some acct
    → is_some (find (can_pay acct.id n) db.accounts) ≡ true
    → IsSound opening (post_reserve fresh now bounty_id n acct db)
unfolding post_reserve
post_reserve-IsSound fresh now bounty_id n acct db s found pays =
    elim (Option-cases (find (can_pay acct.id n) db.accounts)) [
      | inl gone ↦ absurd (ground (arith, gone, pays))
      | inr (a, here) ↦ record {
        ledger = debit-IsLedger s.ledger _ n now a here refl;
        backed =
            All-append _ db.reservations _
              (All-imp _ _ _ (λ r h. is_some-debit r.account_id acct.id n now db.accounts ∙ h)
                s.backed)
              (is_some-debit acct.id acct.id n now db.accounts ∙ ap is_some found);
      }
    ]

-- Generating the jobs touches neither the accounts, nor the events, nor the reservations.
generate_jobs-IsSound :
    {opening : ℕ → ℕ} (fresh : ℕ → ℕ) (now : ℕ) (b : Bounty) (org : Option Org) (db db' : Db)
    → IsSound opening db
    → generate_jobs fresh now b org db ≡ ok db'
    → IsSound opening db'
unfolding generate_jobs
generate_jobs-IsSound fresh now b org db db' s h =
    let a : db'.accounts ≡ db.accounts = ground arith in
    let e : db'.events ≡ db.events = ground arith in
    let r : db'.reservations ≡ db.reservations = ground arith in
    record { ledger = rw (a, e) s.ledger; backed = rw (a, r) s.backed }

-- A publication that succeeds, by its two parts.
pub publish_row-eq-ok :
    (fresh : ℕ → ℕ) (now bounty_id : ℕ) (existing : Bounty) (db : Db) {db' : Db} {b : Bounty}
    → publish_row fresh now bounty_id existing db ≡ ok (db', b)
    → (reserved : Db) × (reserve_budget fresh now bounty_id
          (reserve_cents_of existing)
          (ensure_account existing.org_id now db.accounts).1
          (org_of existing db)
          (record db { accounts = (ensure_account existing.org_id now db.accounts).0 })
        ≡ ok reserved)
      × (generate_jobs fresh now
            (published_row now existing)
            (org_of existing db)
            (mark_published now bounty_id reserved)
          ≡ ok db')
      × (b ≡ published_row now existing)
unfolding publish_row
publish_row-eq-ok fresh now bounty_id existing db h = ground arith

is_some-ensure :
    (k org_id now : ℕ) (xs : List Account)
    → is_some (account_of k xs) ≡ true
    → is_some (account_of k (ensure_account org_id now xs).0) ≡ true
unfolding ensure_account
is_some-ensure k org_id now xs h =
    let new : Account = record {
      id = acct_id org_id;
      org_id = org_id;
      balance_cents = 0;
      updated_at = now;
    } in
    ground (arith, find-append (λ (a : Account). a.id == k) xs (new ∷ []), h)

-- `ensure_account` inserts at most an empty account.
pub ensure-IsSound :
    {opening : ℕ → ℕ} (org_id now : ℕ) (db : Db)
    → IsSound opening db
    → IsSound opening (record db { accounts = (ensure_account org_id now db.accounts).0 })
ensure-IsSound org_id now db s = record {
  ledger = (ensure-IsLedger org_id now s.ledger).0;
  backed = All-imp _ _ _ (λ r h. is_some-ensure r.account_id org_id now db.accounts h) s.backed;
}

publish_row-IsSound :
    {opening : ℕ → ℕ} (fresh : ℕ → ℕ) (now bounty_id : ℕ) (existing : Bounty) (db db' : Db)
    (b : Bounty)
    → IsSound opening db
    → publish_row fresh now bounty_id existing db ≡ ok (db', b)
    → IsSound opening db'
publish_row-IsSound {opening} fresh now bounty_id existing db db' b s h =
    let (reserved, q, r, _) = publish_row-eq-ok fresh now bounty_id existing db h in
    let acct = (ensure_account existing.org_id now db.accounts).1 in
    let funded : Db = record db { accounts = (ensure_account existing.org_id now db.accounts).0 } in
    let s1 : IsSound opening funded = ensure-IsSound existing.org_id now db s in
    let found = (ensure-IsLedger existing.org_id now s.ledger).1 in
    let s2 : IsSound opening reserved =
      elim (reserve_budget-eq-ok fresh now bounty_id (reserve_cents_of existing) acct
        (org_of existing db) funded q) [
          | inl same ↦ subst (IsSound opening) same s1
          | inr (pays, posted) ↦ subst (IsSound opening) posted (
              post_reserve-IsSound fresh now bounty_id (reserve_cents_of existing) acct funded s1
                found pays)
        ] in
    let s3 : IsSound opening (mark_published now bounty_id reserved) =
      unfold mark_published in record { ledger = s2.ledger; backed = s2.backed } in
    generate_jobs-IsSound fresh now _ _ _ db' s3 r

-- Publishing a bounty keeps the ledger sound, with the account that it makes, the reservation and
-- the debit.
pub publish-IsSound :
    {opening : ℕ → ℕ} (fresh : ℕ → ℕ) (now bounty_id : ℕ) (db db' : Db) (b : Bounty)
    → IsSound opening db
    → publish_bounty fresh now bounty_id db ≡ ok (db', b)
    → IsSound opening db'
unfolding publish_bounty
publish-IsSound fresh now bounty_id db db' b s h =
    elim (Option-cases (find (λ (x : Bounty). x.id == bounty_id) db.bounties)) [
      | inl gone ↦ absurd (ground (arith, gone, h))
      | inr (existing, here) ↦
          publish_row-IsSound fresh now bounty_id existing db db' b s (ground (arith, here, h))
    ]

-- A credit to an account that is there.
pub post_credit-IsSound :
    {opening : ℕ → ℕ} (event_id now account_id : ℕ) (type : EventType) (n : ℕ) (db : Db)
    → IsSound opening db
    → is_some (account_of account_id db.accounts) ≡ true
    → IsSound opening (post_credit event_id now account_id type n db)
unfolding post_credit
post_credit-IsSound event_id now account_id type n db s there =
    elim (Option-cases (account_of account_id db.accounts)) [
      | inl gone ↦ absurd (ground (arith, gone, there))
      | inr (a, here) ↦ record {
        ledger = credit-IsLedger s.ledger _ n now a here refl;
        backed =
            All-imp _ _ _ (λ r h. is_some-credit r.account_id account_id n now db.accounts ∙ h)
              s.backed;
      }
    ]
