-- ===== src/Accounts/Ledger.antt =====
-- The billing ledger of src/store.ts: every balance is what the account's events add up to.
use mathlib.Core.Option
use openunion.Prelude.{
  ℕ, ◌+◌, ◌-◌, ◌≤◌, ◌≡◌, refl, ap, Bool, true, false, Option, none, some, List, [], ◌∷◌, ◌++◌, map,
  ◌&&◌, ◌||◌, arith, leb, ◌==◌, ==_iff, if◌then◌else◌, All, Bool-cases, Option-cases, inl, inr,
}
use openunion.Prelude.Int.{pos, ◌+ℤ◌, int_laws}
use openunion.Prelude.Tables.{find, find-update, find_sound}
use openunion.Rows.{Account, BillingEvent}
use openunion.Accounts.{event_sum, can_pay, debit, credit}

-- The primary key: no two rows have one id.
abbrev pub contains : List ℕ → ℕ → Bool
contains [] k = false
contains (x ∷ xs) k = x == k || contains xs k

abbrev pub Distinct : List ℕ → Type 0
Distinct [] = Unit
Distinct (x ∷ xs) = (contains xs x ≡ false) × Distinct xs

abbrev pub id_of : Account → ℕ
id_of a = a.id

abbrev pub account_of : ℕ → List Account → Option Account
account_of k accounts = find (λ a. a.id == k) accounts

-- The balance of an account; one that is not there yet has nothing.
abbrev pub balance_of : ℕ → List Account → ℕ
balance_of k accounts = elim (account_of k accounts) [ none ↦ 0 | some a ↦ a.balance_cents ]

abbrev pub of_account : ℕ → BillingEvent → Bool
of_account k e = e.account_id == k

-- `opening` is what the accounts held before the first recorded event.
pub record IsLedger (opening : ℕ → ℕ) (accounts : List Account) (events : List BillingEvent)
    : Type 0 where
  pub named : All (λ (a : Account). a.id ≡ a.org_id) accounts
  pub distinct : Distinct (map id_of accounts)
  pub balanced :
      (k : ℕ) → pos (balance_of k accounts) ≡ pos (opening k) +ℤ event_sum (of_account k) events

pub event_sum-append :
    (p : BillingEvent → Bool) (xs : List BillingEvent) (e : BillingEvent)
    → event_sum p (xs ++ e ∷ []) ≡ event_sum p xs +ℤ (if p e then e.amount_cents else pos 0)
unfolding event_sum
event_sum-append p [] e = omega int_laws
event_sum-append p (x ∷ xs) e = rw (event_sum-append p xs e) (omega int_laws)

-- Where ids are distinct, the row that can pay is the row with the id.
contains_found :
    (k : ℕ) (p : Account → Bool) (xs : List Account) (a : Account)
    → find (λ x. x.id == k && p x) xs ≡ some a
    → contains (map id_of xs) k ≡ true
unfolding find
contains_found k p [] a h = cc
contains_found k p (x ∷ xs) a h = ground (arith, contains_found k p xs a)

pub account_of-can_pay :
    (k n : ℕ) (xs : List Account) (a : Account)
    → Distinct (map id_of xs)
    → find (can_pay k n) xs ≡ some a
    → account_of k xs ≡ some a
unfolding find
account_of-can_pay k n [] a d h = cc
account_of-can_pay k n (x ∷ xs) a d h = ground (
  arith,
  ==_iff x.id k,
  contains_found k (λ y. leb n y.balance_cents) xs a,
  account_of-can_pay k n xs a d.1,
  d.0,
)

pub find_named :
    (k : ℕ) (xs : List Account)
    → All (λ (a : Account). a.id ≡ a.org_id) xs
    → account_of k xs ≡ find (λ a. a.org_id == k) xs
unfolding find
find_named k [] h = refl
find_named k (x ∷ xs) h = ground (arith, h.0, find_named k xs h.1)

module _ (a n now : ℕ) (xs : List Account) where
  pub account_of-debit :
      (k : ℕ)
      → account_of k (debit a n now xs)
        ≡ Option.map
            (λ x.
              if can_pay a n x
              then record x { balance_cents = x.balance_cents - n; updated_at = now }
              else x)
            (account_of k xs)
  account_of-debit k = find-update (λ x. x.id == k) (can_pay a n) _ xs (λ x. refl)

  pub balance_of-debit :
      (r : Account)
      → account_of a xs ≡ some r
      → n ≤ r.balance_cents
      → (k : ℕ) → balance_of k (debit a n now xs) + (if a == k then n else 0) ≡ balance_of k xs
  balance_of-debit r found pays k = elim (Option-cases (account_of k xs)) [
    | inl gone ↦ elim (Bool-cases (a == k)) [
      | inl same ↦
          let p : account_of a xs ≡ account_of k xs =
            ap (λ j. account_of j xs) ((==_iff a k).0 same) in
          absurd (ground (arith, p, gone, found))
      | inr other ↦ rw other (ground (arith, account_of-debit k, gone))
    ]
    | inr (x, here) ↦
        let key = find_sound (λ (y : Account). y.id == k) xs x here in
        elim (Bool-cases (a == k)) [
          | inl same ↦
              let p : account_of a xs ≡ account_of k xs =
                ap (λ j. account_of j xs) ((==_iff a k).0 same) in
              ground (arith, account_of-debit k, here, p, found, key, pays, same)
          | inr other ↦ ground (arith, account_of-debit k, here, key, other)
        ]
  ]

  pub account_of-credit :
      (k : ℕ)
      → account_of k (credit a n now xs)
        ≡ Option.map
            (λ x.
              if x.id == a
              then record x { balance_cents = x.balance_cents + n; updated_at = now }
              else x)
            (account_of k xs)
  account_of-credit k = find-update (λ x. x.id == k) (λ x. x.id == a) _ xs (λ x. refl)

  pub balance_of-credit :
      (r : Account)
      → account_of a xs ≡ some r
      → (k : ℕ) → balance_of k (credit a n now xs) ≡ balance_of k xs + (if a == k then n else 0)
  balance_of-credit r found k = elim (Option-cases (account_of k xs)) [
    | inl gone ↦ elim (Bool-cases (a == k)) [
      | inl same ↦
          let p : account_of a xs ≡ account_of k xs =
            ap (λ j. account_of j xs) ((==_iff a k).0 same) in
          absurd (ground (arith, p, gone, found))
      | inr other ↦ rw other (ground (arith, account_of-credit k, gone))
    ]
    | inr (x, here) ↦
        let key = find_sound (λ (y : Account). y.id == k) xs x here in
        ground (arith, account_of-credit k, here, key)
  ]
