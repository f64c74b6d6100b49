-- ===== src/Accounts/Postings.antt =====
-- Each posting of src/store.ts, a change of a balance with its billing event, keeps the ledger.
use openunion.Prelude.{
  ℕ, ◌≡◌, refl, ap, false, none, some, List, [], ◌∷◌, ◌++◌, map, arith, ◌==◌, ==_refl, Option-cases,
  inl, inr, ◌≢◌, ◌∙◌,
}
use openunion.Prelude.Int.{pos, neg, fall, rise}
use openunion.Prelude.Tables.{
  find, find-append, map-update, find_sound, All-update, All_find, All-append,
}
use mathlib.Core.List.{map-append}
use openunion.Rows.{Account, BillingEvent}
use openunion.Accounts.{ensure_account, acct_id, can_pay, debit, credit, debited, credited}
use openunion.Accounts.Ledger.{
  IsLedger, Distinct, id_of, contains, account_of, balance_of, of_account, event_sum-append,
  account_of-can_pay, find_named, balance_of-debit, balance_of-credit,
}

module _ {opening : ℕ → ℕ} {accounts : List Account} {events : List BillingEvent}
    (l : IsLedger opening accounts events) (e : BillingEvent) (n now : ℕ) where
  -- A debit that the balance covers, with its negative event.
  pub debit-IsLedger :
      (a : Account)
      → find (can_pay e.account_id n) accounts ≡ some a
      → e.amount_cents ≡ neg n
      → IsLedger opening (debit e.account_id n now accounts) (events ++ e ∷ [])
  debit-IsLedger a found amount =
      let r = account_of-can_pay e.account_id n accounts a l.distinct found in
      let pays = find_sound (can_pay e.account_id n) accounts a found in
      record {
        named = All-update _ _ _ _ accounts (λ x h. ground (arith, h)) l.named;
        distinct =
            rw (map-update id_of (can_pay e.account_id n) (debited n now) accounts (λ x. refl))
              l.distinct;
        balanced = λ k.
            rw (event_sum-append (of_account k) events e, amount)
              (fall (e.account_id == k) _ _ n _ _ (l.balanced k)
                (balance_of-debit e.account_id n now accounts a r (ground (arith, pays)) k));
      }

  -- A credit to an account that is there, with its positive event.
  pub credit-IsLedger :
      (a : Account)
      → account_of e.account_id accounts ≡ some a
      → e.amount_cents ≡ pos n
      → IsLedger opening (credit e.account_id n now accounts) (events ++ e ∷ [])
  credit-IsLedger a found amount = record {
    named = All-update _ _ _ _ accounts (λ x h. ground (arith, h)) l.named;
    distinct =
        rw (map-update id_of (λ x. x.id == e.account_id) (credited n now) accounts (λ x. refl))
          l.distinct;
    balanced = λ k.
        rw (event_sum-append (of_account k) events e, amount)
          (rise (e.account_id == k) _ _ n _ _ (l.balanced k)
            (balance_of-credit e.account_id n now accounts a found k));
  }

contains-append :
    (xs : List ℕ) (x new : ℕ)
    → contains xs x ≡ false
    → x ≢ new
    → contains (xs ++ new ∷ []) x ≡ false
contains-append [] x new h ne = ground arith
contains-append (y ∷ xs) x new h ne = ground (arith, contains-append xs x new)

Distinct-append :
    (xs : List ℕ) (new : ℕ) → Distinct xs → contains xs new ≡ false → Distinct (xs ++ new ∷ [])
Distinct-append [] new d h = (refl, tt)
Distinct-append (x ∷ xs) new d h =
    (contains-append xs x new d.0 (ground arith), Distinct-append xs new d.1 (ground arith))

not_found : (k : ℕ) (xs : List Account) → account_of k xs ≡ none → contains (map id_of xs) k ≡ false
unfolding find
not_found k [] h = refl
not_found k (x ∷ xs) h = ground (arith, not_found k xs)

-- An empty account at the end changes no balance.
pub new_balance :
    (xs : List Account) (new : Account)
    → new.balance_cents ≡ 0
    → (k : ℕ) → balance_of k (xs ++ new ∷ []) ≡ balance_of k xs
unfolding find
new_balance [] new h k = ground arith
new_balance (x ∷ xs) new h k = ground (arith, new_balance xs new h k)

-- A new account is empty, and the account that is found or made is in the table.
pub ensure-IsLedger :
    {opening : ℕ → ℕ} {accounts : List Account} {events : List BillingEvent} (org_id now : ℕ)
    → IsLedger opening accounts events
    → let (accounts', acct) = ensure_account org_id now accounts in
      IsLedger opening accounts' events × (account_of acct.id accounts' ≡ some acct)
unfolding ensure_account find
ensure-IsLedger {opening} {accounts} {events} org_id now l =
    let by_id = find_named org_id accounts l.named in
    elim (Option-cases (find (λ (a : Account). a.org_id == org_id) accounts)) [
      | inl gone ↦
          let new : Account = record {
            id = acct_id org_id;
            org_id = org_id;
            balance_cents = 0;
            updated_at = now;
          } in
          let absent : account_of org_id accounts ≡ none = rw by_id gone in
          rw (gone, ensure_account)
            (
              record {
                named = All-append _ accounts new l.named refl;
                distinct = rw map-append (
                    Distinct-append (map id_of accounts) org_id l.distinct
                      (not_found org_id accounts absent));
                balanced = λ k. rw (new_balance accounts new refl k) (l.balanced k);
              },
              rw (find-append, absent, find) (ground (arith, ==_refl org_id)),
            )
      | inr (a, here) ↦
          let own : a.id ≡ a.org_id = All_find (λ x. x.id ≡ x.org_id) _ accounts a l.named here in
          let key = find_sound (λ (x : Account). x.org_id == org_id) accounts a here in
          let same : a.id ≡ org_id = ground (arith, own, key) in
          rw (here, ensure_account) (l, ap (λ k. account_of k accounts) same ∙ (by_id ∙ here))
    ]
