-- ===== src/Stripe/Ledger.antt =====
-- src/server.ts, POST /api/webhooks/stripe: what a paid checkout does to the ledger.
use openunion.Prelude.{ℕ, ◌≡◌, some, arith, subst, is_some, inl, inr, Bool-cases, ◌==◌}
use openunion.Prelude.Tables.{find}
use openunion.Rows.{Db, BillingEvent, stripe_topup}
use openunion.Accounts.{post_credit}
use openunion.Accounts.Ledger.{account_of}
use openunion.Billing.Books.{IsSound, post_credit-IsSound}
use openunion.Stripe.{credit_checkout}

-- A checkout keeps the ledger sound, whether its event was credited before or not.
pub checkout-IsSound :
    {opening : ℕ → ℕ} (event_id now account n : ℕ) (db db' : Db)
    → IsSound opening db
    → credit_checkout event_id now account n db ≡ some db'
    → IsSound opening db'
unfolding credit_checkout
checkout-IsSound {opening} event_id now account n db db' s h =
    elim (Bool-cases (is_some (find (λ (e : BillingEvent). e.id == event_id) db.events))) [
      | inl before ↦
          let same : db ≡ db' = ground (arith, before, h) in subst (IsSound opening) same s
      | inr new ↦ elim (Bool-cases (is_some (account_of account db.accounts))) [
        | inr missing ↦ absurd (ground (arith, new, missing, h))
        | inl there ↦
            let same : post_credit event_id now account stripe_topup n db ≡ db' =
              ground (arith, new, there, h) in
            subst (IsSound opening) same
              (post_credit-IsSound event_id now account stripe_topup n db s there)
      ]
    ]
