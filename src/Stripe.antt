-- ===== src/Stripe.antt =====
-- The Stripe webhook of src/server.ts, POST /api/webhooks/stripe, once the signature is checked. The
-- webhook's rows and the payment intents stand beside the database; `fails` says that the database
-- fails during the transaction.
pub mod Delivery
mod Examples
pub mod Ledger
use openunion.Prelude.{
  ℕ, Bool, true, false, Option, none, some, List, [], ◌∷◌, ◌++◌, ◌&&◌, not, ltb, ◌==◌,
  if◌then◌else◌, is_some,
}
use openunion.Prelude.Tables.{find, update}
use openunion.Rows.{Db, Account, BillingEvent, stripe_topup}
use openunion.Accounts.{post_credit}

pub data WebhookStatus : Type 0 where
  received ignored processed failed_event : WebhookStatus

pub record WebhookRow : Type 0 where
  pub id : ℕ
  pub status : WebhookStatus
  pub processed_at : Option ℕ

pub record PaymentIntent : Type 0 where
  pub id : ℕ
  pub is_succeeded : Bool
  pub provider_ref : Option ℕ

-- The object of a `checkout.session.completed` event; `amount_total` is `none` where it is no finite
-- number, and 0 where it is below 0.
pub record CheckoutSession : Type 0 where
  pub id : ℕ
  pub is_paid : Bool
  pub org_id : Option ℕ
  pub account_id : Option ℕ
  pub payment_intent_id : Option ℕ
  pub amount_total : Option ℕ
  pub is_usd : Bool

-- `checkout` is `none` for an event of another type, `some none` where the session is missing.
pub record StripeEvent : Type 0 where
  pub id : ℕ
  pub checkout : Option (Option CheckoutSession)

pub record StripeDb : Type 0 where
  pub db : Db
  pub webhooks : List WebhookRow
  pub intents : List PaymentIntent

abbrev pub webhook_is : ℕ → WebhookRow → Bool
webhook_is id w = w.id == id

abbrev pub set_webhook : ℕ → ℕ → WebhookStatus → StripeDb → StripeDb
set_webhook now id status st = record st {
  webhooks =
      update (webhook_is id)
        (λ (w : WebhookRow). record w { status = status; processed_at = some now }) st.webhooks;
}

-- What the metadata must have: the organisation, the account, the intent and a positive amount.
abbrev pub amount_of : CheckoutSession → Option (ℕ × ℕ × ℕ)
amount_of s = elim s.org_id [
  | none ↦ none
  | some _ ↦ elim s.account_id [
    | none ↦ none
    | some account ↦ elim s.payment_intent_id [
      | none ↦ none
      | some intent ↦ elim s.amount_total [
        | none ↦ none
        | some n ↦ if ltb 0 n && s.is_usd then some (account, intent, n) else none
      ]
    ]
  ]
]

-- The account is credited once for an event; `none` is the violated reference of an event whose
-- account is missing. `event_id` is `stripe_evt_<id>`.
unfoldable pub credit_checkout : ℕ → ℕ → ℕ → ℕ → Db → Option Db
credit_checkout event_id now account n db =
    if is_some (find (λ (e : BillingEvent). e.id == event_id) db.events)
    then some db
    else if is_some (find (λ (a : Account). a.id == account) db.accounts)
    then some (post_credit event_id now account stripe_topup n db)
    else none

abbrev pub succeed : ℕ → ℕ → List PaymentIntent → List PaymentIntent
succeed intent session =
    update (λ (p : PaymentIntent). p.id == intent)
      (λ p. record p { is_succeeded = true; provider_ref = some session })

pub apply_credit : ℕ → ℕ → ℕ → CheckoutSession → Option (ℕ × ℕ × ℕ) → StripeDb → Option StripeDb
unfolding credit_checkout
apply_credit event_id now id s none st = some (set_webhook now id failed_event st)
apply_credit event_id now id s (some (account, intent, n)) st =
    elim (credit_checkout event_id now account n st.db) [
      | none ↦ none
      | some db' ↦ some (
          set_webhook now id processed
            (record st { db = db'; intents = succeed intent s.id st.intents }))
    ]

pub apply_session : ℕ → ℕ → ℕ → Option CheckoutSession → StripeDb → Option StripeDb
unfolding apply_credit
apply_session event_id now id none st = some (set_webhook now id ignored st)
apply_session event_id now id (some s) st =
    if s.is_paid
    then apply_credit event_id now id s (amount_of s) st
    else some (set_webhook now id ignored st)

-- The transaction; `none` is an error that rolls it back.
pub process_event : (ℕ → ℕ) → Bool → ℕ → StripeEvent → StripeDb → Option StripeDb
unfolding apply_session
process_event event_ids true now evt st = none
process_event event_ids false now evt st = elim evt.checkout [
  | none ↦ some (set_webhook now evt.id ignored st)
  | some s ↦ apply_session (event_ids evt.id) now evt.id s st
]

pub data WebhookReply : Type 0 where
  webhook_ok webhook_processing_failed : WebhookReply

pub finish_webhook : ℕ → ℕ → Option StripeDb → StripeDb → StripeDb × WebhookReply
finish_webhook now id none st = (set_webhook now id failed_event st, webhook_processing_failed)
finish_webhook now id (some st') st = (st', webhook_ok)

-- POST /api/webhooks/stripe
unfoldable pub receive_webhook :
    (ℕ → ℕ) → Bool → ℕ → StripeEvent → StripeDb → StripeDb × WebhookReply
unfolding process_event finish_webhook
receive_webhook event_ids fails now evt st =
    if is_some (find (webhook_is evt.id) st.webhooks)
    then (st, webhook_ok)
    else (let new : WebhookRow = record { id = evt.id; status = received; processed_at = none } in
        let stored : StripeDb = record st { webhooks = st.webhooks ++ new ∷ [] } in
        finish_webhook now evt.id (process_event event_ids fails now evt stored) stored)
