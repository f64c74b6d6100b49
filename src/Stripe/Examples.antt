-- ===== src/Stripe/Examples.antt =====
-- A paid checkout of 25 dollars, delivered twice.
use openunion.Prelude.{◌+◌, ◌≡◌, refl, true, false, some, []}
use openunion.Prelude.Tables.{find, update}
use openunion.Samples.{draft_db}
use openunion.Stripe.{StripeDb, StripeEvent, receive_webhook, webhook_ok, credit_checkout}
use openunion.Stripe.Delivery.{first_delivery, is_stored}
use openunion.Accounts.{post_credit}

abbrev st : StripeDb
st = record { db = draft_db; webhooks = []; intents = [] }

abbrev event : StripeEvent
event = record {
  id = 8;
  checkout = some (
      some (record {
        id = 70;
        is_paid = true;
        org_id = some 1;
        account_id = some 1;
        payment_intent_id = some 30;
        amount_total = some 2500;
        is_usd = true;
      }));
}

not_stored : is_stored 8 st ≡ false
unfolding find
not_stored = refl

first_delivery_example :
    (receive_webhook
        (λ n. 500 + n)
        false
        2000
        event
        (receive_webhook (λ n. 500 + n) false 1000 event st).0
      ≡ ((receive_webhook (λ n. 500 + n) false 1000 event st).0, webhook_ok))
    × ((receive_webhook
          (λ n. 500 + n)
          false
          2000
          event
          (receive_webhook (λ n. 500 + n) true 1000 event st).0).0.db
        ≡ st.db)
first_delivery_example = first_delivery (λ n. 500 + n) false false 1000 2000 event st not_stored

-- The first delivery is answered as a success.
delivered : (receive_webhook (λ n. 500 + n) false 1000 event st).1 ≡ webhook_ok
unfolding receive_webhook credit_checkout find update post_credit
delivered = refl
