-- ===== src/Stripe/Delivery.antt =====
-- src/server.ts, POST /api/webhooks/stripe: one delivery of an event after another.
use openunion.Prelude.{
  ℕ, ◌≡◌, refl, ap, Bool, true, false, Option, none, some, [], ◌∷◌, ◌++◌, arith, is_some, ==_refl,
  inl, inr, Option-cases, ◌∙◌, Bool-cases,
}
use openunion.Prelude.Tables.{find, find-append, is_some-find-update}
use openunion.Stripe.{
  StripeDb, StripeEvent, WebhookRow, WebhookStatus, received, CheckoutSession, webhook_is,
  set_webhook, amount_of, apply_credit, apply_session, process_event, finish_webhook,
  receive_webhook, credit_checkout, webhook_ok, failed_event, processed, ignored, succeed,
}

-- The event is stored.
abbrev pub is_stored : ℕ → StripeDb → Bool
is_stored id st = is_some (find (webhook_is id) st.webhooks)

set-stored :
    (now id k : ℕ) (status : WebhookStatus) (st : StripeDb)
    → is_stored k (set_webhook now id status st) ≡ is_stored k st
set-stored now id k status st =
    is_some-find-update (webhook_is k) (webhook_is id)
      (λ (w : WebhookRow). record w { status = status; processed_at = some now }) st.webhooks
      (λ w. refl)

-- Every way to end the transaction stores the same events.
credit-stored :
    (event_id now id k : ℕ) (s : CheckoutSession) (o : Option (ℕ × ℕ × ℕ)) (st : StripeDb)
    {st' : StripeDb}
    → apply_credit event_id now id s o st ≡ some st'
    → is_stored k st' ≡ is_stored k st
unfolding apply_credit
credit-stored event_id now id k s none st h = ground (arith, h, set-stored now id k failed_event st)
credit-stored event_id now id k s (some (account, intent, n)) st h =
    elim (Option-cases (credit_checkout event_id now account n st.db)) [
      | inl gone ↦ absurd (ground (arith, gone, h))
      | inr (db', done) ↦
          let st1 : StripeDb = record st { db = db'; intents = succeed intent s.id st.intents } in
          ground (arith, done, h, set-stored now id k processed st1)
    ]

session-stored :
    (event_id now id k : ℕ) (o : Option CheckoutSession) (st : StripeDb) {st' : StripeDb}
    → apply_session event_id now id o st ≡ some st'
    → is_stored k st' ≡ is_stored k st
unfolding apply_session
session-stored event_id now id k none st h = ground (arith, h, set-stored now id k ignored st)
session-stored event_id now id k (some s) st {st' = st'} h = elim (Bool-cases s.is_paid) [
  | inl paid ↦
      credit-stored event_id now id k s (amount_of s) st {st' = st'} (ground (arith, paid, h))
  | inr unpaid ↦ ground (arith, unpaid, h, set-stored now id k ignored st)
]

process-stored :
    (event_ids : ℕ → ℕ) (fails : Bool) (now k : ℕ) (evt : StripeEvent) (st : StripeDb)
    {st' : StripeDb}
    → process_event event_ids fails now evt st ≡ some st'
    → is_stored k st' ≡ is_stored k st
unfolding process_event
process-stored event_ids true now k evt st h = absurd (ground (arith, h))
process-stored event_ids false now k evt st {st' = st'} h = elim (Option-cases evt.checkout) [
  | inl other ↦ ground (arith, other, h, set-stored now evt.id k ignored st)
  | inr (s, checkout) ↦
      session-stored (event_ids evt.id) now evt.id k s st {st' = st'} (ground (arith, checkout, h))
]

finish-stored :
    (now id k : ℕ) (o : Option StripeDb) (st : StripeDb)
    → ((st' : StripeDb) → o ≡ some st' → is_stored k st' ≡ is_stored k st)
    → is_stored k (finish_webhook now id o st).0 ≡ is_stored k st
unfolding finish_webhook
finish-stored now id k none st keep = set-stored now id k failed_event st
finish-stored now id k (some st') st keep = keep st' refl

abbrev stored_db : StripeEvent → StripeDb → StripeDb
stored_db evt st = record st {
  webhooks = st.webhooks ++ record { id = evt.id; status = received; processed_at = none } ∷ [];
}

inserted : (evt : StripeEvent) (st : StripeDb) → is_stored evt.id (stored_db evt st) ≡ true
unfolding find
inserted evt st =
    let new : WebhookRow = record { id = evt.id; status = received; processed_at = none } in
    ground (
      arith,
      ==_refl evt.id,
      find-append (webhook_is evt.id) st.webhooks (new ∷ []),
      Option-cases (find (webhook_is evt.id) st.webhooks),
    )

received-stored :
    (event_ids : ℕ → ℕ) (fails : Bool) (now : ℕ) (evt : StripeEvent) (st : StripeDb)
    → is_stored evt.id (receive_webhook event_ids fails now evt st).0 ≡ true
unfolding receive_webhook
received-stored event_ids fails now evt st =
    let stored = stored_db evt st in
    let o = process_event event_ids fails now evt stored in
    let kept =
      finish-stored now evt.id evt.id o stored
        (λ st' done. process-stored event_ids fails now evt.id evt stored done) in
    elim (Bool-cases (is_stored evt.id st)) [
      | inl known ↦ ground (arith, known)
      | inr new ↦ ground (arith, new, kept, inserted evt st)
    ]

redelivered :
    (event_ids : ℕ → ℕ) (fails : Bool) (now : ℕ) (evt : StripeEvent) (st : StripeDb)
    → is_stored evt.id st ≡ true
    → receive_webhook event_ids fails now evt st ≡ (st, webhook_ok)
unfolding receive_webhook
redelivered event_ids fails now evt st known = ground (arith, known)

-- Only the first delivery of an event counts: a later one, whether the database would fail or not,
-- changes nothing and is answered as a success. So an event whose first delivery failed credits no
-- account, however often Stripe delivers it again.
pub first_delivery :
    (event_ids : ℕ → ℕ) (fails again : Bool) (now later : ℕ) (evt : StripeEvent) (st : StripeDb)
    → is_stored evt.id st ≡ false
    → (receive_webhook event_ids again later evt (receive_webhook event_ids fails now evt st).0
        ≡ ((receive_webhook event_ids fails now evt st).0, webhook_ok))
      × ((receive_webhook event_ids again later evt
            (receive_webhook event_ids true now evt st).0).0.db
          ≡ st.db)
unfolding receive_webhook process_event finish_webhook
first_delivery event_ids fails again now later evt st new =
    let twice =
      redelivered event_ids again later evt _ (received-stored event_ids fails now evt st) in
    let lost =
      redelivered event_ids again later evt _ (received-stored event_ids true now evt st) in
    (twice, ap (λ r. r.0.db) lost ∙ ground (arith, new))
