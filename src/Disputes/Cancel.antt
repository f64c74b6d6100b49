-- ===== src/Disputes/Cancel.antt =====
-- src/store.ts, cancelDispute: what a withdrawn dispute leaves of the payout.
use Prim.Native.String.{String}
use openunion.Prelude.{
  ℕ, ◌≡◌, ◌∙◌, refl, ap, sym, subst, Bool, true, false, none, some, List, [], ◌∷◌, ◌++◌, arith,
  ◌==◌, ==_iff, ==_refl, Option-cases, inl, inr,
}
use openunion.Prelude.Tables.{find, find-update, find-append, find_sound}
use openunion.Prelude.Result.{ok}
use openunion.Fees.{PayoutSplit}
use openunion.Rows.{
  Db, Actor, Payout, paid, refunded, Dispute, OutboxEvent, waiting, payout_requested, payout_key,
  Payload, payout_payload,
}
use openunion.Outbox.{addressed, new_event}
use openunion.Billing.Books.{IsSound}
use openunion.Payouts.{payout_of, context_of_submission}
use openunion.PayoutEnv.{Env, off_chain, held, must_wait}
use openunion.Handlers.{handle_payout_requested, handler_split}
use openunion.Handlers.Once.{payout_of-update, paid_once}
use openunion.Disputes.{
  Target, dispute_of, create_dispute, cancel_dispute, cancel_payout, post_dispute, unblock_payout,
  requeue_payout, requeued_row, close_dispute, blocked_row, unblocked_row, next_at, target_of,
  target_of_payout,
}
use openunion.Disputes.Blocked.{create_dispute-eq-ok}

-- The payout's event waits again, whether or not there was one.
requeued :
    (clear_sent : Bool) (id pid : ℕ) (payload : Payload) (next now : ℕ) (outbox : List OutboxEvent)
    → (e : OutboxEvent) × (find
          (addressed payout_requested (payout_key pid))
          (requeue_payout clear_sent id pid payload next now outbox)
        ≡ some e)
      × (e.status ≡ waiting)
      × (e.available_at ≡ next)
unfolding requeue_payout new_event
requeued clear_sent id pid payload next now outbox =
    let p = addressed payout_requested (payout_key pid) in
    elim (Option-cases (find p outbox)) [
      | inl gone ↦
          let new = new_event id payout_requested (some (payout_key pid)) payload next now in
          let added = find-append p outbox (new ∷ []) in
          (new, unfold find in ground (arith, gone, added, ==_refl pid), refl, refl)
      | inr (e, here) ↦
          let after =
            find-update p (λ (x : OutboxEvent). x.id == e.id) (requeued_row clear_sent next) outbox
              (λ x. refl) in
          (requeued_row clear_sent next e, ground (arith, after, here, ==_refl e.id), refl, refl)
    ]

-- What a cancellation of a dispute on a payout that is there has done.
cancel_dispute-eq-ok :
    (fresh : ℕ → ℕ) (now org_id id pid : ℕ) (actor : Actor) (row : Dispute) (p : Payout) (db : Db)
    {db' : Db}
    → dispute_of id db ≡ some row
    → row.payout_id ≡ some pid
    → payout_of pid db ≡ some p
    → cancel_dispute fresh now org_id id actor db ≡ ok db'
    → (db'.payouts ≡ (unblock_payout true fresh now p (some p.submission_id) db).payouts)
      × (db'.outbox ≡ (unblock_payout true fresh now p (some p.submission_id) db).outbox)
unfolding cancel_dispute cancel_payout close_dispute
cancel_dispute-eq-ok fresh now org_id id pid actor row p db here on at h =
    (ground (arith, here, on, at, h), ground (arith, here, on, at, h))

-- The payout that a dispute names by its number is the one that it is on.
named :
    (pid : ℕ) (db : Db) (p : Payout) (target : Target) (payout : Payout)
    → payout_of pid db ≡ some p
    → target_of (some pid) none db ≡ ok target
    → target.payout ≡ some payout
    → payout ≡ p
unfolding target_of target_of_payout
named pid db p target payout here h e = ground arith

posted_dispute :
    (id : ℕ) (d : Dispute) (xs : List Dispute)
    → d.id ≡ id
    → find (λ (x : Dispute). x.id == id) xs ≡ none
    → find (λ (x : Dispute). x.id == id) (xs ++ d ∷ []) ≡ some d
posted_dispute id d xs same gone =
    rw find-append (rw gone (unfold find in ground (arith, same, ==_refl id)))

-- A dispute that is opened and withdrawn leaves the payout with the status that it had, whatever
-- that was, unblocked, and with an event that asks for it when its hold is over, or at once.
pub cancel_unblocks :
    (fresh fresh' : ℕ → ℕ) (now now' org_id org' pid : ℕ) (reason : String) (actor actor' : Actor)
    (p : Payout) (db db1 db2 : Db) (d : Dispute)
    → payout_of pid db ≡ some p
    → dispute_of (fresh 0) db ≡ none
    → create_dispute fresh now org_id (some pid) none reason actor db ≡ ok (db1, d)
    → cancel_dispute fresh' now' org' d.id actor' db1 ≡ ok db2
    → (payout_of pid db2 ≡ some (record p { blocked_reason = none; updated_at = now' }))
      × (e : OutboxEvent) × (find (addressed payout_requested (payout_key pid)) db2.outbox ≡ some e)
      × (e.status ≡ waiting)
      × (e.available_at ≡ next_at p.hold_until now')
cancel_unblocks fresh fresh' now now' org_id org' pid reason actor actor' p db db1 db2 d here unused
      create cancel =
    let (target, payout, hold, t, _, at, _, _, _, _, on, _, new, e) =
      create_dispute-eq-ok fresh now org_id (some pid) none reason actor db create in
    let same : payout ≡ p = named pid db p target payout here t at in
    let key : p.id ≡ pid =
      (==_iff p.id pid).0 (find_sound (λ (x : Payout). x.id == pid) db.payouts p here) in
    let on_pid : payout.id ≡ pid = ap (λ (x : Payout). x.id) same ∙ key in
    let found : dispute_of d.id db1 ≡ some d = rw e (
      unfold post_dispute in
      posted_dispute d.id d db.disputes refl
        (subst (λ k. find (λ (x : Dispute). x.id == k) db.disputes ≡ none) (sym new) unused)) in
    let blocked : payout_of pid db1 ≡ some (blocked_row now p) = rw e (
      unfold post_dispute in
      payout_of-update pid payout.id (blocked_row now) p db.payouts on_pid (λ x. refl) here) in
    let (payouts, outbox) =
      cancel_dispute-eq-ok fresh' now' org' d.id pid actor' d (blocked_row now p) db1 found
        (on ∙ ap some on_pid) blocked cancel in
    let last =
      requeued true (fresh' 0) p.id (payout_payload p.id (some p.submission_id) p.worker_id)
        (next_at p.hold_until now') now' db1.outbox in
    (
      rw payouts (
          unfold unblock_payout in
          payout_of-update pid p.id (unblocked_row now') (blocked_row now p) db1.payouts key
            (λ x. refl) blocked),
      last.0,
      rw outbox (
          unfold unblock_payout in
          subst
            (λ k.
              find (addressed payout_requested (payout_key k)) (
                requeue_payout true (fresh' 0) p.id
                  (payout_payload p.id (some p.submission_id) p.worker_id)
                  (next_at p.hold_until now') now' db1.outbox)
              ≡ some last.0)
            key last.1),
      last.2,
      last.3,
    )

-- A payout that was refunded is paid all the same when its organisation opens and withdraws one more
-- dispute before the hold is over: once that is over, and where the provider pays, the next request
-- pays the worker the payout's net amount.
pub refunded_is_paid :
    (env : Env) (fresh fresh' fresh'' : ℕ → ℕ) (now now' later org_id org' pid : ℕ)
    (reason : String) (actor actor' : Actor) (p : Payout) (split : ℕ × PayoutSplit)
    (ref : String × ℕ) (db db1 db2 : Db) (d : Dispute)
    → payout_of pid db ≡ some p
    → p.status ≡ refunded
    → dispute_of (fresh 0) db ≡ none
    → create_dispute fresh now org_id (some pid) none reason actor db ≡ ok (db1, d)
    → cancel_dispute fresh' now' org' d.id actor' db1 ≡ ok db2
    → held p.hold_until later ≡ false
    → env.kind ≡ off_chain
    → handler_split env p (context_of_submission p.submission_id db2) ≡ ok split
    → env.create_payout p.id split.1.net_cents p.worker_id ≡ ok (true, ref)
    → (p' : Payout) × (payout_of pid (handle_payout_requested env fresh'' later pid db2).0
        ≡ some p')
      × (p'.status ≡ paid)
      × (p'.net_amount_cents ≡ some split.1.net_cents)
unfolding handler_split
refunded_is_paid env fresh fresh' fresh'' now now' later org_id org' pid reason actor actor' p split
      ref db db1 db2 d here back unused create cancel over kind shares reply =
    let (row, _, _, _, _) =
      cancel_unblocks fresh fresh' now now' org_id org' pid reason actor actor' p db db1 db2 d here
        unused create cancel in
    let q : Payout = record p { blocked_reason = none; updated_at = now' } in
    let free : must_wait later q ≡ false = ground (arith, back, over) in
    let (_, p', found, done, net, _, _, _) =
      paid_once env env fresh'' fresh'' later later pid q split ref db2 row free kind shares
        reply in
    (p', found, done, net)

-- Withdrawing one moves none either.
pub cancel_dispute-IsSound :
    {opening : ℕ → ℕ} (fresh : ℕ → ℕ) (now org_id id : ℕ) (actor : Actor) (db db' : Db)
    → IsSound opening db
    → cancel_dispute fresh now org_id id actor db ≡ ok db'
    → IsSound opening db'
unfolding cancel_dispute cancel_payout close_dispute unblock_payout
cancel_dispute-IsSound fresh now org_id id actor db db' s h =
    let a : db'.accounts ≡ db.accounts = ground (arith, h) in
    let e : db'.events ≡ db.events = ground (arith, h) in
    let r : db'.reservations ≡ db.reservations = ground (arith, h) in
    record { ledger = rw (a, e) s.ledger; backed = rw (a, r) s.backed }
