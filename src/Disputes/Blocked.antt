-- ===== src/Disputes/Blocked.antt =====
-- src/store.ts, createDispute: what a dispute stops, and who may open it.
use Prim.Native.String.{String}
use openunion.Prelude.{
  subst, sym, ℕ, ◌≡◌, ◌∙◌, ◌<◌, refl, ap, true, false, Option, none, some, List, arith, ◌==◌,
  ==_refl, is_some, All, Option-cases, inl, inr,
}
use openunion.Prelude.Tables.{
  find, update, find_sound, find_again, is_some-find-update, update-All, All_find,
}
use openunion.Prelude.Result.{ok}
use openunion.Rows.{Db, Actor, Payout, Dispute}
use openunion.Payouts.{payout_of}
use openunion.Billing.Books.{IsSound}
use openunion.PayoutEnv.{Env, is_paid}
use openunion.Handlers.{handle_payout_requested}
use openunion.Handlers.Once.{waits}
use openunion.Disputes.{
  Target, target_of, target_of_payout, target_of_submission, check_payout, open_dispute, open_on,
  post_dispute, create_dispute, blocked_row,
}

-- What is known of a dispute that was opened.
pub create_dispute-eq-ok :
    (fresh : ℕ → ℕ) (now org_id : ℕ) (payout_id submission_id : Option ℕ) (reason : String)
    (actor : Actor) (db : Db) {db' : Db} {d : Dispute}
    → create_dispute fresh now org_id payout_id submission_id reason actor db ≡ ok (db', d)
    → (target : Target) × (payout : Payout) × (hold : ℕ) × (target_of payout_id submission_id db
        ≡ ok target)
      × (target.bounty.org_id ≡ org_id)
      × (target.payout ≡ some payout)
      × (is_paid payout.status ≡ false)
      × (payout.hold_until ≡ some hold)
      × (now < hold)
      × (find (open_on payout.id) db.disputes ≡ none)
      × (d.payout_id ≡ some payout.id)
      × (d.org_id ≡ org_id)
      × (d.id ≡ fresh 0)
      × (db' ≡ post_dispute fresh now d payout.id hold actor db)
unfolding create_dispute check_payout open_dispute
create_dispute-eq-ok fresh now org_id payout_id submission_id reason actor db h = ground arith

-- The payout that is disputed is in the table.
pub target_there :
    (payout_id submission_id : Option ℕ) (db : Db) (target : Target) (payout : Payout)
    → target_of payout_id submission_id db ≡ ok target
    → target.payout ≡ some payout
    → is_some (payout_of payout.id db) ≡ true
unfolding target_of target_of_payout target_of_submission
target_there none none db target payout h e = ground (arith, h)
target_there none (some s) db target payout h e =
    elim (Option-cases (find (λ (p : Payout). p.submission_id == s) db.payouts)) [
      | inl gone ↦ ground (arith, gone, h, e)
      | inr (r, here) ↦
          let same : r ≡ payout = ground (arith, here, h, e) in
          find_again (λ (p : Payout). p.submission_id == s) (λ p. p.id == payout.id) db.payouts
            payout (here ∙ ap some same) (==_refl payout.id)
    ]
target_there (some i) s db target payout h e = elim (Option-cases (payout_of i db)) [
  | inl gone ↦ ground (arith, gone, h)
  | inr (r, here) ↦
      let same : r ≡ payout = ground (arith, here, h, e) in
      find_again (λ (p : Payout). p.id == i) (λ p. p.id == payout.id) db.payouts payout
        (here ∙ ap some same) (==_refl payout.id)
]

blocked-All :
    (id now : ℕ) (xs : List Payout)
    → All
        (λ (p : Payout). (p.id == id) ≡ true → is_some p.blocked_reason ≡ true)
        (update (λ (p : Payout). p.id == id) (blocked_row now) xs)
blocked-All id now xs =
    update-All (λ (p : Payout). is_some p.blocked_reason ≡ true) (λ (p : Payout). p.id == id)
      (blocked_row now) xs (λ p. refl) (λ p. refl)

blocked_found :
    (id now : ℕ) (xs : List Payout) (p : Payout)
    → find (λ (x : Payout). x.id == id) (update (λ (x : Payout). x.id == id) (blocked_row now) xs)
      ≡ some p
    → is_some p.blocked_reason ≡ true
blocked_found id now xs p here =
    All_find (λ (x : Payout). (x.id == id) ≡ true → is_some x.blocked_reason ≡ true) _ _ p
      (blocked-All id now xs) here (find_sound (λ (x : Payout). x.id == id) _ p here)

-- Only the organisation of the bounty opens a dispute, on a payout that is not paid, before its hold
-- is over and while no other dispute on it is open. From then on a request for the payout does
-- nothing, however the payout service is set up.
pub dispute_stops :
    (fresh fresh' : ℕ → ℕ) (now now' org_id : ℕ) (payout_id submission_id : Option ℕ)
    (reason : String) (actor : Actor) (env : Env) (db db' : Db) (d : Dispute)
    → create_dispute fresh now org_id payout_id submission_id reason actor db ≡ ok (db', d)
    → (target : Target) × (payout : Payout) × (hold : ℕ) × (target_of payout_id submission_id db
        ≡ ok target)
      × (target.bounty.org_id ≡ org_id)
      × (target.payout ≡ some payout)
      × (is_paid payout.status ≡ false)
      × (payout.hold_until ≡ some hold)
      × (now < hold)
      × (find (open_on payout.id) db.disputes ≡ none)
      × (d.payout_id ≡ some payout.id)
      × (handle_payout_requested env fresh' now' payout.id db' ≡ (db', ok tt))
unfolding post_dispute
dispute_stops fresh fresh' now now' org_id payout_id submission_id reason actor env db db' d h =
    let (target, payout, hold, t, own, at, unpaid, held, before, free, on, _, _, e) =
      create_dispute-eq-ok fresh now org_id payout_id submission_id reason actor db h in
    let there : is_some (payout_of payout.id db') ≡ true = rw e (
      is_some-find-update (λ (p : Payout). p.id == payout.id) (λ (p : Payout). p.id == payout.id)
        (blocked_row now) db.payouts (λ p. refl)
      ∙ target_there payout_id submission_id db target payout t at) in
    let still : handle_payout_requested env fresh' now' payout.id db' ≡ (db', ok tt) =
      elim (Option-cases (payout_of payout.id db')) [
        | inl gone ↦ absurd (ground (arith, gone, there))
        | inr (p, here) ↦
            let stopped : is_some p.blocked_reason ≡ true =
              blocked_found payout.id now db.payouts p (rw e at here) in
            waits env fresh' now' payout.id p db' here (ground (arith, stopped))
      ] in
    (target, payout, hold, t, own, at, unpaid, held, before, free, on, still)

-- Opening a dispute moves no money.
pub create_dispute-IsSound :
    {opening : ℕ → ℕ} (fresh : ℕ → ℕ) (now org_id : ℕ) (payout_id submission_id : Option ℕ)
    (reason : String) (actor : Actor) (db db' : Db) (d : Dispute)
    → IsSound opening db
    → create_dispute fresh now org_id payout_id submission_id reason actor db ≡ ok (db', d)
    → IsSound opening db'
create_dispute-IsSound {opening} fresh now org_id payout_id submission_id reason actor db db' d s
      h =
    let (_, payout, hold, _, _, _, _, _, _, _, _, _, _, e) =
      create_dispute-eq-ok fresh now org_id payout_id submission_id reason actor db h in
    let kept : IsSound opening (post_dispute fresh now d payout.id hold actor db) =
      unfold post_dispute in record { ledger = s.ledger; backed = s.backed } in
    subst (IsSound opening) (sym e) kept
