-- ===== src/Disputes/AutoRefund.antt =====
-- workers/handlers.ts, handleDisputeAutoRefundRequested: what running it again does.
use openunion.Prelude.{ℕ, ◌≡◌, ◌⊎◌, subst, true, some, arith, Bool-cases, Option-cases, inl, inr}
use openunion.Prelude.Result.{Result, ok, err}
use openunion.Rows.{Db, Payout, Dispute, refund}
use openunion.Payouts.{payout_of}
use openunion.PayoutEnv.{is_paid}
use openunion.Disputes.{
  DisputeError, dispute_of, is_open, is_refunded, settle_dispute, resolve_dispute_admin,
  handle_dispute_auto_refund_requested, system_actor, not_open, not_found, payout_missing,
  no_result, payout_already_paid, absorb, is_settled_error,
}
use openunion.Disputes.Refund.{settled_row, resolve-IsSound}
use openunion.Billing.Books.{IsSound}

abbrev auto : (ℕ → ℕ) → ℕ → ℕ → Db → Result DisputeError Db
auto fresh now id db =
    resolve_dispute_admin fresh now id refund (some "auto_refund") system_actor db

resolve_live :
    (fresh fresh' : ℕ → ℕ) (now now' id : ℕ) (row : Dispute) (pid : ℕ) (p : Payout) (db : Db)
    → dispute_of id db ≡ some row
    → is_open row.status ≡ true
    → row.payout_id ≡ some pid
    → payout_of pid db ≡ some p
    → ((e : DisputeError) × (auto fresh now id db ≡ err e) × (auto fresh' now' id db ≡ err e))
      ⊎ ((db' : Db) × (auto fresh now id db ≡ ok db')
          × ((auto fresh' now' id db' ≡ ok db') ⊎ (auto fresh' now' id db' ≡ err not_open)))
unfolding resolve_dispute_admin
resolve_live fresh fresh' now now' id row pid p db here live on at =
    elim (Bool-cases (is_paid p.status)) [
      | inl done ↦ inl (
        payout_already_paid,
        ground (arith, here, live, on, at, done),
        ground (arith, here, live, on, at, done),
      )
      | inr unpaid ↦ elim (Bool-cases (is_refunded p.status)) [
        | inl back ↦ inr (
          db,
          ground (arith, here, live, on, at, unpaid, back),
          inl (ground (arith, here, live, on, at, unpaid, back)),
        )
        | inr owed ↦
            let (row', found, done) =
              settled_row fresh now id row p refund (some "auto_refund") system_actor db here in
            inr (
              settle_dispute fresh now row p refund (some "auto_refund") system_actor db,
              ground (arith, here, live, on, at, unpaid, owed),
              inr (ground (arith, found, done)),
            )
      ]
    ]

-- A second automatic refund does nothing, where the first was refused and where it was not.
resolve_repeats :
    (fresh fresh' : ℕ → ℕ) (now now' id : ℕ) (db : Db)
    → ((e : DisputeError) × (auto fresh now id db ≡ err e) × (auto fresh' now' id db ≡ err e))
      ⊎ ((db' : Db) × (auto fresh now id db ≡ ok db')
          × ((auto fresh' now' id db' ≡ ok db') ⊎ (auto fresh' now' id db' ≡ err not_open)))
unfolding resolve_dispute_admin
resolve_repeats fresh fresh' now now' id db = elim (Option-cases (dispute_of id db)) [
  | inl gone ↦ inl (not_found, ground (arith, gone), ground (arith, gone))
  | inr (row, here) ↦ elim (Bool-cases (is_open row.status)) [
    | inr shut ↦ inl (not_open, ground (arith, here, shut), ground (arith, here, shut))
    | inl live ↦ elim (Option-cases row.payout_id) [
      | inl off ↦
          inl (payout_missing, ground (arith, here, live, off), ground (arith, here, live, off))
      | inr (pid, on) ↦ elim (Option-cases (payout_of pid db)) [
        | inl lost ↦
            inl (
              no_result,
              ground (arith, here, live, on, lost),
              ground (arith, here, live, on, lost),
            )
        | inr (p, at) ↦ resolve_live fresh fresh' now now' id row pid p db here live on at
      ]
    ]
  ]
]

-- Running the automatic refund again does nothing, whatever the first run did: a refund, or nothing at
-- all since the dispute was settled before.
pub auto_refund_once :
    (fresh fresh' : ℕ → ℕ) (now now' id : ℕ) (db db' : Db)
    → handle_dispute_auto_refund_requested fresh now id db ≡ ok db'
    → handle_dispute_auto_refund_requested fresh' now' id db' ≡ ok db'
unfolding handle_dispute_auto_refund_requested absorb
auto_refund_once fresh fresh' now now' id db db' h =
    elim (resolve_repeats fresh fresh' now now' id db) [
      | inl (e, refused, same) ↦ elim (Bool-cases (is_settled_error e)) [
        | inl fine ↦
            let kept : db ≡ db' = ground (arith, refused, fine, h) in
            subst (λ d. absorb d (auto fresh' now' id d) ≡ ok d) kept (ground (arith, same, fine))
        | inr bad ↦ absurd (ground (arith, refused, bad, h))
      ]
      | inr (db1, done, again) ↦
          let made : db1 ≡ db' = ground (arith, done, h) in
          subst (λ d. absorb d (auto fresh' now' id d) ≡ ok d) made
            (elim again [ inl e ↦ ground (arith, e) | inr e ↦ ground (arith, e) ])
    ]

-- The automatic refund keeps the ledger sound.
pub auto_refund-IsSound :
    {opening : ℕ → ℕ} (fresh : ℕ → ℕ) (now id : ℕ) (db db' : Db)
    → IsSound opening db
    → handle_dispute_auto_refund_requested fresh now id db ≡ ok db'
    → IsSound opening db'
unfolding handle_dispute_auto_refund_requested absorb
auto_refund-IsSound {opening} fresh now id db db' s h =
    elim (resolve_repeats fresh fresh now now id db) [
      | inl (e, refused, _) ↦ subst (IsSound opening) (ground (arith, refused, h)) s
      | inr (db1, done, _) ↦
          let made : db1 ≡ db' = ground (arith, done, h) in
          subst (IsSound opening) made
            (resolve-IsSound fresh now id refund (some "auto_refund") system_actor db db1 s done)
    ]
