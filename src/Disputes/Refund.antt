-- ===== src/Disputes/Refund.antt =====
-- src/store.ts, resolveDisputeAdmin, and the automatic refund of workers/handlers.ts.
use Prim.Native.String.{String}
use openunion.Prelude.{
  ℕ, ◌≡◌, ◌∙◌, ◌+◌, ◌⊎◌, refl, ap, sym, subst, true, false, Option, some, arith, ltb, ◌==◌, ==_refl,
  if◌then◌else◌, is_some, get_or, ◌-◌, Bool-cases, Option-cases, inl, inr,
}
use openunion.Prelude.Tables.{find-update, find_sound}
use openunion.Prelude.Result.{ok}
use openunion.Rows.{
  Db, Actor, Payout, Dispute, Resolution, refund, uphold, cancelled_by_org, dispute_refund_event,
  DisputeStatus, resolved,
}
use openunion.Accounts.{ensure_account, post_credit, credit}
use openunion.Accounts.Ledger.{balance_of, balance_of-credit}
use openunion.Accounts.Postings.{ensure-IsLedger}
use openunion.Billing.Books.{IsSound, ensure-IsSound, post_credit-IsSound}
use openunion.Billing.Reserve.{balance_of-ensure}
use openunion.Billing.Limits.{acct_id_lem}
use openunion.Payouts.{payout_of}
use openunion.PayoutEnv.{is_paid}
use openunion.Disputes.{
  dispute_of, is_open, is_refunded, settle_dispute, resolve_dispute_admin, refund_cents,
  credit_refund, mark_refunded, close_dispute, unblock_payout, closed_row,
}

-- A resolution that succeeds changes nothing, or settles the dispute.
pub resolve-eq-ok :
    (fresh : ℕ → ℕ) (now id : ℕ) (resolution : Resolution) (notes : Option String) (actor : Actor)
    (db : Db) {db' : Db}
    → resolve_dispute_admin fresh now id resolution notes actor db ≡ ok db'
    → (row : Dispute) × (p : Payout) × (dispute_of id db ≡ some row)
      × (is_open row.status ≡ true)
      × (is_paid p.status ≡ false)
      × ((db' ≡ db)
          ⊎ ((is_refunded p.status ≡ false)
              × (db' ≡ settle_dispute fresh now row p resolution notes actor db)))
unfolding resolve_dispute_admin
resolve-eq-ok fresh now id resolution notes actor db {db'} h =
    elim (Option-cases (dispute_of id db)) [
      | inl gone ↦ absurd (ground (arith, gone, h))
      | inr (row, here) ↦ elim (Option-cases row.payout_id) [
        | inl none_on ↦ absurd (ground (arith, here, none_on, h))
        | inr (pid, on) ↦ elim (Option-cases (payout_of pid db)) [
          | inl lost ↦ absurd (ground (arith, here, on, lost, h))
          | inr (p, at) ↦
              let how : (db' ≡ db)
                  ⊎ ((is_refunded p.status ≡ false)
                      × (db' ≡ settle_dispute fresh now row p resolution notes actor db)) =
                ground (arith, here, on, at, h) in
              (row, p, here, ground (arith, here, h), ground (arith, here, on, at, h), how)
        ]
      ]
    ]

credit_refund-IsSound :
    {opening : ℕ → ℕ} (fresh : ℕ → ℕ) (now org_id n : ℕ) (db : Db)
    → IsSound opening db
    → IsSound opening (credit_refund fresh now org_id n db)
unfolding credit_refund
credit_refund-IsSound fresh now org_id n db s =
    let s1 = ensure-IsSound org_id now db s in
    elim (Bool-cases (ltb 0 n)) [
      | inl more ↦ rw more (
          post_credit-IsSound (fresh 0) now (ensure_account org_id now db.accounts).1.id
            dispute_refund_event n _ s1 (ap is_some (ensure-IsLedger org_id now s.ledger).1))
      | inr less ↦ rw less s1
    ]

settle-IsSound :
    {opening : ℕ → ℕ} (fresh : ℕ → ℕ) (now : ℕ) (row : Dispute) (p : Payout)
    (resolution : Resolution) (notes : Option String) (actor : Actor) (db : Db)
    → IsSound opening db
    → IsSound opening (settle_dispute fresh now row p resolution notes actor db)
unfolding settle_dispute close_dispute mark_refunded unblock_payout
settle-IsSound fresh now row p refund notes actor db s =
    let s1 = credit_refund-IsSound fresh now row.org_id (refund_cents p) db s in
    record { ledger = s1.ledger; backed = s1.backed }
settle-IsSound fresh now row p uphold notes actor db s = record {
  ledger = s.ledger;
  backed = s.backed;
}
settle-IsSound fresh now row p cancelled_by_org notes actor db s = record {
  ledger = s.ledger;
  backed = s.backed;
}

-- Resolving a dispute keeps the ledger sound, whichever way it goes and whether or not the
-- organisation has an account.
pub resolve-IsSound :
    {opening : ℕ → ℕ} (fresh : ℕ → ℕ) (now id : ℕ) (resolution : Resolution) (notes : Option String)
    (actor : Actor) (db db' : Db)
    → IsSound opening db
    → resolve_dispute_admin fresh now id resolution notes actor db ≡ ok db'
    → IsSound opening db'
resolve-IsSound {opening} fresh now id resolution notes actor db db' s h =
    let (row, p, _, _, _, how) = resolve-eq-ok fresh now id resolution notes actor db h in
    elim how [
      | inl same ↦ subst (IsSound opening) (sym same) s
      | inr (_, e) ↦
          subst (IsSound opening) (sym e)
            (settle-IsSound fresh now row p resolution notes actor db s)
    ]

credit_refund_balance :
    (opening : ℕ → ℕ) (fresh : ℕ → ℕ) (now org_id n k : ℕ) (db : Db)
    → IsSound opening db
    → balance_of k (credit_refund fresh now org_id n db).accounts
      ≡ balance_of k db.accounts + (if org_id == k then n else 0)
unfolding credit_refund post_credit
credit_refund_balance opening fresh now org_id n k db s =
    let (accounts, acct) = ensure_account org_id now db.accounts in
    let own = acct_id_lem opening org_id now db s in
    let same = balance_of-ensure k org_id now db.accounts in
    let found = (ensure-IsLedger org_id now s.ledger).1 in
    elim (Bool-cases (ltb 0 n)) [
      | inl more ↦ rw more (
          subst
            (λ o.
              balance_of k (credit acct.id n now accounts)
              ≡ balance_of k db.accounts + (if o == k then n else 0))
            own
            (balance_of-credit acct.id n now accounts acct found k
              ∙ ap (λ b. b + (if acct.id == k then n else 0)) same))
      | inr less ↦ rw less (same ∙ ground arith)
    ]

closed_dispute :
    (now id : ℕ) (status : DisputeStatus) (r : Resolution) (notes : Option String) (actor : Actor)
    (action : String) (row : Dispute) (db inner : Db)
    → dispute_of id db ≡ some row
    → inner.disputes ≡ db.disputes
    → dispute_of id (close_dispute now row.id status r notes actor action inner)
      ≡ some (closed_row now status r notes actor row)
unfolding close_dispute
closed_dispute now id status r notes actor action row db inner here same =
    let key = find_sound (λ (d : Dispute). d.id == id) db.disputes row here in
    let after =
      find-update (λ (d : Dispute). d.id == id) (λ (d : Dispute). d.id == row.id)
        (closed_row now status r notes actor) db.disputes (λ d. refl) in
    rw same (ground (arith, after, here, key, ==_refl row.id))

credit_refund_keeps :
    (fresh : ℕ → ℕ) (now org_id n : ℕ) (db : Db)
    → (credit_refund fresh now org_id n db).disputes ≡ db.disputes
unfolding credit_refund post_credit
credit_refund_keeps fresh now org_id n db = ground arith

-- A dispute that is settled is resolved.
pub settled_row :
    (fresh : ℕ → ℕ) (now id : ℕ) (row : Dispute) (p : Payout) (resolution : Resolution)
    (notes : Option String) (actor : Actor) (db : Db)
    → dispute_of id db ≡ some row
    → (row' : Dispute) × (dispute_of id (settle_dispute fresh now row p resolution notes actor db)
        ≡ some row')
      × (row'.status ≡ resolved)
unfolding settle_dispute mark_refunded unblock_payout
settled_row fresh now id row p refund notes actor db here = (
  _,
  closed_dispute now id resolved refund notes actor _ row db _ here
      (credit_refund_keeps fresh now row.org_id (refund_cents p) db),
  refl,
)
settled_row fresh now id row p uphold notes actor db here =
    (_, closed_dispute now id resolved uphold notes actor _ row db _ here refl, refl)
settled_row fresh now id row p cancelled_by_org notes actor db here =
    (_, closed_dispute now id resolved uphold notes actor _ row db _ here refl, refl)

-- A refund gives the organisation that opened the dispute the payout's amount less Proofwork's fee,
-- no other balance changes, and the dispute is not open any more.
pub refund_credits :
    (opening : ℕ → ℕ) (fresh : ℕ → ℕ) (now id k : ℕ) (row : Dispute) (payout_id : ℕ) (p : Payout)
    (notes : Option String) (actor : Actor) (db : Db)
    → IsSound opening db
    → dispute_of id db ≡ some row
    → is_open row.status ≡ true
    → row.payout_id ≡ some payout_id
    → payout_of payout_id db ≡ some p
    → is_paid p.status ≡ false
    → is_refunded p.status ≡ false
    → (db' : Db) × (resolve_dispute_admin fresh now id refund notes actor db ≡ ok db')
      × (balance_of k db'.accounts
          ≡ balance_of k db.accounts
            + (if row.org_id == k then p.amount_cents - get_or p.proofwork_fee_cents 0 else 0))
      × (row' : Dispute) × (dispute_of id db' ≡ some row')
      × (row'.status ≡ resolved)
refund_credits opening fresh now id k row payout_id p notes actor db s here live on at unpaid
      unrefunded =
    let db' = settle_dispute fresh now row p refund notes actor db in
    let out : resolve_dispute_admin fresh now id refund notes actor db ≡ ok db' =
      unfold resolve_dispute_admin in ground (arith, here, live, on, at, unpaid, unrefunded) in
    let paid_back = credit_refund_balance opening fresh now row.org_id (refund_cents p) k db s in
    let last = settled_row fresh now id row p refund notes actor db here in
    (
      db',
      out,
      (unfold settle_dispute close_dispute mark_refunded refund_cents in paid_back),
      last.0,
      last.1,
      last.2,
    )
