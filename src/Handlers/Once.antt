-- ===== src/Handlers/Once.antt =====
-- workers/handlers.ts, handlePayoutRequested off chain: what is paid, when, and how often.
use Prim.Native.String.{String}
use openunion.Prelude.{
  ℕ, ◌≡◌, refl, ap, Bool, true, false, Option, some, List, arith, ◌==◌, ==_iff, ◌+◌, if◌then◌else◌,
}
use openunion.Prelude.Tables.{find, update, find-update, find_sound}
use openunion.Prelude.Result.{ok}
use openunion.Fees.{PayoutSplit, compute_payout_split_cents, split_conserves}
use openunion.Rows.{Db, Bounty, Org, Payout, PayoutStatus, paid, failed}
use openunion.Payouts.{
  payout_of, context_of_submission, fee_bps_of, fee_wallet_of, mark_payout_status, status_row,
  PayoutMeta,
}
use openunion.PayoutEnv.{Env, off_chain, must_wait, split_row, set_payout}
use openunion.Handlers.{
  handle_payout_requested, handler_split, pay_split, pay, pay_off_chain, settle_off_chain,
  request_row,
}

-- A payout that is paid, blocked or held is left alone: the handler returns at once.
pub waits :
    (env : Env) (fresh : ℕ → ℕ) (now id : ℕ) (p : Payout) (db : Db)
    → payout_of id db ≡ some p
    → must_wait now p ≡ true
    → handle_payout_requested env fresh now id db ≡ (db, ok tt)
unfolding handle_payout_requested request_row
waits env fresh now id p db here wait = ground (arith, here, wait)

-- The columns that the payout's row gets, where the provider answered.
abbrev answered_row : Env → ℕ → ℕ × PayoutSplit → Payout → Bool → String × ℕ → Db → Payout
answered_row env now split p is_paid_now ref db =
    status_row (if is_paid_now then paid else failed)
      (record { provider = some (some ref.0); provider_ref = some (some ref.1) }) now
      (split_row now (fee_bps_of (context_of_submission p.submission_id db))
        (fee_wallet_of (context_of_submission p.submission_id db)) split.0 split.1 p)

-- The row of a payout after a change of the rows with its id.
pub payout_of-update :
    (id k : ℕ) (f : Payout → Payout) (p : Payout) (xs : List Payout)
    → k ≡ id
    → ((x : Payout) → (f x).id ≡ x.id)
    → find (λ (x : Payout). x.id == id) xs ≡ some p
    → find (λ (x : Payout). x.id == id) (update (λ (x : Payout). x.id == k) f xs) ≡ some (f p)
payout_of-update id k f p xs same keep here =
    let key = find_sound (λ (x : Payout). x.id == id) xs p here in
    let e =
      find-update (λ (x : Payout). x.id == id) (λ (x : Payout). x.id == id) f xs
        (λ x. ap (λ n. n == id) (keep x)) in
    rw same (ground (arith, e, here, key))

answered :
    (env : Env) (fresh : ℕ → ℕ) (now id : ℕ) (p : Payout) (split : ℕ × PayoutSplit)
    (is_paid_now : Bool) (ref : String × ℕ) (db : Db)
    → payout_of id db ≡ some p
    → must_wait now p ≡ false
    → env.kind ≡ off_chain
    → handler_split env p (context_of_submission p.submission_id db) ≡ ok split
    → env.create_payout p.id split.1.net_cents p.worker_id ≡ ok (is_paid_now, ref)
    → let out = handle_payout_requested env fresh now id db in
      (out.1 ≡ ok tt)
      × (payout_of id out.0 ≡ some (answered_row env now split p is_paid_now ref db))
unfolding handle_payout_requested request_row pay_split pay pay_off_chain settle_off_chain
    set_payout mark_payout_status
answered env fresh now id p split is_paid_now ref db here free kind shares reply =
    let ctx = context_of_submission p.submission_id db in
    let f = split_row now (fee_bps_of ctx) (fee_wallet_of ctx) split.0 split.1 in
    let status : PayoutStatus = if is_paid_now then paid else failed in
    let meta : PayoutMeta = record {
      provider = some (some ref.0);
      provider_ref = some (some ref.1);
    } in
    let out : handle_payout_requested env fresh now id db
        ≡ (mark_payout_status p.id status meta now (set_payout p.id f db), ok tt) =
      ground (arith, here, free, kind, shares, reply) in
    let key : p.id ≡ id =
      (==_iff p.id id).0 (find_sound (λ (x : Payout). x.id == id) db.payouts p here) in
    let once = payout_of-update id p.id f p db.payouts key (λ x. refl) here in
    let twice =
      payout_of-update id p.id (status_row status meta now) (f p)
        (update (λ (x : Payout). x.id == p.id) f db.payouts) key (λ x. refl) once in
    rw out (refl, twice)

split_result :
    (env : Env) (p : Payout) (ctx : Option (Bounty × Org)) (split : ℕ × PayoutSplit)
    → handler_split env p ctx ≡ ok split
    → compute_payout_split_cents p.amount_cents (fee_bps_of ctx) split.0 ≡ ok split.1
unfolding handler_split
split_result env p ctx split h = ground arith

-- The shares that the handler computes add up to the payout's amount.
pub shares_conserve :
    (env : Env) (p : Payout) (ctx : Option (Bounty × Org)) (split : ℕ × PayoutSplit)
    → handler_split env p ctx ≡ ok split
    → split.1.platform_fee_cents + split.1.proofwork_fee_cents + split.1.net_cents ≡ p.amount_cents
shares_conserve env p ctx split h =
    (split_conserves p.amount_cents (fee_bps_of ctx) split.0 (split_result env p ctx split h)).0

-- A payout that is free to be paid and whose provider says `paid` is paid its net amount, what the
-- two fees leave of its amount, and it is paid only once: a later request changes nothing, whenever and with whatever settings it is run.
pub paid_once :
    (env env' : Env) (fresh fresh' : ℕ → ℕ) (now now' id : ℕ) (p : Payout) (split : ℕ × PayoutSplit)
    (ref : String × ℕ) (db : Db)
    → payout_of id db ≡ some p
    → must_wait now p ≡ false
    → env.kind ≡ off_chain
    → handler_split env p (context_of_submission p.submission_id db) ≡ ok split
    → env.create_payout p.id split.1.net_cents p.worker_id ≡ ok (true, ref)
    → let (db', reply) = handle_payout_requested env fresh now id db in
      (reply ≡ ok tt)
      × (p' : Payout) × (payout_of id db' ≡ some p')
      × (p'.status ≡ paid)
      × (p'.net_amount_cents ≡ some split.1.net_cents)
      × (p'.provider_ref ≡ some ref.1)
      × (split.1.platform_fee_cents + split.1.proofwork_fee_cents + split.1.net_cents
          ≡ p.amount_cents)
      × (handle_payout_requested env' fresh' now' id db' ≡ (db', ok tt))
paid_once env env' fresh fresh' now now' id p split ref db here free kind shares reply =
    let (done, row) = answered env fresh now id p split true ref db here free kind shares reply in
    (
      done,
      answered_row env now split p true ref db,
      row,
      refl,
      refl,
      refl,
      shares_conserve env p (context_of_submission p.submission_id db) split shares,
      waits env' fresh' now' id _ _ row refl,
    )
