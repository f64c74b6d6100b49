-- ===== src/Handlers/Again.antt =====
-- workers/handlers.ts, handlePayoutRequested on chain: a payout whose transaction was broadcast.
use openunion.Prelude.{ℕ, suc, ◌≤◌, ◌≡◌, refl, false, Option, none, some, arith, ◌==◌, ==_iff}
use openunion.Prelude.Tables.{find, find_sound}
use openunion.Prelude.Result.{ok}
use openunion.Fees.{PayoutSplit}
use openunion.Rows.{Db, Payout, Worker}
use openunion.Payouts.{
  payout_of, context_of_submission, bounty_of_submission, fee_bps_of, fee_wallet_of,
}
use openunion.PayoutEnv.{Env, on_chain, must_wait, split_row, SplitterCall}
use openunion.OnChain.{
  record_broadcast, choose_nonce, stored_nonce, splitter_call, ready_address, pay_on_chain,
  pay_with_wallet, pay_to, settle_broadcast,
}
use openunion.Handlers.{handle_payout_requested, handler_split, pay_split, pay, request_row}
use openunion.Handlers.Once.{payout_of-update}

-- The nonce is the chain's pending one, whatever was stored.
pub choose_nonce_lem :
    (stored : Option ℕ) (chain_pending : ℕ) → choose_nonce stored chain_pending ≡ chain_pending
unfolding choose_nonce
choose_nonce_lem none n = refl
choose_nonce_lem (some s) n = ground arith

-- Where a payout can be broadcast, at the chain's pending nonce.
pub record Ready (env : Env) (id : ℕ) (p : Payout) (split : ℕ × PayoutSplit) (wallet address : ℕ)
    (db : Db) : Type 0 where
  pub here : payout_of id db ≡ some p
  pub on : env.kind ≡ on_chain
  pub shares : handler_split env p (context_of_submission p.submission_id db) ≡ ok split
  pub fee_wallet : env.fees.wallet ≡ some wallet
  pub worker : ready_address (find (λ (w : Worker). w.id == p.worker_id) db.workers) ≡ some address

-- The call that the handler makes.
abbrev pub call_of : Payout → ℕ × PayoutSplit → ℕ → ℕ → Db → SplitterCall
call_of p split wallet address db =
    splitter_call address (fee_wallet_of (context_of_submission p.submission_id db)) wallet split.1

abbrev row_of : ℕ → Payout → ℕ × PayoutSplit → Db → Payout → Payout
row_of now p split db =
    split_row now (fee_bps_of (context_of_submission p.submission_id db))
      (fee_wallet_of (context_of_submission p.submission_id db)) split.0 split.1

broadcasts :
    (env : Env) (fresh : ℕ → ℕ) (now id : ℕ) (p : Payout) (split : ℕ × PayoutSplit)
    (wallet address hash : ℕ) (db : Db)
    → Ready env id p split wallet address db
    → must_wait now p ≡ false
    → env.send env.pending_nonce (call_of p split wallet address db) ≡ ok hash
    → handle_payout_requested env fresh now id db ≡ (
      record_broadcast env fresh now p.id
          (call_of p split wallet address db)
          hash
          env.pending_nonce
          (row_of now p split db)
          db,
      ok tt,
    )
unfolding handle_payout_requested request_row pay_split pay pay_on_chain pay_with_wallet pay_to
    settle_broadcast
broadcasts env fresh now id p split wallet address hash db r free sent =
    let same = choose_nonce_lem (stored_nonce env db) env.pending_nonce in
    ground (arith, r.here, r.on, r.shares, r.fee_wallet, r.worker, free, sent, same)

-- The chain after one more transaction of the sender.
abbrev pub next_env : Env → Env
next_env env = record env { pending_nonce = suc env.pending_nonce }

-- A payout that was broadcast is broadcast once more when it is requested again before it is confirmed:
-- its row does not keep the handler from it. Both transactions are the same call, at two nonces, and the
-- reference that is left is the second one's.
pub broadcast_again :
    (env : Env) (fresh fresh' : ℕ → ℕ) (now now' id : ℕ) (p : Payout) (split : ℕ × PayoutSplit)
    (wallet address hash hash' : ℕ) (db : Db)
    → Ready env id p split wallet address db
    → must_wait now p ≡ false
    → now ≤ now'
    → env.send env.pending_nonce (call_of p split wallet address db) ≡ ok hash
    → env.send (suc env.pending_nonce) (call_of p split wallet address db) ≡ ok hash'
    → let db1 = (handle_payout_requested env fresh now id db).0 in
      let out = handle_payout_requested (next_env env) fresh' now' id db1 in
      (p' : Payout) × (out.1 ≡ ok tt)
      × (payout_of id out.0 ≡ some p')
      × (p'.provider_ref ≡ some hash')
      × (p'.status ≡ p.status)
broadcast_again env fresh fresh' now now' id p split wallet address hash hash' db r free le sent
      sent' =
    let call = call_of p split wallet address db in
    let f : Payout → Payout = λ q. record (row_of now p split db q) {
      provider = some env.name;
      provider_ref = some hash;
    } in
    let db1 =
      record_broadcast env fresh now p.id call hash env.pending_nonce (row_of now p split db) db in
    let first : handle_payout_requested env fresh now id db ≡ (db1, ok tt) =
      broadcasts env fresh now id p split wallet address hash db r free sent in
    let key : p.id ≡ id =
      (==_iff p.id id).0 (find_sound (λ (x : Payout). x.id == id) db.payouts p r.here) in
    let here1 : payout_of id db1 ≡ some (f p) =
      unfold record_broadcast in payout_of-update id p.id f p db.payouts key (λ x. refl) r.here in
    let ready1 : Ready (next_env env) id (f p) split wallet address db1 = record {
      here = here1;
      on = r.on;
      shares =
          unfold handler_split record_broadcast context_of_submission bounty_of_submission in
          r.shares;
      fee_wallet = r.fee_wallet;
      worker = unfold record_broadcast in r.worker;
    } in
    let same_call : call_of (f p) split wallet address db1 ≡ call =
      unfold record_broadcast context_of_submission bounty_of_submission in refl in
    let free1 : must_wait now' (f p) ≡ false = ground (arith, free, le) in
    let g : Payout → Payout = λ q. record (row_of now' (f p) split db1 q) {
      provider = some env.name;
      provider_ref = some hash';
    } in
    let second =
      broadcasts (next_env env) fresh' now' id (f p) split wallet address hash' db1 ready1 free1
        (rw same_call sent') in
    (
      g (f p),
      rw first (rw second refl),
      rw first (
          rw second (
            unfold record_broadcast in
            payout_of-update id p.id g (f p) db1.payouts key (λ x. refl) here1)),
      refl,
      refl,
    )
