-- ===== src/Handlers/Confirm.antt =====
-- workers/handlers.ts, handlePayoutConfirmRequested: when a broadcast payout is paid.
use openunion.Prelude.{
  ℕ, ◌+◌, ◌-◌, ◌≤◌, ◌≡◌, ◌∙◌, ◌⊎◌, refl, ap, true, false, some, List, [], ◌∷◌, arith, ◌==◌, ==_iff,
  Bool-cases, Option-cases, inl, inr, sym,
}
use mathlib.Core.Option.{some-injective}
use openunion.Prelude.Tables.{update, find_sound}
use openunion.Prelude.Result.{ok}
use openunion.Rows.{Db, Payout, failed, Transfer}
use openunion.Payouts.{payout_of, mark_payout_status, status_row}
use openunion.PayoutEnv.{Env, Receipt, is_paid, is_failed}
use openunion.Handlers.{
  handle_payout_confirm_requested, all_confirmed, transfers_of, confirm_row, confirm_transfers,
  confirm_receipt, set_transfers, provider_meta,
}
use openunion.Handlers.Once.{payout_of-update}

-- Why a payout with the transfers may be paid.
pub Confirmed : Env → List Transfer → Type 0
Confirmed env transfers =
    (t : Transfer) × (ts : List Transfer) × (transfers ≡ t ∷ ts)
    × ((all_confirmed (t ∷ ts) ≡ true)
        ⊎ ((hash : ℕ) × (r : Receipt) × (t.tx_hash ≡ some hash)
            × (env.receipt hash ≡ some r)
            × (r.reverted ≡ false)
            × (env.confirmations_required ≤ env.latest_block + 1 - r.block)))

reverted_row :
    (env : Env) (now id hash : ℕ) (r : Receipt) (p p' : Payout) (db db' : Db)
    → payout_of id db ≡ some p
    → r.reverted ≡ true
    → confirm_receipt env now p hash (some r) db ≡ (db', ok tt)
    → payout_of id db' ≡ some p'
    → p'.status ≡ failed
unfolding confirm_receipt mark_payout_status set_transfers
reverted_row env now id hash r p p' db db' here bad h here' =
    let meta = provider_meta p (some hash) in
    let key : p.id ≡ id =
      (==_iff p.id id).0 (find_sound (λ (x : Payout). x.id == id) db.payouts p here) in
    let row =
      payout_of-update id p.id (status_row failed meta now) p db.payouts key (λ x. refl) here in
    let e : db'.payouts
        ≡ update (λ (x : Payout). x.id == p.id) (status_row failed meta now) db.payouts =
      ground (arith, h, bad) in
    let same : status_row failed meta now p ≡ p' = some-injective _ _ (sym row ∙ (rw e at here')) in
    ap (λ (x : Payout). x.status) (sym same)

enough :
    (env : Env) (now hash : ℕ) (r : Receipt) (p : Payout) (db : Db) {db' : Db}
    → confirm_receipt env now p hash (some r) db ≡ (db', ok tt)
    → r.reverted ≡ false
    → env.confirmations_required ≤ env.latest_block + 1 - r.block
unfolding confirm_receipt
enough env now hash r p db h good = ground arith

confirm_list :
    (env : Env) (now id : ℕ) (p p' : Payout) (xs : List Transfer) (db db' : Db)
    → payout_of id db ≡ some p
    → confirm_transfers env now p xs db ≡ (db', ok tt)
    → payout_of id db' ≡ some p'
    → is_paid p'.status ≡ true
    → Confirmed env xs
unfolding Confirmed confirm_transfers
confirm_list env now id p p' [] db db' here h here' done = absurd (ground (arith, h))
confirm_list env now id p p' (t ∷ ts) db db' here h here' done =
    elim (Bool-cases (all_confirmed (t ∷ ts))) [
      | inl all ↦ (t, ts, refl, inl all)
      | inr some_left ↦ elim (Option-cases t.tx_hash) [
        | inl gone ↦ absurd (ground (arith, some_left, gone, h))
        | inr (hash, known) ↦ elim (Option-cases (env.receipt hash)) [
          | inl early ↦
              absurd (unfold confirm_receipt in ground (arith, some_left, known, early, h))
          | inr (r, got) ↦
              let step : confirm_receipt env now p hash (some r) db ≡ (db', ok tt) =
                ground (arith, some_left, known, got, h) in
              elim (Bool-cases r.reverted) [
                | inl bad ↦
                    let lost = reverted_row env now id hash r p p' db db' here bad step here' in
                    absurd (ground (arith, lost, done))
                | inr good ↦ (
                  t,
                  ts,
                  refl,
                  inr (hash, r, known, got, good, enough env now hash r p db step good),
                )
              ]
        ]
      ]
    ]

-- A payout becomes paid by its confirmation only where it has transfers, and where these are all
-- confirmed or the receipt of the first one's transaction is not reverted and has as many
-- confirmations as are required.
pub confirm_pays :
    (env : Env) (now id : ℕ) (p p' : Payout) (db db' : Db)
    → payout_of id db ≡ some p
    → is_paid p.status ≡ false
    → handle_payout_confirm_requested env now id db ≡ (db', ok tt)
    → payout_of id db' ≡ some p'
    → is_paid p'.status ≡ true
    → Confirmed env (transfers_of p.id db)
unfolding handle_payout_confirm_requested confirm_row
confirm_pays env now id p p' db db' here unpaid h here' done =
    elim (Bool-cases (is_failed p.status)) [
      | inl lost ↦
          let kept : db ≡ db' = ground (arith, here, lost, h) in
          let same : p ≡ p' = some-injective _ _ (sym here ∙ (rw (sym kept) at here')) in
          absurd (ground (arith, unpaid, done, ap (λ (x : Payout). is_paid x.status) same))
      | inr live ↦
          confirm_list env now id p p' (transfers_of p.id db) db db' here
            (ground (arith, here, unpaid, live, h)) here' done
    ]
