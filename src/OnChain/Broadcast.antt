-- ===== src/OnChain/Broadcast.antt =====
-- workers/handlers.ts, the on-chain branch of `handlePayoutRequested`: what one broadcast records.
use openunion.Prelude.{
  ℕ, ◌≡◌, ◌∙◌, ◌+◌, refl, ap, Bool, true, false, Option, none, some, List, [], ◌∷◌, ◌++◌, arith,
  ltb, ◌==◌, ==_refl, if◌then◌else◌, Bool-cases, inl, inr, ◌&&◌,
}
use openunion.Prelude.Tables.{find, sum}
use openunion.Fees.{
  PayoutSplit, compute_payout_split_cents, cents_to_usdc_base_units, units_conserve,
}
use openunion.Prelude.Result.{ok}
use openunion.Rows.{
  Transfer, TransferKind, net_transfer, platform_fee_transfer, proofwork_fee_transfer, kind_code,
}
use openunion.OnChain.{upsert_transfer, new_transfer, broadcast_transfers, splitter_call}

-- The transfers of a payout.
abbrev pub of_payout : ℕ → Transfer → Bool
of_payout id t = t.payout_id == id

abbrev pub sent_units : ℕ → List Transfer → ℕ
sent_units id = sum (of_payout id) (λ (t : Transfer). t.amount_base_units)

abbrev leg : ℕ → TransferKind → Transfer → Bool
leg id kind t = t.payout_id == id && kind_code t.kind == kind_code kind

sum_append :
    (id : ℕ) (t : Transfer) (xs : List Transfer)
    → sent_units id (xs ++ t ∷ [])
      ≡ sent_units id xs + (if of_payout id t then t.amount_base_units else 0)
unfolding sum
sum_append id t [] = omega arith
sum_append id t (x ∷ xs) = omega (arith, sum_append id t xs)

no_leg :
    (id : ℕ) (kind : TransferKind) (xs : List Transfer)
    → find (of_payout id) xs ≡ none
    → find (leg id kind) xs ≡ none
unfolding find
no_leg id kind [] h = refl
no_leg id kind (x ∷ xs) h = ground (arith, no_leg id kind xs)

no_leg_append :
    (id : ℕ) (kind : TransferKind) (t : Transfer) (xs : List Transfer)
    → find (leg id kind) xs ≡ none
    → leg id kind t ≡ false
    → find (leg id kind) (xs ++ t ∷ []) ≡ none
unfolding find
no_leg_append id kind t [] h k = ground arith
no_leg_append id kind t (x ∷ xs) h k = ground (arith, no_leg_append id kind t xs)

module _ (id hash nonce : ℕ) where
  inserted :
      (kind : TransferKind) (to : Option ℕ) (units : ℕ) (xs : List Transfer)
      → find (leg id kind) xs ≡ none
      → upsert_transfer (new_transfer id kind to units hash nonce) xs
        ≡ xs ++ new_transfer id kind to units hash nonce ∷ []
  unfolding upsert_transfer new_transfer
  inserted kind to units xs free = ground (arith, free)

  -- A leg adds its units, and a fee of 0 needs none.
  leg_units :
      (kind : TransferKind) (to : Option ℕ) (units : ℕ) (xs : List Transfer)
      → find (leg id kind) xs ≡ none
      → sent_units id (
          if ltb 0 units then upsert_transfer (new_transfer id kind to units hash nonce) xs else xs)
        ≡ sent_units id xs + units
  unfolding new_transfer
  leg_units kind to units xs free =
      let t = new_transfer id kind to units hash nonce in
      let added = ap (sent_units id) (inserted kind to units xs free) ∙ sum_append id t xs in
      elim (Bool-cases (ltb 0 units)) [
        | inl more ↦ rw more (added ∙ ground (arith, ==_refl id))
        | inr less ↦ rw less (ground (arith, less))
      ]

  -- And no leg of another kind.
  leg_kept :
      (kind other : TransferKind) (to : Option ℕ) (units : ℕ) (b : Bool) (xs : List Transfer)
      → (kind_code kind == kind_code other) ≡ false
      → find (leg id kind) xs ≡ none
      → find (leg id other) xs ≡ none
      → find
          (leg id other)
          (if b then upsert_transfer (new_transfer id kind to units hash nonce) xs else xs)
        ≡ none
  unfolding new_transfer
  leg_kept kind other to units true xs apart free free' =
      let t = new_transfer id kind to units hash nonce in
      rw (inserted kind to units xs free)
        (no_leg_append id other t xs free' (ground (arith, apart)))
  leg_kept kind other to units false xs apart free free' = free'

-- The legs of a payout that has none yet add up to the base units of its amount.
pub legs_conserve :
    (id gross pf pw worker pw_wallet hash nonce : ℕ) (platform_wallet : Option ℕ)
    (split : PayoutSplit) (transfers : List Transfer)
    → compute_payout_split_cents gross pf pw ≡ ok split
    → find (of_payout id) transfers ≡ none
    → sent_units id (
        broadcast_transfers id
          (splitter_call worker platform_wallet pw_wallet split)
          hash
          nonce
          transfers)
      ≡ sent_units id transfers + cents_to_usdc_base_units gross
unfolding broadcast_transfers splitter_call
legs_conserve id gross pf pw worker pw_wallet hash nonce platform_wallet split transfers h free =
    let total = units_conserve gross pf pw h in
    let n = cents_to_usdc_base_units split.net_cents in
    let f = cents_to_usdc_base_units split.platform_fee_cents in
    let g = cents_to_usdc_base_units split.proofwork_fee_cents in
    let to : Option ℕ = if ltb 0 split.platform_fee_cents then platform_wallet else none in
    let a = no_leg id net_transfer transfers free in
    let b = no_leg id platform_fee_transfer transfers free in
    let c = no_leg id proofwork_fee_transfer transfers free in
    let first =
      upsert_transfer (new_transfer id net_transfer (some worker) n hash nonce) transfers in
    let b1 : find (leg id platform_fee_transfer) first ≡ none =
      leg_kept id hash nonce net_transfer platform_fee_transfer (some worker) n true transfers refl
        a b in
    let c1 : find (leg id proofwork_fee_transfer) first ≡ none =
      leg_kept id hash nonce net_transfer proofwork_fee_transfer (some worker) n true transfers refl
        a c in
    let second =
      if ltb 0 f
      then upsert_transfer (new_transfer id platform_fee_transfer to f hash nonce) first
      else first in
    let c2 : find (leg id proofwork_fee_transfer) second ≡ none =
      leg_kept id hash nonce platform_fee_transfer proofwork_fee_transfer to f (ltb 0 f) first refl
        b1 c1 in
    let s1 : sent_units id first ≡ sent_units id transfers + n =
      ap (sent_units id) (inserted id hash nonce net_transfer (some worker) n transfers a)
      ∙ (sum_append id _ transfers ∙ (unfold new_transfer in ground (arith, ==_refl id))) in
    let s2 : sent_units id second ≡ sent_units id first + f =
      leg_units id hash nonce platform_fee_transfer to f first b1 in
    leg_units id hash nonce proofwork_fee_transfer (some pw_wallet) g second c2
    ∙ omega (arith, s1, s2, total)
