-- ===== src/Fees.antt =====
-- src/payments/crypto/baseUsdc.ts: how a gross payout is split, and cents as USDC base units.
-- Amounts and basis points are whole, nonnegative numbers, so the tests for NaN, infinity and
-- negative values have no counterpart; a fee of more than 100% does.
use openunion.Prelude.{ℕ, ◌+◌, ◌-◌, ◌*◌, ◌/◌, ◌≤◌, ◌<◌, ◌≡◌, arith, ltb, not}
use openunion.Prelude.Result.{Result, ok, ◌>>◌, guard}

pub data FeeError : Type 0 where
  invalid_fee_bps invalid_platform_fee_bps invalid_proofwork_fee_bps : FeeError
  fee_bps_sum_exceeds_100pct fee_exceeds_gross invalid_max_proofwork_fee_bps : FeeError
  proofwork_fee_bps_exceeds_max : ℕ → ℕ → FeeError

pub record FeeSplit : Type 0 where
  pub fee_cents : ℕ
  pub net_cents : ℕ

pub record PayoutSplit : Type 0 where
  pub platform_fee_cents : ℕ
  pub proofwork_fee_cents : ℕ
  pub net_cents : ℕ

pub compute_fee_split_cents : ℕ → ℕ → Result FeeError FeeSplit
compute_fee_split_cents gross_cents fee_bps = do
  guard (not (ltb 10000 fee_bps)) invalid_fee_bps
  let fee_cents = gross_cents * fee_bps / 10000
  ok (record { fee_cents = fee_cents; net_cents = gross_cents - fee_cents })

-- The two tests for `fee_exceeds_gross` compare before the truncated subtraction.
unfoldable pub compute_payout_split_cents : ℕ → ℕ → ℕ → Result FeeError PayoutSplit
compute_payout_split_cents gross_cents platform_fee_bps proofwork_fee_bps = do
  guard (not (ltb 10000 platform_fee_bps)) invalid_platform_fee_bps
  guard (not (ltb 10000 proofwork_fee_bps)) invalid_proofwork_fee_bps
  guard (not (ltb 10000 (platform_fee_bps + proofwork_fee_bps))) fee_bps_sum_exceeds_100pct
  let platform_fee_cents = gross_cents * platform_fee_bps / 10000
  guard (not (ltb gross_cents platform_fee_cents)) fee_exceeds_gross
  let worker_gross_cents = gross_cents - platform_fee_cents
  let proofwork_fee_cents = worker_gross_cents * proofwork_fee_bps / 10000
  guard (not (ltb worker_gross_cents proofwork_fee_cents)) fee_exceeds_gross
  ok (record {
    platform_fee_cents = platform_fee_cents;
    proofwork_fee_cents = proofwork_fee_cents;
    net_cents = worker_gross_cents - proofwork_fee_cents;
  })

unfoldable pub cents_to_usdc_base_units : ℕ → ℕ
cents_to_usdc_base_units cents = cents * 10000

-- `proofworkFeeBps()`, over the two environment values with their defaults put in.
unfoldable pub proofwork_fee_bps : ℕ → ℕ → Result FeeError ℕ
proofwork_fee_bps bps max_bps = do
  guard (not (ltb 10000 bps)) invalid_proofwork_fee_bps
  guard (not (ltb 10000 max_bps)) invalid_max_proofwork_fee_bps
  guard (not (ltb max_bps bps)) (proofwork_fee_bps_exceeds_max bps max_bps)
  ok bps

-- A share of at most 100% is at most the whole.
pub share_le : (g b : ℕ) → b ≤ 10000 → g * b / 10000 ≤ g
share_le g b h = grind arith

-- The shares of every split add up to the gross amount, and a split is only made of fees that
-- are at most 100% together.
pub split_conserves :
    (g pf pw : ℕ) {s : PayoutSplit}
    → compute_payout_split_cents g pf pw ≡ ok s
    → (s.platform_fee_cents + s.proofwork_fee_cents + s.net_cents ≡ g) × (pf + pw ≤ 10000)
unfolding compute_payout_split_cents
split_conserves g pf pw h = (ground arith, ground arith)

-- Fees of at most 100% together always make a split: no later test refuses it. The platform's
-- share is the floor of its part of the gross amount, Proofwork's is the floor of its part of
-- what the platform leaves, and the three shares are the gross amount.
pub split_total :
    (g pf pw : ℕ)
    → pf + pw ≤ 10000
    → (s : PayoutSplit) × (compute_payout_split_cents g pf pw ≡ ok s)
      × (s.platform_fee_cents * 10000 ≤ g * pf)
      × (g * pf < s.platform_fee_cents * 10000 + 10000)
      × (s.proofwork_fee_cents * 10000 ≤ (g - s.platform_fee_cents) * pw)
      × ((g - s.platform_fee_cents) * pw < s.proofwork_fee_cents * 10000 + 10000)
      × (s.platform_fee_cents + s.proofwork_fee_cents + s.net_cents ≡ g)
unfolding compute_payout_split_cents
split_total g pf pw h =
    let p : ℕ = g * pf / 10000 in
    let q : ℕ = (g - g * pf / 10000) * pw / 10000 in
    let hp = share_le g pf (omega arith) in
    let hq = share_le (g - g * pf / 10000) pw (omega arith) in
    (
      record { platform_fee_cents = p; proofwork_fee_cents = q; net_cents = g - p - q },
      ground (arith, hp, hq),
      omega arith,
      omega arith,
      omega arith,
      omega arith,
      omega (arith, hp, hq),
    )

-- What a share leaves.
abbrev rest : ℕ → ℕ → ℕ
rest g b = g - g * b / 10000

rest_mono : (g h b : ℕ) → b ≤ 10000 → g ≤ h → rest g b ≤ rest h b
rest_mono g h b le less =
    let d : ℕ = h - g in
    let e : h ≡ g + d = omega arith in
    let k : d * b ≤ d * 10000 = grind arith in
    rw e (omega (arith, share_le g b le, share_le (g + d) b le))

net_lem :
    (g pf pw : ℕ) {s : PayoutSplit}
    → compute_payout_split_cents g pf pw ≡ ok s
    → s.net_cents ≡ rest (rest g pf) pw
unfolding compute_payout_split_cents
net_lem g pf pw h = ground arith

-- A larger gross amount never leaves the worker with less, whatever the two fees are.
pub net_mono :
    (g h pf pw : ℕ) {s t : PayoutSplit}
    → g ≤ h
    → compute_payout_split_cents g pf pw ≡ ok s
    → compute_payout_split_cents h pf pw ≡ ok t
    → s.net_cents ≤ t.net_cents
net_mono g h pf pw le p q =
    let total = (split_conserves g pf pw p).1 in
    rw (net_lem g pf pw p, net_lem h pf pw q)
      (rest_mono (rest g pf) (rest h pf) pw (omega arith) (rest_mono g h pf (omega arith) le))

-- The base units sent on chain for the three shares are the base units of the gross amount.
pub units_conserve :
    (g pf pw : ℕ) {s : PayoutSplit}
    → compute_payout_split_cents g pf pw ≡ ok s
    → cents_to_usdc_base_units s.net_cents
        + cents_to_usdc_base_units s.platform_fee_cents
        + cents_to_usdc_base_units s.proofwork_fee_cents
      ≡ cents_to_usdc_base_units g
unfolding cents_to_usdc_base_units
units_conserve g pf pw h = omega (arith, (split_conserves g pf pw h).0)
