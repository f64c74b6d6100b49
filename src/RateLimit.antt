-- ===== src/RateLimit.antt =====
-- src/ratelimit.ts: the token bucket. Tokens are counted in sixty-thousandths, so that a rate per
-- minute adds whole numbers each millisecond; the code's floating-point sums are taken as exact. The
-- row lock makes a request one step. Keys are numbers.
pub mod Bound
mod Examples
use openunion.Prelude.{
  ℕ, ◌+◌, ◌*◌, Bool, true, false, List, [], ◌∷◌, ◌++◌, Option, none, some, ltb, ◌==◌, if◌then◌else◌,
  is_some,
}
use openunion.Prelude.Int.{ℤ, pos, pos_part, neg, sub_ℕ, ◌+ℤ◌}
use openunion.Prelude.Tables.{find, update}

pub record Bucket : Type 0 where
  pub key : ℕ
  pub tokens : ℤ
  pub updated_at : ℕ

-- One token.
abbrev pub unit : ℕ
unit = 60000

-- ON CONFLICT (key) DO NOTHING
unfoldable pub ensure_bucket : ℕ → ℕ → ℕ → List Bucket → List Bucket
ensure_bucket key rate now rows =
    if is_some (find (λ (b : Bucket). b.key == key) rows)
    then rows
    else rows ++ record { key = key; tokens = pos (rate * unit); updated_at = now } ∷ []

-- `Math.min(ratePerMin, tokens)`, for a rate that is not below 0
abbrev pub capped : ℕ → ℤ → ℤ
capped limit t = if ltb limit (pos_part t) then pos limit else t

-- What has dripped in since the bucket was written, as much as it holds.
unfoldable pub filled : ℕ → ℕ → Bucket → ℤ
unfolding ◌+ℤ◌
filled rate now b = capped (rate * unit) (b.tokens +ℤ sub_ℕ (now * rate) (b.updated_at * rate))

abbrev pub with_tokens : ℤ → ℕ → Bucket → Bucket
with_tokens t now b = record b { tokens = t; updated_at = now }

-- `tokens < 1`, or one token is taken.
unfoldable pub take_token : ℕ → ℕ → Bucket → Bucket × Bool
unfolding ◌+ℤ◌
take_token rate now b =
    let t = filled rate now b in
    if ltb (pos_part t) unit
    then (with_tokens t now b, false)
    else (with_tokens (t +ℤ neg unit) now b, true)

-- `none` is the error `rate_limit_bucket_missing`.
unfoldable pub rate_limit : ℕ → ℕ → ℕ → List Bucket → Option (List Bucket × Bool)
rate_limit key rate now rows =
    let ensured = ensure_bucket key rate now rows in
    elim (find (λ (b : Bucket). b.key == key) ensured) [
      | none ↦ none
      | some b ↦
          let (b', admitted) = take_token rate now b in
          some (update (λ (x : Bucket). x.key == key) (with_tokens b'.tokens now) ensured, admitted)
    ]
