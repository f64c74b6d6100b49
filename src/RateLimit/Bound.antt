-- ===== src/RateLimit/Bound.antt =====
-- src/ratelimit.ts: how many requests a bucket admits.
use native.Mathlib.Nat.{mul-le-mul_right}
use mathlib.Core.Option
use openunion.Prelude.{
  ℕ, ◌≡◌, ◌≤◌, ◌+◌, ◌-◌, ◌*◌, ◌∙◌, Bool-cases, ==_refl, refl, ap, Bool, List, [], ◌∷◌, Option, none,
  some, arith, ltb, ◌==◌, if◌then◌else◌, inl, inr,
}
use openunion.Prelude.Int.{pos, neg, sub_ℕ, ◌+ℤ◌}
use openunion.Prelude.Tables.{find, update, find-update, find_sound, find-append}
use openunion.RateLimit.{
  Bucket, unit, capped, filled, take_token, with_tokens, rate_limit, ensure_bucket,
}

-- A bucket that holds so many sixty-thousandths, no more than it may.
abbrev pub Holds : ℕ → ℕ → ℕ → Bucket → Type 0
Holds rate u at b = (b.tokens ≡ pos u) × (u ≤ rate * unit) × (b.updated_at ≡ at)

poured : (u m k : ℕ) → k ≤ m → pos u +ℤ sub_ℕ m k ≡ pos (u + (m - k))
unfolding ◌+ℤ◌
poured u m k h = ground (arith, h)

capped-pos : (limit s : ℕ) → capped limit (pos s) ≡ pos (if ltb limit s then limit else s)
capped-pos limit s = ground arith

spent : (v : ℕ) → unit ≤ v → pos v +ℤ neg unit ≡ pos (v - unit)
unfolding ◌+ℤ◌
spent v h = ground (arith, h)

filled-pos :
    (rate u at now : ℕ) (b : Bucket)
    → Holds rate u at b
    → at ≤ now
    → (v : ℕ) × (filled rate now b ≡ pos v) × (v ≤ rate * unit) × (v + at * rate ≤ u + now * rate)
unfolding filled
filled-pos rate u at now b (holds, within, written) later =
    let drip = mul-le-mul_right rate later in
    let s = u + (now * rate - at * rate) in
    let v = if ltb (rate * unit) s then rate * unit else s in
    let sum : b.tokens +ℤ sub_ℕ (now * rate) (b.updated_at * rate) ≡ pos s =
      rw (holds, written) (poured u (now * rate) (at * rate) drip) in
    (
      v,
      ap (capped (rate * unit)) sum ∙ capped-pos (rate * unit) s,
      ground (arith),
      ground (arith, drip),
    )

-- One request at a later time: what it takes, out of what was there and what dripped in.
take_token-Holds :
    (rate u at now : ℕ) (b : Bucket)
    → Holds rate u at b
    → at ≤ now
    → (v : ℕ) × Holds rate v now (take_token rate now b).0
      × (v + (if (take_token rate now b).1 then unit else 0) + at * rate ≤ u + now * rate)
unfolding take_token
take_token-Holds rate u at now b has later =
    let (v, full, within, drip) = filled-pos rate u at now b has later in
    elim (Bool-cases (ltb v unit)) [
      | inl dry ↦ (
        v,
        (ground (arith, full, dry), within, ground (arith, full, dry)),
        ground (arith, full, dry, drip),
      )
      | inr wet ↦
          let left = spent v (ground (arith, wet)) in
          (
            v - unit,
            (ground (arith, full, wet, left), omega arith, ground (arith, full, wet)),
            ground (arith, full, wet, drip),
          )
    ]

abbrev pub bucket_of : ℕ → List Bucket → Option Bucket
bucket_of key rows = find (λ (b : Bucket). b.key == key) rows

-- The bucket of a key holds so many sixty-thousandths.
abbrev pub HoldsAt : ℕ → ℕ → ℕ → ℕ → List Bucket → Type 0
HoldsAt key rate u at rows = (b : Bucket) × (bucket_of key rows ≡ some b) × Holds rate u at b

ensure-HoldsAt :
    (key rate now : ℕ) (rows : List Bucket)
    → bucket_of key rows ≡ none
    → HoldsAt key rate (rate * unit) now (ensure_bucket key rate now rows)
unfolding ensure_bucket find
ensure-HoldsAt key rate now rows gone =
    let new : Bucket = record { key = key; tokens = pos (rate * unit); updated_at = now } in
    let added = find-append (λ (b : Bucket). b.key == key) rows (new ∷ []) in
    (new, ground (arith, gone, added, ==_refl key), (refl, omega arith, refl))

ensure_kept :
    (key rate now : ℕ) (rows : List Bucket) (b : Bucket)
    → bucket_of key rows ≡ some b
    → ensure_bucket key rate now rows ≡ rows
unfolding ensure_bucket
ensure_kept key rate now rows b here = ground (arith, here)

-- What a request on a bucket leaves.
rate_limit-HoldsAt :
    (key rate u at now : ℕ) (rows : List Bucket)
    → HoldsAt key rate u at (ensure_bucket key rate now rows)
    → at ≤ now
    → (rows' : List Bucket) × (admitted : Bool) × (v : ℕ) × (rate_limit key rate now rows
        ≡ some (rows', admitted))
      × HoldsAt key rate v now rows'
      × (v + (if admitted then unit else 0) + at * rate ≤ u + now * rate)
unfolding rate_limit
rate_limit-HoldsAt key rate u at now rows (b, here, has) later =
    let (v, after, fewer) = take_token-Holds rate u at now b has later in
    let t = (take_token rate now b).0.tokens in
    let admitted = (take_token rate now b).1 in
    let ensured = ensure_bucket key rate now rows in
    let test : Bucket → Bool = λ x. x.key == key in
    let moved = find-update test test (with_tokens t now) ensured (λ x. refl) in
    let hit = find_sound test ensured b here in
    (
      update test (with_tokens t now) ensured,
      admitted,
      v,
      ground (arith, here),
      (with_tokens t now b, ground (arith, moved, here, hit), (after.0, after.1, refl)),
      fewer,
    )

-- Requests one after another, and how many of them are admitted.
pub requests : ℕ → ℕ → List ℕ → List Bucket → Option ℕ
requests key rate [] rows = some 0
requests key rate (now ∷ times) rows = elim (rate_limit key rate now rows) [
  | none ↦ none
  | some (rows', admitted) ↦
      Option.map (λ n. (if admitted then 1 else 0) + n) (requests key rate times rows')
]

-- Times from one to another, in order.
abbrev pub Ordered : ℕ → List ℕ → ℕ → Type 0
Ordered first [] last = first ≤ last
Ordered first (t ∷ times) last = (first ≤ t) × Ordered t times last

-- The requests on a bucket, one after another, are all answered.
requests_le :
    (key rate u at last : ℕ) (times : List ℕ) (rows : List Bucket)
    → HoldsAt key rate u at rows
    → Ordered at times last
    → (n : ℕ) × (requests key rate times rows ≡ some n) × (n * unit + at * rate ≤ u + last * rate)
unfolding requests
requests_le key rate u at last [] rows has order =
    let drip = mul-le-mul_right rate order in (0, refl, omega (arith, drip))
requests_le key rate u at last (now ∷ times) rows (b, here, has) (later, order) =
    let kept = ensure_kept key rate now rows b here in
    let (rows', admitted, v, done, has', fewer) =
      rate_limit-HoldsAt key rate u at now rows (b, rw kept here, has) later in
    let (n, rest, within) = requests_le key rate v now last times rows' has' order in
    ((if admitted then 1 else 0) + n, ground (arith, done, rest), ground (arith, fewer, within))

-- Between two times a key that had no bucket gets no more than its rate at once and its rate for
-- each minute between them: its requests, in the order of time and as many as there are, are all
-- answered, and the number of those admitted is within that bound (in sixty-thousandths).
pub rate_bounded :
    (key rate first last : ℕ) (times : List ℕ) (rows : List Bucket)
    → bucket_of key rows ≡ none
    → Ordered first times last
    → (n : ℕ) × (requests key rate (first ∷ times) rows ≡ some n)
      × (n * unit + first * rate ≤ rate * unit + last * rate)
unfolding requests
rate_bounded key rate first last times rows gone order =
    let (rows', admitted, v, done, has, fewer) =
      rate_limit-HoldsAt key rate (rate * unit) first first rows
        (ensure-HoldsAt key rate first rows gone) (omega arith) in
    let (n, rest, within) = requests_le key rate v first last times rows' has order in
    ((if admitted then 1 else 0) + n, ground (arith, done, rest), ground (arith, fewer, within))
