-- ===== src/Claimable/Best.antt =====
-- src/store.ts, findClaimableJob: what is offered, and that nothing better is left.
use openunion.Prelude.{
  ℕ, ◌+◌, ◌*◌, ◌≤◌, max, ◌≡◌, refl, Bool, true, false, Option, none, some, List, [], ◌∷◌, ◌&&◌,
  arith, inl, inr, Bool-cases, All, subst,
}
use mathlib.Core.Option.{some-injective}
use openunion.Prelude.Int.{ℤ, sub_ℕ}
use openunion.Prelude.Tables.{All-take, All-select, All-imp, IsIn, IsIn-cons}
use openunion.Rows.{Db, Bounty}
use openunion.Claimable.Meets.{
  IsJoined, IsQueried, IsFitting, row-IsQueried, offered-IsFitting, join-IsJoined,
}
use openunion.Claimable.Offers.{fitting-offered}
use openunion.Claimable.{
  Lookup, Options, Candidate, join, is_row, insert_row, order_rows, claimable_rows, row_limit,
  is_offered, score, exceeds, beats, pick, find_claimable_job, expected_pass_rate,
  worker_duplicate_rate, comes_before,
}

module _ {κ} (P : Candidate → Type κ) where
  All-insert : (c : Candidate) (cs : List Candidate) → P c → All P cs → All P (insert_row c cs)
  unfolding insert_row
  All-insert c [] p h = (p, tt)
  All-insert c (d ∷ ds) p h = elim (Bool-cases (comes_before c d)) [
    | inl first ↦ rw first (p, h)
    | inr later ↦ rw later (h.0, All-insert c ds p h.1)
  ]

  All-order : (cs : List Candidate) → All P cs → All P (order_rows cs)
  unfolding order_rows
  All-order [] h = tt
  All-order (c ∷ cs) h = All-insert c (order_rows cs) h.0 (All-order cs h.1)

-- The rows that the query returns are what it asks for.
rows-All :
    (l : Lookup) (opts : Options) (now : ℕ) (db : Db)
    → All
        (λ c. IsJoined db.bounties db.jobs c × IsQueried l opts now c)
        (claimable_rows l opts now db)
unfolding claimable_rows
rows-All l opts now db =
    let rows = join db.bounties db.jobs in
    All-take _ (row_limit opts) _ (
      All-order _ _ (
        All-select _ (is_row l opts now) rows (
          All-imp _ _ rows (λ c joined h. (joined, row-IsQueried l opts now c h))
            (join-IsJoined db.bounties db.jobs))))

itself : (cs : List Candidate) → All (λ c. IsIn c cs) cs
itself [] = tt
itself (c ∷ cs) = (([], cs, refl), All-imp _ _ cs (λ d i. IsIn-cons d c cs i) (itself cs))

module _ (offered : Candidate → Bool) (rate : Candidate → ℤ) where
  -- No candidate of these that is offered has a greater score.
  abbrev pub Unbeaten : Candidate → List Candidate → Type 0
  Unbeaten r cs = All (λ c. (offered c && exceeds (rate c) (rate r)) ≡ false) cs

  abbrev NotAbove : Option Candidate → Candidate → Type 0
  NotAbove none r = Unit
  NotAbove (some b) r = exceeds (rate b) (rate r) ≡ false

  took :
      (best : Option Candidate) (c r : Candidate)
      → (offered c && beats rate c best) ≡ true
      → exceeds (rate c) (rate r) ≡ false
      → NotAbove best r
  took none c r h below = tt
  took (some b) c r h below = ground (arith, h, below)

  kept :
      (best : Option Candidate) (c r : Candidate)
      → (offered c && beats rate c best) ≡ false
      → NotAbove best r
      → (offered c && exceeds (rate c) (rate r)) ≡ false
  kept none c r h below = ground (arith, h)
  kept (some b) c r h below = ground (arith, h, below)

  pick-Unbeaten :
      (best : Option Candidate) (cs : List Candidate) (r : Candidate)
      → pick offered rate best cs ≡ some r
      → Unbeaten r cs × NotAbove best r
  unfolding pick
  pick-Unbeaten none [] r h = absurd (ground (arith, h))
  pick-Unbeaten (some b) [] r h =
      let same : b ≡ r = some-injective _ _ h in (tt, rw same (ground arith))
  pick-Unbeaten best (c ∷ cs) r h = elim (Bool-cases (offered c && beats rate c best)) [
    | inl hit ↦
        let (rest, below) = pick-Unbeaten (some c) cs r (rw hit at h) in
        ((ground (arith, below), rest), took best c r hit below)
    | inr miss ↦
        let (rest, below) = pick-Unbeaten best cs r (rw miss at h) in
        ((kept best c r miss below, rest), below)
  ]

  module _ {κ} (P : Candidate → Type κ) where
    abbrev HoldsOf : Option Candidate → Type κ
    HoldsOf none = Unit
    HoldsOf (some b) = P b × (offered b ≡ true)

    pick-HoldsOf :
        (best : Option Candidate) (cs : List Candidate) (r : Candidate)
        → HoldsOf best
        → All P cs
        → pick offered rate best cs ≡ some r
        → P r × (offered r ≡ true)
    unfolding pick
    pick-HoldsOf none [] r b h e = absurd (ground (arith, e))
    pick-HoldsOf (some x) [] r b h e = subst (λ y. HoldsOf (some y)) (some-injective _ _ e) b
    pick-HoldsOf best (c ∷ cs) r b h e = elim (Bool-cases (offered c && beats rate c best)) [
      | inl hit ↦ pick-HoldsOf (some c) cs r (h.0, ground (arith, hit)) h.1 (rw hit at e)
      | inr miss ↦ pick-HoldsOf best cs r b h.1 (rw miss at e)
    ]

-- What a job is worth to a worker, times the worker's denominators: its priority and payout, against
-- the proofs that the worker's failures make dear and the share of the payout that duplicates cost.
abbrev pub gain : ℕ × ℕ → ℕ × ℕ → Bounty → ℕ
gain (alpha, beta) (duplicates, recent) b =
    (b.priority * 100000 + b.payout_cents) * (alpha + beta) * max 1 recent * 5

abbrev pub loss : ℕ × ℕ → ℕ × ℕ → Bounty → ℕ
loss (alpha, beta) (duplicates, recent) b =
    b.required_proofs * beta * 500 * max 1 recent * 5 + b.payout_cents * duplicates * (alpha + beta)

-- A bounty is worth no more than another.
abbrev pub IsNoMore : ℕ × ℕ → ℕ × ℕ → Bounty → Bounty → Type 0
IsNoMore rep dup b best = gain rep dup b + loss rep dup best ≤ gain rep dup best + loss rep dup b

difference : (a b c d : ℕ) → exceeds (sub_ℕ a b) (sub_ℕ c d) ≡ false → a + d ≤ c + b
difference a b c d h = ground (arith, h)

score-IsNoMore :
    (rep dup : ℕ × ℕ) (b best : Bounty)
    → exceeds (score rep dup b) (score rep dup best) ≡ false
    → IsNoMore rep dup b best
unfolding score
score-IsNoMore rep dup b best h =
    difference (gain rep dup b) (loss rep dup b) (gain rep dup best) (loss rep dup best) h

-- The job that a worker is offered is one of the rows that the query returns. It is a job of the
-- database with its published bounty, it is open or its lease is over, and it is the one and of the
-- type that the request requires; it is not excluded, each of the bounty's origins is public for the
-- task or verified by the organisation, its payout is no less than the minimum, its tags hold the one
-- asked for and are all supported, or do without a browser that is switched off, and it is within its
-- freshness limit. No other row that the query returns and of which the same holds is worth more to
-- the worker, by its priority and payout, less what the worker's failures and duplicates cost.
pub offers_best :
    (l : Lookup) (worker_id : ℕ) (browser_off : Bool) (opts : Options) (now : ℕ) (db : Db)
    (r : Candidate)
    → find_claimable_job l worker_id browser_off opts now db ≡ some r
    → IsIn r (claimable_rows l opts now db)
      × IsJoined db.bounties db.jobs r
      × IsQueried l opts now r
      × IsFitting l browser_off opts now r
      × All
          (λ c.
            IsFitting l browser_off opts now c
            → IsNoMore
                (expected_pass_rate worker_id db)
                (worker_duplicate_rate worker_id db)
                c.1
                r.1)
          (claimable_rows l opts now db)
unfolding find_claimable_job
offers_best l worker_id browser_off opts now db r h =
    let offered = is_offered l browser_off opts now in
    let rep = expected_pass_rate worker_id db in
    let dup = worker_duplicate_rate worker_id db in
    let rate : Candidate → ℤ = λ c. score rep dup c.1 in
    let rows = claimable_rows l opts now db in
    let (among, fits) =
      pick-HoldsOf offered rate (λ c. IsIn c rows) none rows r tt (itself rows) h in
    let ((joined, queried), _) =
      pick-HoldsOf offered rate (λ c. IsJoined db.bounties db.jobs c × IsQueried l opts now c) none
        rows r tt (rows-All l opts now db) h in
    let unbeaten = (pick-Unbeaten offered rate none rows r h).0 in
    (
      among,
      joined,
      queried,
      offered-IsFitting l browser_off opts now r fits,
      All-imp _ _ rows
          (λ c no_more meets.
            let fit = fitting-offered l browser_off opts now c meets in
            score-IsNoMore rep dup c.1 r.1 (ground (arith, no_more, fit)))
          unbeaten,
    )
