-- ===== src/Verifications/Reputations.antt =====
-- src/store.ts, recordReputation: the table of reputations as a count of verdicts.
use openunion.Prelude.{
  ℕ, ◌+◌, ◌≡◌, refl, Bool, true, false, none, some, List, [], ◌∷◌, ◌&&◌, not, ◌==◌, arith,
  if◌then◌else◌, Option-cases, inl, inr, Bool-cases, ==_iff,
}
use openunion.Prelude.Tables.{find, find-append, find-update, find_sound}
use openunion.Rows.{Reputation}
use openunion.Verifications.{record_reputation, scored, worker_is}

-- A worker's passes and failures, as `expectedPassRate` and `recordReputation` read them.
abbrev pub alpha_of : ℕ → List Reputation → ℕ
alpha_of w rows = elim (find (worker_is w) rows) [ none ↦ 2 | some r ↦ r.alpha ]

abbrev pub beta_of : ℕ → List Reputation → ℕ
beta_of w rows = elim (find (worker_is w) rows) [ none ↦ 2 | some r ↦ r.beta ]

-- Verdicts one after another: the worker, and whether it passed.
pub record_all : List (ℕ × Bool) → List Reputation → List Reputation
record_all [] rows = rows
record_all ((w, passed) ∷ rest) rows = record_all rest (record_reputation w passed rows)

-- The verdicts of one kind on one worker.
pub tally : ℕ → Bool → List (ℕ × Bool) → ℕ
tally w kind [] = 0
tally w kind ((k, passed) ∷ rest) =
    (if k == w && (if kind then passed else not passed) then 1 else 0) + tally w kind rest

scored_kept :
    (w : ℕ) (passed : Bool) (r : Reputation) → worker_is w (scored passed r) ≡ worker_is w r
scored_kept w true r = refl
scored_kept w false r = refl

scored_row :
    (w k : ℕ) (passed : Bool) (r : Reputation)
    → r.worker_id ≡ w
    → ((if worker_is k r then scored passed r else r).alpha
        ≡ r.alpha + (if k == w && passed then 1 else 0))
      × ((if worker_is k r then scored passed r else r).beta
          ≡ r.beta + (if k == w && not passed then 1 else 0))
scored_row w k true r is_w = ground arith
scored_row w k false r is_w = ground arith

recorded :
    (w k : ℕ) (passed : Bool) (rows : List Reputation)
    → (alpha_of w (record_reputation k passed rows)
        ≡ alpha_of w rows + (if k == w && passed then 1 else 0))
      × (beta_of w (record_reputation k passed rows)
          ≡ beta_of w rows + (if k == w && not passed then 1 else 0))
unfolding record_reputation find
recorded w k passed rows =
    let fresh : Reputation = record { worker_id = k; alpha = 2; beta = 2 } in
    let added = find-append (worker_is w) rows (scored passed fresh ∷ []) in
    let changed =
      find-update (worker_is w) (worker_is k) (scored passed) rows (scored_kept w passed) in
    elim (Option-cases (find (worker_is k) rows)) [
      | inl none_k ↦ elim (Bool-cases (k == w)) [
        | inl same ↦ ground (arith, none_k, same, added)
        | inr other ↦ ground (arith, none_k, other, added)
      ]
      | inr (r, found) ↦ elim (Option-cases (find (worker_is w) rows)) [
        | inl none_w ↦ ground (arith, found, changed, none_w)
        | inr (q, found_w) ↦
            let is_w = (==_iff q.worker_id w).0 (find_sound (worker_is w) rows q found_w) in
            ground (arith, found, changed, found_w, scored_row w k passed q is_w)
      ]
    ]

-- The two counts after any verdicts, over any rows.
recorded_all :
    (w : ℕ) (verdicts : List (ℕ × Bool)) (rows : List Reputation)
    → (alpha_of w (record_all verdicts rows) ≡ alpha_of w rows + tally w true verdicts)
      × (beta_of w (record_all verdicts rows) ≡ beta_of w rows + tally w false verdicts)
unfolding record_all tally
recorded_all w [] rows = ground arith
recorded_all w ((k, passed) ∷ rest) rows =
    let one = recorded w k passed rows in
    let more = recorded_all w rest (record_reputation k passed rows) in ground (arith, one, more)

-- Whatever verdicts are recorded, in whatever order, from an empty table: the row that a worker's
-- expected pass rate is read from has two more passes and two more failures than the verdicts on
-- that worker; the verdicts on others count nothing.
pub record_refines :
    (w : ℕ) (verdicts : List (ℕ × Bool))
    → (alpha_of w (record_all verdicts []) ≡ 2 + tally w true verdicts)
      × (beta_of w (record_all verdicts []) ≡ 2 + tally w false verdicts)
unfolding tally find
record_refines w verdicts = recorded_all w verdicts []
