-- ===== src/Payouts/Once.antt =====
-- src/store.ts, addPayout: one payout for a submission, and what a second call changes.
use openunion.Prelude.{
  ℕ, ◌≡◌, ◌∙◌, ◌+◌, ◌≤◌, refl, ap, subst, Bool, some, none, List, [], ◌∷◌, ◌++◌, arith, ==_iff,
  ==_refl, ◌==◌, inl, inr, Bool-cases, Option-cases, if◌then◌else◌, get_or,
}
use openunion.Prelude.Tables.{find, update, count, count-none, find-update, find-append, find_sound}
use openunion.Prelude.Result.{ok, Result-cases}
use openunion.Fees.{PayoutSplit, compute_payout_split_cents, proofwork_fee_bps, split_conserves}
use openunion.Rows.{Db, Payout}
use openunion.Payouts.{
  FeeEnv, add_payout, upsert_payout, context_of_submission, fee_bps_of, new_payout, resplit,
}

-- The net amount and the two fees of a row.
abbrev pub total_of : Payout → ℕ
total_of p =
    get_or p.platform_fee_cents 0 + get_or p.proofwork_fee_cents 0 + get_or p.net_amount_cents 0

abbrev pub of_submission : ℕ → Payout → Bool
of_submission s p = p.submission_id == s

count_append :
    (s : ℕ) (new : Payout) (xs : List Payout)
    → count (of_submission s) (xs ++ new ∷ [])
      ≡ count (of_submission s) xs + (if of_submission s new then 1 else 0)
unfolding count
count_append s new [] = omega arith
count_append s new (x ∷ xs) = omega (arith, count_append s new xs)

count_patched :
    (s : ℕ) (q : Payout → Bool) (f : Payout → Payout) (xs : List Payout)
    → ((x : Payout) → (f x).submission_id ≡ x.submission_id)
    → count (of_submission s) (update q f xs) ≡ count (of_submission s) xs
unfolding count update
count_patched s q f [] keep = refl
count_patched s q f (x ∷ xs) keep = ground (arith, keep x, count_patched s q f xs keep)

upsert_new :
    (new : Payout) (patch : Payout → Payout) (xs : List Payout)
    → find (of_submission new.submission_id) xs ≡ none
    → upsert_payout new patch xs ≡ (xs ++ new ∷ [], new)
unfolding upsert_payout
upsert_new new patch xs gone = ground (arith, gone)

upsert_old :
    (new old : Payout) (patch : Payout → Payout) (xs : List Payout)
    → find (of_submission new.submission_id) xs ≡ some old
    → upsert_payout new patch xs ≡ (update (of_submission new.submission_id) patch xs, patch old)
unfolding upsert_payout
upsert_old new old patch xs here = ground (arith, here)

count_upsert :
    (s : ℕ) (new : Payout) (patch : Payout → Payout) (xs : List Payout)
    → ((x : Payout) → (patch x).submission_id ≡ x.submission_id)
    → count (of_submission s) xs ≤ 1
    → count (of_submission s) (upsert_payout new patch xs).0 ≤ 1
unfolding upsert_payout
count_upsert s new patch xs keep few =
    elim (Option-cases (find (of_submission new.submission_id) xs)) [
      | inl gone ↦ rw (upsert_new new patch xs gone) (elim (Bool-cases (new.submission_id == s)) [
        | inl same ↦
            let e : new.submission_id ≡ s = (==_iff new.submission_id s).0 same in
            let zero_now : count (of_submission s) xs ≡ 0 =
              count-none (of_submission s) xs
                (subst (λ k. find (of_submission k) xs ≡ none) e gone) in
            rw count_append (ground (arith, zero_now))
        | inr other ↦ rw count_append (ground (arith, other, few))
      ])
      | inr (old, here) ↦
          rw (upsert_old new old patch xs here)
            (rw (count_patched s (of_submission new.submission_id) patch xs keep) few)
    ]

upserted_found :
    (new : Payout) (patch : Payout → Payout) (xs : List Payout)
    → ((x : Payout) → (patch x).submission_id ≡ x.submission_id)
    → find (of_submission new.submission_id) (upsert_payout new patch xs).0
      ≡ some (upsert_payout new patch xs).1
unfolding upsert_payout
upserted_found new patch xs keep =
    let q = of_submission new.submission_id in
    elim (Option-cases (find q xs)) [
      | inl gone ↦
          let added = find-append q xs (new ∷ []) in
          unfold find in ground (arith, gone, added, ==_refl new.submission_id)
      | inr (old, here) ↦
          let hit = find_sound q xs old here in
          let after = find-update q q patch xs (λ x. ap (λ k. k == new.submission_id) (keep x)) in
          ground (arith, after, here, hit)
    ]

upserted_shares :
    (new : Payout) (patch : Payout → Payout) (xs : List Payout) (n : ℕ)
    → total_of new ≡ n
    → ((x : Payout) → total_of (patch x) ≡ n)
    → total_of (upsert_payout new patch xs).1 ≡ n
unfolding upsert_payout
upserted_shares new patch xs n a b =
    elim (Option-cases (find (of_submission new.submission_id) xs)) [
      | inl gone ↦ rw (upsert_new new patch xs gone) a
      | inr (old, here) ↦ rw (upsert_old new old patch xs here) (b old)
    ]

add_payout-eq-ok :
    (env : FeeEnv) (id now submission_id worker_id amount_cents : ℕ) (db : Db) {db' : Db}
    {row : Payout}
    → add_payout env id now submission_id worker_id amount_cents db ≡ ok (db', row)
    → (pw_bps : ℕ) × (split : PayoutSplit) × (compute_payout_split_cents amount_cents
          (fee_bps_of (context_of_submission submission_id db))
          pw_bps
        ≡ ok split)
      × ((upsert_payout
            (new_payout id now submission_id worker_id amount_cents
              (context_of_submission submission_id db)
              pw_bps
              split)
            (resplit now (context_of_submission submission_id db) pw_bps split)
            db.payouts).0
          ≡ db'.payouts)
      × ((upsert_payout
            (new_payout id now submission_id worker_id amount_cents
              (context_of_submission submission_id db)
              pw_bps
              split)
            (resplit now (context_of_submission submission_id db) pw_bps split)
            db.payouts).1
          ≡ row)
unfolding add_payout
add_payout-eq-ok env id now submission_id worker_id amount_cents db h =
    let ctx = context_of_submission submission_id db in
    elim (Result-cases (proofwork_fee_bps env.bps env.max_bps)) [
      | inl (e, bad) ↦ absurd (ground (arith, bad, h))
      | inr (pw, good) ↦
          elim (Result-cases (compute_payout_split_cents amount_cents (fee_bps_of ctx) pw)) [
            | inl (e, bad) ↦ absurd (ground (arith, good, bad, h))
            | inr (split, made) ↦
                (pw, split, made, ground (arith, good, made, h), ground (arith, good, made, h))
          ]
    ]

-- A submission that has at most one payout has at most one after any call, for it or for another, and
-- the payout that the call returns is the submission's, whether it was made or was there before.
-- Its net amount and its two fees are together the amount that the call was given.
pub add_payout_once :
    (env : FeeEnv) (id now submission_id worker_id amount_cents s : ℕ) (db db' : Db) (row : Payout)
    → count (of_submission s) db.payouts ≤ 1
    → add_payout env id now submission_id worker_id amount_cents db ≡ ok (db', row)
    → (count (of_submission s) db'.payouts ≤ 1)
      × (find (of_submission submission_id) db'.payouts ≡ some row)
      × (total_of row ≡ amount_cents)
add_payout_once env id now submission_id worker_id amount_cents s db db' row few h =
    let (pw, split, shares, rows, own) =
      add_payout-eq-ok env id now submission_id worker_id amount_cents db h in
    let ctx = context_of_submission submission_id db in
    let new = new_payout id now submission_id worker_id amount_cents ctx pw split in
    let patch = resplit now ctx pw split in
    let total = (split_conserves amount_cents (fee_bps_of ctx) pw shares).0 in
    (
      subst (λ xs. count (of_submission s) xs ≤ 1) rows
          (count_upsert s new patch db.payouts (λ x. refl) few),
      subst (λ xs. find (of_submission submission_id) xs ≡ some row) rows
          (upserted_found new patch db.payouts (λ x. refl) ∙ ap some own),
      subst (λ x. total_of x ≡ amount_cents) own
          (upserted_shares new patch db.payouts amount_cents total (λ x. total)),
    )
