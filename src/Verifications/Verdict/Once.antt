-- ===== src/Verifications/Verdict/Once.antt =====
-- src/server.ts, POST /api/verifier/verdict: further verdicts on an attempt that was judged.
use openunion.Prelude.{
  ℕ, ◌+◌, ◌≡◌, refl, ap, Bool, true, false, inl, inr, Option-cases, Option, none, some, List, [],
  ◌∷◌, arith, opt_is, ◌==◌, ==_refl,
}
use openunion.Prelude.Tables.{find, find-append, find-update}
use openunion.Prelude.Result.{Result-cases}
use openunion.Payouts.{add_payout}
use openunion.Payouts.Frame.{add_payout-frame}
use openunion.Rows.{Db, Job, Submission, Verification, Bounty}
use openunion.Verifications.{
  find_verification, attempt_of, queued_verification, submission_of, job_of, update_verification,
  verification_row, update_job,
}
use openunion.Verifications.Verdict.{
  VerdictEnv, VerdictBody, VerdictReply, invalid_claim, judged, requeued, give_verdict, finish_job,
  pay_bounty, conclude, conclude_registered, register_key, register_pass, judge, judge_verification,
  judged_db, judged_submission, judged_job, finished_verification, max_attempt, completed,
  is_finished,
}

-- The verdict was written to the end.
abbrev pub is_accepted : VerdictReply → Bool
is_accepted (judged _) = true
is_accepted (requeued _ _) = true
is_accepted _ = false

module _ (env : VerdictEnv) (fresh : ℕ → ℕ) (now : ℕ) (body : VerdictBody) where
  pay-verifications :
      (s : Submission) (j : Job) (o : Option Bounty) (db : Db)
      → (pay_bounty env fresh now s j o db).0.verifications ≡ db.verifications
  unfolding pay_bounty
  pay-verifications s j none db = refl
  pay-verifications s j (some b) db =
      elim (Result-cases (add_payout env.fees (fresh 0) now s.id s.worker_id b.payout_cents db)) [
        | inl (e, bad) ↦ ground (arith, bad)
        | inr ((db', row), made) ↦
            let kept =
              add_payout-frame env.fees (fresh 0) now s.id s.worker_id b.payout_cents db made in
            ground (arith, made, ap (λ d. d.verifications) kept)
      ]

  pub finish-verifications :
      (s : Submission) (j : Job) (db : Db)
      → (finish_job env fresh now body s j db).0.verifications ≡ db.verifications
  unfolding finish_job
  finish-verifications s j db =
      let b = find (λ (b : Bounty). b.id == j.bounty_id) db.bounties in
      ground (arith, pay-verifications s (completed now j) b (update_job (completed now j) db))

  conclude-verification :
      (s : Submission) (o : Option Job) (db : Db) (a n : ℕ) (v : Verification)
      → find_verification a n db ≡ some v
      → find_verification a n (conclude env fresh now body s o db).0 ≡ some v
  unfolding conclude find
  conclude-verification s none db a n v h = h
  conclude-verification s (some j) db a n v h =
      let new = queued_verification (fresh 0) s.id (max_attempt s.id 1 db.verifications + 1) in
      ground (
        arith,
        h,
        finish-verifications s (judged_job body j) db,
        find-append (attempt_of a n) db.verifications (new ∷ []),
      )

  pub register_key-verifications :
      (s : Submission) (db : Db) {db' : Db}
      → register_key body s db ≡ some db'
      → db'.verifications ≡ db.verifications
  unfolding register_key register_pass
  register_key-verifications s db h =
      ground (arith, h, Option-cases s.dedupe_key, Option-cases (job_of s.job_id db))

  judge-verification :
      (o : Option Submission) (db : Db) (a n : ℕ) (v : Verification)
      → find_verification a n db ≡ some v
      → find_verification a n (judge env fresh now body o db).0 ≡ some v
  unfolding judge conclude_registered
  judge-verification none db a n v h = h
  judge-verification (some s) db a n v h =
      let s' = judged_submission body s in
      let db' = judged_db body s db in
      elim (Option-cases (register_key body s' db')) [
        | inl bad ↦ ground (arith, bad, h)
        | inr (d, ready) ↦
            let kept = register_key-verifications s' db' ready in
            let here : find_verification a n d ≡ some v = ground (arith, kept, h) in
            ground (arith, ready, conclude-verification s' (job_of s.job_id d) d a n v here)
      ]

-- What an accepted verdict leaves of the attempt.
accepted-IsFinished :
    (env : VerdictEnv) (fresh : ℕ → ℕ) (now : ℕ) (body : VerdictBody) (db : Db)
    → is_accepted (give_verdict env fresh now body db).1 ≡ true
    → (w : Verification) × (find_verification body.submission_id body.attempt_no
          (give_verdict env fresh now body db).0
        ≡ some w)
      × (is_finished w.status ≡ true)
unfolding give_verdict judge_verification
accepted-IsFinished env fresh now body db h =
    let a = body.submission_id in
    let n = body.attempt_no in
    elim (Option-cases (find_verification a n db)) [
      | inl gone ↦ absurd (ground (arith, gone, h))
      | inr (v, here) ↦
          let new = finished_verification body v in
          let db' = update_verification new db in
          let w = verification_row new v in
          let moved =
            find-update (attempt_of a n) (λ (x : Verification). x.id == v.id) (verification_row new)
              db.verifications (λ x. refl) in
          let written : find_verification a n db' ≡ some w =
            ground (arith, moved, here, ==_refl v.id) in
          let kept = judge-verification env fresh now body (submission_of a db) db' a n w written in
          (w, ground (arith, here, h, kept), refl)
    ]

finished_fixed :
    (env : VerdictEnv) (fresh : ℕ → ℕ) (now : ℕ) (body : VerdictBody) (db : Db) (w : Verification)
    → find_verification body.submission_id body.attempt_no db ≡ some w
    → is_finished w.status ≡ true
    → (give_verdict env fresh now body db).0 ≡ db
unfolding give_verdict judge_verification
finished_fixed env fresh now body db w here over = ground (arith, here, over)

-- Verdicts one after another, each with the settings, the fresh ids and the time that it is run with.
abbrev pub VerdictRuns : Type 0
VerdictRuns = List (VerdictEnv × (ℕ → ℕ) × ℕ × VerdictBody)

pub run_verdicts : VerdictRuns → Db → Db
run_verdicts [] db = db
run_verdicts ((env, fresh, now, body) ∷ rest) db =
    run_verdicts rest (give_verdict env fresh now body db).0

-- Each of them is on the attempt.
abbrev pub OnAttempt : ℕ → ℕ → VerdictRuns → Type 0
OnAttempt a n [] = Unit
OnAttempt a n ((_, _, _, body) ∷ rest) =
    (body.submission_id ≡ a) × (body.attempt_no ≡ n) × OnAttempt a n rest

runs_fixed :
    (a n : ℕ) (later : VerdictRuns) (db : Db) (w : Verification)
    → find_verification a n db ≡ some w
    → is_finished w.status ≡ true
    → OnAttempt a n later
    → run_verdicts later db ≡ db
unfolding run_verdicts
runs_fixed a n [] db w here over on = refl
runs_fixed a n ((env, fresh, now, body) ∷ rest) db w here over (same_a, same_n, on) =
    let same = finished_fixed env fresh now body db w (rw same_a (rw same_n here)) over in
    rw same (runs_fixed a n rest db w here over on)

-- Once a verdict on an attempt was written to its end, the verdicts on that attempt that follow with
-- no other request between them, so that the attempt is not claimed again, change nothing, however
-- many they are, by whomever and whatever they say: they make no second payout, no second count in
-- the worker's reputation and no second attempt.
pub judged_once :
    (env : VerdictEnv) (fresh : ℕ → ℕ) (now : ℕ) (body : VerdictBody) (later : VerdictRuns)
    (db : Db)
    → is_accepted (give_verdict env fresh now body db).1 ≡ true
    → OnAttempt body.submission_id body.attempt_no later
    → run_verdicts later (give_verdict env fresh now body db).0
      ≡ (give_verdict env fresh now body db).0
judged_once env fresh now body later db h on =
    let (w, here, over) = accepted-IsFinished env fresh now body db h in
    runs_fixed body.submission_id body.attempt_no later (give_verdict env fresh now body db).0 w
      here over on

pub wrong_token :
    (env : VerdictEnv) (fresh : ℕ → ℕ) (now : ℕ) (body : VerdictBody) (db : Db) (v : Verification)
    → find_verification body.submission_id body.attempt_no db ≡ some v
    → opt_is v.claim_token body.claim_token ≡ false
    → give_verdict env fresh now body db ≡ (db, invalid_claim)
unfolding give_verdict judge_verification
wrong_token env fresh now body db v here other = ground (arith, here, other)
