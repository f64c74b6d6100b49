-- ===== src/Verifications/Verdict/Attempts.antt =====
-- src/server.ts, POST /api/verifier/verdict: how often an inconclusive verdict asks for another one.
use openunion.Prelude.{
  ℕ, ◌+◌, ◌≡◌, ◌≤◌, refl, max, Bool, true, false, inl, inr, Option-cases, Bool-cases, Option, none,
  some, List, [], ◌∷◌, ◌++◌, arith, ◌==◌, ◌&&◌, if◌then◌else◌, ==_iff,
}
use openunion.Prelude.Tables.{find, update, find_sound}
use openunion.Prelude.Result.{Result-cases}
use openunion.Payouts.{add_payout}
use openunion.Rows.{Bounty, Db, Job, Submission, Verification}
use openunion.Verifications.{
  submission_of, job_of, update_job, find_verification, verification_row, update_verification,
  queued_verification,
}
use openunion.Verifications.Verdict.{
  VerdictEnv, VerdictBody, VerdictReply, requeued, give_verdict, finish_job, conclude,
  conclude_registered, register_key, judge, judge_verification, judged_db, judged_submission,
  judged_job, finished_verification, max_attempt, completed, pay_bounty,
}
use openunion.Verifications.Verdict.Once.{finish-verifications, register_key-verifications}

abbrev pub is_requeued : VerdictReply → Bool
is_requeued (requeued _ _) = true
is_requeued _ = false

max_attempt-append :
    (s m : ℕ) (vs : List Verification) (v : Verification)
    → max_attempt s m (vs ++ v ∷ [])
      ≡ (if v.submission_id == s then max (max_attempt s m vs) v.attempt_no else max_attempt s m vs)
unfolding max_attempt
max_attempt-append s m [] v = refl
max_attempt-append s m (x ∷ vs) v =
    max_attempt-append s (if x.submission_id == s then max m x.attempt_no else m) vs v

max_attempt-update :
    (s m : ℕ) (vs : List Verification) (p : Verification → Bool) (w : Verification)
    → max_attempt s m (update p (verification_row w) vs) ≡ max_attempt s m vs
unfolding max_attempt update
max_attempt-update s m [] p w = refl
max_attempt-update s m (x ∷ vs) p w = elim (Bool-cases (p x)) [
  | inl hit ↦
      rw hit (max_attempt-update s (if x.submission_id == s then max m x.attempt_no else m) vs p w)
  | inr miss ↦
      rw miss (max_attempt-update s (if x.submission_id == s then max m x.attempt_no else m) vs p w)
]

-- The greatest attempt of a submission.
abbrev pub attempts_of : ℕ → Db → ℕ
attempts_of s db = max_attempt s 1 db.verifications

-- Whether a verdict made another attempt at this submission.
abbrev pub adds_to : ℕ → VerdictBody → VerdictReply → Bool
adds_to s body r = is_requeued r && body.submission_id == s

-- One more attempt, within the limit, or none.
abbrev pub Grows : ℕ → ℕ → Bool → Db → Db → Type 0
Grows limit s more db db' =
    (attempts_of s db' ≡ attempts_of s db + (if more then 1 else 0))
    × (attempts_of s db' ≤ max limit (attempts_of s db))

module _ (env : VerdictEnv) (fresh : ℕ → ℕ) (now : ℕ) (body : VerdictBody) (k : ℕ) where
  pay-reply :
      (s : Submission) (j : Job) (o : Option Bounty) (db : Db)
      → is_requeued (pay_bounty env fresh now s j o db).1 ≡ false
  unfolding pay_bounty
  pay-reply s j none db = refl
  pay-reply s j (some b) db =
      elim (Result-cases (add_payout env.fees (fresh 0) now s.id s.worker_id b.payout_cents db)) [
        | inl (e, bad) ↦ ground (arith, bad)
        | inr (made, done) ↦ ground (arith, done)
      ]

  finish-reply :
      (s : Submission) (j : Job) (db : Db)
      → is_requeued (finish_job env fresh now body s j db).1 ≡ false
  unfolding finish_job
  finish-reply s j db =
      let b = find (λ (b : Bounty). b.id == j.bounty_id) db.bounties in
      ground (arith, pay-reply s (completed now j) b (update_job (completed now j) db))

  conclude-Grows :
      (s : Submission) (o : Option Job) (db : Db)
      → s.id ≡ body.submission_id
      → Grows env.max_attempts k
          (adds_to k body (conclude env fresh now body s o db).1)
          db
          (conclude env fresh now body s o db).0
  unfolding conclude
  conclude-Grows s none db own = ground arith
  conclude-Grows s (some j) db own =
      let n = max_attempt s.id 1 db.verifications + 1 in
      ground (
        arith,
        own,
        finish-reply s (judged_job body j) db,
        finish-verifications env fresh now body s (judged_job body j) db,
        max_attempt-append k 1 db.verifications (queued_verification (fresh 0) s.id n),
        ==_iff s.id k,
      )

  judge-Grows :
      (o : Option Submission) (db : Db)
      → submission_of body.submission_id db ≡ o
      → Grows env.max_attempts k
          (adds_to k body (judge env fresh now body o db).1)
          db
          (judge env fresh now body o db).0
  unfolding judge conclude_registered
  judge-Grows none db found = ground arith
  judge-Grows (some s) db found =
      let s' = judged_submission body s in
      let db' = judged_db body s db in
      let own : s.id ≡ body.submission_id =
        (==_iff s.id body.submission_id).0 (find_sound _ _ s found) in
      elim (Option-cases (register_key body s' db')) [
        | inl bad ↦ ground (arith, bad)
        | inr (d, ready) ↦ ground (
          arith,
          ready,
          register_key-verifications env fresh now body s' db' ready,
          conclude-Grows s' (job_of s.job_id d) d own,
        )
      ]

-- A verdict on any submission makes at most one more attempt, only at its own submission, and none
-- beyond the limit.
verdict-Grows :
    (env : VerdictEnv) (fresh : ℕ → ℕ) (now : ℕ) (body : VerdictBody) (k : ℕ) (db : Db)
    → Grows env.max_attempts k
        (adds_to k body (give_verdict env fresh now body db).1)
        db
        (give_verdict env fresh now body db).0
unfolding give_verdict judge_verification
verdict-Grows env fresh now body k db =
    elim (Option-cases (find_verification body.submission_id body.attempt_no db)) [
      | inl gone ↦ ground (arith, gone)
      | inr (v, here) ↦
          let w = finished_verification body v in
          ground (
            arith,
            here,
            max_attempt-update k 1 db.verifications (λ x. x.id == v.id) w,
            judge-Grows env fresh now body k (submission_of body.submission_id db)
                (update_verification w db) refl,
          )
    ]

-- Verdicts one after another, each with its identifiers and its time.
abbrev pub Verdicts : Type 0
Verdicts = List ((ℕ → ℕ) × ℕ × VerdictBody)

-- How many of them made another attempt at the submission, and the database after them.
pub give_verdicts : VerdictEnv → ℕ → Verdicts → Db → ℕ × Db
give_verdicts env k [] db = (0, db)
give_verdicts env k ((fresh, now, body) ∷ rest) db =
    let (db', reply) = give_verdict env fresh now body db in
    let (n, last) = give_verdicts env k rest db' in
    ((if adds_to k body reply then 1 else 0) + n, last)

-- However many verdicts are given, on this submission and on others, the ones that ask for another
-- attempt at a submission are no more than the attempts that the limit leaves it: each adds one to
-- its greatest attempt, which does not pass the limit.
pub attempts_bounded :
    (env : VerdictEnv) (k : ℕ) (steps : Verdicts) (db : Db)
    → attempts_of k db ≤ env.max_attempts
    → (attempts_of k (give_verdicts env k steps db).1
        ≡ attempts_of k db + (give_verdicts env k steps db).0)
      × (attempts_of k (give_verdicts env k steps db).1 ≤ env.max_attempts)
unfolding give_verdicts
attempts_bounded env k [] db few = (omega arith, few)
attempts_bounded env k ((fresh, now, body) ∷ rest) db few =
    let grows = verdict-Grows env fresh now body k db in
    let db' = (give_verdict env fresh now body db).0 in
    let (more, within) = attempts_bounded env k rest db' (omega (arith, grows.1, few)) in
    (ground (arith, grows.0, more), within)
