-- ===== src/Verifications/Verdict/Registered.antt =====
-- src/server.ts, POST /api/verifier/verdict: the dedupe key of an accepted submission.
use openunion.Prelude.{
  ℕ, ◌≡◌, refl, ap, true, inl, inr, Option-cases, Option, none, some, List, [], ◌∷◌, arith, is_some,
  ==_refl, ◌==◌, sym, ◌∙◌,
}
use mathlib.Core.Option.{some-injective}
use openunion.Prelude.Tables.{find, find-append}
use openunion.Prelude.Result.{Result-cases}
use openunion.Payouts.{add_payout}
use openunion.Payouts.Frame.{add_payout-frame}
use openunion.Rows.{Db, Job, Submission, Bounty, AcceptedDedupe}
use openunion.Verifications.{
  submission_of, job_of, update_job, dedupe_is, register_accepted_dedupe, is_accepted_duplicate,
  update_verification,
}
use openunion.Verifications.Verdict.Paid.{
  conclude-eq-judged, give_verdict-eq-judged, pay_bounty-eq-judged, register_key-frame,
}
use openunion.Verifications.Verdict.{
  VerdictEnv, VerdictBody, judged, is_pass, give_verdict, pay_bounty, register_key, register_pass,
  judge, conclude_registered, judged_db, judged_submission, judged_job, completed,
  finished_verification,
}

registered :
    (bounty_id key : ℕ) (rows : List AcceptedDedupe)
    → is_some (find (dedupe_is bounty_id key) (register_accepted_dedupe bounty_id key rows)) ≡ true
unfolding register_accepted_dedupe find
registered bounty_id key rows =
    let new : AcceptedDedupe = record { bounty_id = bounty_id; dedupe_key = key } in
    ground (
      arith,
      ==_refl bounty_id,
      ==_refl key,
      find-append (dedupe_is bounty_id key) rows (new ∷ []),
      Option-cases (find (dedupe_is bounty_id key) rows),
    )

register_key-registers :
    (body : VerdictBody) (s : Submission) (db : Db) {d : Db} (j : Job) (key : ℕ)
    → is_pass body.verdict ≡ true
    → s.dedupe_key ≡ some key
    → job_of s.job_id db ≡ some j
    → register_key body s db ≡ some d
    → is_accepted_duplicate j.bounty_id key d ≡ true
unfolding register_key register_pass
register_key-registers body s db j key passed has here h =
    ground (arith, passed, has, here, h, registered j.bounty_id key db.accepted)

pay-accepted :
    (env : VerdictEnv) (fresh : ℕ → ℕ) (now : ℕ) (s : Submission) (j : Job) (o : Option Bounty)
    (db : Db)
    → (pay_bounty env fresh now s j o db).0.accepted ≡ db.accepted
unfolding pay_bounty
pay-accepted env fresh now s j none db = refl
pay-accepted env fresh now s j (some b) db =
    elim (Result-cases (add_payout env.fees (fresh 0) now s.id s.worker_id b.payout_cents db)) [
      | inl (e, bad) ↦ ground (arith, bad)
      | inr ((db', row), made) ↦
          let kept =
            add_payout-frame env.fees (fresh 0) now s.id s.worker_id b.payout_cents db made in
          ground (arith, made, ap (λ d. d.accepted) kept)
    ]

judge-registers :
    (env : VerdictEnv) (fresh : ℕ → ℕ) (now : ℕ) (body : VerdictBody) (s : Submission) (db : Db)
    {db' : Db} {j' : Job} (key : ℕ)
    → is_pass body.verdict ≡ true
    → s.dedupe_key ≡ some key
    → judge env fresh now body (some s) db ≡ (db', judged j')
    → is_accepted_duplicate j'.bounty_id key db' ≡ true
unfolding judge conclude_registered
judge-registers env fresh now body s db {db' = db'} {j' = j'} key passed has h =
    let s' = judged_submission body s in
    let scored = judged_db body s db in
    elim (Option-cases (register_key body s' scored)) [
      | inl bad ↦ absurd (ground (arith, bad, h))
      | inr (d, ready) ↦
          let frame = register_key-frame body s' scored ready in
          let (j, of_job, pays) =
            conclude-eq-judged env fresh now body passed s' (job_of s.job_id d) d {db' = db'}
              {j' = j'} (ground (arith, ready, h)) in
          let j1 = completed now (judged_job body j) in
          let o = find (λ (x : Bounty). x.id == j.bounty_id) d.bounties in
          let (_, _, _, _, _, _, _, _, result) =
            pay_bounty-eq-judged env fresh now s' j1 o (update_job j1 d) pays in
          let found =
            register_key-registers body s' scored j key passed has
              (ground (arith, ap (λ x. x.jobs) frame, of_job)) ready in
          ground (arith, pays, result, found, pay-accepted env fresh now s' j1 o (update_job j1 d))
    ]

-- A verdict that passes and is written to its end registers the dedupe key of its submission as
-- accepted for the job's bounty.
pub pass-registers :
    (env : VerdictEnv) (fresh : ℕ → ℕ) (now : ℕ) (body : VerdictBody) (s : Submission) (db db' : Db)
    (j' : Job) (key : ℕ)
    → is_pass body.verdict ≡ true
    → submission_of body.submission_id db ≡ some s
    → s.dedupe_key ≡ some key
    → give_verdict env fresh now body db ≡ (db', judged j')
    → is_accepted_duplicate j'.bounty_id key db' ≡ true
pass-registers env fresh now body s db db' j' key passed found has h =
    let (v, _, _, s1, found1, step) = give_verdict-eq-judged env fresh now body db h in
    let same : s1 ≡ s = some-injective _ _ (sym found1 ∙ found) in
    judge-registers env fresh now body s1 (update_verification (finished_verification body v) db)
      key passed (rw same has) step
