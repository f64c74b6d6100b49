-- ===== src/Verifications/Verdict/Paid.antt =====
-- src/server.ts, POST /api/verifier/verdict: the verdict that pays.
use openunion.Prelude.{
  ℕ, ◌≡◌, ◌≤◌, refl, ap, true, inl, inr, Option-cases, Option, none, some, [], ◌∷◌, arith, is_some,
  opt_is, ==_refl, ◌==◌, ==_iff, sym, subst,
}
use openunion.Prelude.Tables.{find, find-append, find-update, count, find_sound}
use openunion.Prelude.Result.{ok, Result-cases}
use openunion.Payouts.{add_payout}
use openunion.Payouts.Frame.{add_payout-frame}
use openunion.Payouts.Once.{add_payout_once, of_submission, total_of}
use openunion.Rows.{
  Db, Job, Submission, Verification, Bounty, Payout, payout_key, payout_requested, payout_payload,
}
use openunion.Outbox.{addressed, enqueue_outbox, new_event}
use openunion.Verifications.{
  find_verification, submission_of, job_of, update_verification, update_job, job_row,
}
use openunion.Verifications.Verdict.Unpaid.{payout_event}
use openunion.Verifications.Verdict.{
  VerdictEnv, VerdictBody, judged, is_pass, give_verdict, finish_job, pay_bounty, conclude,
  conclude_registered, register_key, register_pass, judge, judge_verification, judged_db,
  judged_submission, judged_job, finished_verification, completed, request_payout, available_at,
}

requested :
    (e now : ℕ) (b : Bounty) (s : Submission) (p : Payout) (db : Db)
    → is_some (payout_event (payout_key p.id) (request_payout e now b s p db)) ≡ true
unfolding enqueue_outbox find new_event
requested e now b s p db =
    let k = payout_key p.id in
    let new =
      new_event e payout_requested (some k) (payout_payload p.id (some s.id) s.worker_id)
        (elim (available_at now b) [ none ↦ now | some t ↦ t ]) now in
    ground (
      arith,
      ==_refl p.id,
      find-append (addressed payout_requested k) db.outbox (new ∷ []),
      Option-cases (find (addressed payout_requested k) db.outbox),
    )

pub pay_bounty-eq-judged :
    (env : VerdictEnv) (fresh : ℕ → ℕ) (now : ℕ) (s : Submission) (j : Job) (o : Option Bounty)
    (db : Db) {db' : Db} {j' : Job}
    → pay_bounty env fresh now s j o db ≡ (db', judged j')
    → (b : Bounty) × (o ≡ some b)
      × (paid : Db) × (p : Payout) × (add_payout env.fees
            (fresh 0)
            now
            s.id
            s.worker_id
            b.payout_cents
            db
          ≡ ok (paid, p))
      × (db'.payouts ≡ paid.payouts)
      × (db'.jobs ≡ paid.jobs)
      × (is_some (payout_event (payout_key p.id) db') ≡ true)
      × (j ≡ j')
unfolding pay_bounty
pay_bounty-eq-judged env fresh now s j none db h = absurd (ground (arith, h))
pay_bounty-eq-judged env fresh now s j (some b) db h =
    elim (Result-cases (add_payout env.fees (fresh 0) now s.id s.worker_id b.payout_cents db)) [
      | inl (e, bad) ↦ absurd (ground (arith, bad, h))
      | inr ((db', p), made) ↦ (
        b,
        refl,
        db',
        p,
        made,
        ground (arith, made, h),
        ground (arith, made, h),
        ground (arith, made, h, requested (fresh 1) now b s p db'),
        ground (arith, made, h),
      )
    ]

pub register_key-frame :
    (body : VerdictBody) (s : Submission) (db : Db) {db' : Db}
    → register_key body s db ≡ some db'
    → db' ≡ record db { accepted = db'.accepted }
unfolding register_key register_pass
register_key-frame body s db h =
    ground (arith, h, Option-cases s.dedupe_key, Option-cases (job_of s.job_id db))

-- The steps of a verdict that passes.
module _ (env : VerdictEnv) (fresh : ℕ → ℕ) (now : ℕ) (body : VerdictBody)
    (passed : is_pass body.verdict ≡ true) where
  pub conclude-eq-judged :
      (s : Submission) (o : Option Job) (db : Db) {db' : Db} {j' : Job}
      → conclude env fresh now body s o db ≡ (db', judged j')
      → (j : Job) × (o ≡ some j)
        × (pay_bounty env fresh now s
              (completed now (judged_job body j))
              (find (λ (b : Bounty). b.id == j.bounty_id) db.bounties)
              (update_job (completed now (judged_job body j)) db)
            ≡ (db', judged j'))
  unfolding conclude finish_job
  conclude-eq-judged s none db h = absurd (ground (arith, h))
  conclude-eq-judged s (some j) db h = (j, refl, ground (arith, h, passed))

  pub judge-eq-judged :
      (s : Submission) (db : Db) {db' : Db} {j' : Job}
      → judge env fresh now body (some s) db ≡ (db', judged j')
      → (d : Db) × (d ≡ record (judged_db body s db) { accepted = d.accepted })
        × (conclude env fresh now body (judged_submission body s) (job_of s.job_id d) d
            ≡ (db', judged j'))
  unfolding judge conclude_registered
  judge-eq-judged s db h =
      let s' = judged_submission body s in
      let db' = judged_db body s db in
      elim (Option-cases (register_key body s' db')) [
        | inl bad ↦ absurd (ground (arith, bad, h))
        | inr (d, ready) ↦ (d, register_key-frame body s' db' ready, ground (arith, ready, h))
      ]

pub give_verdict-eq-judged :
    (env : VerdictEnv) (fresh : ℕ → ℕ) (now : ℕ) (body : VerdictBody) (db : Db) {db' : Db}
    {j' : Job}
    → give_verdict env fresh now body db ≡ (db', judged j')
    → (v : Verification) × (find_verification body.submission_id body.attempt_no db ≡ some v)
      × (opt_is v.claim_token body.claim_token ≡ true)
      × (s : Submission) × (submission_of body.submission_id db ≡ some s)
      × (judge env fresh now body (some s) (update_verification (finished_verification body v) db)
          ≡ (db', judged j'))
unfolding give_verdict judge_verification judge
give_verdict-eq-judged env fresh now body db h =
    elim (Option-cases (find_verification body.submission_id body.attempt_no db)) [
      | inl gone ↦ absurd (ground (arith, gone, h))
      | inr (v, here) ↦ elim (Option-cases (submission_of body.submission_id db)) [
        | inl gone ↦ absurd (ground (arith, here, gone, h))
        | inr (s, found) ↦
            (v, here, ground (arith, here, h), s, found, ground (arith, here, found, h))
      ]
    ]

-- What a passing verdict leaves for its submission: its one payout, of what the bounty pays, and
-- the request for it.
abbrev pub IsPaid : ℕ → Bounty → Db → Type 0
IsPaid id b db =
    (p : Payout) × (find (of_submission id) db.payouts ≡ some p)
    × (total_of p ≡ b.payout_cents)
    × (count (of_submission id) db.payouts ≤ 1)
    × (is_some (payout_event (payout_key p.id) db) ≡ true)

-- A verdict that passes and is written to its end comes from the holder of the attempt's claim. It
-- leaves the job's row done, as the reply says it is, and the submission, which had at most one payout, with exactly one, whose
-- shares are together what the job's bounty pays, and with an event in the outbox that asks for it.
pub pass_pays :
    (env : VerdictEnv) (fresh : ℕ → ℕ) (now : ℕ) (body : VerdictBody) (db db' : Db) (j' : Job)
    → is_pass body.verdict ≡ true
    → count (of_submission body.submission_id) db.payouts ≤ 1
    → give_verdict env fresh now body db ≡ (db', judged j')
    → (v : Verification) × (find_verification body.submission_id body.attempt_no db ≡ some v)
      × (opt_is v.claim_token body.claim_token ≡ true)
      × (s : Submission) × (submission_of body.submission_id db ≡ some s)
      × (j : Job) × (job_of s.job_id db ≡ some j)
      × (j' ≡ completed now (judged_job body j))
      × (job_of s.job_id db' ≡ some (job_row j' j))
      × (b : Bounty) × (find (λ (x : Bounty). x.id == j.bounty_id) db.bounties ≡ some b)
      × IsPaid body.submission_id b db'
pass_pays env fresh now body db db' j' passed few h =
    let (v, here, held, s, found, step) = give_verdict-eq-judged env fresh now body db h in
    let written = update_verification (finished_verification body v) db in
    let (d, kept, rest) = judge-eq-judged env fresh now body passed s written step in
    let s' = judged_submission body s in
    let (j, of_job, pays) =
      conclude-eq-judged env fresh now body passed s' (job_of s.job_id d) d rest in
    let j1 = completed now (judged_job body j) in
    let (b, of_bounty, paid, p, made, same, kept_jobs, asked, result) =
      pay_bounty-eq-judged env fresh now s' j1
        (find (λ (x : Bounty). x.id == j.bounty_id) d.bounties) (update_job j1 d) pays in
    let own : s.id ≡ body.submission_id =
      (==_iff s.id body.submission_id).0 (find_sound _ _ s found) in
    let few' : count (of_submission body.submission_id) d.payouts ≤ 1 =
      ground (arith, ap (λ x. x.payouts) kept, few) in
    let (one, its, total) =
      add_payout_once env.fees (fresh 0) now s.id s.worker_id b.payout_cents body.submission_id
        (update_job j1 d) paid p few' made in
    let frame =
      add_payout-frame env.fees (fresh 0) now s.id s.worker_id b.payout_cents (update_job j1 d)
        made in
    let moved =
      find-update (λ (x : Job). x.id == s.job_id) (λ (x : Job). x.id == j1.id) (job_row j1) d.jobs
        (λ x. refl) in
    let written : job_of s.job_id db' ≡ some (job_row j1 j) =
      ground (arith, kept_jobs, ap (λ x. x.jobs) frame, moved, of_job, ==_refl j.id) in
    (
      v,
      here,
      held,
      s,
      found,
      j,
      ground (arith, ap (λ x. x.jobs) kept, of_job),
      sym result,
      subst (λ x. job_of s.job_id db' ≡ some (job_row x j)) result written,
      b,
      ground (arith, ap (λ x. x.bounties) kept, of_bounty),
      (p, ground (arith, same, its, own), total, ground (arith, same, one), asked),
    )
