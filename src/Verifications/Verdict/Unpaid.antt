-- ===== src/Verifications/Verdict/Unpaid.antt =====
-- src/server.ts, POST /api/verifier/verdict: the verdicts that pay nothing.
use openunion.Prelude.{
  ℕ, ◌+◌, ◌≡◌, refl, false, inl, inr, Option-cases, Option, none, some, [], ◌∷◌, arith,
}
use openunion.Prelude.Tables.{find, find-append}
use openunion.Rows.{
  Db, Job, Submission, OutboxEvent, payout_requested, Key, verification_requested, verification_key,
  verification_payload,
}
use openunion.Outbox.{addressed, enqueue_outbox, new_event}
use openunion.Verifications.{
  request_verification, submission_of, job_of, find_verification, update_verification,
  add_verification, queued_verification,
}
use openunion.Verifications.Verdict.{
  VerdictEnv, VerdictBody, is_pass, give_verdict, finish_job, conclude, conclude_registered,
  register_key, judge, judge_verification, judged_db, judged_submission, judged_job,
  finished_verification, max_attempt,
}

-- The request for a payout that a key addresses.
abbrev pub payout_event : Key → Db → Option OutboxEvent
payout_event k db = find (addressed payout_requested k) db.outbox

asked :
    (k : Key) (e v s n now : ℕ) (db : Db)
    → payout_event k (request_verification e v s n now db) ≡ payout_event k db
unfolding enqueue_outbox find new_event
asked k e v s n now db =
    let new =
      new_event e verification_requested (some (verification_key s n)) (verification_payload v s n)
        now now in
    ground (arith, find-append (addressed payout_requested k) db.outbox (new ∷ []))

module _ (env : VerdictEnv) (fresh : ℕ → ℕ) (now : ℕ) (body : VerdictBody)
    (h : is_pass body.verdict ≡ false) (k : Key) where
  finish_unpaid :
      (s : Submission) (j : Job) (db : Db)
      → ((finish_job env fresh now body s j db).0.payouts ≡ db.payouts)
        × (payout_event k (finish_job env fresh now body s j db).0 ≡ payout_event k db)
  unfolding finish_job
  finish_unpaid s j db = ground (arith, h)

  conclude_unpaid :
      (s : Submission) (o : Option Job) (db : Db)
      → ((conclude env fresh now body s o db).0.payouts ≡ db.payouts)
        × (payout_event k (conclude env fresh now body s o db).0 ≡ payout_event k db)
  unfolding conclude
  conclude_unpaid s none db = (refl, refl)
  conclude_unpaid s (some j) db =
      let n = max_attempt s.id 1 db.verifications + 1 in
      let queued = add_verification (queued_verification (fresh 0) s.id n) db in
      ground (
        arith,
        h,
        finish_unpaid s (judged_job body j) db,
        asked k (fresh 1) (fresh 0) s.id n now queued,
      )

  judge_unpaid :
      (o : Option Submission) (db : Db)
      → ((judge env fresh now body o db).0.payouts ≡ db.payouts)
        × (payout_event k (judge env fresh now body o db).0 ≡ payout_event k db)
  unfolding judge conclude_registered register_key
  judge_unpaid none db = (refl, refl)
  judge_unpaid (some s) db =
      let s' = judged_submission body s in
      let db' = judged_db body s db in
      ground (arith, h, conclude_unpaid s' (job_of s.job_id db') db')

-- A verdict other than a pass makes no payout and changes none, and asks for none to be paid:
-- whatever it answers, the payouts and the requests to pay them are the ones that were there.
pub unpaid :
    (env : VerdictEnv) (fresh : ℕ → ℕ) (now : ℕ) (body : VerdictBody) (db : Db) (k : Key)
    → is_pass body.verdict ≡ false
    → ((give_verdict env fresh now body db).0.payouts ≡ db.payouts)
      × (payout_event k (give_verdict env fresh now body db).0 ≡ payout_event k db)
unfolding give_verdict judge_verification
unpaid env fresh now body db k h =
    elim (Option-cases (find_verification body.submission_id body.attempt_no db)) [
      | inl gone ↦ ground (arith, gone)
      | inr (v, here) ↦ ground (
        arith,
        here,
        judge_unpaid env fresh now body h k (submission_of body.submission_id db)
            (update_verification (finished_verification body v) db),
      )
    ]
