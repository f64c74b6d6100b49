-- ===== src/Verifications/Examples.antt =====
-- A claim, verdicts of every kind and a repeated one, on the sample submission.
use openunion.Prelude.{ℕ, Bool, List, true, false, ◌+◌, ◌≡◌, ◌≤◌, refl, some, [], ◌∷◌, arith, ap}
use openunion.Prelude.Tables.{find, update, count}
use openunion.Rows.{
  Db, Bounty, Job, Submission, published, verifying, sub_submitted, sub_none, pass, inconclusive,
  payout_key,
}
use openunion.Fees.{compute_payout_split_cents, proofwork_fee_bps}
use openunion.Outbox.{enqueue_outbox}
use openunion.Payouts.{add_payout, bounty_of_submission, context_of_submission}
use openunion.Payouts.Once.{of_submission}
use openunion.Samples.{
  draft_db, sample_bounty, sample_job, sample_submission, sample_env, sample_fresh,
}
use openunion.Verifications.{
  queued_verification, claim_verification, record_reputation, register_accepted_dedupe,
}
use openunion.Verifications.Reputations.{alpha_of, beta_of, record_all, tally, record_refines}
use openunion.Verifications.Verdict.{
  VerdictEnv, VerdictBody, give_verdict, judged, completed, judged_job, max_attempt,
}
use openunion.Verifications.Verdict.Once.{judged_once, is_accepted, VerdictRuns, run_verdicts}
use openunion.Verifications.Verdict.Unpaid.{unpaid, payout_event}
use openunion.Verifications.Verdict.Paid.{pass_pays, IsPaid}
use openunion.Verifications.Verdict.Attempts.{attempts_bounded, attempts_of, give_verdicts}

abbrev pub job : Job
job = record sample_job {
  status = verifying;
  lease_worker_id = some 5;
  lease_expires_at = some 3000000;
  current_submission_id = some 4;
}

abbrev pub submission : Submission
submission = record sample_submission {
  status = sub_submitted;
  dedupe_key = some 9;
  payout_status = sub_none;
}

abbrev pub review_db : Db
review_db = record draft_db {
  bounties = record sample_bounty { status = published } ∷ [];
  jobs = job ∷ [];
  submissions = submission ∷ [];
  verifications = queued_verification 30 4 1 ∷ [];
}

abbrev pub claimed_db : Db
claimed_db = (claim_verification 31 77 1000000 1 600 4 1 review_db).0

abbrev pub env : VerdictEnv
env = record { max_attempts = 3; fees = sample_env.fees }

abbrev pub passing : VerdictBody
passing = record {
  submission_id = 4;
  attempt_no = 1;
  claim_token = 77;
  verdict = pass;
  reason = "fine";
  quality_score = 90;
}

abbrev doubtful : VerdictBody
doubtful = record passing { verdict = inconclusive }

abbrev pub paid_db : Db
unfolding claim_verification give_verdict find update add_payout compute_payout_split_cents
    proofwork_fee_bps enqueue_outbox context_of_submission bounty_of_submission record_reputation
    register_accepted_dedupe max_attempt
paid_db = (give_verdict env sample_fresh 1100000 passing claimed_db).0

abbrev pub paid_job : Job
paid_job = completed 1100000 (judged_job passing job)

pub paid_it : give_verdict env sample_fresh 1100000 passing claimed_db ≡ (paid_db, judged paid_job)
unfolding paid_db
paid_it = refl

-- The verifier's verdict again, and another one with a token that never was.
abbrev later : VerdictRuns
later =
    (env, sample_fresh, 1200000, doubtful)
    ∷ (env, sample_fresh, 1300000, record passing { claim_token = 78 })
    ∷ []

judged_once_example :
    run_verdicts later (give_verdict env sample_fresh 1100000 passing claimed_db).0
    ≡ (give_verdict env sample_fresh 1100000 passing claimed_db).0
judged_once_example =
    judged_once env sample_fresh 1100000 passing later claimed_db
      (ap (λ r. is_accepted r.1) paid_it) (refl, refl, (refl, refl, tt))

no_payout : count (of_submission 4) claimed_db.payouts ≤ 1
unfolding count claim_verification find
no_payout = omega arith

pass_pays_example : (b : Bounty) × IsPaid 4 b paid_db
pass_pays_example =
    let (_, _, _, _, _, _, _, _, _, b, _, its) =
      pass_pays env sample_fresh 1100000 passing claimed_db paid_db paid_job refl no_payout
        paid_it in
    (b, its)

unpaid_example :
    ((give_verdict env sample_fresh 1100000 doubtful claimed_db).0.payouts ≡ claimed_db.payouts)
    × (payout_event (payout_key 6) (give_verdict env sample_fresh 1100000 doubtful claimed_db).0
        ≡ payout_event (payout_key 6) claimed_db)
unpaid_example = unpaid env sample_fresh 1100000 doubtful claimed_db (payout_key 6) refl

few : attempts_of 4 claimed_db ≤ 3
unfolding max_attempt claim_verification find update
few = omega arith

attempts_bounded_example :
    (attempts_of 4 (give_verdicts env 4 ((sample_fresh, 1100000, doubtful) ∷ []) claimed_db).1
      ≡ attempts_of 4 claimed_db
        + (give_verdicts env 4 ((sample_fresh, 1100000, doubtful) ∷ []) claimed_db).0)
    × (attempts_of 4 (give_verdicts env 4 ((sample_fresh, 1100000, doubtful) ∷ []) claimed_db).1
        ≤ 3)
attempts_bounded_example =
    attempts_bounded env 4 ((sample_fresh, 1100000, doubtful) ∷ []) claimed_db few

abbrev verdicts : List (ℕ × Bool)
verdicts = (5, true) ∷ (6, true) ∷ (5, false) ∷ (5, true) ∷ []

record_refines_example :
    (alpha_of 5 (record_all verdicts []) ≡ 2 + tally 5 true verdicts)
    × (beta_of 5 (record_all verdicts []) ≡ 2 + tally 5 false verdicts)
record_refines_example = record_refines 5 verdicts
