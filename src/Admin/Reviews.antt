-- ===== src/Admin/Reviews.antt =====
-- src/server.ts: what an administrator's verdict leaves of a submission's payout.
use Prim.Native.String.{String}
use openunion.Prelude.{
  ℕ, ◌≡◌, refl, true, false, inl, inr, Option-cases, Option, none, some, arith, ◌==◌,
}
use openunion.Prelude.Tables.{find-update}
use openunion.Prelude.Result.{ok}
use openunion.Fees.{PayoutSplit}
use openunion.Rows.{Db, Job, Submission, Payout, paid}
use openunion.Payouts.{payout_of, context_of_submission, bounty_of_submission}
use openunion.PayoutEnv.{Env, off_chain, must_wait}
use openunion.Handlers.{handle_payout_requested, handler_split}
use openunion.Handlers.Once.{paid_once}
use openunion.Accounts.{admin_audit}
use openunion.Verifications.{
  submission_of, job_of, update_job, update_submission, submission_row, job_row,
}
use openunion.Admin.{mark_duplicate, mark_found, close_failed, failed_job, duplicate_row}

-- Neither the bounty nor the organisation of a submission depends on what a review writes.
context-update_submission :
    (id : ℕ) (s : Submission) (db : Db)
    → context_of_submission id (update_submission s db) ≡ context_of_submission id db
unfolding context_of_submission bounty_of_submission
context-update_submission id s db =
    let moved =
      find-update (λ (x : Submission). x.id == id) (λ (x : Submission). x.id == s.id)
        (submission_row s) db.submissions (λ x. refl) in
    elim (Option-cases (submission_of id db)) [
      | inl gone ↦ ground (arith, moved, gone)
      | inr (r, here) ↦ ground (arith, moved, here)
    ]

context-update_job :
    (id : ℕ) (j : Job) (db : Db)
    → context_of_submission id (update_job j db) ≡ context_of_submission id db
unfolding context_of_submission bounty_of_submission
context-update_job id j db = elim (Option-cases (submission_of id db)) [
  | inl gone ↦ ground (arith, gone)
  | inr (r, here) ↦
      let moved =
        find-update (λ (x : Job). x.id == r.job_id) (λ (x : Job). x.id == j.id) (job_row j) db.jobs
          (λ x. refl) in
      elim (Option-cases (job_of r.job_id db)) [
        | inl gone ↦ ground (arith, moved, here, gone)
        | inr (k, found) ↦ ground (arith, moved, here, found)
      ]
]

-- What a review leaves alone.
abbrev pub KeepsPayouts : ℕ → Db → Db → Type 0
KeepsPayouts id db db' =
    (db'.payouts ≡ db.payouts)
    × (db'.outbox ≡ db.outbox)
    × (context_of_submission id db' ≡ context_of_submission id db)

close-KeepsPayouts : (id : ℕ) (o : Option Job) (db : Db) → KeepsPayouts id db (close_failed o db)
unfolding close_failed
close-KeepsPayouts id none db = (refl, refl, refl)
close-KeepsPayouts id (some j) db = (refl, refl, context-update_job id (failed_job j) db)

mark-KeepsPayouts :
    (k now id : ℕ) (db : Db) {db' : Db}
    → mark_duplicate now id db ≡ some db'
    → KeepsPayouts k db db'
unfolding mark_duplicate mark_found admin_audit context_of_submission bounty_of_submission
mark-KeepsPayouts k now id db h = elim (Option-cases (submission_of id db)) [
  | inl gone ↦ absurd (ground (arith, gone, h))
  | inr (s, here) ↦
      let d = update_submission (duplicate_row s) db in
      let (a, b, c) = close-KeepsPayouts k (job_of s.job_id d) d in
      (
        ground (arith, here, h, a),
        ground (arith, here, h, b),
        ground (arith, here, h, c, context-update_submission k (duplicate_row s) db),
      )
]

-- A submission that an administrator marks as a duplicate after its payout was made is paid all the
-- same: the payout and its events are what they were, and once the hold is over the next request
-- pays it, if the provider does.
pub duplicate_still_paid :
    (env : Env) (fresh : ℕ → ℕ) (now later id pid : ℕ) (p : Payout) (split : ℕ × PayoutSplit)
    (ref : String × ℕ) (db db' : Db)
    → payout_of pid db ≡ some p
    → mark_duplicate now id db ≡ some db'
    → must_wait later p ≡ false
    → env.kind ≡ off_chain
    → handler_split env p (context_of_submission p.submission_id db) ≡ ok split
    → env.create_payout p.id split.1.net_cents p.worker_id ≡ ok (true, ref)
    → (db'.payouts ≡ db.payouts)
      × (db'.outbox ≡ db.outbox)
      × (p' : Payout) × (payout_of pid (handle_payout_requested env fresh later pid db').0
          ≡ some p')
      × (p'.status ≡ paid)
      × (p'.net_amount_cents ≡ some split.1.net_cents)
duplicate_still_paid env fresh now later id pid p split ref db db' here mark free kind shares
      reply =
    let (rows, events, context) = mark-KeepsPayouts p.submission_id now id db mark in
    let here' : payout_of pid db' ≡ some p = rw rows here in
    let (_, p', found, done, net, _, _, _) =
      paid_once env env fresh fresh later later pid p split ref db' here' free kind
        (rw context shares) reply in
    (rows, events, p', found, done, net)
