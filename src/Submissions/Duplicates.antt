-- ===== src/Submissions/Duplicates.antt =====
-- src/server.ts: a submission whose content was accepted before.
use openunion.Prelude.{
  ℕ, ◌≡◌, refl, true, Option, none, some, List, arith, ◌==◌, ==_iff, ==_refl, sym, subst, ◌∙◌, [],
  ◌∷◌, ◌++◌,
}
use mathlib.Core.Option.{some-injective}
use openunion.Prelude.Tables.{find_sound, find-update}
use openunion.Rows.{Db, Job, Submission, Artifact, done_job, duplicate, fail}
use openunion.Verifications.{submission_of, job_of, job_row, is_accepted_duplicate}
use openunion.Verifications.Verdict.{VerdictEnv, VerdictBody, judged, is_pass, give_verdict}
use openunion.Verifications.Verdict.Registered.{pass-registers}
use openunion.Submissions.{
  SubmitEnv, SubmitBody, SubmitReply, submit, submit_attached, dedupe_key_of, new_row,
  add_submission,
}
use openunion.Artifacts.{ArtifactError, attach_submission_artifacts}
use openunion.Submissions.Guards.{taken, submit-IsNew}

-- A submission that is taken in as a duplicate: its job is done, nothing is verified, paid or asked for.
abbrev pub IsDropped : Job → Submission → Db → Db → Type 0
IsDropped j s db db' =
    (row : Job) × (job_of j.id db' ≡ some row)
    × (row.status ≡ done_job)
    × (s.status ≡ duplicate)
    × (db'.submissions ≡ db.submissions ++ s ∷ [])
    × (db'.verifications ≡ db.verifications)
    × (db'.payouts ≡ db.payouts)
    × (db'.outbox ≡ db.outbox)

dropped :
    (fresh : ℕ → ℕ) (now : ℕ) (j : Job) (s : Submission)
    (attached : List Artifact × Option ArtifactError) (db : Db) {j' : Job} {s' : Submission}
    → s.status ≡ duplicate
    → job_of j.id db ≡ some j
    → taken (submit_attached fresh now true j s attached (add_submission s db)).1 ≡ some (j', s')
    → IsDropped j' s' db (submit_attached fresh now true j s attached (add_submission s db)).0
unfolding submit_attached
dropped fresh now j s (arts, some e) db is_duplicate here h = absurd (ground (arith, h))
dropped fresh now j s (arts, none) db {j' = j'} {s' = s'} is_duplicate here h =
    let over : Job = record j {
      current_submission_id = some s.id;
      status = done_job;
      final_verdict = some fail;
      final_quality_score = some 0;
    } in
    let moved =
      find-update (λ (x : Job). x.id == j.id) (λ (x : Job). x.id == j.id) (job_row over) db.jobs
        (λ x. refl) in
    let written : job_of over.id
          (submit_attached fresh now true j s (arts, none) (add_submission s db)).0
        ≡ some (job_row over j) =
      ground (arith, moved, here, ==_refl j.id) in
    let told : (over, s) ≡ (j', s') = some-injective _ _ h in
    subst
      (λ t.
        IsDropped t.0 t.1 db
          (submit_attached fresh now true j s (arts, none) (add_submission s db)).0)
      told (job_row over j, written, refl, is_duplicate, refl, refl, refl, refl)

duplicate-IsDropped :
    (env : SubmitEnv) (fresh : ℕ → ℕ) (now job_id w : ℕ) (body : SubmitBody) (db : Db) (j0 : Job)
    {j : Job} {s : Submission}
    → job_of job_id db ≡ some j0
    → is_accepted_duplicate j0.bounty_id (dedupe_key_of env body) db ≡ true
    → taken (submit env fresh now job_id w body db).1 ≡ some (j, s)
    → IsDropped j s db (submit env fresh now job_id w body db).0
duplicate-IsDropped env fresh now job_id w body db j0 {j = j'} {s = s'} here0 known h =
    let (j, here, _, _, _, _, bounty, found, (_, _, step)) =
      submit-IsNew env fresh now job_id w body db h in
    let same : j0 ≡ j = some-injective _ _ (sym here0 ∙ here) in
    let own : bounty.id ≡ j.bounty_id =
      (==_iff bounty.id j.bounty_id).0 (find_sound _ _ bounty found) in
    let known' : is_accepted_duplicate bounty.id (dedupe_key_of env body) db ≡ true =
      rw own (rw (sym same) known) in
    let here' : job_of j.id db ≡ some j =
      subst (λ k. job_of k db ≡ some j) (sym ((==_iff j.id job_id).0 (find_sound _ _ j here)))
        here in
    let row = new_row env (fresh 0) now j.id w body true in
    let attached = attach_submission_artifacts row.id j.id w body.artifact_index db.artifacts in
    let step' : submit env fresh now job_id w body db
        ≡ submit_attached fresh now true j row attached (add_submission row db) =
      rw known' at step in
    rw step' (dropped fresh now j row attached db refl here' (rw step' at h))

-- On the database that a verdict leaves that passed a submission and was written to its end, a new
-- submission with the same digest of its content, on whatever job of that bounty and by whomever, is
-- marked as a duplicate if it is taken in at all: it is added to the submissions as one, its job's
-- row is done, and the request makes no verification and no payout and puts nothing in the outbox.
pub accepted_once :
    (venv : VerdictEnv) (vfresh : ℕ → ℕ) (then now : ℕ) (verdict : VerdictBody) (s0 : Submission)
    (db db' db'' : Db) (j0 : Job) (key : ℕ) (env : SubmitEnv) (fresh : ℕ → ℕ) (w : ℕ)
    (body : SubmitBody) (j1 j : Job) (s : Submission) (reply : SubmitReply)
    → is_pass verdict.verdict ≡ true
    → submission_of verdict.submission_id db ≡ some s0
    → s0.dedupe_key ≡ some key
    → give_verdict venv vfresh then verdict db ≡ (db', judged j0)
    → job_of j1.id db' ≡ some j1
    → j1.bounty_id ≡ j0.bounty_id
    → dedupe_key_of env body ≡ key
    → submit env fresh now j1.id w body db' ≡ (db'', reply)
    → taken reply ≡ some (j, s)
    → IsDropped j s db' db''
accepted_once venv vfresh then now verdict s0 db db' db'' j0 key env fresh w body j1 j s reply
      passed found has judged_it here same equal sent took =
    let known =
      pass-registers venv vfresh then verdict s0 db db' j0 key passed found has judged_it in
    let dropped_it =
      duplicate-IsDropped env fresh now j1.id w body db' j1 {j = j} {s = s} here
        (rw same (rw equal known)) (rw sent took) in
    rw sent at dropped_it
