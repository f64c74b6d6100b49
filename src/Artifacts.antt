-- ===== src/Artifacts.antt =====
-- Artifacts: `attachSubmissionArtifacts` of src/storage.ts. What it reads of an artifact's address is
-- a field of the reference.
pub mod Attach
use Prim.Native.String.{String}
use openunion.Prelude.{
  ℕ, ◌+◌, ◌*◌, Bool, true, false, Option, none, some, List, [], ◌∷◌, ◌++◌, take, ◌&&◌, ◌||◌, not,
  ltb, ◌==◌, if◌then◌else◌, is_some, opt_is, get_or,
}
use openunion.Prelude.Tables.{find, update}
use openunion.Prelude.Result.{Result, ok, err, ◌>>=◌, ◌>>◌, guard, require}
use openunion.Rows.{
  Db, Bounty, Job, JobStatus, open_job, claimed, verifying, done_job, Submission, sub_submitted,
  duplicate, sub_none, fail, Verification, queued, Artifact, ArtifactStatus, art_scanned,
  art_blocked, art_accepted,
}

-- An entry of `artifactIndex`; `artifact_id` is what `extractArtifactIdFromUrl` reads of its URL.
pub record ArtifactRef : Type 0 where
  pub artifact_id : Option ℕ
  pub kind : String
  pub label : String
  pub sha256 : ℕ
  pub size_bytes : Option ℕ
  pub content_type : Option String

pub data ArtifactError : Type 0 where
  artifact_not_found artifact_deleted artifact_forbidden artifact_wrong_job : ArtifactError
  artifact_blocked artifact_not_scanned : ArtifactError

abbrev is_blocked : ArtifactStatus → Bool
is_blocked art_blocked = true
is_blocked _ = false

abbrev pub is_scanned : ArtifactStatus → Bool
is_scanned art_scanned = true
is_scanned art_accepted = true
is_scanned _ = false

-- A nullable column that is set to something else.
abbrev pub is_other : Option ℕ → ℕ → Bool
is_other none k = false
is_other (some a) k = not (a == k)

unfoldable pub check_artifact : ℕ → ℕ → Artifact → Result ArtifactError (Unit {0})
check_artifact job_id worker_id a = do
  guard (not (is_some a.deleted_at)) artifact_deleted
  guard (not (is_other a.worker_id worker_id)) artifact_forbidden
  guard (not (is_other a.job_id job_id)) artifact_wrong_job
  guard (not (is_blocked a.status)) artifact_blocked
  guard (is_scanned a.status) artifact_not_scanned

abbrev pub attached_row : ℕ → ArtifactRef → Artifact → Artifact
attached_row submission_id ref a = record a {
  submission_id = some submission_id;
  kind = ref.kind;
  label = some ref.label;
  sha256 = some ref.sha256;
  content_type = elim ref.content_type [ none ↦ a.content_type | some t ↦ some t ];
  size_bytes = elim ref.size_bytes [ none ↦ a.size_bytes | some n ↦ some n ];
}

abbrev pub artifact_of : ℕ → List Artifact → Option Artifact
artifact_of id artifacts = find (λ (a : Artifact). a.id == id) artifacts

-- One turn of the loop; a reference without an identifier is skipped.
unfoldable pub attach_one :
    ℕ → ℕ → ℕ → ArtifactRef → List Artifact → Result ArtifactError (List Artifact)
unfolding check_artifact
attach_one submission_id job_id worker_id ref artifacts = elim ref.artifact_id [
  | none ↦ ok artifacts
  | some id ↦ do
    a ← require (artifact_of id artifacts) artifact_not_found
    check_artifact job_id worker_id a
    ok (update (λ (x : Artifact). x.id == id) (attached_row submission_id ref) artifacts)
]

abbrev pub keep_going : List Artifact → Result ArtifactError (List Artifact) → List Artifact
keep_going artifacts (ok done) = done
keep_going artifacts (err e) = artifacts

-- The loop outside a transaction: what it attached before an error stays attached. With the error
-- it ended with, if any.
unfoldable pub attach_submission_artifacts :
    ℕ → ℕ → ℕ → List ArtifactRef → List Artifact → List Artifact × Option ArtifactError
attach_submission_artifacts submission_id job_id worker_id [] artifacts = (artifacts, none)
attach_submission_artifacts submission_id job_id worker_id (ref ∷ refs) artifacts =
    let step = attach_one submission_id job_id worker_id ref artifacts in
    let rest =
      attach_submission_artifacts submission_id job_id worker_id refs (keep_going artifacts step) in
    elim step [ ok _ ↦ rest | err e ↦ (artifacts, some e) ]
