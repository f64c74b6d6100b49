-- ===== src/Rows/Work.antt =====
-- The rows that the work on a bounty leaves (src/db/types.ts): bounties, jobs, submissions, their
-- artifacts and verifications, and what a verdict adds to the worker's and the bounty's record.
use Prim.Native.String.{String}
use openunion.Prelude.{ℕ, Option, List}
use openunion.Enums.{
  BountyStatus, JobStatus, Verdict, SubmissionStatus, SubmissionPayout, VerificationStatus,
  ArtifactStatus,
}

pub record Bounty : Type 0 where
  pub id : ℕ
  pub org_id : ℕ
  pub status : BountyStatus
  pub allowed_origins : List String
  pub payout_cents : ℕ
  pub required_proofs : ℕ
  pub fingerprint_classes : List String
  pub priority : ℕ
  pub dispute_window_sec : ℕ
  pub freshness_sla_sec : ℕ
  pub published_at : Option ℕ

pub record Job : Type 0 where
  pub id : ℕ
  pub bounty_id : ℕ
  pub fingerprint_class : String
  pub status : JobStatus
  pub lease_worker_id : Option ℕ
  pub lease_expires_at : Option ℕ
  pub lease_nonce : Option ℕ
  pub current_submission_id : Option ℕ
  pub final_verdict : Option Verdict
  pub final_reason : Option String
  pub final_quality_score : Option ℕ
  pub done_at : Option ℕ
  pub created_at : ℕ
  pub freshness_sla_sec : ℕ

pub record Submission : Type 0 where
  pub id : ℕ
  pub job_id : ℕ
  pub worker_id : ℕ
  pub idempotency_key : Option ℕ
  pub request_hash : Option ℕ
  pub status : SubmissionStatus
  pub dedupe_key : Option ℕ
  pub final_verdict : Option Verdict
  pub final_reason : Option String
  pub final_quality_score : Option ℕ
  pub payout_status : SubmissionPayout
  pub created_at : ℕ

pub record Verification : Type 0 where
  pub id : ℕ
  pub submission_id : ℕ
  pub attempt_no : ℕ
  pub status : VerificationStatus
  pub claim_token : Option ℕ
  pub claimed_by : Option ℕ
  pub claim_expires_at : Option ℕ
  pub verdict : Option Verdict
  pub reason : Option String
  pub quality_score : Option ℕ

pub record Reputation : Type 0 where
  pub worker_id : ℕ
  pub alpha : ℕ
  pub beta : ℕ

pub record AcceptedDedupe : Type 0 where
  pub bounty_id : ℕ
  pub dedupe_key : ℕ

pub record Artifact : Type 0 where
  pub id : ℕ
  pub submission_id : Option ℕ
  pub job_id : Option ℕ
  pub worker_id : Option ℕ
  pub kind : String
  pub label : Option String
  pub sha256 : Option ℕ
  pub content_type : Option String
  pub size_bytes : Option ℕ
  pub status : ArtifactStatus
  pub deleted_at : Option ℕ
