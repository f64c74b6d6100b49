-- ===== src/Enums.antt =====
-- The enumerations of the database's columns (src/types.ts and the text columns of
-- src/db/types.ts), the outbox topics, idempotency keys and payloads.
use openunion.Prelude.{ℕ, Bool, false, Option, none, some, ◌&&◌, ◌==◌}

pub data JobStatus : Type 0 where
  open_job claimed submitted verifying done_job expired cancelled_job : JobStatus

pub data Verdict : Type 0 where
  pass fail inconclusive : Verdict

pub data SubmissionStatus : Type 0 where
  sub_submitted validated sub_queued sub_verifying accepted sub_failed sub_inconclusive :
      SubmissionStatus
  duplicate blocked : SubmissionStatus

pub data SubmissionPayout : Type 0 where
  sub_none sub_pending sub_paid sub_payout_failed reversed : SubmissionPayout

pub data BountyStatus : Type 0 where
  draft published paused closed : BountyStatus

pub data VerificationStatus : Type 0 where
  queued in_progress finished : VerificationStatus

pub data PayoutStatus : Type 0 where
  pending paid failed refunded : PayoutStatus

pub data BlockedReason : Type 0 where
  dispute_open dispute_refund worker_payout_address_missing : BlockedReason

pub data DisputeStatus : Type 0 where
  dispute_is_open resolved cancelled : DisputeStatus

pub data Resolution : Type 0 where
  refund uphold cancelled_by_org : Resolution

pub data ReservationStatus : Type 0 where
  active released : ReservationStatus

pub data OutboxStatus : Type 0 where
  waiting processing sent deadletter : OutboxStatus

pub data EventType : Type 0 where
  bounty_budget_reserve bounty_budget_release dispute_refund_event admin_topup stripe_topup :
      EventType

pub data Topic : Type 0 where
  payout_requested payout_confirm_requested auto_refund_requested verification_requested : Topic
  artifact_scan_requested artifact_delete_requested : Topic

abbrev pub topic_code : Topic → ℕ
topic_code payout_requested = 0
topic_code payout_confirm_requested = 1
topic_code auto_refund_requested = 2
topic_code verification_requested = 3
topic_code artifact_scan_requested = 4
topic_code artifact_delete_requested = 5

-- The idempotency keys that the program builds: `payout:<id>`, `payout_confirm:<id>`,
-- `dispute:auto_refund:<id>`, `verification:<submission>:<attempt>`, `retention:<id>`.
pub data Key : Type 0 where
  payout_key payout_confirm_key auto_refund_key retention_key : ℕ → Key
  verification_key : ℕ → ℕ → Key

abbrev pub key_eq : Key → Key → Bool
key_eq (payout_key a) (payout_key b) = a == b
key_eq (payout_confirm_key a) (payout_confirm_key b) = a == b
key_eq (auto_refund_key a) (auto_refund_key b) = a == b
key_eq (retention_key a) (retention_key b) = a == b
key_eq (verification_key a n) (verification_key b m) = a == b && n == m
key_eq _ _ = false

-- NULL keys are equal to none.
abbrev pub opt_key_eq : Option Key → Key → Bool
opt_key_eq none k = false
opt_key_eq (some j) k = key_eq j k

pub data Payload : Type 0 where
  payout_payload : ℕ → Option ℕ → ℕ → Payload
  confirm_payload dispute_payload artifact_payload : ℕ → Payload
  verification_payload : ℕ → ℕ → ℕ → Payload

pub data ActorType : Type 0 where
  buyer_api_key admin_token system worker_actor : ActorType

pub data TransferKind : Type 0 where
  net_transfer platform_fee_transfer proofwork_fee_transfer : TransferKind

abbrev pub kind_code : TransferKind → ℕ
kind_code net_transfer = 0
kind_code platform_fee_transfer = 1
kind_code proofwork_fee_transfer = 2

pub data TransferStatus : Type 0 where
  broadcast confirmed transfer_failed : TransferStatus

pub data ArtifactStatus : Type 0 where
  art_presigned art_uploaded art_scanned art_scan_failed art_blocked art_accepted : ArtifactStatus
  art_deleted : ArtifactStatus
