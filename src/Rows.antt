-- ===== src/Rows.antt =====
-- The rows of the database that the modelled operations read and write (src/types.ts,
-- src/db/types.ts), as records. Identifiers, digests and nonces are numbers, times are
-- milliseconds, a nullable column is an `Option`, and columns that no modelled operation reads
-- (titles, wallets, JSON metadata) are left out.
use Prim.Native.String.{String}
use openunion.Prelude.{ℕ, Bool, Option, List, []}
use openunion.Prelude.Int.{ℤ}
pub mod Work
pub use Work.*
pub use openunion.Enums.{
  JobStatus, open_job, claimed, submitted, verifying, done_job, expired, cancelled_job, Verdict,
  pass, fail, inconclusive, SubmissionStatus, sub_submitted, validated, sub_queued, sub_verifying,
  accepted, sub_failed, sub_inconclusive, duplicate, blocked, SubmissionPayout, sub_none,
  sub_pending, sub_paid, sub_payout_failed, reversed, BountyStatus, draft, published, paused,
  closed, VerificationStatus, queued, in_progress, finished, PayoutStatus, pending, paid, failed,
  refunded, BlockedReason, dispute_open, dispute_refund, worker_payout_address_missing,
  DisputeStatus, dispute_is_open, resolved, cancelled, Resolution, refund, uphold, cancelled_by_org,
  ReservationStatus, active, released, OutboxStatus, waiting, processing, sent, deadletter,
  EventType, bounty_budget_reserve, bounty_budget_release, dispute_refund_event, admin_topup,
  stripe_topup, Topic, payout_requested, payout_confirm_requested, auto_refund_requested,
  verification_requested, artifact_scan_requested, artifact_delete_requested, topic_code, Key,
  payout_key, payout_confirm_key, auto_refund_key, retention_key, verification_key, key_eq,
  opt_key_eq, Payload, payout_payload, confirm_payload, dispute_payload, artifact_payload,
  verification_payload, ActorType, buyer_api_key, admin_token, system, worker_actor, TransferKind,
  net_transfer, platform_fee_transfer, proofwork_fee_transfer, TransferStatus, broadcast, confirmed,
  transfer_failed, kind_code, ArtifactStatus, art_presigned, art_uploaded, art_scanned,
  art_scan_failed, art_blocked, art_accepted, art_deleted,
}

pub record Actor : Type 0 where
  pub actor_type : ActorType
  pub actor_id : Option ℕ

pub record Org : Type 0 where
  pub id : ℕ
  pub platform_fee_bps : ℕ
  pub platform_fee_wallet : Option ℕ
  pub daily_spend_limit_cents : Option ℕ
  pub monthly_spend_limit_cents : Option ℕ
  pub max_open_jobs : Option ℕ

pub record Account : Type 0 where
  pub id : ℕ
  pub org_id : ℕ
  pub balance_cents : ℕ
  pub updated_at : ℕ

pub record BillingEvent : Type 0 where
  pub id : ℕ
  pub account_id : ℕ
  pub event_type : EventType
  pub amount_cents : ℤ
  pub created_at : ℕ

pub record Reservation : Type 0 where
  pub id : ℕ
  pub account_id : ℕ
  pub bounty_id : ℕ
  pub amount_cents : ℕ
  pub status : ReservationStatus
  pub released_at : Option ℕ

pub record Payout : Type 0 where
  pub id : ℕ
  pub submission_id : ℕ
  pub worker_id : ℕ
  pub amount_cents : ℕ
  pub status : PayoutStatus
  pub provider : Option String
  pub provider_ref : Option ℕ
  pub net_amount_cents : Option ℕ
  pub platform_fee_cents : Option ℕ
  pub platform_fee_bps : Option ℕ
  pub platform_fee_wallet : Option ℕ
  pub proofwork_fee_cents : Option ℕ
  pub proofwork_fee_bps : Option ℕ
  pub hold_until : Option ℕ
  pub blocked_reason : Option BlockedReason
  pub created_at : ℕ
  pub updated_at : ℕ

pub record Dispute : Type 0 where
  pub id : ℕ
  pub org_id : ℕ
  pub bounty_id : ℕ
  pub submission_id : Option ℕ
  pub payout_id : Option ℕ
  pub status : DisputeStatus
  pub reason : String
  pub resolution : Option Resolution
  pub resolution_notes : Option String
  pub created_at : ℕ
  pub resolved_at : Option ℕ
  pub resolver : Option Actor

pub record OutboxEvent : Type 0 where
  pub id : ℕ
  pub topic : Topic
  pub idempotency_key : Option Key
  pub payload : Payload
  pub status : OutboxStatus
  pub attempts : ℕ
  pub available_at : ℕ
  pub locked_at : Option ℕ
  pub locked_by : Option ℕ
  pub last_error : Option String
  pub created_at : ℕ
  pub sent_at : Option ℕ

pub record AuditEvent : Type 0 where
  pub actor : Actor
  pub action : String
  pub target_id : ℕ
  pub created_at : ℕ

pub record Worker : Type 0 where
  pub id : ℕ
  pub payout_address : Option ℕ
  pub payout_chain_is_base : Bool
  pub payout_address_verified : Bool

pub record Transfer : Type 0 where
  pub payout_id : ℕ
  pub kind : TransferKind
  pub to_address : Option ℕ
  pub amount_base_units : ℕ
  pub tx_hash : Option ℕ
  pub tx_nonce : ℕ
  pub status : TransferStatus

pub record NonceRow : Type 0 where
  pub chain_id : ℕ
  pub from_address : ℕ
  pub next_nonce : ℕ

pub record Db : Type 0 where
  pub orgs : List Org
  pub accounts : List Account
  pub events : List BillingEvent
  pub reservations : List Reservation
  pub bounties : List Bounty
  pub jobs : List Job
  pub submissions : List Submission
  pub artifacts : List Artifact
  pub verifications : List Verification
  pub payouts : List Payout
  pub disputes : List Dispute
  pub outbox : List OutboxEvent
  pub audit : List AuditEvent
  pub reputation : List Reputation
  pub accepted : List AcceptedDedupe
  pub workers : List Worker
  pub transfers : List Transfer
  pub nonces : List NonceRow

abbrev pub empty_db : Db
empty_db = record {
  orgs = [];
  accounts = [];
  events = [];
  reservations = [];
  bounties = [];
  jobs = [];
  submissions = [];
  artifacts = [];
  verifications = [];
  payouts = [];
  disputes = [];
  outbox = [];
  audit = [];
  reputation = [];
  accepted = [];
  workers = [];
  transfers = [];
  nonces = [];
}
