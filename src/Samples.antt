-- ===== src/Samples.antt =====
-- Rows that the tests share: an organisation with a bounty, one job, one submission and its payout.
use openunion.Prelude.{ℕ, true, false, none, some, [], ◌∷◌}
use openunion.Prelude.Result.{ok}
use openunion.Rows.{
  Db, Actor, Org, Account, Bounty, Job, Submission, Payout, Worker, Reservation, empty_db,
  published, draft, open_job, accepted, sub_pending, pending, buyer_api_key, active,
}
use openunion.PayoutEnv.{Env, off_chain, on_chain}
use openunion.Prelude.{◌+◌}

abbrev pub sample_fresh : ℕ → ℕ
sample_fresh n = 100 + n

abbrev pub sample_now : ℕ
sample_now = 1000000

abbrev pub sample_actor : Actor
sample_actor = record { actor_type = buyer_api_key; actor_id = some 1 }

abbrev pub sample_org : Org
sample_org = record {
  id = 1;
  platform_fee_bps = 500;
  platform_fee_wallet = some 77;
  daily_spend_limit_cents = some 100000;
  monthly_spend_limit_cents = some 100000;
  max_open_jobs = some 10;
}

abbrev pub sample_account : Account
sample_account = record { id = 1; org_id = 1; balance_cents = 5000; updated_at = 0 }

abbrev pub sample_bounty : Bounty
sample_bounty = record {
  id = 2;
  org_id = 1;
  status = draft;
  allowed_origins = [];
  payout_cents = 1000;
  required_proofs = 1;
  fingerprint_classes = "desktop_us" ∷ "mobile_us" ∷ [];
  priority = 0;
  dispute_window_sec = 3600;
  freshness_sla_sec = 0;
  published_at = none;
}

abbrev pub sample_job : Job
sample_job = record {
  id = 3;
  bounty_id = 2;
  fingerprint_class = "desktop_us";
  status = open_job;
  lease_worker_id = none;
  lease_expires_at = none;
  lease_nonce = none;
  current_submission_id = none;
  final_verdict = none;
  final_reason = none;
  final_quality_score = none;
  done_at = none;
  created_at = 500000;
  freshness_sla_sec = 0;
}

abbrev pub sample_submission : Submission
sample_submission = record {
  id = 4;
  job_id = 3;
  worker_id = 5;
  idempotency_key = none;
  request_hash = none;
  status = accepted;
  dedupe_key = none;
  final_verdict = none;
  final_reason = none;
  final_quality_score = none;
  payout_status = sub_pending;
  created_at = 600000;
}

abbrev pub sample_payout : Payout
sample_payout = record {
  id = 6;
  submission_id = 4;
  worker_id = 5;
  amount_cents = 1000;
  status = pending;
  provider = none;
  provider_ref = none;
  net_amount_cents = some 940;
  platform_fee_cents = some 50;
  platform_fee_bps = some 500;
  platform_fee_wallet = some 77;
  proofwork_fee_cents = some 9;
  proofwork_fee_bps = some 100;
  hold_until = some 2000000;
  blocked_reason = none;
  created_at = 700000;
  updated_at = 700000;
}

abbrev pub sample_worker : Worker
sample_worker = record {
  id = 5;
  payout_address = some 88;
  payout_chain_is_base = true;
  payout_address_verified = true;
}

-- Before the bounty is published.
abbrev pub draft_db : Db
draft_db = record empty_db {
  orgs = sample_org ∷ [];
  accounts = sample_account ∷ [];
  bounties = sample_bounty ∷ [];
}

abbrev pub sample_reservation : Reservation
sample_reservation = record {
  id = 9;
  account_id = 1;
  bounty_id = 2;
  amount_cents = 2000;
  status = active;
  released_at = none;
}

-- After its one payout was made.
abbrev pub payout_db : Db
payout_db = record draft_db {
  bounties = record sample_bounty { status = published } ∷ [];
  jobs = sample_job ∷ [];
  submissions = sample_submission ∷ [];
  payouts = sample_payout ∷ [];
  workers = sample_worker ∷ [];
  reservations = sample_reservation ∷ [];
}

abbrev pub sample_env : Env
sample_env = record {
  kind = off_chain;
  name = "mock";
  fees = record { bps = 100; max_bps = 500; wallet = some 99 };
  create_payout = λ id cents worker. ok (true, ("mock", 55));
  chain_id = 8453;
  from = 66;
  pending_nonce = 7;
  send = λ nonce call. ok (1000 + nonce);
  receipt = λ hash. some (record { reverted = false; block = 20 });
  latest_block = 30;
  confirmations_required = 5;
}

abbrev pub sample_chain_env : Env
sample_chain_env = record sample_env { kind = on_chain; name = "crypto_base_usdc" }
