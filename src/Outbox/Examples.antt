-- ===== src/Outbox/Examples.antt =====
-- The outbox of workers/outbox-lib.ts on one event.
use openunion.Prelude.{◌≡◌, refl, arith, false, none, some, List, [], ◌∷◌, All}
use openunion.Rows.{
  OutboxEvent, Topic, payout_requested, payout_key, payout_payload, waiting, deadletter,
}
use openunion.Outbox.{Config, claim_outbox_batch, contains, ids_of, max_attempts_for_topic}
use openunion.Outbox.Claims.{claim_exclusive}
use openunion.Outbox.Retry.{retries_end, poll_at, failing}

abbrev config : Config
config = record {
  max_attempts_default = 10;
  max_attempts_artifact_scan = 60;
  lock_timeout_sec = 600;
}

abbrev event : OutboxEvent
event = record {
  id = 1;
  topic = payout_requested;
  idempotency_key = some (payout_key 6);
  payload = payout_payload 6 (some 4) 5;
  status = waiting;
  attempts = 0;
  available_at = 100;
  locked_at = none;
  locked_by = none;
  last_error = none;
  created_at = 100;
  sent_at = none;
}

abbrev topics : List Topic
topics = payout_requested ∷ []

claim_exclusive_example :
    All
      (λ e.
        contains
          (ids_of (claim_outbox_batch config topics (λ _. false) 1 10 200 (event ∷ [])).0)
          e.id
        ≡ false)
      (claim_outbox_batch config topics
        (λ _. false)
        2
        10
        300
        (claim_outbox_batch config topics (λ _. false) 1 10 200 (event ∷ [])).1).0
claim_exclusive_example =
    claim_exclusive config topics topics (λ _. false) (λ _. false) 1 2 10 10 200 300 (event ∷ [])
      (omega arith)

-- An event that failed eight times, at its last two attempts and one poll more.
abbrev tired : OutboxEvent
tired = record event { attempts = 8 }

retries_end_example :
    (r : OutboxEvent) × (poll_at config topics 1 10
        (failing "boom")
        (100 ∷ 70000 ∷ 140000 ∷ [])
        (tired ∷ [])
      ≡ r ∷ [])
    × (r.attempts ≡ 10)
    × (r.status ≡ deadletter)
unfolding max_attempts_for_topic
retries_end_example =
    retries_end config topics 1 9 "boom" (100 ∷ 70000 ∷ 140000 ∷ []) tired refl
      (unfold max_attempts_for_topic in omega arith) refl
      (omega arith, (omega arith, (omega arith, tt)))
