-- ===== src/Outbox.antt =====
-- The transactional outbox: `enqueueOutbox` of src/store.ts and the runner's library,
-- workers/outbox-lib.ts. `FOR UPDATE SKIP LOCKED` skips the rows that other transactions hold:
-- which ones they are is the parameter `held`.
mod Examples
pub mod Claims
pub mod Retry
use Prim.Native.String.{String}
use openunion.Prelude.{
  ℕ, ◌+◌, ◌-◌, ◌*◌, ◌^◌, min, max, Bool, true, false, Option, none, some, List, [], ◌∷◌, ◌++◌, map,
  ◌&&◌, ◌||◌, not, ltb, leb, ◌==◌, if◌then◌else◌, take, is_some,
}
use openunion.Prelude.Tables.{find, update, select}
use openunion.Prelude.Result.{Result, ok, err}
use openunion.Rows.{
  OutboxEvent, OutboxStatus, waiting, processing, sent, deadletter, Topic, artifact_scan_requested,
  topic_code, Key, opt_key_eq, Payload,
}

-- WHERE topic = t AND idempotency_key = k
abbrev pub addressed : Topic → Key → OutboxEvent → Bool
addressed t k e = topic_code e.topic == topic_code t && opt_key_eq e.idempotency_key k

unfoldable pub new_event : ℕ → Topic → Option Key → Payload → ℕ → ℕ → OutboxEvent
new_event id topic key payload available_at now = record {
  id = id;
  topic = topic;
  idempotency_key = key;
  payload = payload;
  status = waiting;
  attempts = 0;
  available_at = available_at;
  locked_at = none;
  locked_by = none;
  last_error = none;
  created_at = now;
  sent_at = none;
}

-- ON CONFLICT (topic, idempotency_key) DO NOTHING, where there is a key.
unfoldable pub enqueue_outbox :
    ℕ → Topic → Payload → Option ℕ → Option Key → ℕ → List OutboxEvent → List OutboxEvent
unfolding new_event
enqueue_outbox id topic payload available_at none now outbox =
    outbox
    ++ new_event id topic none payload (elim available_at [ none ↦ now | some t ↦ t ]) now ∷ []
enqueue_outbox id topic payload available_at (some key) now outbox =
    let row =
      new_event id topic (some key) payload (elim available_at [ none ↦ now | some t ↦ t ]) now in
    if is_some (find (addressed topic key) outbox) then outbox else outbox ++ row ∷ []

abbrev is_waiting : OutboxStatus → Bool
is_waiting waiting = true
is_waiting _ = false

abbrev is_processing : OutboxStatus → Bool
is_processing processing = true
is_processing _ = false

-- The settings of the runner, from its environment.
pub record Config : Type 0 where
  pub max_attempts_default : ℕ
  pub max_attempts_artifact_scan : ℕ
  pub lock_timeout_sec : ℕ

abbrev is_scan : Topic → Bool
is_scan artifact_scan_requested = true
is_scan _ = false

pub max_attempts_for_topic : Config → Topic → ℕ
max_attempts_for_topic c topic =
    if is_scan topic
    then max 10 (min 1000 c.max_attempts_artifact_scan)
    else max 1 (min 1000 c.max_attempts_default)

-- attempt_no starts at 1; `attemptNo - 1` is never below 0, as `Math.max(0, attemptNo - 1)`
pub backoff_seconds : ℕ → ℕ
backoff_seconds attempt_no = min 60 (2 ^ min 10 (attempt_no - 1))

-- status = 'processing' AND locked_at < now() - timeout
abbrev is_stale : Config → ℕ → OutboxEvent → Bool
is_stale c now e =
    is_processing e.status
    && elim e.locked_at [ none ↦ false | some t ↦ ltb (t + c.lock_timeout_sec * 1000) now ]

release_stale : Config → ℕ → List OutboxEvent → List OutboxEvent
release_stale c now =
    update (is_stale c now) (λ e. record e { status = waiting; locked_at = none; locked_by = none })

abbrev contains : List ℕ → ℕ → Bool
contains [] k = false
contains (x ∷ xs) k = x == k || contains xs k

-- ORDER BY created_at
insert_by_created : OutboxEvent → List OutboxEvent → List OutboxEvent
insert_by_created e [] = e ∷ []
insert_by_created e (x ∷ xs) =
    if leb e.created_at x.created_at then e ∷ x ∷ xs else x ∷ insert_by_created e xs

order_by_created : List OutboxEvent → List OutboxEvent
unfolding insert_by_created
order_by_created [] = []
order_by_created (x ∷ xs) = insert_by_created x (order_by_created xs)

-- status = 'pending' AND available_at <= now() AND topic = ANY(topics), and not held
abbrev pub claimable : List Topic → (ℕ → Bool) → ℕ → OutboxEvent → Bool
claimable topics held now e =
    is_waiting e.status
    && leb e.available_at now
    && contains (map topic_code topics) (topic_code e.topic)
    && not (held e.id)

abbrev counted : OutboxEvent → OutboxEvent
counted e = record e { attempts = e.attempts + 1 }

abbrev lock_row : ℕ → ℕ → OutboxEvent → OutboxEvent
lock_row worker now e = record e {
  status = processing;
  attempts = e.attempts + 1;
  locked_at = some now;
  locked_by = some worker;
}

abbrev ids_of : List OutboxEvent → List ℕ
ids_of rows = map (λ (e : OutboxEvent). e.id) rows

candidates : List Topic → (ℕ → Bool) → ℕ → ℕ → List OutboxEvent → List OutboxEvent
unfolding order_by_created
candidates topics held limit now outbox =
    take limit (order_by_created (select (claimable topics held now) outbox))

-- The batch has the incremented attempts, as the rows of the table have.
pub claim_outbox_batch :
    Config
    → List Topic
    → (ℕ → Bool)
    → ℕ
    → ℕ
    → ℕ
    → List OutboxEvent
    → List OutboxEvent × List OutboxEvent
unfolding release_stale candidates
claim_outbox_batch c topics held worker limit now outbox =
    let fresh = release_stale c now outbox in
    let rows = candidates topics held limit now fresh in
    (map counted rows, update (λ e. contains (ids_of rows) e.id) (lock_row worker now) fresh)

pub mark_outbox_sent : ℕ → ℕ → List OutboxEvent → List OutboxEvent
mark_outbox_sent id now =
    update (λ e. e.id == id)
      (λ e. record e { status = sent; locked_at = none; locked_by = none; sent_at = some now })

pub reschedule_outbox : ℕ → String → ℕ → ℕ → List OutboxEvent → List OutboxEvent
reschedule_outbox id message delay_sec now =
    update (λ e. e.id == id)
      λ e. record e {
        status = waiting;
        available_at = now + delay_sec * 1000;
        locked_at = none;
        locked_by = none;
        last_error = some message;
      }

pub mark_outbox_dead : ℕ → String → List OutboxEvent → List OutboxEvent
mark_outbox_dead id message =
    update (λ e. e.id == id)
      λ e. record e {
        status = deadletter;
        locked_at = none;
        locked_by = none;
        last_error = some message;
      }

-- What the loop does with an event once its handler has returned or thrown.
pub settle :
    Config → OutboxEvent → Result String (Unit {0}) → ℕ → List OutboxEvent → List OutboxEvent
unfolding mark_outbox_sent reschedule_outbox mark_outbox_dead
settle c evt (ok _) now outbox = mark_outbox_sent evt.id now outbox
settle c evt (err message) now outbox =
    if leb (max_attempts_for_topic c evt.topic) evt.attempts
    then mark_outbox_dead evt.id message outbox
    else reschedule_outbox evt.id message (backoff_seconds evt.attempts) now outbox

-- A handler sees the event, the table and the clock; it returns or throws, leaves the table that it
-- wrote, and the time at which it ended.
abbrev pub Handler : Type 0
Handler = OutboxEvent → List OutboxEvent → ℕ → Result String (Unit {0}) × List OutboxEvent × ℕ

-- The inner loop of `runOutboxLoop`.
pub handle_batch : Config → Handler → List OutboxEvent → ℕ → List OutboxEvent → List OutboxEvent
handle_batch c handler [] now outbox = outbox
handle_batch c handler (evt ∷ batch) now outbox =
    let (outcome, outbox', now') = handler evt outbox now in
    handle_batch c handler batch now' (settle c evt outcome now' outbox')

-- One round of `runOutboxLoop`; an empty batch only sleeps.
pub poll :
    Config → List Topic → (ℕ → Bool) → ℕ → ℕ → Handler → ℕ → List OutboxEvent → List OutboxEvent
unfolding handle_batch
poll c topics held worker limit handler now outbox =
    let (batch, outbox') = claim_outbox_batch c topics held worker limit now outbox in
    handle_batch c handler batch now outbox'
