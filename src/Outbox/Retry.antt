-- ===== src/Outbox/Retry.antt =====
-- workers/outbox-lib.ts: backoff, and what becomes of an event whose handler throws.
use Prim.Native.String.{String}
use openunion.Prelude.{
  ℕ, zero, suc, ◌+◌, ◌-◌, ◌*◌, ◌^◌, ◌≤◌, ◌<◌, min, ◌≡◌, refl, true, false, arith, ltb, leb,
  if◌then◌else◌, List, [], ◌∷◌, length, map, some, none, Bool-cases, inl, inr, ==_refl, take-nil,
}
use native.Mathlib.Nat.{pow-suc}
use openunion.Prelude.Result.{err}
use openunion.Prelude.Tables.{update, select}
use openunion.Rows.{OutboxEvent, waiting, deadletter, Topic, topic_code}
use openunion.Outbox.{
  Config, Handler, backoff_seconds, max_attempts_for_topic, poll, claim_outbox_batch, handle_batch,
  settle, order_by_created, contains, claimable, is_stale, counted, lock_row,
}

-- The delay is 2^(n-1) seconds up to the sixth attempt, and 60 from the seventh on.
pub backoff_lem : (n : ℕ) → backoff_seconds n ≡ (if ltb n 7 then 2 ^ (n - 1) else 60)
unfolding backoff_seconds
backoff_lem zero = refl
backoff_lem (suc zero) = refl
backoff_lem (suc (suc zero)) = refl
backoff_lem (suc (suc (suc zero))) = refl
backoff_lem (suc (suc (suc (suc zero)))) = refl
backoff_lem (suc (suc (suc (suc (suc zero))))) = refl
backoff_lem (suc (suc (suc (suc (suc (suc zero)))))) = refl
backoff_lem (suc (suc (suc (suc (suc (suc (suc zero))))))) = refl
backoff_lem (suc (suc (suc (suc (suc (suc (suc (suc zero)))))))) = refl
backoff_lem (suc (suc (suc (suc (suc (suc (suc (suc (suc zero))))))))) = refl
backoff_lem (suc (suc (suc (suc (suc (suc (suc (suc (suc (suc zero)))))))))) = refl
backoff_lem (suc (suc (suc (suc (suc (suc (suc (suc (suc (suc (suc n))))))))))) =
    let e : min 10 (suc (suc (suc (suc (suc (suc (suc (suc (suc (suc (suc n)))))))))) - 1) ≡ 10 =
      omega arith in
    rw e (ground arith)

pow_pos : (k : ℕ) → 1 ≤ 2 ^ k
pow_pos zero = omega arith
pow_pos (suc k) = rw pow-suc (omega (arith, pow_pos k))

-- A retry is never immediate, and never more than a minute away.
pub backoff_bounds : (n : ℕ) → (1 ≤ backoff_seconds n) × (backoff_seconds n ≤ 60)
unfolding backoff_seconds
backoff_bounds n = omega (arith, pow_pos (min 10 (n - 1)))

-- A handler that throws the message and writes nothing.
abbrev pub failing : String → Handler
failing message evt outbox now = (err message, outbox, now)

-- Rounds of the loop at the given times.
pub poll_at : Config → List Topic → ℕ → ℕ → Handler → List ℕ → List OutboxEvent → List OutboxEvent
poll_at c topics worker limit handler [] outbox = outbox
poll_at c topics worker limit handler (t ∷ ts) outbox =
    poll_at c topics worker limit handler ts
      (poll c topics (λ _. false) worker limit handler t outbox)

-- The row of an event after one more failed attempt.
failed_row : Config → String → ℕ → OutboxEvent → OutboxEvent
failed_row c message now e =
    if leb (max_attempts_for_topic c e.topic) (e.attempts + 1)
    then record e {
      status = deadletter;
      attempts = e.attempts + 1;
      locked_at = none;
      locked_by = none;
      last_error = some message;
    }
    else record e {
      status = waiting;
      attempts = e.attempts + 1;
      available_at = now + backoff_seconds (e.attempts + 1) * 1000;
      locked_at = none;
      locked_by = none;
      last_error = some message;
    }

module _ (c : Config) (topics : List Topic) (worker limit : ℕ) (message : String) where
  unlocked : (now : ℕ) (e : OutboxEvent) → e.status ≡ waiting → is_stale c now e ≡ false
  unlocked now e w = ground arith

  due_event :
      (now : ℕ) (e : OutboxEvent)
      → e.status ≡ waiting
      → e.available_at ≤ now
      → contains (map topic_code topics) (topic_code e.topic) ≡ true
      → claimable topics (λ _. false) now e ≡ true
  due_event now e w due t = rw t (ground arith)

  claim_one :
      (now : ℕ) (e : OutboxEvent)
      → is_stale c now e ≡ false
      → claimable topics (λ _. false) now e ≡ true
      → claim_outbox_batch c topics (λ _. false) worker (suc limit) now (e ∷ [])
        ≡ (counted e ∷ [], lock_row worker now e ∷ [])
  unfolding claim_outbox_batch update select order_by_created
  claim_one now e fresh due =
      rw fresh (rw due (rw (take-nil {A = OutboxEvent} limit) (rw (==_refl e.id))))

  settle_one :
      (now : ℕ) (e : OutboxEvent)
      → settle c (counted e) (err message) now (lock_row worker now e ∷ [])
        ≡ failed_row c message now e ∷ []
  unfolding settle update failed_row
  settle_one now e = rw (==_refl e.id) (ground arith)

  fail_once :
      (now : ℕ) (e : OutboxEvent)
      → e.status ≡ waiting
      → e.available_at ≤ now
      → contains (map topic_code topics) (topic_code e.topic) ≡ true
      → poll c topics (λ _. false) worker (suc limit) (failing message) now (e ∷ [])
        ≡ failed_row c message now e ∷ []
  unfolding poll
  fail_once now e w due t =
      rw (claim_one now e (unlocked now e w) (due_event now e w due t)) (settle_one now e)

  dead_once :
      (now : ℕ) (e : OutboxEvent)
      → e.status ≡ deadletter
      → poll c topics (λ _. false) worker (suc limit) (failing message) now (e ∷ []) ≡ e ∷ []
  unfolding poll claim_outbox_batch handle_batch update select order_by_created
  dead_once now e dead =
      let stuck : is_stale c now e ≡ false = ground arith in
      let shut : claimable topics (λ _. false) now e ≡ false = ground arith in
      rw stuck (rw shut refl)

  dead_all :
      (ts : List ℕ) (e : OutboxEvent)
      → e.status ≡ deadletter
      → poll_at c topics worker (suc limit) (failing message) ts (e ∷ []) ≡ e ∷ []
  unfolding poll_at
  dead_all [] e dead = refl
  dead_all (t ∷ ts) e dead = rw (dead_once t e dead) (dead_all ts e dead)

  dead_row :
      (now : ℕ) (e : OutboxEvent)
      → leb (max_attempts_for_topic c e.topic) (e.attempts + 1) ≡ true
      → (failed_row c message now e).status ≡ deadletter
  unfolding failed_row
  dead_row now e out = rw out

  waiting_row :
      (now : ℕ) (e : OutboxEvent)
      → leb (max_attempts_for_topic c e.topic) (e.attempts + 1) ≡ false
      → ((failed_row c message now e).status ≡ waiting)
        × ((failed_row c message now e).available_at ≤ now + 60000)
  unfolding failed_row
  waiting_row now e more = rw more (refl, omega (arith, backoff_bounds (e.attempts + 1)))

  failed_row_keeps :
      (now : ℕ) (e : OutboxEvent)
      → ((failed_row c message now e).attempts ≡ e.attempts + 1)
        × ((failed_row c message now e).topic ≡ e.topic)
  unfolding failed_row
  failed_row_keeps now e = (ground arith, ground arith)

-- The first poll is not before the given time, and each later one is at least a minute after.
abbrev pub Spaced : ℕ → List ℕ → Type 0
Spaced from [] = Unit
Spaced from (t ∷ ts) = (from ≤ t) × Spaced (t + 60000) ts

Spaced-later : (a b : ℕ) (ts : List ℕ) → a ≤ b → Spaced b ts → Spaced a ts
Spaced-later a b [] le h = tt
Spaced-later a b (t ∷ ts) le h = (omega (arith, h.0), h.1)

-- Where the outbox holds one event, which waits and whose handler always throws, and it is polled at
-- least a minute apart, from when the event is due: each poll counts an attempt until there are as
-- many as the event's topic allows; from then on it is a dead letter, and no poll tries it again.
pub retries_end :
    (c : Config) (topics : List Topic) (worker limit : ℕ) (message : String) (ts : List ℕ)
    (e : OutboxEvent)
    → e.status ≡ waiting
    → e.attempts < max_attempts_for_topic c e.topic
    → contains (map topic_code topics) (topic_code e.topic) ≡ true
    → Spaced e.available_at ts
    → (r : OutboxEvent) × (poll_at c topics worker (suc limit) (failing message) ts (e ∷ [])
        ≡ r ∷ [])
      × (r.attempts ≡ min (e.attempts + length ts) (max_attempts_for_topic c e.topic))
      × (r.status ≡ (
          if leb (max_attempts_for_topic c e.topic) (e.attempts + length ts)
          then deadletter
          else waiting))
unfolding poll_at
retries_end c topics worker limit message [] e w less t spaced =
    (e, refl, ground arith, ground arith)
retries_end c topics worker limit message (now ∷ ts) e w less t spaced =
    let r = failed_row c message now e in
    let step = fail_once c topics worker limit message now e w spaced.0 t in
    let keep = failed_row_keeps c topics worker limit message now e in
    elim (Bool-cases (leb (max_attempts_for_topic c e.topic) (e.attempts + 1))) [
      | inl out ↦
          let dead = dead_row c topics worker limit message now e out in
          (
            r,
            rw step (dead_all c topics worker limit message ts r dead),
            ground (arith, keep),
            rw dead (ground arith),
          )
      | inr more ↦
          let wait = waiting_row c topics worker limit message now e more in
          let ih =
            retries_end c topics worker limit message ts r wait.0 (ground (arith, keep))
              (rw keep.1 t) (Spaced-later _ _ ts wait.1 spaced.1) in
          (ih.0, rw step ih.1, ground (arith, keep, ih.2), ground (arith, keep, ih.3))
    ]
