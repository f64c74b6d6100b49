-- ===== src/Outbox/Claims.antt =====
-- workers/outbox-lib.ts, claimOutboxBatch: who may take an event, and how many are taken.
use openunion.Prelude.{
  ℕ, ◌+◌, ◌*◌, ◌≤◌, ◌≡◌, refl, Bool, true, false, List, [], ◌∷◌, map, arith, All, inl, inr, length,
  length-take_le, leb, Bool-cases, if◌then◌else◌, some, none, ap,
}
use openunion.Prelude.Tables.{
  select, All-take, All-select, All-intro, All-map, All-update, All-imp, update-All, length-map,
}
use openunion.Rows.{OutboxEvent, Topic, processing, waiting}
use openunion.Outbox.{
  Config, contains, claimable, candidates, claim_outbox_batch, release_stale, ids_of, is_stale,
  order_by_created, insert_by_created, lock_row, counted,
}

module _ (P : OutboxEvent → Type 0) where
  All-insert :
      (e : OutboxEvent) (xs : List OutboxEvent) → P e → All P xs → All P (insert_by_created e xs)
  unfolding insert_by_created
  All-insert e [] p h = (p, tt)
  All-insert e (x ∷ xs) p h = elim (Bool-cases (leb e.created_at x.created_at)) [
    | inl first ↦ rw first (p, (h.0, h.1))
    | inr later ↦ rw later (h.0, All-insert e xs p h.1)
  ]

  All-order : (xs : List OutboxEvent) → All P xs → All P (order_by_created xs)
  unfolding order_by_created
  All-order [] h = tt
  All-order (x ∷ xs) h = All-insert x (order_by_created xs) h.0 (All-order xs h.1)

module _ (topics : List Topic) (held : ℕ → Bool) (limit now : ℕ) where
  -- What holds of the rows that can be claimed holds of those that are.
  All-candidates :
      (P : OutboxEvent → Type 0) (outbox : List OutboxEvent)
      → All (λ e. claimable topics held now e ≡ true → P e) outbox
      → All P (candidates topics held limit now outbox)
  unfolding candidates
  All-candidates P outbox h =
      All-take P limit _ (All-order P _ (All-select P (claimable topics held now) outbox h))

  length-candidates :
      (outbox : List OutboxEvent) → length (candidates topics held limit now outbox) ≤ limit
  unfolding candidates
  length-candidates outbox =
      length-take_le limit (order_by_created (select (claimable topics held now) outbox))

module _ (c : Config) (topics : List Topic) (held : ℕ → Bool) (worker limit now : ℕ) where
  -- No more events are taken than the limit, and each is due, of a topic that the worker asked for,
  -- held by nobody else, and waiting once the stale locks are released.
  pub claim_bounded :
      (outbox : List OutboxEvent)
      → (length (claim_outbox_batch c topics held worker limit now outbox).0 ≤ limit)
        × All
            (λ e. claimable topics held now e ≡ true)
            (claim_outbox_batch c topics held worker limit now outbox).0
  unfolding claim_outbox_batch
  claim_bounded outbox =
      let rows = candidates topics held limit now (release_stale c now outbox) in
      let Due : OutboxEvent → Type 0 = λ e. claimable topics held now e ≡ true in
      (
        rw length-map (length-candidates topics held limit now (release_stale c now outbox)),
        All-map Due Due counted rows (λ e h. h)
            (All-candidates topics held limit now Due (release_stale c now outbox)
              (All-intro _ (release_stale c now outbox) (λ e h. h))),
      )

  -- What a claim leaves of the rows that it took.
  locked :
      (outbox : List OutboxEvent)
      → let rows = candidates topics held limit now (release_stale c now outbox) in
        All
          (λ e.
            contains (ids_of rows) e.id ≡ true → (e.status ≡ processing) × (e.locked_at ≡ some now))
          (claim_outbox_batch c topics held worker limit now outbox).1
  unfolding claim_outbox_batch
  locked outbox =
      update-All (λ e. (e.status ≡ processing) × (e.locked_at ≡ some now)) _ (lock_row worker now)
        (release_stale c now outbox) (λ e. refl) (λ e. (refl, refl))

ids_of-counted : (xs : List OutboxEvent) → ids_of (map counted xs) ≡ ids_of xs
ids_of-counted [] = refl
ids_of-counted (x ∷ xs) = ap (λ ids. x.id ∷ ids) (ids_of-counted xs)

-- A lock that is not older than the timeout is kept.
fresh_lock :
    (c : Config) (now later : ℕ) (e : OutboxEvent)
    → later ≤ now + c.lock_timeout_sec * 1000
    → (e.status ≡ processing) × (e.locked_at ≡ some now)
    → is_stale c later e ≡ false
fresh_lock c now later e soon h = ground arith

kept_row :
    (c : Config) (ids : List ℕ) (now later : ℕ) (e : OutboxEvent)
    → later ≤ now + c.lock_timeout_sec * 1000
    → (contains ids e.id ≡ true → (e.status ≡ processing) × (e.locked_at ≡ some now))
    → (b : Bool) → is_stale c later e ≡ b
    → let e' : OutboxEvent =
        if b then record e { status = waiting; locked_at = none; locked_by = none } else e in
      contains ids e'.id ≡ true → e'.status ≡ processing
kept_row c ids now later e soon p true stale hit = cc (fresh_lock c now later e soon (p hit))
kept_row c ids now later e soon p false fresh hit = (p hit).0

kept :
    (c : Config) (ids : List ℕ) (now later : ℕ) (outbox : List OutboxEvent)
    → later ≤ now + c.lock_timeout_sec * 1000
    → All
        (λ e. contains ids e.id ≡ true → (e.status ≡ processing) × (e.locked_at ≡ some now))
        outbox
    → All (λ e. contains ids e.id ≡ true → e.status ≡ processing) (release_stale c later outbox)
unfolding release_stale
kept c ids now later outbox soon h =
    All-update _ _ _ _ outbox (λ e p. kept_row c ids now later e soon p (is_stale c later e) refl) h

not_taken :
    (topics : List Topic) (held : ℕ → Bool) (ids : List ℕ) (later : ℕ) (e : OutboxEvent)
    → (contains ids e.id ≡ true → e.status ≡ processing)
    → claimable topics held later e ≡ true
    → contains ids e.id ≡ false
not_taken topics held ids later e p due = elim (Bool-cases (contains ids e.id)) [
  | inl hit ↦ ground (arith, p hit)
  | inr miss ↦ miss
]

-- Until the lock timeout is over, no other claim takes an event of a batch, whatever topics, limit
-- and clock it comes with.
pub claim_exclusive :
    (c : Config) (topics topics' : List Topic) (held held' : ℕ → Bool)
    (worker worker' limit limit' now later : ℕ) (outbox : List OutboxEvent)
    → later ≤ now + c.lock_timeout_sec * 1000
    → let (batch, left) = claim_outbox_batch c topics held worker limit now outbox in
      All
        (λ e. contains (ids_of batch) e.id ≡ false)
        (claim_outbox_batch c topics' held' worker' limit' later left).0
claim_exclusive c topics topics' held held' worker worker' limit limit' now later outbox soon =
    let rows = candidates topics held limit now (release_stale c now outbox) in
    let left = (claim_outbox_batch c topics held worker limit now outbox).1 in
    let same : ids_of (claim_outbox_batch c topics held worker limit now outbox).0 ≡ ids_of rows =
      unfold claim_outbox_batch in ids_of-counted rows in
    let Free : OutboxEvent → Type 0 = λ e. contains (ids_of rows) e.id ≡ false in
    let safe =
      kept c (ids_of rows) now later left soon (locked c topics held worker limit now outbox) in
    let free : All Free (candidates topics' held' limit' later (release_stale c later left)) =
      All-candidates topics' held' limit' later Free (release_stale c later left)
        (All-imp _ _ _ (λ e p. not_taken topics' held' (ids_of rows) later e p) safe) in
    rw same (unfold claim_outbox_batch in All-map Free Free counted _ (λ e h. h) free)
