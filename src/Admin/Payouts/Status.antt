-- ===== src/Admin/Payouts/Status.antt =====
-- src/server.ts: an administrator's retry of a payout, and its status set by hand.
use Prim.Native.String.{String}
use openunion.Prelude.{
  ℕ, ◌≡◌, refl, Bool, true, inl, inr, ◌⊎◌, Option-cases, Option, none, some, List, [], ◌∷◌, arith,
  ◌==◌, ==_refl, ==_iff, subst, ◌&&◌, Bool-cases, sym,
}
use openunion.Prelude.Tables.{find, update, find-update, find-append, find_sound, find-update-none}
use openunion.Rows.{
  Db, Payout, PayoutStatus, pending, paid, failed, refunded, OutboxEvent, Topic, payout_requested,
  payout_key, payout_payload, waiting,
}
use openunion.Disputes.{next_at}
use openunion.Payouts.{payout_of, mark_payout_status, status_row}
use openunion.Outbox.{addressed, new_event, claimable}
use openunion.Handlers.Once.{payout_of-update}
use openunion.Accounts.{admin_audit}
use openunion.Verifications.Verdict.Unpaid.{payout_event}
use openunion.Admin.Payouts.{
  retry_payout, retry_found, retry_status, retried, cleared, restart_event, restarted_row,
  MarkStatus, marked, marked_status, mark_meta, mark_payout, mark_payout_found, stopped_row,
}

restarted :
    (id next now : ℕ) (p : Payout) (outbox : List OutboxEvent)
    → (e : OutboxEvent) × (find
          (addressed payout_requested (payout_key p.id))
          (restart_event id next now p outbox)
        ≡ some e)
      × (e.status ≡ waiting)
      × (e.attempts ≡ 0)
      × (e.available_at ≡ next)
unfolding restart_event find new_event
restarted id next now p outbox =
    let test = addressed payout_requested (payout_key p.id) in
    elim (Option-cases (find test outbox)) [
      | inl gone ↦
          let new =
            new_event id payout_requested (some (payout_key p.id))
              (payout_payload p.id (some p.submission_id) p.worker_id) next now in
          (
            new,
            ground (arith, gone, ==_refl p.id, find-append test outbox (new ∷ [])),
            refl,
            refl,
            refl,
          )
      | inr (e, here) ↦
          let moved =
            find-update test (λ (x : OutboxEvent). x.id == e.id) (restarted_row next) outbox
              (λ x. refl) in
          (restarted_row next e, ground (arith, here, moved, ==_refl e.id), refl, refl, refl)
    ]

retry_status-eq-retried :
    (fresh : ℕ → ℕ) (now : ℕ) (p : Payout) (st : PayoutStatus) (db : Db) {db' : Db}
    → retry_status fresh now p st db ≡ (db', retried)
    → ((st ≡ pending) ⊎ (st ≡ failed))
      × (p.blocked_reason ≡ none)
      × (db'.outbox ≡ restart_event (fresh 0) (next_at p.hold_until now) now p db.outbox)
      × (db'.payouts ≡ (mark_payout_status p.id pending cleared now db).payouts)
unfolding retry_status admin_audit
retry_status-eq-retried fresh now p pending db h =
    (inl refl, ground (arith, h), ground (arith, h), ground (arith, h))
retry_status-eq-retried fresh now p failed db h =
    (inr refl, ground (arith, h), ground (arith, h), ground (arith, h))
retry_status-eq-retried fresh now p paid db h = absurd (ground (arith, h))
retry_status-eq-retried fresh now p refunded db h = absurd (ground (arith, h))

-- Only a payout that is pending or failed and not blocked is retried. It is pending again, its
-- provider's reference forgotten, and its request, the one that was there or a new one, waits with
-- no attempt made until the hold is over.
pub retry_restarts :
    (fresh : ℕ → ℕ) (now pid : ℕ) (db db' : Db)
    → retry_payout fresh now pid db ≡ (db', retried)
    → (p : Payout) × (payout_of pid db ≡ some p)
      × ((p.status ≡ pending) ⊎ (p.status ≡ failed))
      × (p.blocked_reason ≡ none)
      × (p' : Payout) × (payout_of pid db' ≡ some p')
      × (p'.status ≡ pending)
      × (p'.provider_ref ≡ none)
      × (e : OutboxEvent) × (payout_event (payout_key pid) db' ≡ some e)
      × (e.status ≡ waiting)
      × (e.attempts ≡ 0)
      × (e.available_at ≡ next_at p.hold_until now)
unfolding retry_payout retry_found mark_payout_status
retry_restarts fresh now pid db db' h = elim (Option-cases (payout_of pid db)) [
  | inl gone ↦ absurd (ground (arith, gone, h))
  | inr (p, here) ↦
      let own : p.id ≡ pid = (==_iff p.id pid).0 (find_sound _ _ p here) in
      let (was, free, events, rows) =
        retry_status-eq-retried fresh now p p.status db {db' = db'} (ground (arith, here, h)) in
      let (e, found, waits_now, none_yet, due) =
        restarted (fresh 0) (next_at p.hold_until now) now p db.outbox in
      let row = status_row pending cleared now p in
      (
        p,
        here,
        was,
        free,
        row,
        rw rows (
            payout_of-update pid p.id (status_row pending cleared now) p db.payouts own (λ x. refl)
              here),
        refl,
        refl,
        e,
        rw events (
            subst
              (λ k.
                find (addressed payout_requested (payout_key k))
                  (restart_event (fresh 0) (next_at p.hold_until now) now p db.outbox)
                ≡ some e)
              own found),
        waits_now,
        none_yet,
        due,
      )
]

stopped_unclaimable :
    (topics : List Topic) (held : ℕ → Bool) (later now pid : ℕ) (outbox : List OutboxEvent)
    → find
        (λ e. addressed payout_requested (payout_key pid) e && claimable topics held later e)
        (update (addressed payout_requested (payout_key pid)) (stopped_row now) outbox)
      ≡ none
stopped_unclaimable topics held later now pid outbox =
    find-update-none (addressed payout_requested (payout_key pid)) (claimable topics held later)
      (stopped_row now) outbox (λ e. refl) (λ e. refl)

-- A payout whose status an administrator sets has that status, and the runner claims none of its
-- requests any more, at any time, for any topics and whatever rows are locked.
pub mark_stops :
    (now pid : ℕ) (status : MarkStatus) (provider : Option String) (ref : Option ℕ)
    (has_reason : Bool) (db db' : Db) (topics : List Topic) (held : ℕ → Bool) (later : ℕ)
    → mark_payout now pid status provider ref has_reason db ≡ (db', marked)
    → (has_reason ≡ true)
      × (p : Payout) × (payout_of pid db' ≡ some p)
      × (p.status ≡ marked_status status)
      × (p.provider_ref ≡ ref)
      × (find
            (λ e. addressed payout_requested (payout_key pid) e && claimable topics held later e)
            db'.outbox
          ≡ none)
unfolding mark_payout mark_payout_found mark_payout_status admin_audit
mark_stops now pid status provider ref has_reason db db' topics held later h =
    elim (Option-cases (payout_of pid db)) [
      | inl gone ↦ absurd (ground (arith, gone, h))
      | inr (p, here) ↦ elim (Bool-cases has_reason) [
        | inr silent ↦ absurd (ground (arith, here, silent, h))
        | inl stated ↦
            let own : p.id ≡ pid = (==_iff p.id pid).0 (find_sound _ _ p here) in
            let patch = status_row (marked_status status) (mark_meta provider ref) now in
            let row = payout_of-update pid p.id patch p db.payouts own (λ x. refl) here in
            let gone = stopped_unclaimable topics held later now p.id db.outbox in
            let sent_all : db'.outbox
                ≡ update (addressed payout_requested (payout_key p.id)) (stopped_row now)
                    db.outbox =
              ground (arith, here, stated, h) in
            (
              stated,
              patch p,
              ground (arith, here, stated, h, row),
              refl,
              refl,
              rw (sent_all, sym own) gone,
            )
      ]
    ]
