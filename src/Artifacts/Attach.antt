-- ===== src/Artifacts/Attach.antt =====
-- src/storage.ts, attachSubmissionArtifacts: whose artifacts a submission may have.
use openunion.Prelude.{
  ℕ, ◌≡◌, refl, true, false, Option, none, some, List, [], ◌∷◌, arith, inl, inr, ◌⊎◌, Option-cases,
  All, ◌==◌, subst, if◌then◌else◌, sym,
}
use mathlib.Core.Option
use openunion.Prelude.Tables.{update, find-update, find_sound, All-imp}
use openunion.Prelude.Result.{ok, err, Result-cases}
use openunion.Rows.{Artifact}
use openunion.Artifacts.{
  ArtifactRef, ArtifactError, artifact_of, check_artifact, attach_one, attach_submission_artifacts,
  attached_row, is_scanned, is_other,
}

-- An artifact that a worker may attach to a submission for a job.
abbrev pub IsUsable : ℕ → ℕ → Artifact → Type 0
IsUsable job_id worker_id a =
    (a.deleted_at ≡ none)
    × (is_other a.worker_id worker_id ≡ false)
    × (is_other a.job_id job_id ≡ false)
    × (is_scanned a.status ≡ true)

-- The artifact that an identifier names, if there is one.
abbrev pub Named : (Artifact → Type 0) → List Artifact → Option ℕ → Type 0
Named P artifacts none = Unit
Named P artifacts (some id) = (a : Artifact) × (artifact_of id artifacts ≡ some a) × P a

usable :
    (job_id worker_id : ℕ) (a : Artifact)
    → check_artifact job_id worker_id a ≡ ok tt
    → IsUsable job_id worker_id a
unfolding check_artifact
usable job_id worker_id a h = ground (arith, h)

attach_one-cases :
    (sid job_id worker_id : ℕ) (ref : ArtifactRef) (artifacts : List Artifact)
    {after : List Artifact}
    → attach_one sid job_id worker_id ref artifacts ≡ ok after
    → ((ref.artifact_id ≡ none) × (after ≡ artifacts))
      ⊎ ((id : ℕ) × (a : Artifact) × (ref.artifact_id ≡ some id)
          × (artifact_of id artifacts ≡ some a)
          × IsUsable job_id worker_id a
          × (after ≡ update (λ (x : Artifact). x.id == id) (attached_row sid ref) artifacts))
unfolding attach_one
attach_one-cases sid job_id worker_id ref artifacts h = elim (Option-cases ref.artifact_id) [
  | inl external ↦ inl (external, ground (arith, external, h))
  | inr (id, named) ↦ elim (Option-cases (artifact_of id artifacts)) [
    | inl gone ↦ absurd (ground (arith, named, gone, h))
    | inr (a, here) ↦ elim (Result-cases (check_artifact job_id worker_id a)) [
      | inl (e, bad) ↦ absurd (ground (arith, named, here, bad, h))
      | inr (tt, good) ↦
          inr (
            id,
            a,
            named,
            here,
            usable job_id worker_id a good,
            ground (arith, named, here, good, h),
          )
    ]
  ]
]

module _ (sid job_id worker_id : ℕ) where
  -- The artifact belongs to the submission.
  abbrev pub IsAttached : Artifact → Type 0
  IsAttached a = a.submission_id ≡ some sid

  -- The artifact with an identifier, after one was attached.
  artifact_of-attach :
      (id k : ℕ) (ref : ArtifactRef) (artifacts : List Artifact)
      → artifact_of k (update (λ (x : Artifact). x.id == id) (attached_row sid ref) artifacts)
        ≡ Option.map
            (λ x. if x.id == id then attached_row sid ref x else x)
            (artifact_of k artifacts)
  artifact_of-attach id k ref artifacts =
      find-update (λ (x : Artifact). x.id == k) (λ (x : Artifact). x.id == id)
        (attached_row sid ref) artifacts (λ x. refl)

  IsUsable-update :
      (id : ℕ) (ref : ArtifactRef) (o : Option ℕ) (artifacts : List Artifact)
      → Named
          (IsUsable job_id worker_id)
          (update (λ (x : Artifact). x.id == id) (attached_row sid ref) artifacts)
          o
      → Named (IsUsable job_id worker_id) artifacts o
  IsUsable-update id ref none artifacts h = tt
  IsUsable-update id ref (some k) artifacts (a, here, good) =
      elim (Option-cases (artifact_of k artifacts)) [
        | inl gone ↦ absurd (ground (arith, gone, here, artifact_of-attach id k ref artifacts))
        | inr (b, was) ↦
            (b, was, ground (arith, was, here, good, artifact_of-attach id k ref artifacts))
      ]

  IsAttached-update :
      (id : ℕ) (ref : ArtifactRef) (o : Option ℕ) (artifacts : List Artifact)
      → Named IsAttached artifacts o
      → Named IsAttached (update (λ (x : Artifact). x.id == id) (attached_row sid ref) artifacts) o
  IsAttached-update id ref none artifacts h = tt
  IsAttached-update id ref (some k) artifacts (a, here, mine) = (
    if a.id == id then attached_row sid ref a else a,
    ground (arith, here, artifact_of-attach id k ref artifacts),
    ground (arith, mine),
  )

  attach-cons :
      (ref : ArtifactRef) (refs : List ArtifactRef) (artifacts after : List Artifact)
      → attach_one sid job_id worker_id ref artifacts ≡ ok after
      → attach_submission_artifacts sid job_id worker_id (ref ∷ refs) artifacts
        ≡ attach_submission_artifacts sid job_id worker_id refs after
  unfolding attach_submission_artifacts
  attach-cons ref refs artifacts after good = ground (arith, good)

  attach_stops :
      (e : ArtifactError) (ref : ArtifactRef) (refs : List ArtifactRef) (artifacts : List Artifact)
      → attach_one sid job_id worker_id ref artifacts ≡ err e
      → attach_submission_artifacts sid job_id worker_id (ref ∷ refs) artifacts
        ≡ (artifacts, some e)
  unfolding attach_submission_artifacts
  attach_stops e ref refs artifacts bad = ground (arith, bad)

  -- What one attachment keeps of those before it.
  kept :
      (ref : ArtifactRef) (o : Option ℕ) (artifacts after : List Artifact)
      → attach_one sid job_id worker_id ref artifacts ≡ ok after
      → Named IsAttached artifacts o
      → Named IsAttached after o
  kept ref o artifacts after good h =
      elim (attach_one-cases sid job_id worker_id ref artifacts good) [
        | inl (_, same) ↦ rw same h
        | inr (id, _, _, _, _, changed) ↦ rw changed (IsAttached-update id ref o artifacts h)
      ]

  IsUsable-attach_one :
      (ref : ArtifactRef) (o : Option ℕ) (artifacts after : List Artifact)
      → attach_one sid job_id worker_id ref artifacts ≡ ok after
      → Named (IsUsable job_id worker_id) after o
      → Named (IsUsable job_id worker_id) artifacts o
  IsUsable-attach_one ref o artifacts after good h =
      elim (attach_one-cases sid job_id worker_id ref artifacts good) [
        | inl (_, same) ↦ rw same at h
        | inr (id, _, _, _, _, changed) ↦ IsUsable-update id ref o artifacts (rw changed at h)
      ]

  IsAttached-attach :
      (refs : List ArtifactRef) (o : Option ℕ) (artifacts : List Artifact)
      → Named IsAttached artifacts o
      → Named IsAttached (attach_submission_artifacts sid job_id worker_id refs artifacts).0 o
  unfolding attach_submission_artifacts
  IsAttached-attach [] o artifacts h = h
  IsAttached-attach (ref ∷ refs) o artifacts h =
      elim (Result-cases (attach_one sid job_id worker_id ref artifacts)) [
        | inl (e, bad) ↦
            subst (λ r. Named IsAttached r.0 o) (sym (attach_stops e ref refs artifacts bad)) h
        | inr (after, good) ↦
            subst (λ r. Named IsAttached r.0 o) (sym (attach-cons ref refs artifacts after good))
              (IsAttached-attach refs o after (kept ref o artifacts after good h))
      ]

  this_one :
      (ref : ArtifactRef) (artifacts after : List Artifact)
      → attach_one sid job_id worker_id ref artifacts ≡ ok after
      → Named (IsUsable job_id worker_id) artifacts ref.artifact_id
        × Named IsAttached after ref.artifact_id
  this_one ref artifacts after good =
      elim (attach_one-cases sid job_id worker_id ref artifacts good) [
        | inl (external, _) ↦ rw external (tt, tt)
        | inr (id, a, named, here, fine, changed) ↦ rw named (
          (a, here, fine),
          (
            attached_row sid ref a,
            ground (
              arith,
              changed,
              here,
              artifact_of-attach id id ref artifacts,
              find_sound _ _ a here,
            ),
            refl,
          ),
        )
      ]

  -- What a request whose artifacts are all attached says of them: each that it names was there, was
  -- not deleted, was the worker's or nobody's, was of the job or of none, and had passed the scan;
  -- and each has the submission's identifier.
  pub attach-IsUsable :
      (refs : List ArtifactRef) (artifacts : List Artifact)
      → (attach_submission_artifacts sid job_id worker_id refs artifacts).1 ≡ none
      → All
          (λ ref.
            Named (IsUsable job_id worker_id) artifacts ref.artifact_id
            × Named IsAttached
                (attach_submission_artifacts sid job_id worker_id refs artifacts).0
                ref.artifact_id)
          refs
  unfolding attach_submission_artifacts
  attach-IsUsable [] artifacts h = tt
  attach-IsUsable (ref ∷ refs) artifacts h =
      elim (Result-cases (attach_one sid job_id worker_id ref artifacts)) [
        | inl (e, bad) ↦ absurd (ground (arith, h, attach_stops e ref refs artifacts bad))
        | inr (after, good) ↦
            let step = attach-cons ref refs artifacts after good in
            let (fine, mine) = this_one ref artifacts after good in
            subst
              (λ r.
                All
                  (λ x.
                    Named (IsUsable job_id worker_id) artifacts x.artifact_id
                    × Named IsAttached r.0 x.artifact_id)
                  (ref ∷ refs))
              (sym step)
              (
                (fine, IsAttached-attach refs ref.artifact_id after mine),
                All-imp _ _ refs
                    (λ x (before, now).
                      (IsUsable-attach_one ref x.artifact_id artifacts after good before, now))
                    (attach-IsUsable refs after (rw step at h)),
              )
      ]
