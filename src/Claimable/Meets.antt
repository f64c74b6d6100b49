-- ===== src/Claimable/Meets.antt =====
-- src/store.ts, findClaimableJob: what the tests of the query and of the loop ask of a job.
use Prim.Native.String.{String}
use openunion.Prelude.{
  ℕ, ◌+◌, ◌*◌, ◌≤◌, ◌<◌, ◌≡◌, ◌≢◌, ◌⊎◌, refl, ap, Bool, true, false, Option, none, some, List, [],
  ◌∷◌, ◌&&◌, arith, inl, inr, Bool-cases, Option-cases, All, ◌==◌, ==_iff,
}
use openunion.Prelude.Tables.{find, IsIn, IsIn-cons, All-imp}
use openunion.Prelude.Texts.{includes, includes-IsIn}
use openunion.Rows.{Bounty, Job, published, open_job, claimed}
use openunion.Jobs.{leasable, is_open_job}
use openunion.Claimable.{
  Lookup, Options, Candidate, join, is_row, is_offered, tags_of, all_in, all_allowed,
  origin_allowed, is_published, is_required, has_type, member,
}

-- A job of the database, with its bounty.
abbrev pub IsJoined : List Bounty → List Job → Candidate → Type 0
IsJoined bounties jobs c =
    IsIn c.0 jobs × (find (λ (b : Bounty). b.id == c.0.bounty_id) bounties ≡ some c.1)

-- Nobody has the job: it is open, or its lease is over.
abbrev pub IsFree : ℕ → Job → Type 0
IsFree now j =
    (j.status ≡ open_job)
    ⊎ ((j.status ≡ claimed) × (ends : ℕ) × (j.lease_expires_at ≡ some ends) × (ends < now))

-- What the request and the bounty ask of a row.
abbrev pub IsQueried : Lookup → Options → ℕ → Candidate → Type 0
IsQueried l opts now c =
    (c.1.status ≡ published)
    × IsFree now c.0
    × ((id : ℕ) → opts.require_job_id ≡ some id → c.0.id ≡ id)
    × ((id : ℕ) → opts.require_job_id ≡ none → opts.require_bounty_id ≡ some id → c.1.id ≡ id)
    × ((t : ℕ) → opts.task_type ≡ some t → l.row_type c.0 c.1 ≡ some t)

-- An origin that everybody may use for the task's type, or that the organisation has verified.
abbrev pub IsOpenTo : Lookup → Candidate → String → Type 0
IsOpenTo l c o =
    (l.is_public_origin (l.descriptor c.0 c.1).task_type o ≡ true)
    ⊎ ((n : String) × (l.normalize_origin o ≡ some n) × IsIn n (l.verified_origins c.1.org_id))

-- What the loop asks of a row.
abbrev pub IsFitting : Lookup → Bool → Options → ℕ → Candidate → Type 0
IsFitting l browser_off opts now c =
    All (λ id. id ≢ c.0.id) opts.exclude_job_ids
    × All (IsOpenTo l c) c.1.allowed_origins
    × (opts.min_payout_cents ≤ c.1.payout_cents)
    × ((t : ℕ) → opts.capability_tag ≡ some t → IsIn t (tags_of l c))
    × ((ts : List ℕ) → opts.supported_tags ≡ some ts → All (λ t. IsIn t ts) (tags_of l c))
    × (opts.supported_tags ≡ none → browser_off ≡ true → All (λ t. t ≢ l.browser) (tags_of l c))
    × (0 < (l.descriptor c.0 c.1).freshness_sla_sec
        → 0 < c.0.created_at
        → now ≤ c.0.created_at + (l.descriptor c.0 c.1).freshness_sla_sec * 1000)

member-IsIn : (xs : List ℕ) (k : ℕ) → member xs k ≡ true → IsIn k xs
member-IsIn [] k h = absurd (ground (arith, h))
member-IsIn (x ∷ xs) k h = elim (Bool-cases (x == k)) [
  | inl same ↦ ([], xs, ap (λ y. y ∷ xs) ((==_iff x k).0 same))
  | inr other ↦ IsIn-cons k x xs (member-IsIn xs k (rw other at h))
]

member_out : (xs : List ℕ) (k : ℕ) → member xs k ≡ false → All (λ x. x ≢ k) xs
member_out [] k h = tt
member_out (x ∷ xs) k h = elim (Bool-cases (x == k)) [
  | inl same ↦ absurd (ground (arith, h, same))
  | inr other ↦ (λ e. ground (arith, other, e), member_out xs k (rw other at h))
]

all_in_sound :
    (supported tags : List ℕ) → all_in supported tags ≡ true → All (λ t. IsIn t supported) tags
all_in_sound supported [] h = tt
all_in_sound supported (t ∷ ts) h =
    (member-IsIn supported t (ground (arith, h)), all_in_sound supported ts (ground (arith, h)))

origin_allowed-IsOpenTo :
    (l : Lookup) (c : Candidate) (o : String)
    → origin_allowed l c.1.org_id o ≡ true
    → IsOpenTo l c o
unfolding origin_allowed
origin_allowed-IsOpenTo l c o h = elim (Option-cases (l.normalize_origin o)) [
  | inl bad ↦ absurd (ground (arith, bad, h))
  | inr (n, good) ↦
      let found : includes (l.verified_origins c.1.org_id) n ≡ true = ground (arith, good, h) in
      inr (n, good, includes-IsIn (l.verified_origins c.1.org_id) n found)
]

all_allowed_sound :
    (l : Lookup) (c : Candidate) (origins : List String)
    → all_allowed l (l.descriptor c.0 c.1).task_type c.1.org_id origins ≡ true
    → All (IsOpenTo l c) origins
unfolding all_allowed
all_allowed_sound l c [] h = tt
all_allowed_sound l c (o ∷ origins) h = (
  elim (Bool-cases (l.is_public_origin (l.descriptor c.0 c.1).task_type o)) [
    | inl everybody ↦ inl everybody
    | inr own ↦ origin_allowed-IsOpenTo l c o (ground (arith, own, h))
  ],
  all_allowed_sound l c origins (ground (arith, h)),
)

and_both : (a b : Bool) → (a && b) ≡ true → (a ≡ true) × (b ≡ true)
and_both a b h = (ground (arith, h), ground (arith, h))

published_status : (b : Bounty) → is_published b.status ≡ true → b.status ≡ published
published_status b h = ground (arith, h)

leasable-IsFree : (now : ℕ) (j : Job) → leasable now j ≡ true → IsFree now j
leasable-IsFree now j h = elim (Bool-cases (is_open_job j.status)) [
  | inl free ↦ inl (ground (arith, free))
  | inr taken ↦ elim (Option-cases j.lease_expires_at) [
    | inl never ↦ absurd (ground (arith, h, taken, never))
    | inr (ends, at) ↦ inr (ground (arith, h, taken, at), ends, at, ground (arith, h, taken, at))
  ]
]

required_row :
    (opts : Options) (c : Candidate)
    → is_required opts c ≡ true
    → ((id : ℕ) → opts.require_job_id ≡ some id → c.0.id ≡ id)
      × ((id : ℕ) → opts.require_job_id ≡ none → opts.require_bounty_id ≡ some id → c.1.id ≡ id)
required_row opts c h =
    (λ id e. ground (arith, h, e), λ id none_asked e. ground (arith, h, none_asked, e))

typed_row : (wanted t : Option ℕ) (k : ℕ) → has_type wanted t ≡ true → wanted ≡ some k → t ≡ some k
typed_row none t k h e = absurd (ground (arith, e))
typed_row (some a) none k h e = absurd (ground (arith, h))
typed_row (some a) (some b) k h e = ap some (ground (arith, h, e))

pub row-IsQueried :
    (l : Lookup) (opts : Options) (now : ℕ) (c : Candidate)
    → is_row l opts now c ≡ true
    → IsQueried l opts now c
unfolding is_row
row-IsQueried l opts now c h =
    let (but_excluded, _) = and_both _ _ h in
    let (but_type, typed) = and_both _ _ but_excluded in
    let (but_asked, asked) = and_both _ _ but_type in
    let (is_public, free) = and_both _ _ but_asked in
    let (of_job, of_bounty) = required_row opts c asked in
    (
      published_status c.1 is_public,
      leasable-IsFree now c.0 free,
      of_job,
      of_bounty,
      λ t e. typed_row opts.task_type (l.row_type c.0 c.1) t typed e,
    )

pub offered-IsFitting :
    (l : Lookup) (browser_off : Bool) (opts : Options) (now : ℕ) (c : Candidate)
    → is_offered l browser_off opts now c ≡ true
    → IsFitting l browser_off opts now c
unfolding is_offered
offered-IsFitting l browser_off opts now c h = (
  member_out opts.exclude_job_ids c.0.id (ground (arith, h)),
  all_allowed_sound l c c.1.allowed_origins (ground (arith, h)),
  ground (arith, h),
  λ t e. member-IsIn (tags_of l c) t (ground (arith, h, e)),
  λ ts e. all_in_sound ts (tags_of l c) (ground (arith, h, e)),
  λ e off. member_out (tags_of l c) l.browser (ground (arith, h, e, off)),
  λ limited made. ground (arith, h, limited, made),
)

-- The rows of the join are the database's.
pub join-IsJoined :
    (bounties : List Bounty) (jobs : List Job) → All (IsJoined bounties jobs) (join bounties jobs)
unfolding join
join-IsJoined bounties [] = tt
join-IsJoined bounties (j ∷ jobs) =
    let rest =
      All-imp _ (IsJoined bounties (j ∷ jobs)) (join bounties jobs)
        (λ c (i, e). (IsIn-cons c.0 j jobs i, e)) (join-IsJoined bounties jobs) in
    elim (Option-cases (find (λ (b : Bounty). b.id == j.bounty_id) bounties)) [
      | inl gone ↦ rw (gone, All) rest
      | inr (b, found) ↦ rw (found, All) ((([], jobs, refl), found), rest)
    ]
