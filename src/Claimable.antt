-- ===== src/Claimable.antt =====
-- src/store.ts, findClaimableJob: which job a worker is offered. The JSON columns (the descriptor of a
-- job or its bounty) and the checks on origins are fields of `Lookup`. A score is compared after it
-- is multiplied by the worker's positive denominators, so the code's floating-point scores are taken
-- as exact.
pub mod Best
pub mod Meets
pub mod Offers
mod Examples
use Prim.Native.String.{String}
use openunion.Prelude.{
  ℕ, ◌+◌, ◌*◌, max, Bool, true, false, Option, none, some, List, [], ◌∷◌, ◌++◌, take, ◌&&◌, ◌||◌,
  not, ltb, leb, ◌==◌, if◌then◌else◌, length, get_or,
}
use openunion.Prelude.Int.{ℤ, pos_part, neg_part, sub_ℕ}
use openunion.Prelude.Tables.{find, select, count}
use openunion.Prelude.Texts.{includes}
use openunion.Rows.{
  Db, Bounty, BountyStatus, published, Job, Submission, SubmissionStatus, duplicate, Reputation,
}
use openunion.Jobs.{leasable}

pub record Descriptor : Type 0 where
  pub task_type : Option ℕ
  pub capability_tags : List ℕ
  pub freshness_sla_sec : ℕ

-- `job.taskDescriptor ?? bounty.taskDescriptor`, the type that the query reads of either, the public origins of the system app of a task type,
-- the verified origins of an organisation, `normalizeOrigin`, and the number of the tag `browser`.
pub record Lookup : Type 0 where
  pub descriptor : Job → Bounty → Descriptor
  pub row_type : Job → Bounty → Option ℕ
  pub is_public_origin : Option ℕ → String → Bool
  pub verified_origins : ℕ → List String
  pub normalize_origin : String → Option String
  pub browser : ℕ

pub record Options : Type 0 where
  pub capability_tag : Option ℕ
  pub supported_tags : Option (List ℕ)
  pub min_payout_cents : ℕ
  pub task_type : Option ℕ
  pub exclude_job_ids : List ℕ
  pub require_job_id : Option ℕ
  pub require_bounty_id : Option ℕ

abbrev pub Candidate : Type 0
Candidate = Job × Bounty

abbrev pub member : List ℕ → ℕ → Bool
member [] k = false
member (x ∷ xs) k = x == k || member xs k

abbrev is_published : BountyStatus → Bool
is_published published = true
is_published _ = false

-- jobs INNER JOIN bounties
pub join : List Bounty → List Job → List Candidate
join bounties [] = []
join bounties (j ∷ jobs) =
    let rest = join bounties jobs in
    elim (find (λ (b : Bounty). b.id == j.bounty_id) bounties) [
      | none ↦ rest
      | some b ↦ (j, b) ∷ rest
    ]

abbrev required : Option ℕ → ℕ → Bool
required none k = true
required (some a) k = a == k

-- `requireBountyId` counts only without `requireJobId`.
abbrev pub is_required : Options → Candidate → Bool
is_required opts c = elim opts.require_job_id [
  | none ↦ required opts.require_bounty_id c.1.id
  | some id ↦ c.0.id == id
]

abbrev has_type : Option ℕ → Option ℕ → Bool
has_type none t = true
has_type (some k) none = false
has_type (some k) (some t) = t == k

abbrev without : ℕ → List ℕ → List ℕ
without k [] = []
without k (x ∷ xs) = if x == k then without k xs else x ∷ without k xs

-- `Array.from(new Set(ids))`
abbrev unique : List ℕ → List ℕ
unique [] = []
unique (x ∷ xs) = x ∷ without x (unique xs)

-- WHERE ...; the query leaves out 50 of the excluded jobs, the loop all of them.
unfoldable pub is_row : Lookup → Options → ℕ → Candidate → Bool
is_row l opts now c =
    is_published c.1.status
    && leasable now c.0
    && is_required opts c
    && has_type opts.task_type (l.row_type c.0 c.1)
    && not (member (take 50 (unique opts.exclude_job_ids)) c.0.id)

-- ORDER BY priority DESC, payout_cents DESC, created_at ASC
abbrev pub comes_before : Candidate → Candidate → Bool
comes_before c d =
    ltb d.1.priority c.1.priority
    || d.1.priority == c.1.priority
      && (ltb d.1.payout_cents c.1.payout_cents
          || d.1.payout_cents == c.1.payout_cents && leb c.0.created_at d.0.created_at)

pub insert_row : Candidate → List Candidate → List Candidate
insert_row c [] = c ∷ []
insert_row c (d ∷ ds) =
    let rest = insert_row c ds in if comes_before c d then c ∷ d ∷ ds else d ∷ rest

pub order_rows : List Candidate → List Candidate
unfolding insert_row
order_rows [] = []
order_rows (c ∷ cs) = insert_row c (order_rows cs)

abbrev pub row_limit : Options → ℕ
row_limit opts = elim opts.require_job_id [ none ↦ 50 | some _ ↦ 1 ]

unfoldable pub claimable_rows : Lookup → Options → ℕ → Db → List Candidate
unfolding order_rows join
claimable_rows l opts now db =
    take (row_limit opts) (order_rows (select (is_row l opts now) (join db.bounties db.jobs)))

-- `originAllowed` of src/buyer.ts
pub origin_allowed : Lookup → ℕ → String → Bool
unfolding includes
origin_allowed l org candidate = elim (l.normalize_origin candidate) [
  | none ↦ false
  | some o ↦ includes (l.verified_origins org) o
]

all_allowed : Lookup → Option ℕ → ℕ → List String → Bool
unfolding origin_allowed
all_allowed l task org [] = true
all_allowed l task org (o ∷ origins) =
    (l.is_public_origin task o || origin_allowed l org o) && all_allowed l task org origins

-- Without a descriptor's tags a job needs the browser.
abbrev pub tags_of : Lookup → Candidate → List ℕ
tags_of l c = elim (l.descriptor c.0 c.1).capability_tags [
  | [] ↦ l.browser ∷ []
  | ◌∷◌ t (ts → _) ↦ t ∷ ts
]

abbrev pub all_in : List ℕ → List ℕ → Bool
all_in supported [] = true
all_in supported (t ∷ ts) = member supported t && all_in supported ts

abbrev pub tags_fit : Lookup → Bool → Options → List ℕ → Bool
tags_fit l browser_off opts tags = elim opts.supported_tags [
  | some supported ↦ all_in supported tags
  | none ↦ not (browser_off && member tags l.browser)
]

abbrev wanted : Option ℕ → List ℕ → Bool
wanted none tags = true
wanted (some t) tags = member tags t

abbrev pub is_fresh : ℕ → ℕ → Job → Bool
is_fresh now sla j =
    not (ltb 0 sla && not (j.created_at == 0) && ltb (j.created_at + sla * 1000) now)

-- The checks of the loop.
unfoldable pub is_offered : Lookup → Bool → Options → ℕ → Candidate → Bool
unfolding all_allowed
is_offered l browser_off opts now c =
    let d = l.descriptor c.0 c.1 in
    let tags = tags_of l c in
    not (member opts.exclude_job_ids c.0.id)
    && all_allowed l d.task_type c.1.org_id c.1.allowed_origins
    && leb opts.min_payout_cents c.1.payout_cents
    && wanted opts.capability_tag tags
    && tags_fit l browser_off opts tags
    && is_fresh now d.freshness_sla_sec c.0

abbrev is_of : ℕ → Submission → Bool
is_of worker_id s = s.worker_id == worker_id

abbrev is_duplicate : SubmissionStatus → Bool
is_duplicate duplicate = true
is_duplicate _ = false

-- ORDER BY created_at DESC
insert_latest : Submission → List Submission → List Submission
insert_latest s [] = s ∷ []
insert_latest s (t ∷ ts) =
    let rest = insert_latest s ts in if leb t.created_at s.created_at then s ∷ t ∷ ts else t ∷ rest

latest_first : List Submission → List Submission
unfolding insert_latest
latest_first [] = []
latest_first (s ∷ ss) = insert_latest s (latest_first ss)

-- `workerDuplicateRate`: the duplicates among the worker's last 100 submissions, and their number.
unfoldable pub worker_duplicate_rate : ℕ → Db → ℕ × ℕ
unfolding latest_first
worker_duplicate_rate worker_id db =
    let recent = take 100 (latest_first (select (is_of worker_id) db.submissions)) in
    (count (λ (s : Submission). is_duplicate s.status) recent, length recent)

-- `expectedPassRate`: alpha and beta; one half where there is no row.
unfoldable pub expected_pass_rate : ℕ → Db → ℕ × ℕ
expected_pass_rate worker_id db =
    elim (find (λ (r : Reputation). r.worker_id == worker_id) db.reputation) [
      | none ↦ (1, 1)
      | some r ↦ (r.alpha, r.beta)
    ]

-- The score times (alpha + beta) * total * 5, where `total` is 1 for a worker without submissions:
-- priority * 100000 + payout, less complexity * beta / (alpha + beta) * 500, less
-- payout * duplicates / total / 5.
pub score : ℕ × ℕ → ℕ × ℕ → Bounty → ℤ
score (alpha, beta) (duplicates, recent) b =
    let total = max 1 recent in
    sub_ℕ ((b.priority * 100000 + b.payout_cents) * (alpha + beta) * total * 5)
      (b.required_proofs * beta * 500 * total * 5 + b.payout_cents * duplicates * (alpha + beta))

-- `a > b`
abbrev pub exceeds : ℤ → ℤ → Bool
exceeds a b = ltb (pos_part b + neg_part a) (pos_part a + neg_part b)

abbrev pub beats : (Candidate → ℤ) → Candidate → Option Candidate → Bool
beats rate c none = true
beats rate c (some best) = exceeds (rate c) (rate best)

-- The loop over the candidates.
pub pick :
    (Candidate → Bool) → (Candidate → ℤ) → Option Candidate → List Candidate → Option Candidate
pick offered rate best [] = best
pick offered rate best (c ∷ cs) =
    pick offered rate (if offered c && beats rate c best then some c else best) cs

unfoldable pub find_claimable_job : Lookup → ℕ → Bool → Options → ℕ → Db → Option Candidate
unfolding pick score
find_claimable_job l worker_id browser_off opts now db =
    pick (is_offered l browser_off opts now)
      (λ c. score (expected_pass_rate worker_id db) (worker_duplicate_rate worker_id db) c.1) none
      (claimable_rows l opts now db)
