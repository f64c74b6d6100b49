-- ===== src/Claimable/Offers.antt =====
-- src/store.ts, findClaimableJob: the loop turns away no row that meets what it asks for.
use Prim.Native.String.{String}
use openunion.Prelude.{
  ℕ, ◌≡◌, ◌≢◌, refl, Bool, true, false, Option, none, some, List, [], ◌∷◌, ◌++◌, arith, inl, inr,
  Bool-cases, Option-cases, All, ◌==◌, ==_iff, ==_refl,
}
use openunion.Prelude.Tables.{IsIn}
use openunion.Prelude.Texts.{includes, includes_there}
use openunion.Claimable.{
  Lookup, Options, Candidate, is_offered, tags_of, tags_fit, all_in, all_allowed, origin_allowed,
  member, is_fresh, wanted,
}
use openunion.Claimable.Meets.{IsOpenTo, IsFitting}

member_there : (before : List ℕ) (k : ℕ) (after : List ℕ) → member (before ++ k ∷ after) k ≡ true
member_there [] k after = ground (arith, ==_refl k)
member_there (x ∷ xs) k after = ground (arith, member_there xs k after)

member_of : (xs : List ℕ) (k : ℕ) → IsIn k xs → member xs k ≡ true
member_of xs k (before, after, e) = rw e (member_there before k after)

member_none : (xs : List ℕ) (k : ℕ) → All (λ x. x ≢ k) xs → member xs k ≡ false
member_none [] k h = refl
member_none (x ∷ xs) k h = elim (Bool-cases (x == k)) [
  | inl same ↦ absurd (h.0 ((==_iff x k).0 same))
  | inr other ↦ rw other (member_none xs k h.1)
]

all_in_of :
    (supported tags : List ℕ) → All (λ t. IsIn t supported) tags → all_in supported tags ≡ true
all_in_of supported [] h = refl
all_in_of supported (t ∷ ts) h =
    ground (arith, member_of supported t h.0, all_in_of supported ts h.1)

all_allowed_of :
    (l : Lookup) (c : Candidate) (origins : List String)
    → All (IsOpenTo l c) origins
    → all_allowed l (l.descriptor c.0 c.1).task_type c.1.org_id origins ≡ true
unfolding all_allowed origin_allowed
all_allowed_of l c [] h = refl
all_allowed_of l c (o ∷ origins) (inl everybody, h) =
    ground (arith, everybody, all_allowed_of l c origins h)
all_allowed_of l c (o ∷ origins) (inr (n, good, (before, after, e)), h) =
    let found : includes (l.verified_origins c.1.org_id) n ≡ true =
      rw e (includes_there before n after) in
    ground (arith, good, found, all_allowed_of l c origins h)

wanted_of :
    (asked : Option ℕ) (tags : List ℕ)
    → ((t : ℕ) → asked ≡ some t → IsIn t tags)
    → wanted asked tags ≡ true
wanted_of none tags h = refl
wanted_of (some t) tags h = member_of tags t (h t refl)

tags_fit_of :
    (l : Lookup) (browser_off : Bool) (opts : Options) (tags : List ℕ)
    → ((ts : List ℕ) → opts.supported_tags ≡ some ts → All (λ t. IsIn t ts) tags)
    → (opts.supported_tags ≡ none → browser_off ≡ true → All (λ t. t ≢ l.browser) tags)
    → tags_fit l browser_off opts tags ≡ true
tags_fit_of l false opts tags fit without = elim (Option-cases opts.supported_tags) [
  | inl any ↦ ground (arith, any)
  | inr (ts, e) ↦ ground (arith, e, all_in_of ts tags (fit ts e))
]
tags_fit_of l true opts tags fit without = elim (Option-cases opts.supported_tags) [
  | inl any ↦ ground (arith, any, member_none tags l.browser (without any refl))
  | inr (ts, e) ↦ ground (arith, e, all_in_of ts tags (fit ts e))
]

-- A row that meets all that the loop asks for is offered.
pub fitting-offered :
    (l : Lookup) (browser_off : Bool) (opts : Options) (now : ℕ) (c : Candidate)
    → IsFitting l browser_off opts now c
    → is_offered l browser_off opts now c ≡ true
unfolding is_offered
fitting-offered l browser_off opts now c (out, origins, pays, tag, fit, without, in_time) =
    let d = l.descriptor c.0 c.1 in
    let fresh_row : is_fresh now d.freshness_sla_sec c.0 ≡ true = ground (arith, in_time) in
    let out' = member_none opts.exclude_job_ids c.0.id out in
    let origins' = all_allowed_of l c c.1.allowed_origins origins in
    let tag' = wanted_of opts.capability_tag (tags_of l c) tag in
    let fit' = tags_fit_of l browser_off opts (tags_of l c) fit without in
    rw out' (rw origins' (rw tag' (rw fit' (rw fresh_row (ground (arith, pays))))))
