-- ===== src/Prelude/Tables.antt =====
-- Database tables as lists of rows. A statement of the program is one of these operations: a
-- SELECT of the first row, an UPDATE of the rows that satisfy a test, an INSERT at the end.
use openunion.Prelude.Tests.{if◌then◌else◌, is_some, All, Bool-cases, take, length}
use Prim.Native.Nat.{ℕ, zero, suc, ◌+◌, ◌≤◌}
use mathlib.Core.Path.{◌≡◌, refl, ap, subst}
use mathlib.Core.Logic.{inl, inr}
use mathlib.Core.Bool.{Bool, true, false, ◌&&◌}
use mathlib.Core.Option
use mathlib.Core.Option.{Option, none, some, some-injective}
use mathlib.Core.List.{List, [], ◌∷◌, ◌++◌, map}
use native.Mathlib.Omega.{arith}

module _ {ℓ} {A : Type ℓ} where
  -- SELECT ... WHERE p, `executeTakeFirst`
  unfoldable pub find : (A → Bool) → List A → Option A
  find p [] = none
  find p (x ∷ xs) = if p x then some x else find p xs

  -- UPDATE ... SET f WHERE p
  unfoldable pub update : (A → Bool) → (A → A) → List A → List A
  update p f [] = []
  update p f (x ∷ xs) = (if p x then f x else x) ∷ update p f xs

  -- SELECT ... WHERE p
  unfoldable pub select : (A → Bool) → List A → List A
  select p [] = []
  select p (x ∷ xs) = let rest = select p xs in if p x then x ∷ rest else rest

  -- SELECT count(*) WHERE p
  unfoldable pub count : (A → Bool) → List A → ℕ
  count p [] = 0
  count p (x ∷ xs) = (if p x then 1 else 0) + count p xs

  -- SELECT coalesce(sum(f), 0) WHERE p, over nonnegative values
  unfoldable pub sum : (A → Bool) → (A → ℕ) → List A → ℕ
  sum p f [] = 0
  sum p f (x ∷ xs) = (if p x then f x else 0) + sum p f xs

  pub find_sound : (p : A → Bool) (xs : List A) (r : A) → find p xs ≡ some r → p r ≡ true
  unfolding find
  find_sound p [] r h = ground arith
  find_sound p (x ∷ xs) r h = ground (arith, find_sound p xs r)

  -- What a later select finds, where the update keeps the select's test.
  pub find-update :
      (p q : A → Bool) (f : A → A) (xs : List A)
      → ((x : A) → p (f x) ≡ p x)
      → find p (update q f xs) ≡ Option.map (λ x. if q x then f x else x) (find p xs)
  unfolding find update
  find-update p q f [] keep = refl
  find-update p q f (x ∷ xs) keep = ground (arith, keep x, find-update p q f xs keep)

  pub find-append :
      (p : A → Bool) (xs ys : List A)
      → find p (xs ++ ys) ≡ elim (find p xs) [ none ↦ find p ys | some r ↦ some r ]
  unfolding find
  find-append p [] ys = refl
  find-append p (x ∷ xs) ys = ground (arith, find-append p xs ys)

  -- Every row that the update's test selects has the new contents.
  pub update-All {κ} :
      (P : A → Type κ) (p : A → Bool) (f : A → A) (xs : List A)
      → ((x : A) → p (f x) ≡ p x)
      → ((x : A) → P (f x))
      → All (λ x. p x ≡ true → P x) (update p f xs)
  unfolding update
  update-All P p f [] keep new = tt
  update-All P p f (x ∷ xs) keep new = elim (Bool-cases (p x)) [
    | inl hit ↦ rw hit (λ _. new x, update-All P p f xs keep new)
    | inr miss ↦ rw miss (λ h. absurd (ground (arith, miss, h)), update-All P p f xs keep new)
  ]

  -- What an update makes of every row.
  pub All-update {κ μ} :
      (P : A → Type κ) (Q : A → Type μ) (p : A → Bool) (f : A → A) (xs : List A)
      → ((x : A) → P x → Q (if p x then f x else x))
      → All P xs
      → All Q (update p f xs)
  unfolding update
  All-update P Q p f [] step h = tt
  All-update P Q p f (x ∷ xs) step h = (step x h.0, All-update P Q p f xs step h.1)

  -- A column that an update leaves alone.
  pub map-update {κ} :
      {B : Type κ} (g : A → B) (p : A → Bool) (f : A → A) (xs : List A)
      → ((x : A) → g (f x) ≡ g x)
      → map g (update p f xs) ≡ map g xs
  unfolding update
  map-update g p f [] keep = refl
  map-update g p f (x ∷ xs) keep = ground (arith, keep x, map-update g p f xs keep)

  pub All-take {κ} : (P : A → Type κ) (n : ℕ) (xs : List A) → All P xs → All P (take n xs)
  All-take P zero xs h = tt
  All-take P (suc n) [] h = tt
  All-take P (suc n) (x ∷ xs) h = (h.0, All-take P n xs h.1)

  -- What holds of the rows that a select finds.
  pub All-select {κ} :
      (P : A → Type κ) (p : A → Bool) (xs : List A)
      → All (λ x. p x ≡ true → P x) xs
      → All P (select p xs)
  unfolding select
  All-select P p [] h = tt
  All-select P p (x ∷ xs) h = elim (Bool-cases (p x)) [
    | inl hit ↦ rw hit (h.0 hit, All-select P p xs h.1)
    | inr miss ↦ rw miss (All-select P p xs h.1)
  ]

  pub All-intro {κ} : (P : A → Type κ) (xs : List A) → ((x : A) → P x) → All P xs
  All-intro P [] h = tt
  All-intro P (x ∷ xs) h = (h x, All-intro P xs h)

  pub All-imp {κ μ} :
      (P : A → Type κ) (Q : A → Type μ) (xs : List A) → ((x : A) → P x → Q x) → All P xs → All Q xs
  All-imp P Q [] step h = tt
  All-imp P Q (x ∷ xs) step h = (step x h.0, All-imp P Q xs step h.1)

  pub All-map {κ μ} :
      (P : A → Type κ) (Q : A → Type μ) (f : A → A) (xs : List A)
      → ((x : A) → P x → Q (f x))
      → All P xs
      → All Q (map f xs)
  All-map P Q f [] step h = tt
  All-map P Q f (x ∷ xs) step h = (step x h.0, All-map P Q f xs step h.1)

module _ {ℓ} {A : Type ℓ} where
  pub count-none : (p : A → Bool) (xs : List A) → find p xs ≡ none → count p xs ≡ 0
  unfolding find count
  count-none p [] h = refl
  count-none p (x ∷ xs) h = ground (arith, count-none p xs)

  -- An update whose rows fail the test leaves no more rows that pass it.
  pub count-update_le :
      (p q : A → Bool) (f : A → A) (xs : List A)
      → ((x : A) → p (f x) ≡ false)
      → count p (update q f xs) ≤ count p xs
  unfolding count update
  count-update_le p q f [] out = omega arith
  count-update_le p q f (x ∷ xs) out = ground (arith, out x, count-update_le p q f xs out)

  -- An update makes at most as many rows pass the test as it changes.
  pub count-update_add :
      (p q : A → Bool) (f : A → A) (xs : List A) → count p (update q f xs) ≤ count p xs + count q xs
  unfolding count update
  count-update_add p q f [] = omega arith
  count-update_add p q f (x ∷ xs) = ground (arith, count-update_add p q f xs)

  -- A narrower test passes no more rows.
  pub count_le :
      (p q : A → Bool) (xs : List A) → ((x : A) → p x ≡ true → q x ≡ true) → count p xs ≤ count q xs
  unfolding count
  count_le p q [] imp = omega arith
  count_le p q (x ∷ xs) imp = ground (arith, imp x, count_le p q xs imp)

  -- A row that an update changes is found by a test that its new contents pass.
  pub find-updated :
      (p q : A → Bool) (f : A → A) (xs : List A)
      → ((x : A) → q x ≡ true → p (f x) ≡ true)
      → is_some (find q xs) ≡ true
      → is_some (find p (update q f xs)) ≡ true
  unfolding find update
  find-updated p q f [] new h = ground arith
  find-updated p q f (x ∷ xs) new h = ground (arith, new x, find-updated p q f xs new)

  -- A row that one select finds is found by each that it passes.
  pub find_again :
      (p q : A → Bool) (xs : List A) (r : A)
      → find p xs ≡ some r
      → q r ≡ true
      → is_some (find q xs) ≡ true
  unfolding find
  find_again p q [] r h k = ground arith
  find_again p q (x ∷ xs) r h k = ground (arith, find_again p q xs r)

  pub is_some-find-update :
      (p q : A → Bool) (f : A → A) (xs : List A)
      → ((x : A) → p (f x) ≡ p x)
      → is_some (find p (update q f xs)) ≡ is_some (find p xs)
  is_some-find-update p q f xs keep = ground (arith, find-update p q f xs keep)

  -- What an update takes out of a narrower test is found no more.
  pub find-update-none :
      (p q : A → Bool) (f : A → A) (xs : List A)
      → ((x : A) → p (f x) ≡ p x)
      → ((x : A) → q (f x) ≡ false)
      → find (λ x. p x && q x) (update p f xs) ≡ none
  unfolding find update
  find-update-none p q f [] keep out = refl
  find-update-none p q f (x ∷ xs) keep out =
      ground (arith, keep x, out x, find-update-none p q f xs keep out)

pub length-map {ℓ} : {A : Type ℓ} (f : A → A) (xs : List A) → length (map f xs) ≡ length xs
length-map f [] = refl
length-map f (x ∷ xs) = ap suc (length-map f xs)

pub All-append {ℓ κ} :
    {A : Type ℓ} (P : A → Type κ) (xs : List A) (x : A) → All P xs → P x → All P (xs ++ x ∷ [])
All-append P [] x h p = (p, tt)
All-append P (y ∷ xs) x h p = (h.0, All-append P xs x h.1 p)

-- The row that a select finds is one of the table's.
pub All_find {ℓ κ} :
    {A : Type ℓ} (P : A → Type κ) (p : A → Bool) (xs : List A) (r : A)
    → All P xs
    → find p xs ≡ some r
    → P r
unfolding find
All_find P p [] r h e = absurd (ground (arith, e))
All_find P p (x ∷ xs) r h e = elim (Bool-cases (p x)) [
  | inl hit ↦ subst P (some-injective _ _ (rw hit at e)) h.0
  | inr miss ↦ All_find P p xs r h.1 (rw miss at e)
]

-- `a` stands somewhere in the list.
abbrev pub IsIn {ℓ} : {A : Type ℓ} → A → List A → Type ℓ
IsIn {A = A} a xs = (before : List A) × (after : List A) × (xs ≡ before ++ a ∷ after)

pub IsIn-cons {ℓ} : {A : Type ℓ} (a x : A) (xs : List A) → IsIn a xs → IsIn a (x ∷ xs)
IsIn-cons a x xs (before, after, e) = (x ∷ before, after, ap (λ ys. x ∷ ys) e)
