-- ===== src/Prelude/Lists.antt =====
-- Lists measured by native numbers, predicates on every element, and the stable sort of arrays.
use Prim.Native.Nat.{ℕ, zero, suc, ◌+◌, ◌≤◌}
use mathlib.Core.Path.{◌≡◌, subst, refl}
use mathlib.Core.Logic.{inl, inr}
use mathlib.Core.Bool.{Bool, true, false}
use mathlib.Core.Option.{Option, none, some, some-injective}
use mathlib.Core.List.{List, [], ◌∷◌, ◌++◌}
use native.Mathlib.Omega.{arith}
use dina_mobile.Prelude.Tests.{leb, Bool-cases, if◌then◌else◌}

module _ {ℓ} {A : Type ℓ} where
  abbrev pub length : List A → ℕ
  length [] = 0
  length (x ∷ xs) = suc (length xs)

  abbrev pub take : ℕ → List A → List A
  take zero xs = []
  take (suc n) [] = []
  take (suc n) (x ∷ xs) = x ∷ take n xs

  abbrev pub head? : List A → Option A
  head? [] = none
  head? (x ∷ xs) = some x

  -- `array.filter(p)`
  abbrev pub keep : (A → Bool) → List A → List A
  keep p [] = []
  keep p (x ∷ xs) = let rest = keep p xs in if p x then x ∷ rest else rest

  -- `array.sort((a, b) => f(a) - f(b))`, which is stable.
  unfoldable pub insert_by : (A → ℕ) → A → List A → List A
  insert_by f x [] = x ∷ []
  insert_by f x (y ∷ ys) = if leb (f x) (f y) then x ∷ y ∷ ys else y ∷ insert_by f x ys

  unfoldable pub sort_by : (A → ℕ) → List A → List A
  unfolding insert_by
  sort_by f [] = []
  sort_by f (x ∷ xs) = insert_by f x (sort_by f xs)

  -- `array.some(p)`
  abbrev pub any : (A → Bool) → List A → Bool
  any p [] = false
  any p (x ∷ xs) = let rest = any p xs in if p x then true else rest

  -- `array.find(p)`
  abbrev pub find : (A → Bool) → List A → Option A
  find p [] = none
  find p (x ∷ xs) = let rest = find p xs in if p x then some x else rest

  pub length-append : (xs ys : List A) → length (xs ++ ys) ≡ length xs + length ys
  length-append [] ys = omega arith
  length-append (x ∷ xs) ys = omega (arith, length-append xs ys)

  pub length-take-le : (n : ℕ) (xs : List A) → length (take n xs) ≤ n
  length-take-le zero xs = omega arith
  length-take-le (suc n) [] = omega arith
  length-take-le (suc n) (x ∷ xs) = omega (arith, length-take-le n xs)

-- A predicate on every element; it computes to a tuple.
abbrev pub All {ℓ κ} : {A : Type ℓ} → (A → Type κ) → List A → Type κ
All P [] = Unit
All P (x ∷ xs) = P x × All P xs

pub All-append {ℓ κ} :
    {A : Type ℓ} (P : A → Type κ) (xs ys : List A) → All P xs → All P ys → All P (xs ++ ys)
All-append P [] ys hx hy = hy
All-append P (x ∷ xs) ys hx hy = (hx.0, All-append P xs ys hx.1 hy)

pub All-map {ℓ κ} :
    {A : Type ℓ} (P Q : A → Type κ) (imp : (a : A) → P a → Q a) (xs : List A) → All P xs → All Q xs
All-map P Q imp [] h = h
All-map P Q imp (x ∷ xs) h = (imp x h.0, All-map P Q imp xs h.1)

module _ {ℓ κ} {A : Type ℓ} (P : A → Type κ) where
  All-insert_by : (f : A → ℕ) (x : A) (ys : List A) → P x → All P ys → All P (insert_by f x ys)
  unfolding insert_by
  All-insert_by f x [] h hs = (h, tt)
  All-insert_by f x (y ∷ ys) h hs =
      elim (leb (f x) (f y)) as (λ b. All P (if b then x ∷ y ∷ ys else y ∷ insert_by f x ys)) [
        | true ↦ (h, hs)
        | false ↦ (hs.0, All-insert_by f x ys h hs.1)
      ]

  -- Sorting keeps what holds of every element.
  pub All-sort_by : (f : A → ℕ) (xs : List A) → All P xs → All P (sort_by f xs)
  unfolding sort_by
  All-sort_by f [] h = tt
  All-sort_by f (x ∷ xs) h = All-insert_by f x (sort_by f xs) h.0 (All-sort_by f xs h.1)

  All-insert_by_inv : (f : A → ℕ) (x : A) (ys : List A) → All P (insert_by f x ys) → P x × All P ys
  unfolding insert_by
  All-insert_by_inv f x [] = λ h. h
  All-insert_by_inv f x (y ∷ ys) =
      elim (leb (f x) (f y))
        as (λ b. All P (if b then x ∷ y ∷ ys else y ∷ insert_by f x ys) → P x × All P (y ∷ ys)) [
          | true ↦ λ h. h
          | false ↦ λ h. let (hx, hs) = All-insert_by_inv f x ys h.1 in (hx, (h.0, hs))
        ]

  -- What holds of every element of the sorted list holds of every element.
  pub All-sort_by_inv : (f : A → ℕ) (xs : List A) → All P (sort_by f xs) → All P xs
  unfolding sort_by
  All-sort_by_inv f [] h = tt
  All-sort_by_inv f (x ∷ xs) h =
      let (hx, hs) = All-insert_by_inv f x (sort_by f xs) h in (hx, All-sort_by_inv f xs hs)

module _ {ℓ} {A : Type ℓ} (f : A → ℕ) where
  abbrev pub IsSortedBy : List A → Type 0
  IsSortedBy [] = Unit
  IsSortedBy (x ∷ xs) = All (λ y. f x ≤ f y) xs × IsSortedBy xs

  IsSortedBy-insert_by : (x : A) (ys : List A) → IsSortedBy ys → IsSortedBy (insert_by f x ys)
  unfolding insert_by
  IsSortedBy-insert_by x [] h = (tt, tt)
  IsSortedBy-insert_by x (y ∷ ys) h = elim (Bool-cases (leb (f x) (f y))) [
    | inl le ↦
        rw (le, insert_by)
          (
            (ground arith, All-map (λ z. f y ≤ f z) (λ z. f x ≤ f z) (λ z q. ground arith) ys h.0),
            h,
          )
    | inr gt ↦
        rw (gt, insert_by)
          (All-insert_by (λ z. f y ≤ f z) f x ys (ground arith) h.0, IsSortedBy-insert_by x ys h.1)
  ]

  pub IsSortedBy-sort_by : (xs : List A) → IsSortedBy (sort_by f xs)
  unfolding sort_by
  IsSortedBy-sort_by [] = tt
  IsSortedBy-sort_by (x ∷ xs) = IsSortedBy-insert_by x (sort_by f xs) (IsSortedBy-sort_by xs)

  head_of_sorted :
      (w : A) (ys : List A) → IsSortedBy ys → head? ys ≡ some w → All (λ y. f w ≤ f y) ys
  head_of_sorted w [] h e = tt
  head_of_sorted w (y ∷ ys) h e =
      subst (λ z. All (λ v. f z ≤ f v) (y ∷ ys)) (some-injective _ _ e) (omega arith, h.0)

  -- The head of the sorted array is no larger than any element.
  pub head-sort_by_min :
      (w : A) (xs : List A) → head? (sort_by f xs) ≡ some w → All (λ y. f w ≤ f y) xs
  head-sort_by_min w xs e =
      All-sort_by_inv (λ y. f w ≤ f y) f xs
        (head_of_sorted w (sort_by f xs) (IsSortedBy-sort_by xs) e)

-- What holds of every element holds of the head.
pub All-head {ℓ κ} :
    {A : Type ℓ} (P : A → Type κ) (w : A) (ys : List A) → All P ys → head? ys ≡ some w → P w
All-head P w [] h e = cc
All-head P w (y ∷ ys) h e = subst P (some-injective _ _ e) h.0

pub All-keep {ℓ} : {A : Type ℓ} (p : A → Bool) (xs : List A) → All (λ x. p x ≡ true) (keep p xs)
All-keep p [] = tt
All-keep p (x ∷ xs) = elim (Bool-cases (p x)) [
  | inl t ↦ rw (t, keep) (t, All-keep p xs)
  | inr f ↦ rw (f, keep) (All-keep p xs)
]

pub keep-All {ℓ κ} :
    {A : Type ℓ} (P : A → Type κ) (p : A → Bool) (xs : List A) → All P xs → All P (keep p xs)
keep-All P p [] h = tt
keep-All P p (x ∷ xs) h = elim (Bool-cases (p x)) [
  | inl t ↦ rw (t, keep) (h.0, keep-All P p xs h.1)
  | inr f ↦ rw (f, keep) (keep-All P p xs h.1)
]

-- What holds of the elements that are kept.
pub kept-All {ℓ κ} :
    {A : Type ℓ} (P : A → Type κ) (p : A → Bool) (xs : List A)
    → All P (keep p xs)
    → All (λ x. p x ≡ true → P x) xs
kept-All P p [] h = tt
kept-All P p (x ∷ xs) h = elim (Bool-cases (p x)) [
  | inl t ↦
      let kept : keep p (x ∷ xs) ≡ x ∷ keep p xs = rw (t, keep) refl in
      let h' = subst (λ ys. All P ys) kept h in ((λ e. h'.0), kept-All P p xs h'.1)
  | inr f ↦
      let dropped : keep p (x ∷ xs) ≡ keep p xs = rw (f, keep) refl in
      ((λ e. absurd cc), kept-All P p xs (subst (λ ys. All P ys) dropped h))
]
