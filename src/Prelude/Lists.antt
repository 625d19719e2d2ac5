-- ===== src/Prelude/Lists.antt =====
-- Lists measured by native numbers, and the loops over them that the program writes: a query with
-- a Boolean test, an update of the rows that pass one, and predicates by recursion.
use Prim.Native.Nat.{ℕ, zero, suc, ◌+◌}
use mathlib.Core.Path.{◌≡◌, refl, ap, sym, ◌∙◌}
use mathlib.Core.Bool.{Bool, true, false, ◌||◌}
use mathlib.Core.List.{List, [], ◌∷◌, ◌++◌, map}
use mathlib.Core.Option.{Option, none, some}
use native.Mathlib.Omega.{arith}
use home_lab_pxe.Prelude.Tests.{if◌then◌else◌, Bool-cases}
use mathlib.Core.Logic.{inl, inr, ◌⊎◌}

module _ {ℓ} {A : Type ℓ} where
  abbrev pub length : List A → ℕ
  length [] = 0
  length (x ∷ xs) = suc (length xs)

  abbrev pub take : ℕ → List A → List A
  take zero xs = []
  take (suc n) [] = []
  take (suc n) (x ∷ xs) = x ∷ take n xs

  abbrev pub drop : ℕ → List A → List A
  drop zero xs = xs
  drop (suc n) [] = []
  drop (suc n) (x ∷ xs) = drop n xs

  -- `[x for x in xs if p(x)]`, and a query with a WHERE clause.
  abbrev pub where_is : (A → Bool) → List A → List A
  where_is p [] = []
  where_is p (x ∷ xs) = if p x then x ∷ where_is p xs else where_is p xs

  -- `next((x for x in xs if p(x)), None)`, and `.first()` of a query.
  abbrev pub first_where : (A → Bool) → List A → Option A
  first_where p [] = none
  first_where p (x ∷ xs) = if p x then some x else first_where p xs

  -- `any(p(x) for x in xs)`
  abbrev pub any_is : (A → Bool) → List A → Bool
  any_is p [] = false
  any_is p (x ∷ xs) = p x || any_is p xs

  -- How many items pass a test.
  abbrev pub count_is : (A → Bool) → List A → ℕ
  count_is p [] = 0
  count_is p (x ∷ xs) = (if p x then 1 else 0) + count_is p xs

  abbrev pub is_nil : List A → Bool
  is_nil [] = true
  is_nil (x ∷ xs) = false

module _ {ℓ κ} {A : Type ℓ} where
  -- Every item has the property.
  abbrev pub All : (A → Type κ) → List A → Type κ
  All P [] = Unit
  All P (x ∷ xs) = P x × All P xs

  pub All-append : (P : A → Type κ) (xs ys : List A) → All P xs → All P ys → All P (xs ++ ys)
  All-append P [] ys h k = k
  All-append P (x ∷ xs) ys h k = (h.0, All-append P xs ys h.1 k)

  -- Rows that fail the test of a query are kept by no answer.
  pub All-where_is :
      (P : A → Type κ) (p : A → Bool) (xs : List A) → All P xs → All P (where_is p xs)
  All-where_is P p [] h = tt
  All-where_is P p (x ∷ xs) h = elim (Bool-cases (p x)) [
    | inl e ↦ rw e (h.0, All-where_is P p xs h.1)
    | inr e ↦ rw e (All-where_is P p xs h.1)
  ]

module _ {ℓ} {A : Type ℓ} where
  pub length-append : (xs ys : List A) → length (xs ++ ys) ≡ length xs + length ys
  length-append [] ys = omega arith
  length-append (x ∷ xs) ys = omega (arith, length-append xs ys)

  pub count_is-append :
      (p : A → Bool) (xs ys : List A) → count_is p (xs ++ ys) ≡ count_is p xs + count_is p ys
  count_is-append p [] ys = omega arith
  count_is-append p (x ∷ xs) ys = omega (arith, count_is-append p xs ys)

  pub first_where-append :
      (p : A → Bool) (xs ys : List A)
      → first_where p xs ≡ none
      → first_where p (xs ++ ys) ≡ first_where p ys
  first_where-append p [] ys h = refl
  first_where-append p (x ∷ xs) ys h = ground (arith, first_where-append p xs ys)

module _ {ℓ κ} {A : Type ℓ} {B : Type κ} where
  abbrev pub map_option : (A → B) → Option A → Option B
  map_option f none = none
  map_option f (some a) = some (f a)

module _ {A : Type 0} where
  -- Membership, with the place kept.
  abbrev pub In : A → List A → Type 0
  In a [] = ⊥
  In a (x ∷ xs) = (a ≡ x) ⊎ In a xs

  pub In-where_is :
      (p : A → Bool) (a : A) (xs : List A) → In a xs → p a ≡ true → In a (where_is p xs)
  In-where_is p a [] m h = m
  In-where_is p a (x ∷ xs) (inl e) h = rw (ap p (sym e) ∙ h) (inl e)
  In-where_is p a (x ∷ xs) (inr m) h = elim (Bool-cases (p x)) [
    | inl e ↦ rw e (inr (In-where_is p a xs m h))
    | inr e ↦ rw e (In-where_is p a xs m h)
  ]

  pub where_is-In :
      (p : A → Bool) (a : A) (xs : List A) → In a (where_is p xs) → In a xs × (p a ≡ true)
  where_is-In p a [] m = elim m [ ]
  where_is-In p a (x ∷ xs) m = elim (Bool-cases (p x)) [
    | inl e ↦ elim (rw e at m) [
      | inl same ↦ (inl same, ap p same ∙ e)
      | inr later ↦ let (there, h) = where_is-In p a xs later in (inr there, h)
    ]
    | inr e ↦ let (there, h) = where_is-In p a xs (rw e at m) in (inr there, h)
  ]

  pub any_is-In : (p : A → Bool) (a : A) (xs : List A) → In a xs → p a ≡ true → any_is p xs ≡ true
  any_is-In p a [] m h = elim m [ ]
  any_is-In p a (x ∷ xs) (inl e) h = rw (ap p (sym e) ∙ h) refl
  any_is-In p a (x ∷ xs) (inr m) h = ground (arith, any_is-In p a xs m h)

  pub any_is-found :
      (p : A → Bool) (xs : List A) → any_is p xs ≡ true → (a : A) × In a xs × (p a ≡ true)
  any_is-found p [] h = cc
  any_is-found p (x ∷ xs) h = elim (Bool-cases (p x)) [
    | inl e ↦ (x, inl refl, e)
    | inr e ↦ let (a, there, q) = any_is-found p xs (rw e at h) in (a, inr there, q)
  ]

module _ {A B : Type 0} where
  pub map-In : (f : A → B) (a : A) (xs : List A) → In a xs → In (f a) (map f xs)
  map-In f a [] m = elim m [ ]
  map-In f a (x ∷ xs) (inl e) = inl (ap f e)
  map-In f a (x ∷ xs) (inr m) = inr (map-In f a xs m)

  pub In-map : (f : A → B) (b : B) (xs : List A) → In b (map f xs) → (a : A) × In a xs × (b ≡ f a)
  In-map f b [] m = elim m [ ]
  In-map f b (x ∷ xs) (inl e) = (x, inl refl, e)
  In-map f b (x ∷ xs) (inr m) = let (a, there, e) = In-map f b xs m in (a, inr there, e)
