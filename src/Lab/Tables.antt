-- ===== src/Lab/Tables.antt =====
-- Laws of the rows of a table, by key.
use home_lab_pxe.Prelude.{
  ℕ, ◌<◌, ◌≡◌, refl, Bool, true, false, ◌==◌, Option, none, some, List, [], ◌∷◌, ◌++◌, where_is,
  if◌then◌else◌, arith, inl, inr, Bool-cases, Option-cases, ◌≢◌, count_is, first_where, ◌+◌,
}
use home_lab_pxe.Lab.{row, put_row, drop_row, next_key}

module _ {A : Type 0} (key : A → ℕ) where
  -- The value of the row that `put_row a` writes, where there is such a row.
  abbrev pub present : A → Option A → Option A
  present a none = none
  present a (some r) = some a

  pub row-put_row :
      (k : ℕ) (a : A) (rs : List A)
      → row key k (put_row key a rs)
        ≡ (if key a == k then present a (row key k rs) else row key k rs)
  unfolding row put_row
  row-put_row k a [] = ground arith
  row-put_row k a (r ∷ rs) = ground (arith, row-put_row k a rs)

  pub row-drop_row : (k : ℕ) (rs : List A) → row key k (drop_row key k rs) ≡ none
  unfolding row drop_row
  row-drop_row k [] = refl
  row-drop_row k (r ∷ rs) = ground (arith, row-drop_row k rs)

  pub row-drop_row_ne :
      (j k : ℕ) (rs : List A) → j ≢ k → row key j (drop_row key k rs) ≡ row key j rs
  unfolding row drop_row
  row-drop_row_ne j k [] h = refl
  row-drop_row_ne j k (r ∷ rs) h = ground (arith, row-drop_row_ne j k rs h)

  pub key-row : (k : ℕ) (rs : List A) (a : A) → row key k rs ≡ some a → key a ≡ k
  unfolding row
  key-row k [] a h = cc
  key-row k (r ∷ rs) a h = ground (arith, key-row k rs a)

  -- A new key is above every key of the table.
  pub row-lt-next_key : (k : ℕ) (rs : List A) (a : A) → row key k rs ≡ some a → k < next_key key rs
  unfolding row next_key
  row-lt-next_key k [] a h = cc
  row-lt-next_key k (r ∷ rs) a h = ground (arith, row-lt-next_key k rs a)

  pub next_key_pos : (rs : List A) → 0 < next_key key rs
  unfolding next_key
  next_key_pos [] = omega arith
  next_key_pos (r ∷ rs) = omega (arith, next_key_pos rs)

  -- No two rows have one key.
  abbrev pub Distinct : List A → Type 0
  Distinct [] = Unit
  Distinct (r ∷ rs) = (row key (key r) rs ≡ none) × Distinct rs

  abbrev pub keep_if : (A → Bool) → Option A → Option A
  keep_if p none = none
  keep_if p (some a) = if p a then some a else none

  row-where_is-none :
      (p : A → Bool) (k : ℕ) (rs : List A) → row key k rs ≡ none → row key k (where_is p rs) ≡ none
  unfolding row
  row-where_is-none p k [] h = refl
  row-where_is-none p k (r ∷ rs) h = ground (arith, row-where_is-none p k rs)

  -- The answer of a query, by key.
  pub row-where_is :
      (p : A → Bool) (k : ℕ) (rs : List A)
      → Distinct rs
      → row key k (where_is p rs) ≡ keep_if p (row key k rs)
  unfolding row
  row-where_is p k [] d = refl
  row-where_is p k (r ∷ rs) d =
      ground (arith, row-where_is p k rs d.1, row-where_is-none p (key r) rs d.0)

  pub where_is-Distinct : (p : A → Bool) (rs : List A) → Distinct rs → Distinct (where_is p rs)
  where_is-Distinct p [] d = tt
  where_is-Distinct p (r ∷ rs) d = elim (Bool-cases (p r)) [
    | inl e ↦ rw e (row-where_is-none p (key r) rs d.0, where_is-Distinct p rs d.1)
    | inr e ↦ rw e (where_is-Distinct p rs d.1)
  ]

  pub put_row-Distinct : (a : A) (rs : List A) → Distinct rs → Distinct (put_row key a rs)
  unfolding put_row row
  put_row-Distinct a [] d = tt
  put_row-Distinct a (r ∷ rs) d = elim (Bool-cases (key r == key a)) [
    | inl e ↦ rw e (ground (arith, d.0, row-put_row (key a) a rs), put_row-Distinct a rs d.1)
    | inr e ↦ rw e (ground (arith, d.0, row-put_row (key r) a rs), put_row-Distinct a rs d.1)
  ]

  put_row-absent : (a : A) (rs : List A) → row key (key a) rs ≡ none → put_row key a rs ≡ rs
  unfolding row put_row
  put_row-absent a [] h = refl
  put_row-absent a (r ∷ rs) h = ground (arith, put_row-absent a rs)

  row_same : (j k : ℕ) (rs : List A) → j ≡ k → row key j rs ≡ row key k rs
  row_same j k rs e = rw e

  -- How a changed row changes the number of rows that pass a test.
  pub count-put_row :
      (p : A → Bool) (a old : A) (rs : List A)
      → Distinct rs
      → row key (key a) rs ≡ some old
      → count_is p (put_row key a rs) + (if p old then 1 else 0)
        ≡ count_is p rs + (if p a then 1 else 0)
  unfolding row put_row
  count-put_row p a old [] d h = cc
  count-put_row p a old (r ∷ rs) d h =
      ground
        (arith, count-put_row p a old rs d.1, put_row-absent a rs, row_same (key r) (key a) rs, d.0)

  -- The first answer of a query is the row with its key.
  pub row-first_where :
      (p : A → Bool) (a : A) (rs : List A)
      → Distinct rs
      → first_where p rs ≡ some a
      → row key (key a) rs ≡ some a
  unfolding row
  row-first_where p a [] d h = cc
  row-first_where p a (r ∷ rs) d h =
      ground (arith, row-first_where p a rs d.1, row_same (key r) (key a) rs, d.0)

  pub row-append :
      (k : ℕ) (a : A) (rs : List A)
      → row key k rs ≡ none
      → (key a == k) ≡ false
      → row key k (rs ++ a ∷ []) ≡ none
  unfolding row
  row-append k a [] h ne = ground arith
  row-append k a (r ∷ rs) h ne = ground (arith, row-append k a rs)

  pub append-Distinct :
      (a : A) (rs : List A) → row key (key a) rs ≡ none → Distinct rs → Distinct (rs ++ a ∷ [])
  unfolding row
  append-Distinct a [] h d = (refl, tt)
  append-Distinct a (r ∷ rs) h d =
      (ground (arith, row-append (key r) a rs, d.0), append-Distinct a rs (ground arith) d.1)

  pub row-next_key : (rs : List A) → row key (next_key key rs) rs ≡ none
  row-next_key rs = elim (Option-cases (row key (next_key key rs) rs)) [
    | inl e ↦ e
    | inr (a, e) ↦ absurd (omega (arith, row-lt-next_key (next_key key rs) rs a e))
  ]

pub count-first_where {ℓ} :
    {A : Type ℓ} (p : A → Bool) (rs : List A) → first_where p rs ≡ none → count_is p rs ≡ 0
count-first_where p [] h = refl
count-first_where p (r ∷ rs) h = ground (arith, count-first_where p rs)

pub first_where-holds {ℓ} :
    {A : Type ℓ} (p : A → Bool) (rs : List A) (a : A) → first_where p rs ≡ some a → p a ≡ true
first_where-holds p [] a h = cc
first_where-holds p (r ∷ rs) a h = elim (Bool-cases (p r)) [
  | inl e ↦ let same : r ≡ a = cc (rw e at h) in rw (← same) e
  | inr e ↦ first_where-holds p rs a (rw e at h)
]
