-- ===== src/RateLimit/Counts.antt =====
-- How often a client may try to log in within one minute.
use home_lab_pxe.Prelude.{
  ℕ, ◌+◌, ◌≡◌, refl, Text, codes, text_eq, text_eq_self, text_eq_sound, false, Bool-cases, inl, inr,
  List, [], ◌∷◌, leb, count_is, arith, if◌then◌else◌, All,
}
use home_lab_pxe.RateLimit.{
  Bucket, Request, is_key, get_count, set_count, window_start, purge, counted, rate_limit_exceeded,
}

abbrev pub login : Text
login = codes "/login"

abbrev pub login_from : Text → Request
login_from host = record { path = codes "/login"; method = codes "POST"; host = host }

module _ (path host : Text) (window : ℕ) where
  get-purge :
      (buckets : List Bucket)
      → get_count path host window (purge window buckets) ≡ get_count path host window buckets
  unfolding get_count
  get-purge [] = refl
  get-purge (b ∷ buckets) = grind (arith, get-purge buckets)

  get-set :
      (count : ℕ) (buckets : List Bucket)
      → get_count path host window (set_count path host window count buckets) ≡ count
  unfolding get_count set_count
  get-set count [] = rw (text_eq_self host, text_eq_self path) (ground arith)
  get-set count (b ∷ buckets) = elim (Bool-cases (is_key path host window b)) [
    | inl e ↦ ground (arith, e)
    | inr e ↦ ground (arith, e, get-set count buckets)
  ]

  get_set_other :
      (other : Text) (count : ℕ) (buckets : List Bucket)
      → text_eq host other ≡ false
      → get_count path other window (set_count path host window count buckets)
        ≡ get_count path other window buckets
  unfolding get_count set_count
  get_set_other other count [] h = rw h (ground arith)
  get_set_other other count (b ∷ buckets) h = elim (Bool-cases (is_key path host window b)) [
    | inl e ↦
        let same : b.host ≡ host = text_eq_sound b.host host (ground (arith, e)) in
        let apart : text_eq b.host other ≡ false = rw same h in ground (arith, e, apart)
    | inr e ↦ ground (arith, e, get_set_other other count buckets h)
  ]

-- A login at an instant from a host.
abbrev pub Try : Type 0
Try = ℕ × Text

abbrev pub tries_of : Text → List Try → ℕ
tries_of host = count_is (λ t. text_eq t.1 host)

abbrev pub run : List Try → List Bucket → List Bucket
run [] buckets = buckets
run (t ∷ tries) buckets = run tries (rate_limit_exceeded false t.0 (login_from t.1) buckets).1

counted-count :
    (window : ℕ) (host other : Text) (buckets : List Bucket)
    → get_count login other window (counted login host window (purge window buckets)).1
      ≡ (if text_eq host other then 1 else 0) + get_count login other window buckets
counted-count window host other buckets = elim (Bool-cases (text_eq host other)) [
  | inl e ↦
      let same : host ≡ other = text_eq_sound host other e in
      let purged = purge window buckets in
      rw e (
        rw (← same) (
          omega (
            arith,
            get-set login host window (get_count login host window purged + 1) purged,
            get-purge login host window buckets,
          )))
  | inr e ↦
      let purged = purge window buckets in
      rw e (
        omega (
          arith,
          get_set_other login host window other (get_count login host window purged + 1) purged e,
          get-purge login other window buckets,
        ))
]

exceeded-counted :
    (now : ℕ) (host : Text) (buckets : List Bucket)
    → rate_limit_exceeded false now (login_from host) buckets
      ≡ counted login host (window_start now) (purge (window_start now) buckets)
unfolding rate_limit_exceeded text_eq
exceeded-counted now host buckets = refl

module _ (window : ℕ) where
  exceeded-count :
      (now : ℕ) (host other : Text) (buckets : List Bucket)
      → window_start now ≡ window
      → get_count login other window (rate_limit_exceeded false now (login_from host) buckets).1
        ≡ (if text_eq host other then 1 else 0) + get_count login other window buckets
  exceeded-count now host other buckets at =
      rw (← at, exceeded-counted now host buckets)
        (counted-count (window_start now) host other buckets)

  run-count :
      (host : Text) (tries : List Try) (buckets : List Bucket)
      → All (λ t. window_start t.0 ≡ window) tries
      → get_count login host window (run tries buckets)
        ≡ tries_of host tries + get_count login host window buckets
  run-count host [] buckets all = omega arith
  run-count host (t ∷ tries) buckets all = omega (
    arith,
    run-count host tries (rate_limit_exceeded false t.0 (login_from t.1) buckets).1 all.1,
    exceeded-count t.0 t.1 host buckets all.0,
  )

  -- Whatever logins were tried in one minute, from a table that has not counted the host in it: the next
  -- login of the host in that minute is refused exactly if this host has tried at least twenty times.
  pub rate_limit_exceeded-exact :
      (now : ℕ) (host : Text) (tries : List Try) (buckets : List Bucket)
      → All (λ t. window_start t.0 ≡ window) tries
      → window_start now ≡ window
      → get_count login host window buckets ≡ 0
      → (rate_limit_exceeded false now (login_from host) (run tries buckets)).0
        ≡ leb 20 (tries_of host tries)
  rate_limit_exceeded-exact now host tries buckets all at fresh =
      let before : get_count login host (window_start now) (run tries buckets)
          ≡ tries_of host tries =
        rw at (omega (arith, run-count host tries buckets all, fresh)) in
      rw
        (
          exceeded-counted now host (run tries buckets),
          get-purge login host (window_start now) (run tries buckets),
          before,
        )
        (ground arith)
