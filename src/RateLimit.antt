-- ===== src/RateLimit.antt =====
-- src/rate_limit.py: the limit on logins, for each client and minute.
pub mod Counts
use Prim.Native.Nat.{◌%◌}
use home_lab_pxe.Prelude.{
  ℕ, ◌+◌, ◌-◌, ◌==◌, leb, ltb, Text, codes, text_eq, Bool, true, false, not, ◌&&◌, ◌||◌, List, [],
  ◌∷◌, where_is, if◌then◌else◌,
}

-- One entry of _BUCKETS: the key and its count.
pub record Bucket : Type 0 where
  pub path : Text
  pub host : Text
  pub window : ℕ
  pub count : ℕ

-- The request, with the host of its client or "unknown".
pub record Request : Type 0 where
  pub path : Text
  pub method : Text
  pub host : Text

abbrev pub is_key : Text → Text → ℕ → Bucket → Bool
is_key path host window b = b.window == window && (text_eq b.host host && text_eq b.path path)

-- `_BUCKETS.get(key, 0)`
unfoldable pub get_count : Text → Text → ℕ → List Bucket → ℕ
get_count path host window [] = 0
get_count path host window (b ∷ buckets) =
    if is_key path host window b then b.count else get_count path host window buckets

-- `_BUCKETS[key] = count`
unfoldable pub set_count : Text → Text → ℕ → ℕ → List Bucket → List Bucket
set_count path host window count [] =
    record { path = path; host = host; window = window; count = count } ∷ []
set_count path host window count (b ∷ buckets) =
    let rest = set_count path host window count buckets in
    if is_key path host window b then record b { count = count } ∷ buckets else b ∷ rest

-- _LOGIN_WINDOW
abbrev pub window_start : ℕ → ℕ
window_start now = now - now % 60

abbrev pub purge : ℕ → List Bucket → List Bucket
purge window buckets = where_is (λ b. leb window b.window) buckets

abbrev pub is_login : Request → Bool
is_login request = text_eq request.path (codes "/login") && text_eq request.method (codes "POST")

-- _LOGIN_MAX
abbrev pub counted : Text → Text → ℕ → List Bucket → Bool × List Bucket
counted path host window buckets =
    let count = get_count path host window buckets + 1 in
    (ltb 20 count, set_count path host window count buckets)

-- `disabled` is the answer of PXE_DISABLE_RATE_LIMIT, `now` the clock in seconds.
unfoldable pub rate_limit_exceeded : Bool → ℕ → Request → List Bucket → Bool × List Bucket
unfolding get_count set_count
rate_limit_exceeded disabled now request buckets =
    if disabled
    then (false, buckets)
    else if is_login request
    then counted request.path request.host (window_start now) (purge (window_start now) buckets)
    else (false, buckets)
