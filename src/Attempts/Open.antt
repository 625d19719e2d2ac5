-- ===== src/Attempts/Open.antt =====
-- The open attempts of a machine: how many there are after attempts were closed, and which one the
-- machine is served from.
use home_lab_pxe.Prelude.{
  ℕ, ◌≤◌, ◌<◌, ◌≡◌, refl, ◌==◌, true, none, some, List, [], ◌∷◌, ◌++◌, map, first_where, count_is,
  if◌then◌else◌, count_is-append, first_where-append, arith, ◌&&◌,
}
use home_lab_pxe.Models.{Machine, InstallAttempt}
use home_lab_pxe.Lab.{Lab}
use home_lab_pxe.Attempts.{is_open, is_current, get_open_attempt, close_attempt}

-- How many attempts of a machine are open.
abbrev pub open_count : ℕ → List InstallAttempt → ℕ
open_count k attempts = count_is (λ a. a.machine_id == k && is_open a) attempts

-- No machine has two open attempts.
pub record IsSingle (attempts : List InstallAttempt) : Type 0 where
  pub at_most_one : (k : ℕ) → open_count k attempts ≤ 1

pub open_count-close :
    (now j k : ℕ) (attempts : List InstallAttempt)
    → open_count k (map (close_attempt now j) attempts)
      ≡ (if j == k then 0 else open_count k attempts)
open_count-close now j k [] = ground arith
open_count-close now j k (a ∷ attempts) = ground (arith, open_count-close now j k attempts)

-- An attempt for a machine that has no open one.
pub add-IsSingle :
    (a : InstallAttempt) (attempts : List InstallAttempt)
    → open_count a.machine_id attempts ≡ 0
    → IsSingle attempts
    → IsSingle (attempts ++ a ∷ [])
add-IsSingle a attempts none_open single = record {
  at_most_one = λ k. ground (
    arith,
    single.at_most_one k,
    count_is-append (λ b. b.machine_id == k && is_open b) attempts (a ∷ []),
  );
}

pub close-IsSingle :
    (now j : ℕ) (attempts : List InstallAttempt)
    → IsSingle attempts
    → IsSingle (map (close_attempt now j) attempts)
close-IsSingle now j attempts single = record {
  at_most_one = λ k. ground (arith, single.at_most_one k, open_count-close now j k attempts);
}

pub no_current_of_closed :
    (machine : Machine) (attempts : List InstallAttempt)
    → open_count machine.id attempts ≡ 0
    → first_where (is_current machine) attempts ≡ none
no_current_of_closed machine [] h = refl
no_current_of_closed machine (a ∷ attempts) h =
    ground (arith, no_current_of_closed machine attempts)

-- After the open attempts were closed, an attempt that is added for the machine is the one found.
pub get_open_attempt-added :
    (machine : Machine) (a : InstallAttempt) (attempts : List InstallAttempt) (lab : Lab)
    → lab.attempts ≡ attempts ++ a ∷ []
    → 0 < machine.id
    → open_count machine.id attempts ≡ 0
    → is_current machine a ≡ true
    → get_open_attempt lab machine ≡ some a
unfolding get_open_attempt
get_open_attempt-added machine a attempts lab e h closed current = rw e (
    ground (
      arith,
      first_where-append (is_current machine) attempts (a ∷ []),
      no_current_of_closed machine attempts,
    ))

-- The answer depends on the table of attempts alone.
pub get_open_attempt-same :
    (machine : Machine) (lab other : Lab)
    → lab.attempts ≡ other.attempts
    → get_open_attempt lab machine ≡ get_open_attempt other machine
unfolding get_open_attempt
get_open_attempt-same machine lab other e = rw e
