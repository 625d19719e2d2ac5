-- ===== src/Prelude/Actions.antt =====
-- Code that changes a state and may raise. What was written before a `raise` stays written, so
-- the state comes back beside the error.
use Prim.Native.String.{String}
use mathlib.Core.Path.{◌≡◌, refl}

-- A value, the message of a `ValueError`, or an `OSError` that nothing catches.
pub data Outcome {ℓ} (A : Type ℓ) : Type ℓ where
  ok : A → Outcome A
  raised : String → Outcome A
  os_error : Outcome A

abbrev pub Action {ℓ} : Type ℓ → Type ℓ → Type ℓ
Action S A = S → Outcome A × S

module _ {ℓ} {S A : Type ℓ} where
  abbrev pub pure : A → Action S A
  pure a s = (ok a, s)

  abbrev pub raise : String → Action S A
  raise message s = (raised message, s)

module _ {S : Type 0} where
  -- A step that cannot fail.
  abbrev pub modify : (S → S) → Action S (Unit {0})
  modify f s = (ok tt, f s)

  -- A refusal that changes nothing.
  abbrev pub lift : {A : Type 0} → Outcome A → Action S A
  lift r s = (r, s)

module _ {ℓ} {S A B : Type ℓ} where
  abbrev pub continue : Outcome A → (A → Action S B) → Action S B
  continue (ok a) f s = f a s
  continue (raised message) f s = (raised message, s)
  continue os_error f s = (os_error, s)

  infixl 5 ◌>>=◌ ◌>>◌
  abbrev pub ◌>>=◌ : Action S A → (A → Action S B) → Action S B
  ◌>>=◌ m f s = let r = m s in continue r.0 f r.1

  abbrev pub ◌>>◌ : Action S A → Action S B → Action S B
  m >> k = m >>= λ _. k

-- To split on the result of a step and keep the equation.
pub data OutcomeCase {ℓ} {A : Type ℓ} (r : Outcome A) : Type ℓ where
  is_ok : (a : A) → r ≡ ok a → OutcomeCase r
  is_raised : (message : String) → r ≡ raised message → OutcomeCase r
  is_os_error : r ≡ os_error → OutcomeCase r

pub Outcome-cases {ℓ} : {A : Type ℓ} (r : Outcome A) → OutcomeCase r
Outcome-cases (ok a) = is_ok a refl
Outcome-cases (raised message) = is_raised message refl
Outcome-cases os_error = is_os_error refl

module _ {ℓ} {S A B : Type ℓ} where
  -- Inversion of a sequence that returns.
  pub bind-ok :
      (m : Action S A) (f : A → Action S B) (s : S) (b : B)
      → ((m >>= f) s).0 ≡ ok b
      → (a : A) × ((m s).0 ≡ ok a) × ((m >>= f) s ≡ f a (m s).1)
  bind-ok m f s b h = elim (Outcome-cases (m s).0) [
    | is_ok a e ↦ (a, e, rw e)
    | is_raised message e ↦ cc (rw e at h)
    | is_os_error e ↦ cc (rw e at h)
  ]
