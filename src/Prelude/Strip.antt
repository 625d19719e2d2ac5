-- ===== src/Prelude/Strip.antt =====
-- Blanks are stripped once: a second `strip` finds none.
use Prim.Native.Nat.{ℕ}
use mathlib.Core.Path.{◌≡◌, refl}
use mathlib.Core.Bool.{false}
use mathlib.Core.Logic.{inl, inr}
use mathlib.Core.List.{[], ◌∷◌, ◌++◌, reverse, reverse-cons, reverse-reverse}
use home_lab_pxe.Prelude.Tests.{Bool-cases}
use home_lab_pxe.Prelude.Strings.{Text, is_space, lstrip, strip}

-- The first character is no blank.
abbrev Opens : Text → Type 0
Opens [] = Unit
Opens (c ∷ s) = is_space c ≡ false

-- The last character is no blank.
abbrev Closes : Text → Type 0
Closes [] = Unit
Closes (c ∷ []) = is_space c ≡ false
Closes (c ∷ d ∷ s) = Closes (d ∷ s)

lstrip-Opens : (s : Text) → Opens (lstrip s)
unfolding lstrip
lstrip-Opens [] = tt
lstrip-Opens (c ∷ s) = elim (Bool-cases (is_space c)) [
  | inl e ↦ rw e (lstrip-Opens s)
  | inr e ↦ rw e e
]

lstrip-opened : (s : Text) → Opens s → lstrip s ≡ s
unfolding lstrip
lstrip-opened [] h = refl
lstrip-opened (c ∷ s) h = rw h

Closes-tail : (c : ℕ) (s : Text) → Closes (c ∷ s) → Closes s
Closes-tail c [] h = tt
Closes-tail c (d ∷ s) h = h

lstrip-Closes : (s : Text) → Closes s → Closes (lstrip s)
unfolding lstrip
lstrip-Closes [] h = tt
lstrip-Closes (c ∷ s) h = elim (Bool-cases (is_space c)) [
  | inl e ↦ rw e (lstrip-Closes s (Closes-tail c s h))
  | inr e ↦ rw e h
]

Closes-append : (s : Text) (c : ℕ) → is_space c ≡ false → Closes (s ++ c ∷ [])
Closes-append [] c h = h
Closes-append (d ∷ []) c h = h
Closes-append (d ∷ e ∷ s) c h = Closes-append (e ∷ s) c h

Opens-append : (s t : Text) (c : ℕ) → Opens (s ++ c ∷ []) → Opens ((s ++ c ∷ []) ++ t)
Opens-append [] t c h = h
Opens-append (d ∷ s) t c h = h

reverse-Closes : (s : Text) → Opens s → Closes (reverse s)
reverse-Closes [] h = tt
reverse-Closes (c ∷ s) h = rw (reverse-cons c s) (Closes-append (reverse s) c h)

reverse-Opens : (s : Text) → Closes s → Opens (reverse s)
reverse-Opens [] h = tt
reverse-Opens (c ∷ []) h = h
reverse-Opens (c ∷ d ∷ s) h =
    rw (reverse-cons c (d ∷ s), reverse-cons d s)
      (Opens-append (reverse s) (c ∷ []) d (rw (← reverse-cons d s) (reverse-Opens (d ∷ s) h)))

pub strip-strip : (s : Text) → strip (strip s) ≡ strip s
unfolding strip
strip-strip s =
    let t = lstrip (reverse (lstrip s)) in
    let closed : Closes t =
      lstrip-Closes (reverse (lstrip s)) (reverse-Closes (lstrip s) (lstrip-Opens s)) in
    rw
      (
        lstrip-opened (reverse t) (reverse-Opens t closed),
        reverse-reverse t,
        lstrip-opened t (lstrip-Opens (reverse (lstrip s))),
      )
      refl
