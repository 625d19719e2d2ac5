-- ===== src/Scripts/Labels.antt =====
-- What a name can put into a script: what the label of a folder or an image cannot hold.
use home_lab_pxe.Prelude.{
  ℕ, suc, zero, ◌≤◌, ◌≡◌, refl, sym, ap, ◌∙◌, ◌==◌, Text, strip, lstrip, is_space, Bool, false,
  ◌&&◌, ◌||◌, Bool-cases, inl, inr, [], ◌∷◌, ◌++◌, take, length, any_is, is_nil, arith,
}
use mathlib.Core.List.{reverse, reverse-reverse, reverse-append}
use home_lab_pxe.Scripts.Menu.{is_unsafe, blanked, spread, or_item, label}

-- Whether a text has `${`, with whether a dollar sign stands in front.
abbrev pub opens : Bool → Text → Bool
opens dollar [] = false
opens dollar (c ∷ s) = (dollar && c == b'{') || opens (c == b'$') s

pub record IsLabel (text : Text) : Type 0 where
  pub safe : any_is is_unsafe text ≡ false
  pub closed : opens false text ≡ false
  pub short : length text ≤ 80
  pub shown : is_nil text ≡ false

blanked-safe : (s : Text) → any_is is_unsafe (blanked s) ≡ false
blanked-safe [] = refl
blanked-safe (c ∷ s) = elim (Bool-cases (is_unsafe c)) [
  | inl e ↦ rw e (blanked-safe s)
  | inr e ↦ rw (e, e) (blanked-safe s)
]

spread-safe :
    (dollar : Bool) (s : Text)
    → any_is is_unsafe s ≡ false
    → any_is is_unsafe (spread dollar s) ≡ false
unfolding spread
spread-safe dollar [] h = refl
spread-safe dollar (c ∷ s) h = ground (arith, h, spread-safe (c == b'$') s)

spread-closed : (dollar : Bool) (s : Text) → opens dollar (spread dollar s) ≡ false
unfolding spread
spread-closed dollar [] = refl
spread-closed dollar (c ∷ s) = ground (arith, spread-closed (c == b'$') s)

-- What holds of a text holds of each stretch of it.
safe-append :
    (s t : Text)
    → any_is is_unsafe (s ++ t) ≡ false
    → (any_is is_unsafe s ≡ false) × (any_is is_unsafe t ≡ false)
safe-append [] t h = (refl, h)
safe-append (c ∷ s) t h = (ground (arith, h, safe-append s t), ground (arith, h, safe-append s t))

opens-false : (dollar : Bool) (s : Text) → opens dollar s ≡ false → opens false s ≡ false
opens-false dollar [] h = refl
opens-false dollar (c ∷ s) h = ground (arith, h)

opens-append :
    (dollar : Bool) (s t : Text)
    → opens dollar (s ++ t) ≡ false
    → (opens dollar s ≡ false) × (opens false t ≡ false)
opens-append dollar [] t h = (refl, opens-false dollar t h)
opens-append dollar (c ∷ s) t h = (
  ground (arith, h, opens-append (c == b'$') s t),
  ground (arith, h, opens-append (c == b'$') s t),
)

lstrip-part : (s : Text) → (front : Text) × (s ≡ front ++ lstrip s)
unfolding lstrip
lstrip-part [] = ([], refl)
lstrip-part (c ∷ s) = elim (Bool-cases (is_space c)) [
  | inl e ↦ let part = lstrip-part s in (c ∷ part.0, rw e (ap (λ t. c ∷ t) part.1))
  | inr e ↦ ([], rw e refl)
]

strip-part : (s : Text) → (front back : Text) × (s ≡ front ++ (strip s ++ back))
unfolding strip
strip-part s =
    let part = lstrip-part s in
    let rest = lstrip-part (reverse (lstrip s)) in
    (
      part.0,
      reverse rest.0,
      part.1
          ∙ ap (λ t. part.0 ++ t)
              (sym (reverse-reverse (lstrip s))
                ∙ ap reverse rest.1
                ∙ reverse-append rest.0 (lstrip (reverse (lstrip s)))),
    )

take-part : (n : ℕ) (s : Text) → (back : Text) × (s ≡ take n s ++ back)
take-part zero s = (s, refl)
take-part (suc n) [] = ([], refl)
take-part (suc n) (c ∷ s) = let part = take-part n s in (part.0, ap (λ t. c ∷ t) part.1)

length-take-le : (n : ℕ) (s : Text) → length (take n s) ≤ n
length-take-le zero s = omega arith
length-take-le (suc n) [] = omega arith
length-take-le (suc n) (c ∷ s) = omega (arith, length-take-le n s)

-- A label that is not cut, without the empty one.
spread-text :
    (value : Text)
    → (any_is is_unsafe (spread false (blanked value)) ≡ false)
      × (opens false (spread false (blanked value)) ≡ false)
spread-text value =
    (spread-safe false (blanked value) (blanked-safe value), spread-closed false (blanked value))

-- Cutting blanks off keeps a text free of what is unsafe.
strip-kept :
    (s : Text)
    → (any_is is_unsafe s ≡ false) × (opens false s ≡ false)
    → (any_is is_unsafe (strip s) ≡ false) × (opens false (strip s) ≡ false)
strip-kept s (safe, closed) =
    let part = strip-part s in
    let safe2 : any_is is_unsafe (part.0 ++ (strip s ++ part.1)) ≡ false = rw (← part.2) safe in
    let closed2 : opens false (part.0 ++ (strip s ++ part.1)) ≡ false = rw (← part.2) closed in
    (
      (safe-append (strip s) part.1 (safe-append part.0 (strip s ++ part.1) safe2).1).0,
      (opens-append false (strip s) part.1
          (opens-append false part.0 (strip s ++ part.1) closed2).1).0,
    )

take-kept :
    (n : ℕ) (s : Text)
    → (any_is is_unsafe s ≡ false) × (opens false s ≡ false)
    → (any_is is_unsafe (take n s) ≡ false) × (opens false (take n s) ≡ false)
take-kept n s (safe, closed) =
    let part = take-part n s in
    let safe2 : any_is is_unsafe (take n s ++ part.0) ≡ false = rw (← part.1) safe in
    let closed2 : opens false (take n s ++ part.0) ≡ false = rw (← part.1) closed in
    ((safe-append (take n s) part.0 safe2).0, (opens-append false (take n s) part.0 closed2).0)

or_item-IsLabel :
    (s : Text)
    → (any_is is_unsafe s ≡ false) × (opens false s ≡ false)
    → IsLabel (take 80 (or_item s))
or_item-IsLabel [] h = record { safe = refl; closed = refl; short = omega arith; shown = refl }
or_item-IsLabel (c ∷ s) h =
    let kept = take-kept 80 (c ∷ s) h in
    record { safe = kept.0; closed = kept.1; short = length-take-le 80 (c ∷ s); shown = refl }

-- A label has no character below the space, no `|`, no backslash and no `${`, is not empty and has at
-- most 80 characters, whatever name it is made from.
pub label-IsLabel : (value : Text) → IsLabel (label value)
unfolding label
label-IsLabel value =
    or_item-IsLabel (strip (spread false (blanked value)))
      (strip-kept (spread false (blanked value)) (spread-text value))
