-- ===== src/Hardware.antt =====
-- src/inventory/service.py: what a booting machine reports of its hardware, and the time zone that a
-- new machine is given in its overlay.
use home_lab_pxe.Prelude.{
  ℕ, ◌==◌, Text, text_eq, strip, codes, take, is_space, Bool, ◌||◌, Option, none, some, List, [],
  ◌∷◌, ◌++◌, map, is_nil, if◌then◌else◌,
}
use mathlib.Core.List.{reverse}
use home_lab_pxe.Models.{Machine}
use home_lab_pxe.Lab.{Lab, Env}

-- `sub(" ", value)` of `_HW_UNSAFE`, without the merging of runs, which `split` makes no use of.
abbrev is_safe_hardware : Env → ℕ → Bool
is_safe_hardware env c =
    env.is_word c
    || c == b' '
    || c == b'.'
    || c == b','
    || c == b'_'
    || c == b'('
    || c == b')'
    || c == b'/'
    || c == b'+'
    || c == b'-'

-- `text.split()`: the words, with the word that is being read.
unfoldable pub split_words : Text → Text → List Text
unfolding is_space
split_words word [] = if is_nil word then [] else reverse word ∷ []
split_words word (c ∷ s) =
    let next = split_words [] s in
    let more = split_words (c ∷ word) s in
    if is_space c then (if is_nil word then next else reverse word ∷ next) else more

-- `" ".join(words)`
unfoldable pub join_words : List Text → Text
join_words [] = []
join_words (word ∷ []) = word
join_words (word ∷ next ∷ words) = word ++ b' ' ∷ join_words (next ∷ words)

unfoldable pub clean_hardware : Env → Option Text → Text
unfolding split_words join_words
clean_hardware env none = []
clean_hardware env (some value) =
    take 80
      (join_words (split_words [] (map (λ c. if is_safe_hardware env c then c else b' ') value)))

abbrev pub or_old : Text → Text → Text
or_old [] old = old
or_old (c ∷ s) old = c ∷ s

pub record Hardware : Type 0 where
  pub manufacturer : Text
  pub product : Text
  pub serial : Text

abbrev pub apply_hardware : Hardware → Machine → Machine
apply_hardware hw machine = record machine {
  manufacturer = or_old hw.manufacturer machine.manufacturer;
  product = or_old hw.product machine.product;
  serial = or_old hw.serial machine.serial;
}

abbrev pub overlay_fields : Option (List (Text × Text)) → List (Text × Text)
overlay_fields none = []
overlay_fields (some fields) = fields

unfoldable pub overlay_get : Text → List (Text × Text) → Text
overlay_get key [] = []
overlay_get key ((k, v) ∷ rest) = if text_eq k key then v else overlay_get key rest

unfoldable pub overlay_set : Text → Text → List (Text × Text) → List (Text × Text)
overlay_set key value [] = (key, value) ∷ []
overlay_set key value ((k, v) ∷ rest) =
    if text_eq k key then (key, value) ∷ rest else (k, v) ∷ overlay_set key value rest

unfoldable pub apply_lab_timezone : Lab → Machine → Machine
unfolding overlay_get overlay_set
apply_lab_timezone lab machine =
    let overlay = overlay_fields machine.guest_overlay in
    if is_nil (strip (overlay_get (codes "timezone") overlay))
    then record machine {
      guest_overlay = some (overlay_set (codes "timezone") lab.runtime.default_timezone overlay);
    }
    else machine
