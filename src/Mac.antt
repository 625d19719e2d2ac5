-- ===== src/Mac.antt =====
-- src/inventory/mac.py: the normal forms of a MAC address and of an SMBIOS UUID.
use home_lab_pxe.Prelude.{
  ℕ, ◌+◌, ◌==◌, leb, Text, text_eq, strip, codes, length, Bool, ◌&&◌, ◌||◌, Option, none, some,
  List, [], ◌∷◌, map, where_is, is_nil, any_is, if◌then◌else◌, Outcome, ok, raised, os_error,
}
use mathlib.Core.List.{reverse}
use home_lab_pxe.Lab.{Env}

abbrev pub is_digit : ℕ → Bool
is_digit c = leb b'0' c && leb c b'9'

abbrev pub is_upper_hex : ℕ → Bool
is_upper_hex c = leb b'A' c && leb c b'F'

abbrev pub is_lower_hex : ℕ → Bool
is_lower_hex c = leb b'a' c && leb c b'f'

-- `[0-9a-fA-F]`
unfoldable pub is_hex : ℕ → Bool
is_hex c = is_digit c || is_upper_hex c || is_lower_hex c

-- `str.lower` of a hexadecimal digit.
unfoldable pub lower_hex : ℕ → ℕ
lower_hex c = if is_upper_hex c then c + 32 else c

-- The slices `hex_only[i : i + 2]`, joined by `separator`.
unfoldable pub join_pairs : ℕ → Text → Text
join_pairs separator [] = []
join_pairs separator (a ∷ []) = a ∷ []
join_pairs separator (a ∷ b ∷ []) = a ∷ b ∷ []
join_pairs separator (a ∷ b ∷ c ∷ s) = a ∷ b ∷ separator ∷ join_pairs separator (c ∷ s)

-- `InvalidMacError` is a `ValueError`.
unfoldable pub normalize_mac : Text → Outcome Text
unfolding is_hex lower_hex join_pairs
normalize_mac value =
    let hex_only = where_is is_hex value in
    if length hex_only == 12
    then ok (join_pairs b':' (map lower_hex hex_only))
    else raised "MAC address must contain 12 hex digits"

-- `value.replace(":", "-")`
abbrev pub replace_char : ℕ → ℕ → Text → Text
replace_char old new = map (λ c. if c == old then new else c)

abbrev hyphenate : Outcome Text → Outcome Text
hyphenate (ok mac) = ok (replace_char b':' b'-' mac)
hyphenate (raised message) = raised message
hyphenate os_error = os_error

unfoldable pub mac_hyphen : Text → Outcome Text
unfolding normalize_mac
mac_hyphen value = hyphenate (normalize_mac value)

-- `text.strip("{}")`
unfoldable pub lstrip_braces : Text → Text
lstrip_braces [] = []
lstrip_braces (c ∷ s) = if c == b'{' || c == b'}' then lstrip_braces s else c ∷ s

unfoldable pub strip_braces : Text → Text
unfolding lstrip_braces
strip_braces s = reverse (lstrip_braces (reverse (lstrip_braces s)))

abbrev placeholders : List Text
placeholders = codes "notavailable" ∷ codes "null" ∷ codes "none" ∷ []

abbrev known_uuid : Text → Option Text
known_uuid text = if is_nil text || any_is (text_eq text) placeholders then none else some text

unfoldable pub normalize_uuid : Env → Option Text → Option Text
unfolding strip strip_braces
normalize_uuid env none = none
normalize_uuid env (some value) = known_uuid (env.lower (strip_braces (strip value)))
