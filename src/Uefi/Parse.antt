-- ===== src/Uefi/Parse.antt =====
-- src/boot/uefi_order.py: the listing that `efibootmgr -v` prints, and the plan that is read from it.
use home_lab_pxe.Prelude.{
  ℕ, ◌==◌, Text, text_eq, codes, strip, lstrip, is_space, starts_with, drop, Bool, not, ◌&&◌,
  Option, none, some, List, [], ◌∷◌, ◌++◌, map, where_is, is_nil, any_is, if◌then◌else◌,
}
use mathlib.Core.List.{reverse}
use home_lab_pxe.Mac.{is_hex}
use home_lab_pxe.InstallLog.{splitlines}
use home_lab_pxe.Uefi.Reorder.{BootEntry, upper, reorder}

-- DEVICE_PATH_TOKENS, each with the parenthesis behind it.
abbrev pub device_path_tokens : List Text
device_path_tokens =
    codes "HD("
    ∷ codes "PciRoot("
    ∷ codes "MAC("
    ∷ codes "Uri("
    ∷ codes "VenHw("
    ∷ codes "FvVol("
    ∷ codes "BBS("
    ∷ codes "Fv("
    ∷ codes "VenMsg("
    ∷ codes "Acpi("
    ∷ codes "USB("
    ∷ codes "Sata("
    ∷ []

abbrev starts_token : Text → Bool
starts_token s = any_is (starts_with s) device_path_tokens

-- Where the text goes on behind `\s{2,}` with a device path: its blanks, then a token.
unfoldable pub path_behind : Text → Option Text
unfolding lstrip starts_with
path_behind (a ∷ b ∷ s) =
    if is_space a && is_space b && starts_token (lstrip s) then some (lstrip s) else none
path_behind _ = none

-- The description in front of the device path, and the path; `seen` is read already, in reverse.
unfoldable pub split_path : Text → Text → Text × Text
unfolding path_behind strip
split_path seen [] = (strip (reverse seen), [])
split_path seen (c ∷ s) =
    let rest = split_path (c ∷ seen) s in
    elim (path_behind (c ∷ s)) [ some path ↦ (strip (reverse seen), strip path) | none ↦ rest ]

-- `rest.split("\t", 1)`
unfoldable pub split_tab : Text → Option (Text × Text)
split_tab [] = none
split_tab (c ∷ s) =
    let rest = split_tab s in
    if c == 9 then some ([], s) else elim rest [ none ↦ none | some (a, b) ↦ some (c ∷ a, b) ]

unfoldable pub split_boot_entry : Text → Text × Text
unfolding split_tab split_path
split_boot_entry rest = elim (split_tab rest) [
  | some (desc, path) ↦ (strip desc, strip path)
  | none ↦ split_path [] rest
]

-- `[0-9A-Fa-f]{4}` at the head, and the rest.
unfoldable pub take_id : Text → Option (Text × Text)
unfolding is_hex
take_id (a ∷ b ∷ c ∷ d ∷ s) =
    if is_hex a && is_hex b && is_hex c && is_hex d
    then some (upper (a ∷ b ∷ c ∷ d ∷ []), s)
    else none
take_id _ = none

abbrev only_blanks : Option (Text × Text) → Option Text
only_blanks none = none
only_blanks (some (boot_id, rest)) = if is_nil (lstrip rest) then some boot_id else none

-- `^BootCurrent:\s*([0-9A-Fa-f]{4})\s*$`
unfoldable pub parse_current : Text → Option Text
unfolding take_id lstrip starts_with
parse_current line =
    if starts_with line (codes "BootCurrent:")
    then only_blanks (take_id (lstrip (drop 12 line)))
    else none

-- `text.split(",")`
unfoldable pub split_commas : Text → List Text
split_commas [] = [] ∷ []
split_commas (c ∷ s) =
    let rest = split_commas s in
    if c == b','
    then [] ∷ rest
    else elim rest [ [] ↦ (c ∷ []) ∷ [] | part ∷ parts ↦ (c ∷ part) ∷ parts ]

-- `^BootOrder:\s*(.*)$`, and the parts that are not blank.
unfoldable pub parse_order : Text → Option (List Text)
unfolding split_commas strip upper starts_with
parse_order line =
    if starts_with line (codes "BootOrder:")
    then some (
        where_is (λ part. not (is_nil part))
          (map (λ part. upper (strip part)) (split_commas (lstrip (drop 10 line)))))
    else none

abbrev entry_of : Text → Text → Option BootEntry
entry_of boot_id [] = none
entry_of boot_id (c ∷ s) =
    let parts = split_boot_entry s in
    if is_space c
    then some (record { boot_id = boot_id; description = parts.0; device_path = parts.1 })
    else none

-- `\*?\s(.*)$` behind the id.
abbrev starred : Text → Text → Option BootEntry
starred boot_id [] = none
starred boot_id (c ∷ s) = if c == b'*' then entry_of boot_id s else entry_of boot_id (c ∷ s)

abbrev identified : Option (Text × Text) → Option BootEntry
identified none = none
identified (some (boot_id, rest)) = starred boot_id rest

-- `^Boot([0-9A-Fa-f]{4})\*?\s(.*)$`
unfoldable pub parse_entry : Text → Option BootEntry
unfolding take_id split_boot_entry starts_with
parse_entry line =
    if starts_with line (codes "Boot") then identified (take_id (drop 4 line)) else none

pub record Listing : Type 0 where
  pub boot_order : List Text
  pub current : Option Text
  pub entries : List BootEntry

abbrev with_entry : Listing → Option BootEntry → Listing
with_entry listing none = listing
with_entry listing (some entry) = record listing { entries = listing.entries ++ entry ∷ [] }

abbrev with_order : Text → Listing → Option (List Text) → Listing
with_order line listing (some boot_order) = record listing { boot_order = boot_order }
with_order line listing none = with_entry listing (parse_entry line)

abbrev with_current : Text → Listing → Option Text → Listing
with_current line listing (some boot_id) = record listing { current = some boot_id }
with_current line listing none = with_order line listing (parse_order line)

-- One line of the loop: the first pattern that fits.
unfoldable pub parse_line : Listing → Text → Listing
unfolding parse_current parse_order parse_entry
parse_line listing line = with_current line listing (parse_current line)

unfoldable pub parse_lines : Listing → List Text → Listing
unfolding parse_line
parse_lines listing [] = listing
parse_lines listing (line ∷ lines) = parse_lines (parse_line listing line) lines

unfoldable pub parse_efibootmgr : Text → Listing
unfolding parse_lines splitlines
parse_efibootmgr text =
    parse_lines (record { boot_order = []; current = none; entries = [] }) (splitlines text)

-- `known.get(boot_id, (boot_id, "", ""))`: the last entry with an id counts.
unfoldable pub known_entry : List BootEntry → BootEntry → Text → BootEntry
known_entry [] found boot_id = found
known_entry (entry ∷ entries) found boot_id =
    known_entry entries (if text_eq entry.boot_id boot_id then entry else found) boot_id

unfoldable pub plan_efibootmgr : (ℕ → Bool) → Text → Text → Option (List Text)
unfolding parse_efibootmgr known_entry reorder
plan_efibootmgr is_word text policy =
    let listing = parse_efibootmgr text in
    if is_nil listing.boot_order
    then none
    else reorder is_word
        (map
          (λ i.
            known_entry listing.entries (record { boot_id = i; description = []; device_path = [] })
              i)
          listing.boot_order)
        policy listing.current
