-- ===== src/Uploads.antt =====
-- src/image_store.py: where an upload is stored, and what the deletion of a template or of an ISO
-- removes. A path is relative to the image root, whose symbolic links are not followed here.
pub mod Safety
use home_lab_pxe.Prelude.{
  ℕ, ◌==◌, leb, ltb, Text, codes, text_eq, strip, starts_with, contains, Bool, true, false, not,
  ◌&&◌, ◌||◌, Option, none, some, List, [], ◌∷◌, ◌++◌, map, where_is, any_is, is_nil, drop, length,
  if◌then◌else◌, Outcome, ok, raised,
}
use mathlib.Core.List.{reverse}
use home_lab_pxe.Lab.{Env}
use home_lab_pxe.Scripts.{decimal}
use home_lab_pxe.Scripts.Nfs.{slashes, split_slashes}

-- `_SAFE_NAME`, whose `$` also stands before a line feed at the end.
abbrev pub is_name_char : ℕ → Bool
is_name_char c =
    (leb b'A' c && leb c b'Z')
    || (leb b'a' c && leb c b'z')
    || (leb b'0' c && leb c b'9')
    || c == b'.'
    || c == b'_'
    || c == b'+'
    || c == b'-'

abbrev pub without_feed : Text → Text
without_feed [] = []
without_feed (c ∷ []) = if c == 10 then [] else c ∷ []
without_feed (c ∷ d ∷ s) = c ∷ without_feed (d ∷ s)

unfoldable pub is_safe_name : Text → Bool
is_safe_name name =
    let run = without_feed name in
    not (is_nil run) && not (ltb 120 (length run)) && not (any_is (λ c. not (is_name_char c)) run)

-- `Path(name).name`: the last part that is neither empty nor a dot.
abbrev last_part : List Text → Text
last_part [] = []
last_part (part ∷ []) = part
last_part (part ∷ next ∷ parts) = last_part (next ∷ parts)

abbrev is_part : Text → Bool
is_part part = not (is_nil part) && not (text_eq part (codes "."))

abbrev path_name : Text → Text
path_name path = last_part (where_is is_part (split_slashes [] path))

unfoldable pub safe_upload_filename : Text → Outcome Text
unfolding split_slashes text_eq is_safe_name
safe_upload_filename name =
    if is_safe_name (path_name name)
    then ok (path_name name)
    else raised "Upload filename must be a simple relative name"

-- The text from the last dot on.
unfoldable pub last_dot : Text → Option Text
last_dot [] = none
last_dot (c ∷ s) = elim (last_dot s) [
  | some found ↦ some found
  | none ↦ if c == b'.' then some (c ∷ s) else none
]

abbrev pub unless_dot : Option Text → Text
unless_dot none = []
unless_dot (some []) = []
unless_dot (some (c ∷ [])) = []
unless_dot (some (c ∷ d ∷ s)) = c ∷ d ∷ s

-- `Path(name).suffix`: a dot in front or at the end begins none.
abbrev pub suffix_of : Text → Text
suffix_of [] = []
suffix_of (c ∷ s) = unless_dot (last_dot s)

-- `_SLOTS`
pub data Slot : Type 0 where
  kernel_slot initrd_slot boot_wim_slot install_wim_slot iso_slot : Slot

abbrev pub slot_of : Text → Option Slot
slot_of slot =
    if text_eq slot (codes "kernel")
    then some kernel_slot
    else if text_eq slot (codes "initrd")
    then some initrd_slot
    else if text_eq slot (codes "boot.wim")
    then some boot_wim_slot
    else if text_eq slot (codes "install.wim")
    then some install_wim_slot
    else if text_eq slot (codes "iso")
    then some iso_slot
    else none

-- "uploads" and "isos"
pub data Area : Type 0 where
  uploads isos : Area

abbrev pub area_name : Area → Text
area_name uploads = codes "uploads"
area_name isos = codes "isos"

abbrev pub area_of : Text → Option Area
area_of base =
    if text_eq base (codes "uploads")
    then some uploads
    else if text_eq base (codes "isos")
    then some isos
    else none

abbrev pub with_suffix : Text → Text → Text
with_suffix name suffix =
    if not (is_nil suffix) && is_safe_name (name ++ suffix) then name ++ suffix else name

abbrev pub image_suffix : Text → Text
image_suffix lowered =
    if text_eq lowered (codes ".iso") || text_eq lowered (codes ".img")
    then lowered
    else codes ".iso"

abbrev pub slot_file : Env → Area → Slot → Text → Text
slot_file env area kernel_slot suffix = with_suffix (codes "kernel") suffix
slot_file env area initrd_slot suffix = with_suffix (codes "initrd") suffix
slot_file env area boot_wim_slot suffix = codes "boot.wim"
slot_file env area install_wim_slot suffix = codes "install.wim"
slot_file env uploads iso_slot suffix = codes "image" ++ image_suffix (env.lower suffix)
slot_file env isos iso_slot suffix = codes "source" ++ image_suffix (env.lower suffix)

abbrev pub owner_path : Text → ℕ → Text
owner_path area owner_id = area ++ b'/' ∷ decimal owner_id

abbrev pub placed_file : Env → Area → Slot → ℕ → Outcome Text → Outcome Text
placed_file env area slot owner_id (ok name) =
    ok (owner_path (area_name area) owner_id ++ b'/' ∷ slot_file env area slot (suffix_of name))
placed_file env area slot owner_id other = other

unfoldable pub relative_slot_path : Env → ℕ → Text → Text → Text → Outcome Text
unfolding safe_upload_filename is_safe_name last_dot text_eq decimal
relative_slot_path env owner_id slot original_name base = elim (area_of base) [
  | none ↦ raised "Unknown upload area"
  | some area ↦ elim (slot_of slot) [
    | none ↦ raised "Unknown image slot"
    | some known ↦ placed_file env area known owner_id (safe_upload_filename original_name)
  ]
]

-- A segment that may climb out of a directory.
abbrev pub is_climbing : Text → Bool
is_climbing part = is_nil part || text_eq part (codes ".") || text_eq part (codes "..")

abbrev pub owned_text : Text → Text → Text
owned_text prefix text =
    if not (starts_with text prefix) || contains text (codes "/extracts/")
    then []
    else if any_is is_climbing (split_slashes [] (drop (length prefix) text))
    then []
    else text

unfoldable pub owned_upload : Text → Text → Text
unfolding strip starts_with contains split_slashes text_eq
owned_upload relative prefix = owned_text prefix (strip (slashes relative))

abbrev pub owned_uploads : Text → List Text → List Text
owned_uploads prefix paths =
    where_is (λ path. not (is_nil path)) (map (λ path. owned_upload path prefix) paths)

abbrev pub upload_prefix : ℕ → Text
upload_prefix owner_id = owner_path (codes "uploads") owner_id ++ b'/' ∷ []

-- The paths that are removed, in their order, before the directory is where it is empty.
unfoldable pub remove_template_files : ℕ → List Text → List Text
unfolding owned_upload decimal
remove_template_files image_id owned_paths =
    let prefix = upload_prefix image_id in
    (prefix ++ codes "user-data")
    ∷ (prefix ++ codes "unattend.xml")
    ∷ owned_uploads prefix owned_paths

abbrev legacy_extracts : Text → List Text → List Text
legacy_extracts legacy paths =
    if any_is (λ path. starts_with (slashes path) (legacy ++ codes "extracts/")) paths
    then (legacy ++ codes "extracts") ∷ []
    else []

unfoldable pub remove_iso_tree : ℕ → List Text → List Text
unfolding owned_upload decimal starts_with
remove_iso_tree iso_id legacy_paths =
    let legacy = upload_prefix iso_id in
    (owner_path (codes "isos") iso_id
      ∷ owner_path (codes "smb") iso_id
      ∷ owner_path (codes "nfs") iso_id
      ∷ legacy_extracts legacy legacy_paths)
    ++ owned_uploads legacy legacy_paths
