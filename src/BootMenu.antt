-- ===== src/BootMenu.antt =====
-- src/inventory/boot_menu.py: the folders of the boot menu, its settings, and the images in it.
pub mod Changes
pub mod Folders
pub mod Moves
pub mod Options
pub mod Walks
pub mod Forest
use home_lab_pxe.Prelude.{
  ℕ, suc, zero, ◌+◌, ltb, leb, ◌==◌, Text, codes, text_eq, strip, length, take, ℤ, pos, negsuc,
  Bool, true, false, not, ◌&&◌, ◌||◌, Option, none, some, List, [], ◌∷◌, ◌++◌, map, where_is,
  first_where, any_is, is_nil, if◌then◌else◌, Outcome, ok, raised, os_error, Action, String,
}
use Prim.Native.Nat.{max, min}
use home_lab_pxe.Models.{BootMenuFolder, BootMenuSettings, Image, OsFamily, linux, windows, tool}
use home_lab_pxe.Lab.{Lab, Env, row, put_row, drop_row, next_key}
use home_lab_pxe.Hardware.{split_words, join_words}
use home_lab_pxe.Attempts.{record_activity}

-- MAX_TIMEOUT_SECONDS
unfoldable pub clamp_timeout : ℤ → ℕ
clamp_timeout (pos n) = min 300 n
clamp_timeout (negsuc n) = 0

abbrev pub text_or : Text → Text → Text
text_or [] other = other
text_or (c ∷ s) other = c ∷ s

-- DEFAULT_TITLE, DEFAULT_CONTINUE_LABEL; the timeouts are those of the environment variables.
abbrev default_title : Text
default_title = codes "Network Installation Options"

abbrev default_continue_label : Text
default_continue_label = codes "Continue to next boot device"

abbrev pub default_settings : Env → ℕ → ℕ → BootMenuSettings
default_settings env unknown_timeout menu_timeout = record {
  title = default_title;
  continue_label = default_continue_label;
  unknown_timeout_seconds = unknown_timeout;
  menu_timeout_seconds = menu_timeout;
  updated_at = env.now;
}

unfoldable pub get_or_create_settings : Env → ℕ → ℕ → Lab → BootMenuSettings × Lab
get_or_create_settings env unknown_timeout menu_timeout lab = elim lab.menu_settings [
  | some settings ↦ (settings, lab)
  | none ↦ (
    default_settings env unknown_timeout menu_timeout,
    record lab { menu_settings = some (default_settings env unknown_timeout menu_timeout) },
  )
]

unfoldable pub save_settings : Env → Text → Text → Text → ℤ → ℤ → Lab → BootMenuSettings × Lab
unfolding strip clamp_timeout
save_settings env actor title continue_label unknown_timeout menu_timeout lab =
    let settings : BootMenuSettings = record {
      title = take 120 (text_or (strip title) default_title);
      continue_label = take 120 (text_or (strip continue_label) default_continue_label);
      unknown_timeout_seconds = clamp_timeout unknown_timeout;
      menu_timeout_seconds = clamp_timeout menu_timeout;
      updated_at = env.now;
    } in
    (
      settings,
      record_activity env actor (codes "boot-menu.settings") settings.title
          (record lab { menu_settings = some settings }),
    )

abbrev pub int_leb : ℤ → ℤ → Bool
int_leb (pos m) (pos n) = leb m n
int_leb (pos m) (negsuc n) = false
int_leb (negsuc m) (pos n) = true
int_leb (negsuc m) (negsuc n) = leb n m

abbrev int_max : ℤ → ℤ → ℤ
int_max m n = if int_leb m n then n else m

abbrev int_suc : ℤ → ℤ
int_suc (pos n) = pos (suc n)
int_suc (negsuc zero) = pos 0
int_suc (negsuc (suc n)) = negsuc n

-- `order_by(sort_order, id)`
abbrev comes_first : BootMenuFolder → BootMenuFolder → Bool
comes_first a b =
    if int_leb a.sort_order b.sort_order
    then (if int_leb b.sort_order a.sort_order then leb a.id b.id else true)
    else false

unfoldable pub insert_folder : BootMenuFolder → List BootMenuFolder → List BootMenuFolder
insert_folder a [] = a ∷ []
insert_folder a (b ∷ rows) =
    let rest = insert_folder a rows in if comes_first a b then a ∷ b ∷ rows else b ∷ rest

unfoldable pub sort_folders : List BootMenuFolder → List BootMenuFolder
unfolding insert_folder
sort_folders [] = []
sort_folders (a ∷ rows) = insert_folder a (sort_folders rows)

abbrev pub same_parent : Option ℕ → Option ℕ → Bool
same_parent none none = true
same_parent (some i) (some j) = i == j
same_parent _ _ = false

unfoldable pub list_child_folders : Option ℕ → Lab → List BootMenuFolder
unfolding sort_folders
list_child_folders parent_id lab =
    sort_folders (where_is (λ f. same_parent f.parent_id parent_id) lab.folders)

unfoldable pub get_folder : Option ℕ → Lab → Option BootMenuFolder
unfolding row
get_folder none lab = none
get_folder (some k) lab = if k == 0 then none else row (λ (f : BootMenuFolder). f.id) k lab.folders

abbrev pub has_parent : Option ℕ → Bool
has_parent none = false
has_parent (some k) = not (k == 0)

-- The loop ends at the depth MAX_FOLDER_DEPTH + 3 at the latest, so that 11 rounds are all.
unfoldable pub depth_within : ℕ → List ℕ → Option BootMenuFolder → Lab → ℕ
unfolding get_folder
depth_within zero seen current lab = 0
depth_within (suc rounds) seen none lab = 0
depth_within (suc rounds) seen (some folder) lab =
    let rest = depth_within rounds (folder.id ∷ seen) (get_folder folder.parent_id lab) lab in
    if not (has_parent folder.parent_id)
    then 0
    else if any_is (λ k. k == folder.id) seen
    then 0
    else suc rest

unfoldable pub folder_depth : Option BootMenuFolder → Lab → ℕ
unfolding depth_within
folder_depth folder lab = depth_within 11 [] folder lab

abbrev pub and_then : BootMenuFolder → Option (List BootMenuFolder) → Option (List BootMenuFolder)
and_then folder none = none
and_then folder (some visits) = some (folder ∷ visits)

abbrev pub sees : ℕ → List ℕ → Bool
sees k seen = any_is (λ j. j == k) seen

-- The folders that a loop up the parents visits, until one has no parent, was seen before, or has a
-- parent that is not there; `none` where the rounds run out.
unfoldable pub visited : ℕ → List ℕ → BootMenuFolder → Lab → Option (List BootMenuFolder)
unfolding get_folder
visited zero seen folder lab = none
visited (suc rounds) seen folder lab =
    if not (has_parent folder.parent_id) || sees folder.id seen
    then some (folder ∷ [])
    else elim (get_folder folder.parent_id lab) [
      | none ↦ some (folder ∷ [])
      | some parent ↦ and_then folder (visited rounds (folder.id ∷ seen) parent lab)
    ]

-- A folder is seen once, so that one round more than there are folders is enough.
unfoldable pub visits : BootMenuFolder → Lab → Option (List BootMenuFolder)
unfolding visited
visits folder lab = visited (suc (length lab.folders)) [] folder lab

-- `" / ".join(reversed(parts))`
abbrev join_path : Text → List BootMenuFolder → Text
join_path path [] = path
join_path path (folder ∷ parents) = join_path (folder.name ++ (codes " / " ++ path)) parents

abbrev path_of : Option (List BootMenuFolder) → Text
path_of none = []
path_of (some []) = []
path_of (some (folder ∷ parents)) = join_path folder.name parents

unfoldable pub folder_path : BootMenuFolder → Lab → Text
unfolding visits
folder_path folder lab = path_of (visits folder lab)

-- MAX_FOLDER_NAME
unfoldable pub normalize_name : Text → Outcome Text
unfolding split_words join_words
normalize_name name =
    let text = join_words (split_words [] name) in
    if is_nil text
    then raised "Folder name is required"
    else if ltb 80 (length text)
    then raised "Folder name must be 80 characters or less"
    else ok text

abbrev pub named : Env → Text → BootMenuFolder → Bool
named env needle folder = text_eq (env.casefold folder.name) needle

abbrev excluded : Option ℕ → BootMenuFolder → Bool
excluded none folder = false
excluded (some k) folder = folder.id == k

unfoldable pub sibling_clash : Env → Option ℕ → Text → Option ℕ → Lab → Bool
unfolding list_child_folders
sibling_clash env parent_id name exclude_id lab =
    any_is (λ f. not (excluded exclude_id f) && named env (env.casefold name) f)
      (list_child_folders parent_id lab)

abbrev max_sort : ℤ → List ℤ → ℤ
max_sort m [] = m
max_sort m (n ∷ ns) = max_sort (int_max m n) ns

abbrev pub next_sort : List ℤ → ℤ
next_sort [] = pos 0
next_sort (n ∷ ns) = int_suc (max_sort n ns)

unfoldable pub next_folder_sort : Option ℕ → Lab → ℤ
unfolding list_child_folders
next_folder_sort parent_id lab =
    next_sort (map (λ f. f.sort_order) (list_child_folders parent_id lab))

abbrev pub in_folder : ℕ → Image → Bool
in_folder folder_id image = elim image.folder_id [ none ↦ false | some k ↦ k == folder_id ]

unfoldable pub next_image_sort : ℕ → Lab → ℤ
next_image_sort folder_id lab =
    next_sort (map (λ i. i.sort_order) (where_is (in_folder folder_id) lab.images))

unfoldable pub root_folder_named : Env → Text → Lab → Option BootMenuFolder
unfolding list_child_folders
root_folder_named env name lab =
    first_where (named env (env.casefold name)) (list_child_folders none lab)

-- The folder with the smallest key, which is the first of the table.
unfoldable pub first_folder : Lab → Option BootMenuFolder
first_folder lab = elim lab.folders [ [] ↦ none | folder ∷ rows ↦ some folder ]

-- FAMILY_FOLDER_NAMES
abbrev pub family_folder_name : OsFamily → Text
family_folder_name windows = codes "Windows"
family_folder_name linux = codes "Linux"
family_folder_name tool = codes "Tools"

unfoldable pub resolve_folder_for_image : Env → Option ℕ → OsFamily → Lab → Outcome BootMenuFolder
unfolding root_folder_named first_folder get_folder
resolve_folder_for_image env folder_id family lab = elim (get_folder folder_id lab) [
  | some folder ↦ ok folder
  | none ↦ elim (root_folder_named env (family_folder_name family) lab) [
    | some folder ↦ ok folder
    | none ↦ elim (first_folder lab) [
      | some folder ↦ ok folder
      | none ↦ raised "Create a boot-menu folder before adding an image"
    ]
  ]
]
