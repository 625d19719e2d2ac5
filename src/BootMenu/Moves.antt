-- ===== src/BootMenu/Moves.antt =====
-- src/inventory/boot_menu.py: moving, renaming and reordering of folders and images, and the folders
-- that the server starts with.
use home_lab_pxe.Prelude.{
  ℕ, suc, zero, ◌+◌, leb, ◌==◌, Text, codes, text_eq, ℤ, pos, negsuc, Bool, true, false, not, ◌&&◌,
  max, Option, none, some, List, [], ◌∷◌, length, map, where_is, any_is, is_nil, if◌then◌else◌,
  Outcome, ok, raised, os_error, Action,
}
use home_lab_pxe.Models.{BootMenuFolder, Image}
use home_lab_pxe.Lab.{Lab, Env, put_row}
use home_lab_pxe.Attempts.{record_activity}
use home_lab_pxe.BootMenu.{
  int_leb, same_parent, has_parent, get_folder, list_child_folders, folder_depth, visits,
  folder_path, normalize_name, sibling_clash, next_folder_sort, in_folder,
}
use home_lab_pxe.BootMenu.Changes.{put_image}

abbrev pub holds_id : ℕ → Option (List BootMenuFolder) → Bool
holds_id folder_id none = false
holds_id folder_id (some folders) = any_is (λ f. f.id == folder_id) folders

unfoldable pub is_self_or_descendant : BootMenuFolder → ℕ → Lab → Bool
unfolding visits
is_self_or_descendant node folder_id lab = holds_id folder_id (visits node lab)

abbrev max_of : List ℕ → ℕ
max_of [] = 0
max_of (n ∷ ns) = max n (max_of ns)

-- The depth of a tree of folders is below their number.
unfoldable pub subtree_extra : ℕ → ℕ → Lab → ℕ
unfolding list_child_folders
subtree_extra zero folder_id lab = 0
subtree_extra (suc rounds) folder_id lab =
    let depths =
      map (λ f. subtree_extra rounds f.id lab) (list_child_folders (some folder_id) lab) in
    if is_nil (list_child_folders (some folder_id) lab) then 0 else 1 + max_of depths

unfoldable pub subtree_extra_depth : BootMenuFolder → Lab → ℕ
unfolding subtree_extra
subtree_extra_depth folder lab = subtree_extra (length lab.folders) folder.id lab

-- The checks on a parent that a folder is to be moved below.
abbrev pub below_parent : BootMenuFolder → Option BootMenuFolder → Lab → Outcome (Option ℕ)
below_parent folder none lab = raised "Unknown parent folder"
below_parent folder (some parent) lab =
    if is_self_or_descendant parent folder.id lab
    then raised "A folder cannot be moved into itself or a nested folder"
    else if leb 8 (folder_depth (some parent) lab + 1 + subtree_extra_depth folder lab)
    then raised "Folder nesting is too deep"
    else ok (some parent.id)

unfoldable pub target_parent : BootMenuFolder → Option ℕ → Lab → Outcome (Option ℕ)
unfolding is_self_or_descendant subtree_extra_depth folder_depth get_folder
target_parent folder parent_id lab =
    if has_parent parent_id then below_parent folder (get_folder parent_id lab) lab else ok none

-- The changed folder: a new parent puts it behind its new siblings.
abbrev pub moved : Text → Option ℕ → BootMenuFolder → Lab → BootMenuFolder
moved name parent folder lab =
    let renamed = record folder { name = name } in
    if same_parent folder.parent_id parent
    then renamed
    else record renamed { parent_id = parent; sort_order = next_folder_sort parent lab }

abbrev pub save_folder : BootMenuFolder → Lab → Lab
save_folder folder lab = record lab {
  folders = put_row (λ (f : BootMenuFolder). f.id) folder lab.folders;
}

abbrev pub note_move : Env → Text → BootMenuFolder → BootMenuFolder → Lab → Lab
note_move env actor old new lab =
    if not (same_parent old.parent_id new.parent_id)
    then record_activity env actor (codes "boot-menu.folder-reparent") (folder_path new lab) lab
    else if not (text_eq old.name new.name)
    then record_activity env actor (codes "boot-menu.folder-rename") (folder_path new lab) lab
    else lab

abbrev pub move_folder :
    Env → Text → BootMenuFolder → Text → Outcome (Option ℕ) → Action Lab BootMenuFolder
move_folder env actor folder name (raised message) lab = (raised message, lab)
move_folder env actor folder name os_error lab = (os_error, lab)
move_folder env actor folder name (ok parent) lab =
    let new = moved name parent folder lab in
    if sibling_clash env parent name (some folder.id) lab
    then (raised "A folder with that name already exists here", lab)
    else (ok new, note_move env actor folder new (save_folder new lab))

abbrev pub update_named :
    Env → Text → BootMenuFolder → Outcome Text → Option ℕ → Action Lab BootMenuFolder
update_named env actor folder (raised message) parent_id lab = (raised message, lab)
update_named env actor folder os_error parent_id lab = (os_error, lab)
update_named env actor folder (ok name) parent_id lab =
    move_folder env actor folder name (target_parent folder parent_id lab) lab

-- `parent_id` is `none` where no parent is specified, as in `rename_folder`.
unfoldable pub update_folder :
    Env → Text → BootMenuFolder → Text → Option (Option ℕ) → Action Lab BootMenuFolder
unfolding normalize_name target_parent sibling_clash folder_path next_folder_sort
update_folder env actor folder name parent_id =
    update_named env actor folder (normalize_name name)
      (elim parent_id [ none ↦ folder.parent_id | some given ↦ given ])

unfoldable pub rename_folder : Env → Text → BootMenuFolder → Text → Action Lab BootMenuFolder
unfolding update_folder
rename_folder env actor folder name = update_folder env actor folder name none

-- The item in front of the one that passes a test, and the one behind it.
abbrev pub before_it {ℓ} : {A : Type ℓ} → (A → Bool) → List A → Option A
before_it p [] = none
before_it p (x ∷ []) = none
before_it p (x ∷ y ∷ xs) =
    let rest = before_it p (y ∷ xs) in if p x then none else if p y then some x else rest

abbrev pub after_it {ℓ} : {A : Type ℓ} → (A → Bool) → List A → Option A
after_it p [] = none
after_it p (x ∷ []) = none
after_it p (x ∷ y ∷ xs) = let rest = after_it p (y ∷ xs) in if p x then some y else rest

abbrev pub neighbor_of {ℓ} : {A : Type ℓ} → Bool → (A → Bool) → List A → Option A
neighbor_of true p xs = before_it p xs
neighbor_of false p xs = after_it p xs

-- One more or one less.
abbrev pub int_step : Bool → ℤ → ℤ
int_step false (pos n) = pos (suc n)
int_step false (negsuc zero) = pos 0
int_step false (negsuc (suc n)) = negsuc n
int_step true (pos zero) = negsuc 0
int_step true (pos (suc n)) = pos n
int_step true (negsuc n) = negsuc (suc n)

abbrev pub same_int : ℤ → ℤ → Bool
same_int m n = int_leb m n && int_leb n m

-- The sort order that the neighbour has before the two are swapped.
abbrev pub apart : Bool → ℤ → ℤ → ℤ
apart up mine other = if same_int mine other then int_step up mine else other

abbrev pub swap_folders : Env → Text → Bool → BootMenuFolder → Option BootMenuFolder → Lab → Lab
swap_folders env actor up folder none lab = lab
swap_folders env actor up folder (some neighbor) lab =
    record_activity env actor (codes "boot-menu.folder-reorder") folder.name (
      save_folder (record neighbor { sort_order = folder.sort_order })
        (save_folder (record folder { sort_order = apart up folder.sort_order neighbor.sort_order })
          lab))

-- `up` is `direction == "up"`.
unfoldable pub reorder_folder : Env → Text → Bool → BootMenuFolder → Lab → Lab
unfolding list_child_folders
reorder_folder env actor up folder lab =
    swap_folders env actor up folder
      (neighbor_of up (λ f. f.id == folder.id) (list_child_folders folder.parent_id lab)) lab

-- `order_by(sort_order, name)`; the order of names is that of the code points.
abbrev pub text_leb : Text → Text → Bool
text_leb [] t = true
text_leb (c ∷ s) [] = false
text_leb (c ∷ s) (d ∷ t) = if c == d then text_leb s t else leb c d

abbrev pub image_first : Image → Image → Bool
image_first a b =
    if int_leb a.sort_order b.sort_order
    then (if int_leb b.sort_order a.sort_order then text_leb a.name b.name else true)
    else false

unfoldable pub insert_image : Image → List Image → List Image
insert_image a [] = a ∷ []
insert_image a (b ∷ rows) =
    let rest = insert_image a rows in if image_first a b then a ∷ b ∷ rows else b ∷ rest

unfoldable pub sort_images : List Image → List Image
unfolding insert_image
sort_images [] = []
sort_images (a ∷ rows) = insert_image a (sort_images rows)

unfoldable pub list_images_in_folder : ℕ → Lab → List Image
unfolding sort_images
list_images_in_folder folder_id lab = sort_images (where_is (in_folder folder_id) lab.images)

abbrev pub swap_images : Env → Text → Bool → Image → Option Image → Lab → Lab
swap_images env actor up image none lab = lab
swap_images env actor up image (some neighbor) lab =
    record_activity env actor (codes "boot-menu.image-reorder") image.name (
      put_image (record neighbor { sort_order = image.sort_order })
        (put_image (record image { sort_order = apart up image.sort_order neighbor.sort_order })
          lab))

unfoldable pub reorder_image : Env → Text → Bool → Image → Lab → Lab
unfolding list_images_in_folder
reorder_image env actor up image lab = elim image.folder_id [
  | none ↦ lab
  | some folder_id ↦
      swap_images env actor up image
        (neighbor_of up (λ i. i.id == image.id) (list_images_in_folder folder_id lab)) lab
]

-- DEFAULT_ROOT_FOLDERS, into an empty table.
abbrev root_folder : ℕ → Text → BootMenuFolder
root_folder n name = record { id = suc n; parent_id = none; name = name; sort_order = pos n }

unfoldable pub seed_default_folders : Lab → Lab
seed_default_folders lab = if not (is_nil lab.folders) then lab else record lab {
  folders =
      root_folder 0 (codes "Windows")
      ∷ root_folder 1 (codes "Linux")
      ∷ root_folder 2 (codes "Tools")
      ∷ [];
}
