-- ===== src/BootMenu/Changes.antt =====
-- src/inventory/boot_menu.py: creation and deletion of folders, and the placing of images.
use home_lab_pxe.Prelude.{
  ℕ, ◌+◌, leb, Text, codes, length, Bool, not, Option, none, some, [], ◌∷◌, ◌++◌, any_is, is_nil,
  if◌then◌else◌, Outcome, ok, raised, os_error, Action, String,
}
use home_lab_pxe.Models.{BootMenuFolder, Image, OsFamily}
use home_lab_pxe.Lab.{Lab, Env, put_row, drop_row, next_key}
use home_lab_pxe.Attempts.{record_activity}
use home_lab_pxe.BootMenu.{
  list_child_folders, get_folder, has_parent, folder_depth, folder_path, normalize_name,
  sibling_clash, next_folder_sort, in_folder, next_image_sort, resolve_folder_for_image,
}

-- The parent that a new folder is given: none, or a stored folder that is not too deep.
unfoldable pub new_parent : Option ℕ → Lab → Outcome (Option ℕ)
unfolding get_folder folder_depth
new_parent parent_id lab =
    if not (has_parent parent_id) then ok none else elim (get_folder parent_id lab) [
      | none ↦ raised "Unknown parent folder"
      | some parent ↦
          if leb 8 (folder_depth (some parent) lab + 1)
          then raised "Folder nesting is too deep"
          else ok (some parent.id)
    ]

abbrev pub new_folder : Text → Option ℕ → Lab → BootMenuFolder
new_folder name parent lab = record {
  id = next_key (λ (f : BootMenuFolder). f.id) lab.folders;
  parent_id = parent;
  name = name;
  sort_order = next_folder_sort parent lab;
}

abbrev pub add_folder : Env → Text → BootMenuFolder → Action Lab BootMenuFolder
add_folder env actor folder lab =
    let added = record lab { folders = lab.folders ++ folder ∷ [] } in
    (
      ok folder,
      record_activity env actor (codes "boot-menu.folder-create") (folder_path folder added) added,
    )

abbrev pub place_folder : Env → Text → Text → Option ℕ → Action Lab BootMenuFolder
place_folder env actor name parent lab =
    if sibling_clash env parent name none lab
    then (raised "A folder with that name already exists here", lab)
    else add_folder env actor (new_folder name parent lab) lab

abbrev pub place_below : Env → Text → Text → Outcome (Option ℕ) → Action Lab BootMenuFolder
place_below env actor name (ok parent) lab = place_folder env actor name parent lab
place_below env actor name (raised message) lab = (raised message, lab)
place_below env actor name os_error lab = (os_error, lab)

abbrev pub create_named : Env → Text → Option ℕ → Outcome Text → Action Lab BootMenuFolder
create_named env actor parent_id (ok name) lab =
    place_below env actor name (new_parent parent_id lab) lab
create_named env actor parent_id (raised message) lab = (raised message, lab)
create_named env actor parent_id os_error lab = (os_error, lab)

unfoldable pub create_folder : Env → Text → Text → Option ℕ → Action Lab BootMenuFolder
unfolding normalize_name new_parent sibling_clash folder_path next_folder_sort
create_folder env actor name parent_id = create_named env actor parent_id (normalize_name name)

abbrev pub has_images : ℕ → Lab → Bool
has_images folder_id lab = any_is (in_folder folder_id) lab.images

-- The reason, or none for "", of a folder that is stored.
unfoldable pub folder_delete_blocked : BootMenuFolder → Lab → Option String
unfolding list_child_folders
folder_delete_blocked folder lab =
    if leb (length lab.folders) 1
    then some "Cannot delete the last remaining folder"
    else if not (is_nil (list_child_folders (some folder.id) lab))
    then some "Move or delete nested folders first"
    else if has_images folder.id lab
    then some "Move images out of this folder first"
    else none

abbrev pub delete_unless :
    Env → Text → BootMenuFolder → Option String → Lab → Outcome (Unit {0}) × Lab
delete_unless env actor folder (some reason) lab = (raised reason, lab)
delete_unless env actor folder none lab = (
  ok tt,
  record_activity env actor (codes "boot-menu.folder-delete") (folder_path folder lab)
      (record lab { folders = drop_row (λ (f : BootMenuFolder). f.id) folder.id lab.folders }),
)

unfoldable pub delete_folder : Env → Text → BootMenuFolder → Lab → Outcome (Unit {0}) × Lab
unfolding folder_delete_blocked folder_path
delete_folder env actor folder lab =
    delete_unless env actor folder (folder_delete_blocked folder lab) lab

abbrev pub placed : Image → BootMenuFolder → Lab → Image
placed image folder lab = record image {
  folder_id = some folder.id;
  sort_order = next_image_sort folder.id lab;
}

abbrev pub put_image : Image → Lab → Lab
put_image image lab = record lab { images = put_row (λ (i : Image). i.id) image lab.images }

unfoldable pub set_image_folder : Env → Text → Image → BootMenuFolder → Lab → Image × Lab
unfolding next_image_sort
set_image_folder env actor image folder lab = if in_folder folder.id image then (image, lab) else (
  placed image folder lab,
  record_activity env actor (codes "boot-menu.image-move") image.name
      (put_image (placed image folder lab) lab),
)

unfoldable pub place_new_image :
    Env → Image → Option ℕ → OsFamily → Lab → Outcome BootMenuFolder × Lab
unfolding resolve_folder_for_image next_image_sort
place_new_image env image folder_id family lab =
    elim (resolve_folder_for_image env folder_id family lab) [
      | ok folder ↦ (ok folder, put_image (placed image folder lab) lab)
      | raised message ↦ (raised message, lab)
      | os_error ↦ (os_error, lab)
    ]
