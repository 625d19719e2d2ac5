-- ===== src/BootMenu/Options.antt =====
-- src/inventory/boot_menu.py: the folders that a form offers, and the images that are put into a folder
-- when the server starts.
use home_lab_pxe.Prelude.{
  ℕ, zero, suc, ◌==◌, Text, not, Option, none, some, List, [], ◌∷◌, ◌++◌, map, where_is, any_is,
  length, if◌then◌else◌, ok, raised, os_error,
}
use home_lab_pxe.Models.{BootMenuFolder, Image, OsFamily}
use home_lab_pxe.Lab.{Lab, Env}
use home_lab_pxe.BootMenu.Moves.{seed_default_folders}
use home_lab_pxe.BootMenu.{
  get_or_create_settings, has_parent, visits, list_child_folders, root_folder_named, first_folder,
  family_folder_name, resolve_folder_for_image, next_image_sort,
}
use home_lab_pxe.BootMenu.Changes.{placed}

-- `folder_path(db, child, separator="/")`
abbrev join_slash : Text → List BootMenuFolder → Text
join_slash path [] = path
join_slash path (folder ∷ parents) = join_slash (folder.name ++ b'/' ∷ path) parents

abbrev slash_path : Option (List BootMenuFolder) → Text
slash_path none = []
slash_path (some []) = []
slash_path (some (folder ∷ parents)) = join_slash folder.name parents

abbrev join_options : List (List (ℕ × Text)) → List (ℕ × Text)
join_options [] = []
join_options (options ∷ rest) = options ++ join_options rest

-- A walk down a forest meets a folder once, so that there are no more rounds than folders; below a
-- folder that lies below itself the source would recurse without end.
unfoldable pub walk_options : ℕ → Option ℕ → Lab → List (ℕ × Text)
unfolding list_child_folders visits
walk_options zero parent_id lab = []
walk_options (suc rounds) parent_id lab = join_options (
    map
      (λ (f : BootMenuFolder).
        (f.id, slash_path (visits f lab)) ∷ walk_options rounds (some f.id) lab)
      (list_child_folders parent_id lab))

unfoldable pub folder_options : Lab → List (ℕ × Text)
unfolding walk_options
folder_options lab = walk_options (length lab.folders) none lab

abbrev join_ids : List (List ℕ) → List ℕ
join_ids [] = []
join_ids (ids ∷ rest) = ids ++ join_ids rest

unfoldable pub walk_ids : ℕ → ℕ → Lab → List ℕ
unfolding list_child_folders
walk_ids zero folder_id lab = []
walk_ids (suc rounds) folder_id lab = join_ids (
    map (λ (f : BootMenuFolder). f.id ∷ walk_ids rounds f.id lab)
      (list_child_folders (some folder_id) lab))

unfoldable pub descendant_ids : ℕ → Lab → List ℕ
unfolding walk_ids
descendant_ids folder_id lab = walk_ids (length lab.folders) folder_id lab

-- Those that a folder can be moved into: neither it nor one below it.
unfoldable pub parent_folder_options : Option BootMenuFolder → Lab → List (ℕ × Text)
unfolding folder_options descendant_ids
parent_folder_options none lab = folder_options lab
parent_folder_options (some folder) lab =
    let blocked = folder.id ∷ descendant_ids folder.id lab in
    where_is (λ option. not (any_is (λ k. k == option.0) blocked)) (folder_options lab)

abbrev id_or : Option BootMenuFolder → Option BootMenuFolder → Option ℕ
id_or (some folder) fallback = some folder.id
id_or none (some folder) = some folder.id
id_or none none = none

-- The entry of one family in the mapping, if there is one.
unfoldable pub default_folder_ids : Env → OsFamily → Lab → Option ℕ
unfolding root_folder_named first_folder
default_folder_ids env family lab =
    id_or (root_folder_named env (family_folder_name family) lab) (first_folder lab)

-- The images that were placed before are not written yet when the next place is computed, since the
-- session does not flush in between.
abbrev backfilled : Env → Lab → Image → Image
backfilled env lab image =
    if has_parent image.folder_id
    then image
    else elim (resolve_folder_for_image env none image.os_family lab) [
      | ok folder ↦ placed image folder lab
      | raised message ↦ image
      | os_error ↦ image
    ]

unfoldable pub backfill_image_folders : Env → Lab → Lab
unfolding first_folder resolve_folder_for_image next_image_sort
backfill_image_folders env lab = elim (first_folder lab) [
  | none ↦ lab
  | some folder ↦ record lab { images = map (backfilled env lab) lab.images }
]

unfoldable pub seed_boot_menu : Env → ℕ → ℕ → Lab → Lab
unfolding get_or_create_settings seed_default_folders backfill_image_folders
seed_boot_menu env unknown_timeout menu_timeout lab =
    backfill_image_folders env
      (seed_default_folders (get_or_create_settings env unknown_timeout menu_timeout lab).1)
