-- ===== src/Images.antt =====
-- src/inventory/service.py: `create_image`, `update_image` and `delete_image`.
pub mod Deletion
use home_lab_pxe.Prelude.{
  ℕ, ◌==◌, ltb, Text, codes, text_eq, strip, has_text, Bool, true, false, not, ◌&&◌, ◌||◌, Option,
  none, some, List, [], ◌∷◌, ◌++◌, map, where_is, first_where, any_is, is_nil, if◌then◌else◌,
  Outcome, ok, raised, os_error, Action, pure, raise, modify, lift, ◌>>=◌, ◌>>◌, ℤ, pos, negsuc,
}
use home_lab_pxe.Models.{
  OsFamily, linux, windows, tool, ExtractStatus, Image, Iso, Machine, StagedJob, InstallAttempt,
  BootMenuFolder,
}
use home_lab_pxe.Lab.{Lab, Env, put_row, drop_row, next_key}
use home_lab_pxe.Readiness.{in_install_states}
use home_lab_pxe.Attempts.{record_activity, is_for, is_open}
use home_lab_pxe.Lifecycle.{is_family}
use home_lab_pxe.Seeds.{ensure_image_seed}
use home_lab_pxe.BootMenu.{get_folder}
use home_lab_pxe.BootMenu.Changes.{place_new_image, set_image_folder}
use home_lab_pxe.Catalog.{
  InstallSource, has_id, catalog_from_json, pick_source_id, wim_index_for_source,
}
use home_lab_pxe.Isos.{
  iso_in, get_iso, sync_template, with_index, stripped_or, is_tool, arch_or_default,
}

abbrev pub image_named : Text → Image → Bool
image_named name image = text_eq image.name name

unfoldable pub find_image_by_name : Text → Lab → Option Image
unfolding strip
find_image_by_name name lab = first_where (image_named (strip name)) lab.images

-- `max(1, int(wim_index or 1))`
abbrev pub at_least_one : ℤ → ℕ
at_least_one (negsuc n) = 1
at_least_one (pos n) = if n == 0 then 1 else n

-- The arguments of `create_image`.
pub record ImageForm : Type 0 where
  pub name : Text
  pub os_family : OsFamily
  pub arch : Text
  pub kernel_path : Text
  pub initrd_path : Text
  pub boot_wim_path : Text
  pub install_wim_path : Text
  pub iso_path : Text
  pub cmdline : Text
  pub wim_index : ℤ
  pub source_id : Text
  pub folder_id : Option ℕ
  pub iso : Option Iso

abbrev pub family_or : Option Iso → OsFamily → OsFamily
family_or none family = family
family_or (some iso) family = iso.os_family

abbrev plain_image : ImageForm → OsFamily → Lab → Image
plain_image form family lab = record {
  id = next_key (λ (i : Image). i.id) lab.images;
  name = strip form.name;
  os_family = family;
  iso_id = none;
  arch = arch_or_default form.arch;
  kernel_path = strip form.kernel_path;
  initrd_path = strip form.initrd_path;
  boot_wim_path = strip form.boot_wim_path;
  install_wim_path = strip form.install_wim_path;
  iso_path = strip form.iso_path;
  cmdline = strip form.cmdline;
  extract_status = ExtractStatus.idle;
  extract_error = [];
  extract_revision = 0;
  extract_generation = [];
  wim_index = at_least_one form.wim_index;
  source_id = strip form.source_id;
  source_options = [];
  folder_id = none;
  sort_order = pos 0;
}

abbrev pub synced : Env → Option Iso → Image → Image
synced env none image = image
synced env (some iso) image = sync_template env iso image

unfoldable pub new_image : Env → ImageForm → Lab → Image
unfolding sync_template strip
new_image env form lab =
    synced env form.iso (plain_image form (family_or form.iso form.os_family) lab)

abbrev add_image : Image → Lab → Lab
add_image image lab = record lab { images = lab.images ++ image ∷ [] }

-- A tool has no seed.
abbrev pub seed_unless_tool : Env → ℕ → OsFamily → Action Lab (Unit {0})
seed_unless_tool env image_id family =
    if is_tool family then pure tt else ensure_image_seed env image_id family

abbrev pub place_and_seed : Env → Text → Image → Option ℕ → OsFamily → Action Lab ℕ
place_and_seed env actor image folder_id family = do
  place_new_image env image folder_id family
  seed_unless_tool env image.id family
  modify (record_activity env actor (codes "image.create") image.name)
  pure image.id

-- The id of the new image; the session hands the row itself out.
unfoldable pub create_image : Env → Text → ImageForm → Action Lab ℕ
unfolding new_image strip find_image_by_name place_new_image ensure_image_seed
create_image env actor form lab =
    let image = new_image env form lab in
    if is_nil (strip form.name)
    then (raised "Image name is required", lab)
    else elim (find_image_by_name (strip form.name) lab) [
      | some other ↦ (raised "An image with that name already exists", lab)
      | none ↦
          place_and_seed env actor image form.folder_id (family_or form.iso form.os_family)
            (add_image image lab)
    ]

-- The arguments of `update_image`; the fields that may be left out are options.
pub record ImageChange : Type 0 where
  pub name : Text
  pub os_family : OsFamily
  pub arch : Text
  pub kernel_path : Option Text
  pub initrd_path : Option Text
  pub boot_wim_path : Option Text
  pub install_wim_path : Option Text
  pub iso_path : Option Text
  pub cmdline : Option Text
  pub wim_index : Option ℤ
  pub source_id : Option Text
  pub folder_id : Option ℕ
  pub iso : Option Iso

abbrev pub linked_iso : ImageChange → Image → Lab → Option Iso
linked_iso change image lab = elim change.iso [
  | some iso ↦ some iso
  | none ↦ get_iso image.iso_id lab
]

abbrev is_linked : Option ℕ → Bool
is_linked none = false
is_linked (some k) = not (k == 0)

-- Whether a template would switch to an ISO of another operating system.
abbrev pub switches_family : Option Iso → Image → Bool
switches_family none image = false
switches_family (some iso) image =
    is_linked image.iso_id && not (is_family iso.os_family image.os_family)

abbrev media_fields : ImageChange → Image → Image
media_fields change image = record image {
  os_family = change.os_family;
  arch = arch_or_default change.arch;
  kernel_path = stripped_or change.kernel_path image.kernel_path;
  initrd_path = stripped_or change.initrd_path image.initrd_path;
  boot_wim_path = stripped_or change.boot_wim_path image.boot_wim_path;
  install_wim_path = stripped_or change.install_wim_path image.install_wim_path;
  iso_path = stripped_or change.iso_path image.iso_path;
  cmdline = stripped_or change.cmdline image.cmdline;
}

abbrev media_of : Env → ImageChange → Option Iso → Image → Image
media_of env change none image = media_fields change image
media_of env change (some iso) image = sync_template env iso image

abbrev index_given : Option ℤ → Image → Image
index_given none image = image
index_given (some n) image = record image { wim_index = at_least_one n }

-- The source from the catalog, or as it was given where there is no catalog.
abbrev pub pick_offered : List InstallSource → Text → Image → Outcome Image
pick_offered [] chosen image = ok (record image { source_id = chosen })
pick_offered (item ∷ items) chosen image =
    let options = item ∷ items in
    let picked = pick_source_id options chosen in
    if not (is_nil chosen) && not (any_is (has_id chosen) options)
    then raised "Install source is not available on this image"
    else ok (with_index (wim_index_for_source options picked) (record image { source_id = picked }))

abbrev pub source_given : Env → Option Text → Image → Outcome Image
source_given env none image = ok image
source_given env (some source_id) image =
    pick_offered (catalog_from_json env image.source_options) (strip source_id) image

abbrev move_to : Env → Text → Image → Option BootMenuFolder → Action Lab Image
move_to env actor image none lab = (raised "Unknown boot-menu folder", lab)
move_to env actor image (some folder) lab =
    let moved = set_image_folder env actor image folder lab in (ok moved.0, moved.1)

abbrev folder_given : Env → Text → Option ℕ → Image → Action Lab Image
folder_given env actor none image lab = (ok image, lab)
folder_given env actor (some folder_id) image lab =
    move_to env actor image (get_folder (some folder_id) lab) lab

-- `db.add(image)` of a stored image.
abbrev pub save_image : Image → Lab → Lab
save_image image lab = record lab { images = put_row (λ (i : Image). i.id) image lab.images }

abbrev pub name_clashes : ℕ → Option Image → Bool
name_clashes image_id none = false
name_clashes image_id (some other) = not (other.id == image_id)

-- An error leaves the object changed in the session, which is rolled back: no row is written.
abbrev pub apply_change : Env → Text → ImageChange → Image → Action Lab Image
apply_change env actor change image lab =
    let linked = linked_iso change image lab in
    let named = media_of env change linked (record image { name = strip change.name }) in
    (do
      sourced ← lift (source_given env change.source_id (index_given change.wim_index named))
      moved ← folder_given env actor change.folder_id sourced
      modify (save_image moved)
      seed_unless_tool env moved.id (family_or linked change.os_family)
      modify (record_activity env actor (codes "image.update") moved.name)
      pure moved)
      lab

unfoldable pub update_image : Env → Text → Image → ImageChange → Action Lab Image
unfolding strip find_image_by_name iso_in sync_template catalog_from_json pick_source_id
    wim_index_for_source set_image_folder get_folder ensure_image_seed
update_image env actor image change lab =
    if is_nil (strip change.name)
    then (raised "Image name is required", lab)
    else if name_clashes image.id (find_image_by_name (strip change.name) lab)
    then (raised "An image with that name already exists", lab)
    else if switches_family change.iso image
    then (raised "A template can only switch to an ISO of the same OS", lab)
    else apply_change env actor change image lab

-- The queries of `delete_image`.
abbrev pub reads_image : ℕ → InstallAttempt → Bool
reads_image image_id attempt = is_for image_id attempt.image_id

abbrev pub assigned_to : ℕ → Machine → Bool
assigned_to image_id machine = is_for image_id machine.assigned_image_id

abbrev pub unassign : ℕ → Machine → Machine
unassign image_id machine =
    if assigned_to image_id machine then record machine { assigned_image_id = none } else machine

abbrev pub unlink : ℕ → InstallAttempt → InstallAttempt
unlink image_id attempt =
    if reads_image image_id attempt then record attempt { image_id = none } else attempt

abbrev pub without_image : Env → Text → Image → Lab → Lab
without_image env actor image lab =
    record_activity env actor (codes "image.delete") image.name (record lab {
      machines = map (unassign image.id) lab.machines;
      jobs = where_is (λ (j : StagedJob). not (is_for image.id j.image_id)) lab.jobs;
      attempts = map (unlink image.id) lab.attempts;
      images = drop_row (λ (i : Image). i.id) image.id lab.images;
    })

unfoldable pub delete_image : Env → Text → Image → Action Lab ℕ
delete_image env actor image lab =
    if ltb image.id 1
    then (raised "Unknown image", lab)
    else if any_is (λ a. reads_image image.id a && is_open a) lab.attempts
    then (raised "Cannot delete this image while a machine is installing it", lab)
    else if any_is (λ m. assigned_to image.id m && in_install_states m.state) lab.machines
    then (raised "Cannot delete this image while a machine is deploying or staged", lab)
    else (ok image.id, without_image env actor image lab)
