-- ===== src/Isos.antt =====
-- src/inventory/isos.py: install media, and the templates that mirror it.
pub mod Mirrors
pub mod Queue
pub mod Steps
pub mod Claims
pub mod Names
use home_lab_pxe.Prelude.{
  ℕ, suc, ◌+◌, ◌==◌, ltb, Text, codes, text_eq, strip, has_text, Bool, true, false, not, ◌&&◌, ◌||◌,
  Option, none, some, List, [], ◌∷◌, ◌++◌, map, where_is, first_where, any_is, is_nil, max,
  if◌then◌else◌, Outcome, ok, raised, os_error, Action, ℤ, pos, negsuc, String,
}
use home_lab_pxe.Models.{OsFamily, linux, windows, tool, ExtractStatus, Image, Iso}
use home_lab_pxe.Lab.{Lab, Env, row, put_row, drop_row, next_key}
use home_lab_pxe.Readiness.{in_progress}
use home_lab_pxe.Attempts.{record_activity, is_for}
use home_lab_pxe.Catalog.{InstallSource, catalog_from_json, pick_source_id, wim_index_for_source}

unfoldable pub iso_in : Option ℕ → List Iso → Option Iso
unfolding row
iso_in none isos = none
iso_in (some k) isos = if k == 0 then none else row (λ (i : Iso). i.id) k isos

abbrev pub get_iso : Option ℕ → Lab → Option Iso
get_iso iso_id lab = iso_in iso_id lab.isos

abbrev pub iso_named : Text → Iso → Bool
iso_named name iso = text_eq iso.name name

unfoldable pub find_iso_by_name : Text → Lab → Option Iso
unfolding strip
find_iso_by_name name lab = first_where (iso_named (strip name)) lab.isos

-- `Image.iso_id == iso.id`
abbrev pub uses_iso : ℕ → Image → Bool
uses_iso iso_id image = is_for iso_id image.iso_id

unfoldable pub iso_extract_in_progress : Iso → Bool
iso_extract_in_progress iso = in_progress iso.extract_status

-- New ids clear every image id too.
unfoldable pub next_iso_id : Lab → ℕ
unfolding next_key
next_iso_id lab =
    max (next_key (λ (i : Iso). i.id) lab.isos) (next_key (λ (i : Image). i.id) lab.images)

-- Linux media that runs its own installer: "sanboot", "live-boot", or "" for none.
abbrev ready_linux : OsFamily → ExtractStatus → Bool
ready_linux linux ExtractStatus.ready = true
ready_linux _ _ = false

unfoldable pub linux_boot_mode : Env → Iso → Text
unfolding has_text
linux_boot_mode env iso =
    if not (ready_linux iso.os_family iso.extract_status)
    then []
    else if not (has_text iso.kernel_path && has_text iso.initrd_path)
    then (if has_text iso.iso_path then codes "sanboot" else [])
    else if env.live_media iso.extract_generation
    then codes "live-boot"
    else []

-- The media columns of an ISO, on a template.
abbrev pub mirror : Iso → Image → Image
mirror iso image = record image {
  iso_id = some iso.id;
  os_family = iso.os_family;
  arch = iso.arch;
  iso_path = iso.iso_path;
  cmdline = iso.cmdline;
  kernel_path = iso.kernel_path;
  initrd_path = iso.initrd_path;
  boot_wim_path = iso.boot_wim_path;
  install_wim_path = iso.install_wim_path;
  extract_status = iso.extract_status;
  extract_error = iso.extract_error;
  extract_revision = iso.extract_revision;
  extract_generation = iso.extract_generation;
  source_options = iso.source_options;
}

abbrev pub with_index : Option ℕ → Image → Image
with_index none image = image
with_index (some n) image = record image { wim_index = n }

-- The install source that the catalog still offers.
abbrev choose_source : List InstallSource → Image → Image
choose_source [] image = image
choose_source (item ∷ items) image =
    let options = item ∷ items in
    let chosen = pick_source_id options image.source_id in
    with_index (wim_index_for_source options chosen) (record image { source_id = chosen })

unfoldable pub sync_template : Env → Iso → Image → Image
unfolding linux_boot_mode catalog_from_json pick_source_id wim_index_for_source
sync_template env iso image =
    if not (is_nil (linux_boot_mode env iso))
    then record (mirror iso image) { source_id = [] }
    else choose_source (catalog_from_json env iso.source_options) (mirror iso image)

unfoldable pub sync_templates : Env → Iso → Lab → Lab
unfolding sync_template
sync_templates env iso lab = if iso.id == 0 then lab else record lab {
  images =
      map (λ image. if uses_iso iso.id image then sync_template env iso image else image)
        lab.images;
}

abbrev pub arch_or_default : Text → Text
arch_or_default arch = elim (strip arch) [ [] ↦ codes "x86_64" | c ∷ s ↦ c ∷ s ]

abbrev pub is_tool : OsFamily → Bool
is_tool tool = true
is_tool _ = false

abbrev pub new_iso : Env → Text → OsFamily → Text → Lab → Iso
new_iso env name family arch lab = record {
  id = next_iso_id lab;
  name = name;
  os_family = family;
  arch = arch_or_default arch;
  iso_path = [];
  size_bytes = 0;
  cmdline = [];
  kernel_path = [];
  initrd_path = [];
  boot_wim_path = [];
  install_wim_path = [];
  extract_status = ExtractStatus.idle;
  extract_error = [];
  extract_revision = 0;
  extract_generation = [];
  source_options = [];
  created_at = env.now;
}

unfoldable pub create_iso : Env → Text → Text → OsFamily → Text → Action Lab Iso
unfolding strip next_iso_id
create_iso env actor name family arch lab =
    let trimmed = strip name in
    let iso = new_iso env trimmed family arch lab in
    if is_nil trimmed
    then (raised "ISO name is required", lab)
    else if is_tool family
    then (raised "ISOs are Linux or Windows install media", lab)
    else elim (find_iso_by_name trimmed lab) [
      | some other ↦ (raised "An ISO with that name already exists", lab)
      | none ↦ (
        ok iso,
        record_activity env actor (codes "iso.create") iso.name
            (record lab { isos = lab.isos ++ iso ∷ [] }),
      )
    ]

-- The fields of `update_iso` that may be left out.
pub record IsoChange : Type 0 where
  pub cmdline : Option Text
  pub kernel_path : Option Text
  pub initrd_path : Option Text
  pub boot_wim_path : Option Text
  pub install_wim_path : Option Text
  pub iso_path : Option Text
  pub size_bytes : Option ℤ

abbrev pub stripped_or : Option Text → Text → Text
stripped_or none old = old
stripped_or (some value) old = strip value

abbrev size_or : Option ℤ → ℕ → ℕ
size_or none old = old
size_or (some (pos n)) old = n
size_or (some (negsuc n)) old = 0

abbrev pub changed_iso : Text → Text → IsoChange → Iso → Iso
changed_iso name arch change iso = record iso {
  name = name;
  arch = arch_or_default arch;
  cmdline = stripped_or change.cmdline iso.cmdline;
  kernel_path = stripped_or change.kernel_path iso.kernel_path;
  initrd_path = stripped_or change.initrd_path iso.initrd_path;
  boot_wim_path = stripped_or change.boot_wim_path iso.boot_wim_path;
  install_wim_path = stripped_or change.install_wim_path iso.install_wim_path;
  iso_path = stripped_or change.iso_path iso.iso_path;
  size_bytes = size_or change.size_bytes iso.size_bytes;
}

-- `db.add(iso)` of a stored ISO.
abbrev pub save_iso : Iso → Lab → Lab
save_iso iso lab = record lab { isos = put_row (λ (i : Iso). i.id) iso lab.isos }

abbrev pub clashes : ℕ → Option Iso → Bool
clashes iso_id none = false
clashes iso_id (some other) = not (other.id == iso_id)

unfoldable pub update_iso : Env → Text → Iso → Text → Text → IsoChange → Action Lab Iso
unfolding strip find_iso_by_name sync_templates
update_iso env actor iso name arch change lab =
    let trimmed = strip name in
    let updated = changed_iso trimmed arch change iso in
    if is_nil trimmed
    then (raised "ISO name is required", lab)
    else if clashes iso.id (find_iso_by_name trimmed lab)
    then (raised "An ISO with that name already exists", lab)
    else (
      ok updated,
      record_activity env actor (codes "iso.update") updated.name
          (sync_templates env updated (save_iso updated lab)),
    )

-- The message names the first five templates, which is left out.
unfoldable pub delete_iso : Env → Text → Iso → Action Lab (Unit {0})
unfolding iso_extract_in_progress
delete_iso env actor iso lab =
    if iso_extract_in_progress iso
    then (raised "Wait until extraction finishes before deleting this ISO", lab)
    else if not (iso.id == 0) && any_is (uses_iso iso.id) lab.images
    then (raised "Delete the templates that use this ISO first", lab)
    else (
      ok tt,
      record_activity env actor (codes "iso.delete") iso.name
          (record lab { isos = drop_row (λ (i : Iso). i.id) iso.id lab.isos }),
    )
