-- ===== src/Scripts/Menu.antt =====
-- src/boot/menu.py: the script that shows a folder of the boot menu.
use home_lab_pxe.Prelude.{
  ℕ, ◌*◌, ltb, ◌==◌, Text, codes, strip, Bool, false, not, ◌&&◌, ◌||◌, Option, none, some, List, [],
  ◌∷◌, ◌++◌, map, where_is, take, if◌then◌else◌,
}
use home_lab_pxe.Models.{BootMenuFolder, BootMenuSettings, Image}
use home_lab_pxe.Lab.{Lab, Env}
use home_lab_pxe.Readiness.{image_deploy_blocked}
use home_lab_pxe.BootMenu.{
  get_or_create_settings, get_folder, list_child_folders, folder_path, text_or,
}
use home_lab_pxe.BootMenu.Moves.{list_images_in_folder}
use home_lab_pxe.Scripts.{decimal, print_lines, header, clear, local_disk_line}
use home_lab_pxe.Scripts.Nfs.{rstrip_slash}

-- `_UNSAFE`
abbrev pub is_unsafe : ℕ → Bool
is_unsafe c = ltb c 32 || c == b'|' || c == b'\\'

abbrev pub blanked : Text → Text
blanked value = map (λ c. if is_unsafe c then b' ' else c) value

-- `replace("${", "$ {")`, with whether a dollar sign stands in front.
unfoldable pub spread : Bool → Text → Text
spread dollar [] = []
spread dollar (c ∷ s) =
    let rest = spread (c == b'$') s in if dollar && c == b'{' then b' ' ∷ c ∷ rest else c ∷ rest

abbrev pub or_item : Text → Text
or_item [] = codes "item"
or_item (c ∷ s) = c ∷ s

unfoldable pub label : Text → Text
unfolding spread strip
label value = take 80 (or_item (strip (spread false (blanked value))))

unfoldable pub menu_images : Env → ℕ → Lab → List Image
unfolding list_images_in_folder image_deploy_blocked
menu_images env folder_id lab =
    where_is (λ image. not (image_deploy_blocked env image)) (list_images_in_folder folder_id lab)

-- What the script of one folder is made of, where no folder is the root of the menu.
pub record MenuPage : Type 0 where
  pub root_url : Text
  pub title : Text
  pub continue_label : Text
  pub timeout_ms : ℕ
  pub folder : Option BootMenuFolder
  pub children : List BootMenuFolder
  pub images : List Image

abbrev pub folder_key : BootMenuFolder → Text
folder_key folder = b'f' ∷ decimal folder.id

abbrev pub image_key : Image → Text
image_key image = b'i' ∷ decimal image.id

abbrev pub item_line : Text → Text → Text
item_line key name = codes "item " ++ key ++ b' ' ∷ label name

abbrev pub target_line : Text → Text
target_line key = b':' ∷ key

abbrev pub chain_line : Text → Text
chain_line url = codes "chain --replace " ++ url ++ codes " || goto local"

abbrev pub first_item : MenuPage → Text
first_item page = elim page.folder [
  | none ↦ codes "item local " ++ label page.continue_label
  | some folder ↦ codes "item back Back"
]

abbrev pub choose_line : MenuPage → Text
choose_line page = elim page.folder [
  | none ↦
      if ltb 0 page.timeout_ms
      then codes "choose --timeout "
        ++ decimal page.timeout_ms
        ++ codes " --default local selected || goto local"
      else codes "choose --default local selected || goto local"
  | some folder ↦ codes "choose selected || goto back"
]

abbrev pub back_url : Text → BootMenuFolder → Text
back_url root_url folder = elim folder.parent_id [
  | none ↦ root_url
  | some k ↦ if k == 0 then root_url else root_url ++ codes "/menu/" ++ decimal k
]

abbrev pub back_line : MenuPage → Text
back_line page = elim page.folder [
  | none ↦ local_disk_line
  | some folder ↦ chain_line (back_url page.root_url folder)
]

abbrev pub items : MenuPage → List Text
items page =
    map (λ f. item_line (folder_key f) f.name) page.children
    ++ map (λ i. item_line (image_key i) i.name) page.images

abbrev pub folder_targets : Text → List BootMenuFolder → List Text
folder_targets root_url [] = []
folder_targets root_url (f ∷ folders) =
    target_line (folder_key f)
    ∷ chain_line (root_url ++ codes "/menu/" ++ decimal f.id)
    ∷ folder_targets root_url folders

abbrev pub image_targets : Text → List Image → List Text
image_targets root_url [] = []
image_targets root_url (i ∷ images) =
    target_line (image_key i)
    ∷ chain_line (root_url ++ codes "/boot/" ++ decimal i.id)
    ∷ image_targets root_url images

unfoldable pub menu_lines : MenuPage → List Text
unfolding label decimal
menu_lines page =
    header ∷ clear ∷ (codes "menu " ++ label page.title) ∷ first_item page ∷ items page
    ++ choose_line page
      ∷ codes "goto ${selected}"
      ∷ codes ":local"
      ∷ local_disk_line
      ∷ codes ":back"
      ∷ back_line page
      ∷ folder_targets page.root_url page.children
    ++ image_targets page.root_url page.images

abbrev pub page_title : BootMenuSettings → Option BootMenuFolder → Lab → Text
page_title settings none lab = settings.title
page_title settings (some folder) lab = text_or (folder_path folder lab) folder.name

abbrev folder_of : Option BootMenuFolder → Option ℕ
folder_of none = none
folder_of (some folder) = some folder.id

abbrev images_of : Env → Option BootMenuFolder → Lab → List Image
images_of env none lab = []
images_of env (some folder) lab = if folder.id == 0 then [] else menu_images env folder.id lab

abbrev pub page_of : Env → Text → BootMenuSettings → Option BootMenuFolder → Lab → MenuPage
page_of env mac settings folder lab = record {
  root_url = rstrip_slash env.public_url ++ codes "/ipxe/" ++ mac;
  title = page_title settings folder lab;
  continue_label = settings.continue_label;
  timeout_ms = settings.menu_timeout_seconds * 1000;
  folder = folder;
  children = list_child_folders (folder_of folder) lab;
  images = images_of env folder lab;
}

-- The settings are written where there are none yet.
unfoldable pub menu_page : Env → ℕ → ℕ → Text → Option ℕ → Lab → MenuPage × Lab
unfolding get_or_create_settings get_folder folder_path list_child_folders menu_images rstrip_slash
menu_page env unknown_timeout menu_timeout mac folder_id lab =
    let settings = get_or_create_settings env unknown_timeout menu_timeout lab in
    (page_of env mac settings.0 (get_folder folder_id settings.1) settings.1, settings.1)

unfoldable pub folder_menu_script : Env → ℕ → ℕ → Text → Option ℕ → Lab → Text × Lab
unfolding menu_page menu_lines print_lines
folder_menu_script env unknown_timeout menu_timeout mac folder_id lab =
    let page = menu_page env unknown_timeout menu_timeout mac folder_id lab in
    (print_lines (menu_lines page.0), page.1)
