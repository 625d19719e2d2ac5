-- ===== src/Tests/Services.antt =====
-- The boot order, the boot menu and the login limit at small inputs.
use home_lab_pxe.Prelude.{
  Bool-cases, inl, inr, ◌==◌, contains, ℕ, ◌≤◌, ◌≡◌, ◌≢◌, ◌⊎◌, refl, Text, codes, text_eq, Bool,
  true, false, none, some, List, [], ◌∷◌, map, arith, ok, raised, count_is,
}
use home_lab_pxe.Lab.{Lab, row}
use home_lab_pxe.Uefi.Reorder.{BootEntry, upper, reorder, reorder_items, arrange, item_of}
use home_lab_pxe.Uefi.Reorder.Order.{reorder-count}
use home_lab_pxe.Uefi.Reorder.Stable.{reorder_items_stable}
use home_lab_pxe.Prelude.{String, length, any_is}
use home_lab_pxe.Models.{BootMenuFolder}
use home_lab_pxe.BootMenu.Changes.{create_folder, delete_folder, has_images}
use home_lab_pxe.BootMenu.Folders.{IsTidy, below, create_folder-IsTidy, delete_folder-cases}
use home_lab_pxe.BootMenu.{visits}
use home_lab_pxe.BootMenu.Walks.{visits-ends}
use home_lab_pxe.BootMenu.Moves.{update_folder}
use home_lab_pxe.BootMenu.Forest.{Rooted, IsForest}
use home_lab_pxe.BootMenu.Forest.Changes.{here, next, updates, FolderReach-IsForest}
use home_lab_pxe.RateLimit.{rate_limit_exceeded, get_count}
use home_lab_pxe.RateLimit.Counts.{login_from, Try, run, rate_limit_exceeded-exact}
use home_lab_pxe.Tests.Data.{folder_named, menu_lab, small_menu_lab, environment}

abbrev admin : Text
admin = codes "admin"

-- Two boot entries of a firmware, the disk in front.
abbrev entries : List BootEntry
entries =
    record { boot_id = codes "0001"; description = codes "grub"; device_path = codes "HD(1)" }
    ∷ record { boot_id = codes "0002"; description = codes "nic"; device_path = codes "MAC(00)" }
    ∷ []

abbrev is_letter : ℕ → Bool
is_letter c = true

moves_network :
    reorder is_letter entries (codes "pxe") (some (codes "0002"))
    ≡ some (codes "0002" ∷ codes "0001" ∷ [])
unfolding reorder text_eq mathlib.Core.Bool.xor contains
moves_network = refl

reorder-count_example :
    count_is (text_eq (codes "0001")) (codes "0002" ∷ codes "0001" ∷ [])
    ≡ count_is (text_eq (codes "0001")) (map (λ entry. upper entry.boot_id) entries)
reorder-count_example =
    reorder-count is_letter entries (codes "pxe") (some (codes "0002"))
      (codes "0002" ∷ codes "0001" ∷ []) moves_network (codes "0001")

reorder_items_stable_example :
    let items = map (item_of is_letter) entries in
    reorder_items
      (codes "pxe")
      (some (codes "0002"))
      (arrange (codes "pxe") (some (codes "0002")) items)
    ≡ none
reorder_items_stable_example =
    reorder_items_stable (codes "pxe") (some (codes "0002")) (map (item_of is_letter) entries)

small_menu-IsTidy : IsTidy environment small_menu_lab.folders
small_menu-IsTidy = record { at_most_one = λ parent needle. ground arith }

create_folder-IsTidy_example :
    IsTidy environment
      (create_folder environment admin (codes "Rescue") (some 1) small_menu_lab).1.folders
create_folder-IsTidy_example =
    create_folder-IsTidy environment admin (codes "Rescue") (some 1) small_menu_lab
      small_menu-IsTidy

delete_folder-cases_example :
    let r = delete_folder environment admin (folder_named 2 (codes "Tools")) menu_lab in
    ((reason : String) × (r ≡ (raised reason, menu_lab)))
    ⊎ ((r.0 ≡ ok tt)
        × (2 ≤ length menu_lab.folders)
        × (row (λ (f : BootMenuFolder). f.id) 2 r.1.folders ≡ none)
        × (any_is (below 2) r.1.folders ≡ false)
        × (has_images 2 r.1 ≡ false))
delete_folder-cases_example =
    delete_folder-cases environment admin (folder_named 2 (codes "Tools")) menu_lab

-- Each of two folders is the parent of the other.
abbrev loop_lab : Lab
loop_lab = record menu_lab {
  folders =
      record (folder_named 1 (codes "Linux")) { parent_id = some 2 }
      ∷ record (folder_named 2 (codes "Tools")) { parent_id = some 1 }
      ∷ [];
}

visits-ends_example : visits (folder_named 1 (codes "Linux")) loop_lab ≢ none
unfolding row
visits-ends_example = visits-ends (folder_named 1 (codes "Linux")) loop_lab (λ e. cc)

menu_lab-Rooted :
    (k : ℕ)
    → row (λ (f : BootMenuFolder). f.id) k menu_lab.folders ≢ none
    → (n : ℕ) × Rooted menu_lab.folders n k
unfolding row
menu_lab-Rooted k there = elim (Bool-cases (1 == k)) [
  | inl e ↦ (0, (folder_named 1 (codes "Linux"), ground (arith, e), refl))
  | inr ne ↦ elim (Bool-cases (2 == k)) [
    | inl e ↦ (0, (folder_named 2 (codes "Tools"), ground (arith, ne, e), refl))
    | inr other ↦ absurd (there (ground (arith, ne, other)))
  ]
]

-- The second folder is moved into the first.
FolderReach-IsForest_example :
    IsForest
      (update_folder environment admin
        (folder_named 2 (codes "Tools"))
        (codes "Tools")
        (some (some 1))
        menu_lab).1.folders
unfolding row
FolderReach-IsForest_example =
    FolderReach-IsForest
      (next here (
        updates environment admin (folder_named 2 (codes "Tools")) (codes "Tools") (some (some 1))
          refl refl))
      (record { rooted = menu_lab-Rooted })

abbrev host : Text
host = codes "10.0.0.9"

abbrev earlier : List Try
earlier = (61, host) ∷ (62, host) ∷ []

rate_limit_exceeded-exact_example :
    (rate_limit_exceeded false 65 (login_from host) (run earlier [])).0 ≡ false
unfolding text_eq get_count
rate_limit_exceeded-exact_example =
    rate_limit_exceeded-exact 60 65 host earlier [] (refl, (refl, tt)) refl refl
