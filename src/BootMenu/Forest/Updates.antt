-- ===== src/BootMenu/Forest/Updates.antt =====
-- `update_folder` keeps the folders a forest.
use home_lab_pxe.Prelude.{
  ℕ, zero, ◌≡◌, refl, sym, ap, ◌∙◌, ◌==◌, false, not, Bool-cases, inl, inr, ◌⊎◌, Option, none, some,
  Option-cases, arith, Text, text_eq, Outcome, ok, raised, os_error,
}
use home_lab_pxe.Models.{BootMenuFolder}
use home_lab_pxe.Lab.{Lab, Env, row, put_row}
use home_lab_pxe.Lab.Tables.{key-row}
use home_lab_pxe.Attempts.{record_activity}
use home_lab_pxe.BootMenu.{
  next_folder_sort, has_parent, get_folder, same_parent, normalize_name, sibling_clash,
}
use home_lab_pxe.BootMenu.Walks.{folder_key}
use home_lab_pxe.BootMenu.Moves.{
  is_self_or_descendant, target_parent, moved, save_folder, note_move, move_folder, update_named,
  update_folder,
}
use home_lab_pxe.BootMenu.Forest.{IsForest, written-IsForest, kept-IsForest, below-Rooted, row-own}

pub get_folder-got :
    (parent_id : Option ℕ) (p : BootMenuFolder) (lab : Lab)
    → get_folder parent_id lab ≡ some p
    → ((p.id == 0) ≡ false) × (row folder_key p.id lab.folders ≡ some p)
unfolding get_folder
get_folder-got none p lab h = cc
get_folder-got (some k) p lab h = elim (Bool-cases (k == 0)) [
  | inl z ↦ absurd (let no : none ≡ some p = rw z at h in cc)
  | inr nz ↦
      let found : row folder_key k lab.folders ≡ some p = rw nz at h in
      let same : p.id ≡ k = key-row folder_key k lab.folders p found in
      (rw same nz, ap (λ i. row folder_key i lab.folders) same ∙ found)
]

-- What a target parent is: none, or a stored folder that is not below the one that is moved.
abbrev Target : Option ℕ → BootMenuFolder → Lab → Type 0
Target parent folder lab =
    (has_parent parent ≡ false)
    ⊎ ((p : BootMenuFolder) × (parent ≡ some p.id)
        × (row folder_key p.id lab.folders ≡ some p)
        × ((p.id == 0) ≡ false)
        × (is_self_or_descendant p folder.id lab ≡ false))

module _ (folder : BootMenuFolder) (lab : Lab) where
  target_parent-Target :
      (parent_id parent : Option ℕ)
      → target_parent folder parent_id lab ≡ ok parent
      → Target parent folder lab
  unfolding target_parent
  target_parent-Target parent_id parent h = elim (Bool-cases (has_parent parent_id)) [
    | inr top ↦ let same : none ≡ parent = ground (arith, h, top) in inl (ap has_parent (sym same))
    | inl below ↦ elim (Option-cases (get_folder parent_id lab)) [
      | inl gone ↦ absurd (ground (arith, h, below, gone))
      | inr (p, found) ↦ elim (Bool-cases (is_self_or_descendant p folder.id lab)) [
        | inl loop ↦ absurd (ground (arith, h, below, found, loop))
        | inr free ↦
            let got = get_folder-got parent_id p lab found in
            inr (p, ground (arith, h, below, found, free), got.1, got.0, free)
      ]
    ]
  ]

  moved-IsForest :
      (name : Text) (parent : Option ℕ)
      → row folder_key folder.id lab.folders ≡ some folder
      → Target parent folder lab
      → IsForest lab.folders
      → IsForest (put_row folder_key (moved name parent folder lab) lab.folders)
  moved-IsForest name parent stored target forest =
      elim (Bool-cases (same_parent folder.parent_id parent)) [
        | inl same ↦
            rw same (kept-IsForest lab (record folder { name = name }) folder stored refl forest)
        | inr new ↦
            let changed : BootMenuFolder = record folder {
              name = name;
              parent_id = parent;
              sort_order = next_folder_sort parent lab;
            } in
            rw new (
              written-IsForest lab changed forest (elim target [
                | inl top ↦ (zero, (changed, row-own lab changed folder stored, top))
                | inr (p, same, there, nonzero, free) ↦
                    below-Rooted lab changed folder p stored there same nonzero free forest
              ]))
      ]

note_move-folders :
    (env : Env) (actor : Text) (old new : BootMenuFolder) (lab : Lab)
    → (note_move env actor old new lab).folders ≡ lab.folders
unfolding record_activity
note_move-folders env actor old new lab =
    elim (Bool-cases (not (same_parent old.parent_id new.parent_id))) [
      | inl moves ↦ rw moves refl
      | inr stays ↦ elim (Bool-cases (not (text_eq old.name new.name))) [
        | inl renames ↦ rw (stays, renames) refl
        | inr same ↦ rw (stays, same) refl
      ]
    ]

module _ (env : Env) (actor : Text) (folder : BootMenuFolder) (lab : Lab) where
  move-IsForest :
      (name : Text) (target : Outcome (Option ℕ))
      → row folder_key folder.id lab.folders ≡ some folder
      → ((parent : Option ℕ) → target ≡ ok parent → Target parent folder lab)
      → IsForest lab.folders
      → IsForest (move_folder env actor folder name target lab).1.folders
  move-IsForest name (raised message) stored targets forest = forest
  move-IsForest name os_error stored targets forest = forest
  move-IsForest name (ok parent) stored targets forest =
      elim (Bool-cases (sibling_clash env parent name (some folder.id) lab)) [
        | inl taken ↦ rw taken forest
        | inr free ↦
            let new = moved name parent folder lab in
            rw (free, note_move-folders env actor folder new (save_folder new lab))
              (moved-IsForest folder lab name parent stored (targets parent refl) forest)
      ]

  update_named-IsForest :
      (name : Outcome Text) (parent_id : Option ℕ)
      → row folder_key folder.id lab.folders ≡ some folder
      → IsForest lab.folders
      → IsForest (update_named env actor folder name parent_id lab).1.folders
  update_named-IsForest (raised message) parent_id stored forest = forest
  update_named-IsForest os_error parent_id stored forest = forest
  update_named-IsForest (ok name) parent_id stored forest =
      move-IsForest name (target_parent folder parent_id lab) stored
        (target_parent-Target folder lab parent_id) forest

  -- Moving or renaming a stored folder, whether it returns or raises, keeps the folders a forest: from
  -- each stored folder a chain of stored parents leads to one without a parent.
  pub update_folder-IsForest :
      (name : Text) (parent_id : Option (Option ℕ))
      → row folder_key folder.id lab.folders ≡ some folder
      → IsForest lab.folders
      → IsForest (update_folder env actor folder name parent_id lab).1.folders
  unfolding update_folder
  update_folder-IsForest name parent_id stored forest =
      update_named-IsForest (normalize_name name)
        (elim parent_id [ none ↦ folder.parent_id | some given ↦ given ]) stored forest
