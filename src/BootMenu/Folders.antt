-- ===== src/BootMenu/Folders.antt =====
-- The names of the folders below one parent, and that a folder in use is not deleted.
use home_lab_pxe.Prelude.{
  ℕ, ◌≤◌, ◌≡◌, refl, sym, ◌∙◌, ap, Text, text_eq_iff, ==_iff, leb, Bool, true, false, ◌&&◌, ◌||◌,
  Bool-cases, Option-cases, ◌⊎◌, inl, inr, Option, none, some, List, [], ◌∷◌, ◌++◌, length,
  where_is, any_is, count_is, count_is-append, is_nil, Outcome, ok, raised, os_error, arith, String,
}
use home_lab_pxe.Models.{BootMenuFolder}
use home_lab_pxe.Lab.{Lab, Env, row, drop_row}
use home_lab_pxe.Lab.Tables.{row-drop_row}
use home_lab_pxe.Attempts.{record_activity}
use home_lab_pxe.BootMenu.{
  same_parent, named, insert_folder, sort_folders, list_child_folders, sibling_clash,
  normalize_name,
}
use home_lab_pxe.BootMenu.Changes.{
  new_parent, new_folder, place_folder, place_below, create_named, create_folder, has_images,
  folder_delete_blocked, delete_folder,
}

-- The folders below a parent whose name folds to a text.
abbrev pub alike : Env → Option ℕ → Text → BootMenuFolder → Bool
alike env parent needle f = same_parent f.parent_id parent && named env needle f

-- No two folders below one parent have names that differ in case only.
pub record IsTidy (env : Env) (folders : List BootMenuFolder) : Type 0 where
  pub at_most_one :
      (parent : Option ℕ) (needle : Text) → count_is (alike env parent needle) folders ≤ 1

any_is-insert :
    (p : BootMenuFolder → Bool) (a : BootMenuFolder) (rows : List BootMenuFolder)
    → any_is p (insert_folder a rows) ≡ p a || any_is p rows
unfolding insert_folder
any_is-insert p a [] = refl
any_is-insert p a (b ∷ rows) = ground (arith, any_is-insert p a rows)

any_is-sort :
    (p : BootMenuFolder → Bool) (rows : List BootMenuFolder)
    → any_is p (sort_folders rows) ≡ any_is p rows
unfolding sort_folders
any_is-sort p [] = refl
any_is-sort p (a ∷ rows) =
    any_is-insert p a (sort_folders rows) ∙ ap (λ b. p a || b) (any_is-sort p rows)

count-where_is :
    (p q : BootMenuFolder → Bool) (rows : List BootMenuFolder)
    → any_is q (where_is p rows) ≡ false
    → count_is (λ f. p f && q f) rows ≡ 0
count-where_is p q [] h = refl
count-where_is p q (a ∷ rows) h = ground (arith, count-where_is p q rows)

module _ (env : Env) (parent : Option ℕ) (name : Text) (lab : Lab) where
  -- Where no sibling clashes, no folder is alike.
  no_clash :
      sibling_clash env parent name none lab ≡ false
      → count_is (alike env parent (env.casefold name)) lab.folders ≡ 0
  unfolding sibling_clash list_child_folders
  no_clash h =
      let siblings = λ (f : BootMenuFolder). same_parent f.parent_id parent in
      let clash = named env (env.casefold name) in
      count-where_is siblings clash lab.folders
        (sym (any_is-sort clash (where_is siblings lab.folders)) ∙ h)

same_parent_sound : (p q : Option ℕ) → same_parent p q ≡ true → p ≡ q
same_parent_sound none none h = refl
same_parent_sound (some i) (some j) h = ap some ((==_iff i j).0 h)
same_parent_sound none (some j) h = ground arith
same_parent_sound (some i) none h = ground arith

module _ (env : Env) (folders : List BootMenuFolder) (folder : BootMenuFolder) where
  alike_own :
      (parent : Option ℕ) (needle : Text)
      → alike env parent needle folder ≡ true
      → (parent ≡ folder.parent_id) × (needle ≡ env.casefold folder.name)
  alike_own parent needle h = elim (Bool-cases (same_parent folder.parent_id parent)) [
    | inl e ↦ (
      sym (same_parent_sound folder.parent_id parent e),
      sym ((text_eq_iff (env.casefold folder.name) needle).0 (rw e at h)),
    )
    | inr e ↦ cc (rw e at h)
  ]

  added-IsTidy :
      count_is (alike env folder.parent_id (env.casefold folder.name)) folders ≡ 0
      → IsTidy env folders
      → IsTidy env (folders ++ folder ∷ [])
  added-IsTidy none_alike tidy = record {
    at_most_one = λ parent needle. elim (Bool-cases (alike env parent needle folder)) [
      | inl e ↦
          let (same, fold) = alike_own parent needle e in
          let free : count_is (alike env parent needle) folders ≡ 0 = rw (same, fold) none_alike in
          ground (arith, count_is-append (alike env parent needle) folders (folder ∷ []), free)
      | inr e ↦ ground (
        arith,
        count_is-append (alike env parent needle) folders (folder ∷ []),
        tidy.at_most_one parent needle,
        e,
      )
    ];
  }

module _ (env : Env) (actor : Text) where
  place-IsTidy :
      (name : Text) (parent : Option ℕ) (lab : Lab)
      → IsTidy env lab.folders
      → IsTidy env (place_folder env actor name parent lab).1.folders
  unfolding record_activity
  place-IsTidy name parent lab tidy = elim (Bool-cases (sibling_clash env parent name none lab)) [
    | inl e ↦ rw e tidy
    | inr e ↦ rw e (
        added-IsTidy env lab.folders (new_folder name parent lab) (no_clash env parent name lab e)
          tidy)
  ]

  below-IsTidy :
      (name : Text) (parent : Outcome (Option ℕ)) (lab : Lab)
      → IsTidy env lab.folders
      → IsTidy env (place_below env actor name parent lab).1.folders
  below-IsTidy name (ok parent) lab tidy = place-IsTidy name parent lab tidy
  below-IsTidy name (raised message) lab tidy = tidy
  below-IsTidy name os_error lab tidy = tidy

  named-IsTidy :
      (name : Outcome Text) (parent_id : Option ℕ) (lab : Lab)
      → IsTidy env lab.folders
      → IsTidy env (create_named env actor parent_id name lab).1.folders
  named-IsTidy (ok name) parent_id lab tidy = below-IsTidy name (new_parent parent_id lab) lab tidy
  named-IsTidy (raised message) parent_id lab tidy = tidy
  named-IsTidy os_error parent_id lab tidy = tidy

  -- Creating a folder, with whatever name and parent, keeps the folders below each parent with names
  -- that differ in more than case, whether it returns or raises.
  pub create_folder-IsTidy :
      (name : Text) (parent_id : Option ℕ) (lab : Lab)
      → IsTidy env lab.folders
      → IsTidy env (create_folder env actor name parent_id lab).1.folders
  unfolding create_folder
  create_folder-IsTidy name parent_id lab tidy =
      named-IsTidy (normalize_name name) parent_id lab tidy

any_is-where_is :
    (p : BootMenuFolder → Bool) (rows : List BootMenuFolder)
    → any_is (λ f. true) (where_is p rows) ≡ any_is p rows
any_is-where_is p [] = refl
any_is-where_is p (a ∷ rows) = ground (arith, any_is-where_is p rows)

no_row : (rows : List BootMenuFolder) → is_nil rows ≡ true → any_is (λ f. true) rows ≡ false
no_row [] h = refl
no_row (a ∷ rows) h = ground arith

any_is-drop_row :
    (p : BootMenuFolder → Bool) (k : ℕ) (rows : List BootMenuFolder)
    → any_is p rows ≡ false
    → any_is p (drop_row (λ (f : BootMenuFolder). f.id) k rows) ≡ false
unfolding drop_row
any_is-drop_row p k [] h = refl
any_is-drop_row p k (a ∷ rows) h = ground (arith, any_is-drop_row p k rows)

abbrev pub below : ℕ → BootMenuFolder → Bool
below folder_id f = same_parent f.parent_id (some folder_id)

no_child :
    (folder_id : ℕ) (lab : Lab)
    → is_nil (list_child_folders (some folder_id) lab) ≡ true
    → any_is (below folder_id) lab.folders ≡ false
unfolding list_child_folders
no_child folder_id lab h =
    sym (any_is-where_is (below folder_id) lab.folders)
    ∙ sym (any_is-sort (λ f. true) (where_is (below folder_id) lab.folders))
    ∙ no_row (sort_folders (where_is (below folder_id) lab.folders)) h

-- What an unblocked folder is: childless, without images, and not the last one.
abbrev pub Unused : BootMenuFolder → Lab → Type 0
Unused folder lab =
    (leb (length lab.folders) 1 ≡ false)
    × (any_is (below folder.id) lab.folders ≡ false)
    × (has_images folder.id lab ≡ false)

pub unblocked :
    (folder : BootMenuFolder) (lab : Lab)
    → folder_delete_blocked folder lab ≡ none
    → Unused folder lab
unfolding folder_delete_blocked
unblocked folder lab h =
    (ground (arith, h), no_child folder.id lab (ground (arith, h)), ground (arith, h))

module _ (env : Env) (actor : Text) (folder : BootMenuFolder) (lab : Lab) where
  -- Deleting a folder either raises and changes nothing, or returns; it returns only where another
  -- folder is left, and then the folder is gone, and no folder and no image refers to it.
  pub delete_folder-cases :
      let r = delete_folder env actor folder lab in
      ((reason : String) × (r ≡ (raised reason, lab)))
      ⊎ ((r.0 ≡ ok tt)
          × (2 ≤ length lab.folders)
          × (row (λ (f : BootMenuFolder). f.id) folder.id r.1.folders ≡ none)
          × (any_is (below folder.id) r.1.folders ≡ false)
          × (has_images folder.id r.1 ≡ false))
  unfolding delete_folder record_activity
  delete_folder-cases = elim (Option-cases (folder_delete_blocked folder lab)) [
    | inl e ↦
        let (several, childless, imageless) = unblocked folder lab e in
        inr (
          rw e (
            refl,
            ground (arith, several),
            row-drop_row (λ (f : BootMenuFolder). f.id) folder.id lab.folders,
            any_is-drop_row (below folder.id) folder.id lab.folders childless,
            imageless,
          ))
    | inr (reason, e) ↦ inl (reason, rw e refl)
  ]
