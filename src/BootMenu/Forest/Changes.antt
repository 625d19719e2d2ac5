-- ===== src/BootMenu/Forest/Changes.antt =====
-- The folders stay a forest under all changes of the menu.
use home_lab_pxe.Prelude.{
  ℕ, suc, zero, ◌≡◌, ◌≢◌, refl, sym, ap, ◌∙◌, ◌==◌, ==_iff, false, Bool-cases, inl, inr, ◌⊎◌,
  Option, none, some, Option-cases, List, [], ◌∷◌, ◌++◌, any_is, arith, Text, Outcome, ok, raised,
  os_error,
}
use mathlib.Core.Path.{subst}
use home_lab_pxe.Models.{BootMenuFolder}
use home_lab_pxe.Lab.{Lab, Env, row, drop_row}
use home_lab_pxe.Lab.Tables.{row-drop_row, row-drop_row_ne, row-append, row-next_key}
use home_lab_pxe.Attempts.{record_activity}
use home_lab_pxe.BootMenu.{has_parent, get_folder, normalize_name, sibling_clash}
use home_lab_pxe.BootMenu.Changes.{
  new_parent, new_folder, place_folder, place_below, create_named, create_folder,
  folder_delete_blocked, delete_folder,
}
use home_lab_pxe.BootMenu.Folders.{below, unblocked}
use home_lab_pxe.BootMenu.Walks.{folder_key}
use home_lab_pxe.BootMenu.Moves.{update_folder}
use home_lab_pxe.BootMenu.Forest.{Rooted, IsForest}
use home_lab_pxe.BootMenu.Forest.Updates.{get_folder-got, update_folder-IsForest}

row-grown :
    (new : BootMenuFolder) (rows : List BootMenuFolder) (k : ℕ) (f : BootMenuFolder)
    → row folder_key k rows ≡ some f
    → row folder_key k (rows ++ new ∷ []) ≡ some f
unfolding row
row-grown new [] k f h = cc
row-grown new (r ∷ rows) k f h = ground (arith, h, row-grown new rows k f)

row-last :
    (new : BootMenuFolder) (rows : List BootMenuFolder)
    → row folder_key new.id rows ≡ none
    → row folder_key new.id (rows ++ new ∷ []) ≡ some new
unfolding row
row-last new [] h = ground arith
row-last new (r ∷ rows) h = ground (arith, h, row-last new rows)

-- One folder is added behind the others.
module _ (folders : List BootMenuFolder) (new : BootMenuFolder) where
  abbrev grown : List BootMenuFolder
  grown = folders ++ new ∷ []

  Rooted-grown : (n k : ℕ) → Rooted folders n k → Rooted grown n k
  Rooted-grown zero k (f, there, top) = (f, row-grown new folders k f there, top)
  Rooted-grown (suc n) k (f, j, there, parent, nonzero, rest) =
      (f, j, row-grown new folders k f there, parent, nonzero, Rooted-grown n j rest)

  -- The parent that a new folder may have.
  abbrev Parent : Type 0
  Parent =
      (has_parent new.parent_id ≡ false)
      ⊎ ((p : BootMenuFolder) × (new.parent_id ≡ some p.id)
          × (row folder_key p.id folders ≡ some p)
          × ((p.id == 0) ≡ false))

  last-Rooted :
      row folder_key new.id folders ≡ none
      → Parent
      → IsForest folders
      → (n : ℕ) × Rooted grown n new.id
  last-Rooted fresh (inl top) forest = (zero, (new, row-last new folders fresh, top))
  last-Rooted fresh (inr (p, below, there, nonzero)) forest =
      let (n, r) = forest.rooted p.id (λ gone. let no : none ≡ some p = sym gone ∙ there in cc) in
      (suc n, (new, p.id, row-last new folders fresh, below, nonzero, Rooted-grown n p.id r))

  grown-IsForest : row folder_key new.id folders ≡ none → Parent → IsForest folders → IsForest grown
  grown-IsForest fresh parent forest = record {
    rooted = λ k there. elim (Bool-cases (new.id == k)) [
      | inl e ↦
          let (n, r) = last-Rooted fresh parent forest in
          (n, subst (λ i. Rooted grown n i) ((==_iff new.id k).0 e) r)
      | inr ne ↦
          let (n, r) =
            forest.rooted k (λ gone. there (row-append folder_key k new folders gone ne)) in
          (n, Rooted-grown n k r)
    ];
  }

-- One folder that is the parent of none is dropped.
module _ (folders : List BootMenuFolder) (gone : ℕ)
    (childless : any_is (below gone) folders ≡ false) where
  abbrev pruned : List BootMenuFolder
  pruned = drop_row folder_key gone folders

  no_parent :
      (rows : List BootMenuFolder) (k : ℕ) (f : BootMenuFolder)
      → any_is (below gone) rows ≡ false
      → row folder_key k rows ≡ some f
      → below gone f ≡ false
  unfolding row
  no_parent [] k f h there = cc
  no_parent (r ∷ rows) k f h there = ground (arith, h, there, no_parent rows k f)

  Rooted-pruned : (n k : ℕ) → k ≢ gone → Rooted folders n k → Rooted pruned n k
  Rooted-pruned zero k ne (f, there, top) =
      (f, row-drop_row_ne folder_key k gone folders ne ∙ there, top)
  Rooted-pruned (suc n) k ne (f, j, there, parent, nonzero, rest) =
      let apart : j ≢ gone =
        λ e. absurd (ground (arith, e, parent, no_parent folders k f childless there)) in
      (
        f,
        j,
        row-drop_row_ne folder_key k gone folders ne ∙ there,
        parent,
        nonzero,
        Rooted-pruned n j apart rest,
      )

  pruned-IsForest : IsForest folders → IsForest pruned
  pruned-IsForest forest = record {
    rooted = λ k there. elim (Bool-cases (k == gone)) [
      | inl e ↦ absurd (there (rw ((==_iff k gone).0 e) (row-drop_row folder_key gone folders)))
      | inr ne ↦
          let apart : k ≢ gone = ground (arith, ne) in
          let (n, r) =
            forest.rooted k (λ none_there.
              there (row-drop_row_ne folder_key k gone folders apart ∙ none_there)) in
          (n, Rooted-pruned n k apart r)
    ];
  }

new_parent-Parent :
    (parent_id parent : Option ℕ) (lab : Lab) (name : Text)
    → new_parent parent_id lab ≡ ok parent
    → Parent lab.folders (new_folder name parent lab)
unfolding new_parent
new_parent-Parent parent_id parent lab name h = elim (Bool-cases (has_parent parent_id)) [
  | inr top ↦ let same : none ≡ parent = ground (arith, h, top) in inl (ap has_parent (sym same))
  | inl below ↦ elim (Option-cases (get_folder parent_id lab)) [
    | inl gone ↦ absurd (ground (arith, h, below, gone))
    | inr (p, found) ↦
        let (nonzero, there) = get_folder-got parent_id p lab found in
        inr (p, ground (arith, h, below, found), there, nonzero)
  ]
]

module _ (env : Env) (actor : Text) (lab : Lab) (forest : IsForest lab.folders) where
  place-IsForest :
      (name : Text) (parent : Option ℕ)
      → Parent lab.folders (new_folder name parent lab)
      → IsForest (place_folder env actor name parent lab).1.folders
  unfolding record_activity
  place-IsForest name parent safe = elim (Bool-cases (sibling_clash env parent name none lab)) [
    | inl taken ↦ rw taken forest
    | inr free ↦ rw free (
        grown-IsForest lab.folders (new_folder name parent lab)
          (row-next_key folder_key lab.folders) safe forest)
  ]

  below-IsForest :
      (name : Text) (parent : Outcome (Option ℕ))
      → ((p : Option ℕ) → parent ≡ ok p → Parent lab.folders (new_folder name p lab))
      → IsForest (place_below env actor name parent lab).1.folders
  below-IsForest name (ok parent) safe = place-IsForest name parent (safe parent refl)
  below-IsForest name (raised message) safe = forest
  below-IsForest name os_error safe = forest

  named-IsForest :
      (name : Outcome Text) (parent_id : Option ℕ)
      → IsForest (create_named env actor parent_id name lab).1.folders
  named-IsForest (ok name) parent_id =
      below-IsForest name (new_parent parent_id lab)
        (λ p e. new_parent-Parent parent_id p lab name e)
  named-IsForest (raised message) parent_id = forest
  named-IsForest os_error parent_id = forest

  create-IsForest :
      (name : Text) (parent_id : Option ℕ)
      → IsForest (create_folder env actor name parent_id lab).1.folders
  unfolding create_folder
  create-IsForest name parent_id = named-IsForest (normalize_name name) parent_id

  delete-IsForest :
      (folder : BootMenuFolder) → IsForest (delete_folder env actor folder lab).1.folders
  unfolding delete_folder record_activity
  delete-IsForest folder = elim (Option-cases (folder_delete_blocked folder lab)) [
    | inl e ↦ rw e (pruned-IsForest lab.folders folder.id (unblocked folder lab e).1 forest)
    | inr (reason, e) ↦ rw e forest
  ]

-- One call of the pages of the menu that changes the tree, whether it returns or raises.
pub data FolderStep (before after : Lab) : Type 0 where
  creates :
      (env : Env) (actor name : Text) (parent_id : Option ℕ)
      → (create_folder env actor name parent_id before).1 ≡ after
      → FolderStep before after
  updates :
      (env : Env) (actor : Text) (folder : BootMenuFolder) (name : Text)
      (parent_id : Option (Option ℕ))
      → row folder_key folder.id before.folders ≡ some folder
      → (update_folder env actor folder name parent_id before).1 ≡ after
      → FolderStep before after
  deletes :
      (env : Env) (actor : Text) (folder : BootMenuFolder)
      → (delete_folder env actor folder before).1 ≡ after
      → FolderStep before after

pub data FolderReach (start : Lab) : Lab → Type 0 where
  here : FolderReach start start
  next : {lab after : Lab} → FolderReach start lab → FolderStep lab after → FolderReach start after

step-IsForest :
    {before after : Lab}
    → FolderStep before after
    → IsForest before.folders
    → IsForest after.folders
step-IsForest {before} {after} (creates env actor name parent_id e) forest =
    subst (λ (l : Lab). IsForest l.folders) e
      (create-IsForest env actor before forest name parent_id)
step-IsForest {before} {after} (updates env actor folder name parent_id stored e) forest =
    subst (λ (l : Lab). IsForest l.folders) e
      (update_folder-IsForest env actor folder before name parent_id stored forest)
step-IsForest {before} {after} (deletes env actor folder e) forest =
    subst (λ (l : Lab). IsForest l.folders) e (delete-IsForest env actor before forest folder)

-- However creations, moves, renamings and deletions of folders follow one another from a state where a
-- chain of stored parents leads from each stored folder to one without a parent, whether they return
-- or raise, such chains exist in the state that is reached, so that no folder lies below itself. The
-- folders that are moved or renamed are stored ones.
pub FolderReach-IsForest :
    {start lab : Lab} → FolderReach start lab → IsForest start.folders → IsForest lab.folders
FolderReach-IsForest here forest = forest
FolderReach-IsForest (next r step) forest = step-IsForest step (FolderReach-IsForest r forest)
