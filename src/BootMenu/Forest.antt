-- ===== src/BootMenu/Forest.antt =====
-- The folders of the boot menu are a forest: a chain of stored parents leads from each to a root.
pub mod Updates
pub mod Changes
use mathlib.Core.Path.{subst}
use home_lab_pxe.Prelude.{
  ℕ, suc, zero, ◌+◌, ◌≤◌, ◌<◌, ◌≡◌, ◌≢◌, refl, sym, ap, ◌∙◌, ◌==◌, ==_iff, Bool, true, false, not,
  ◌||◌, Bool-cases, inl, inr, ◌⊎◌, Option, none, some, Option-cases, List, [], ◌∷◌, length, any_is,
  if◌then◌else◌, arith, Text, text_eq, All, Outcome, ok, raised, os_error,
}
use home_lab_pxe.Models.{BootMenuFolder}
use home_lab_pxe.Lab.{Lab, Env, row, put_row}
use home_lab_pxe.Lab.Tables.{row-put_row, key-row, present}
use home_lab_pxe.Attempts.{record_activity}
use home_lab_pxe.BootMenu.{
  next_folder_sort, has_parent, get_folder, sees, and_then, visited, visits, same_parent,
  normalize_name, sibling_clash,
}
use home_lab_pxe.BootMenu.Walks.{folder_key, visits-ends}
use home_lab_pxe.BootMenu.Moves.{
  holds_id, is_self_or_descendant, target_parent, below_parent, moved, save_folder, note_move,
  move_folder, update_named, update_folder,
}

-- A chain of so many parents leads from the key of a stored folder to a folder without a parent.
abbrev pub Rooted : List BootMenuFolder → ℕ → ℕ → Type 0
Rooted folders zero k =
    (f : BootMenuFolder) × (row folder_key k folders ≡ some f) × (has_parent f.parent_id ≡ false)
Rooted folders (suc n) k =
    (f : BootMenuFolder) × (j : ℕ) × (row folder_key k folders ≡ some f)
    × (f.parent_id ≡ some j)
    × ((j == 0) ≡ false)
    × Rooted folders n j

-- Every stored folder has such a chain, so that no folder lies below itself.
pub record IsForest (folders : List BootMenuFolder) : Type 0 where
  pub rooted : (k : ℕ) → row folder_key k folders ≢ none → (n : ℕ) × Rooted folders n k

pub some_same : (o : Option BootMenuFolder) (f g : BootMenuFolder) → o ≡ some f → o ≡ some g → f ≡ g
some_same o f g a b = let both : some f ≡ some g = sym a ∙ b in cc

module _ (folders : List BootMenuFolder) where
  Rooted-height : (m n k : ℕ) → Rooted folders m k → Rooted folders n k → m ≡ n
  Rooted-height zero zero k r s = refl
  Rooted-height zero (suc n) k (f, there, top) (g, j, its, below, nonzero, rest) =
      let same = some_same (row folder_key k folders) f g there its in
      absurd (ground (arith, top, same, below, nonzero))
  Rooted-height (suc m) zero k (f, j, there, below, nonzero, rest) (g, its, top) =
      let same = some_same (row folder_key k folders) f g there its in
      absurd (ground (arith, top, same, below, nonzero))
  Rooted-height (suc m) (suc n) k (f, i, there, above, positive, more)
        (g, j, its, below, nonzero, rest) =
      let same = some_same (row folder_key k folders) f g there its in
      let parent : i ≡ j = ground (arith, above, below, same) in
      ap suc (Rooted-height m n j (subst (λ p. Rooted folders m p) parent more) rest)

  -- What was seen on the way up lies below.
  abbrev SeenBelow : ℕ → List ℕ → Type 0
  SeenBelow n seen = All (λ k. (m : ℕ) × (n < m) × Rooted folders m k) seen

  unseen : (n k : ℕ) (seen : List ℕ) → Rooted folders n k → SeenBelow n seen → sees k seen ≡ false
  unseen n k [] r below = refl
  unseen n k (j ∷ seen) r ((m, deeper, s), below) = elim (Bool-cases (j == k)) [
    | inl e ↦
        let same : j ≡ k = (==_iff j k).0 e in
        absurd
          (omega (arith, deeper, Rooted-height m n k (subst (λ i. Rooted folders m i) same s) r))
    | inr e ↦ rw e (unseen n k seen r below)
  ]

  lower : (n : ℕ) (seen : List ℕ) → SeenBelow (suc n) seen → SeenBelow n seen
  lower n [] below = tt
  lower n (k ∷ seen) ((m, deeper, s), below) = ((m, omega (arith, deeper), s), lower n seen below)

  Rooted-row :
      (n k : ℕ) → Rooted folders n k → (f : BootMenuFolder) × (row folder_key k folders ≡ some f)
  Rooted-row zero k (f, there, top) = (f, there)
  Rooted-row (suc n) k (f, j, there, parent, nonzero, rest) = (f, there)

and_then-inv :
    (f : BootMenuFolder) (rest : Option (List BootMenuFolder)) (vs : List BootMenuFolder)
    → and_then f rest ≡ some vs
    → (ws : List BootMenuFolder) × (rest ≡ some ws) × (vs ≡ f ∷ ws)
and_then-inv f none vs h = cc
and_then-inv f (some ws) vs h = (ws, refl, cc)

visited-head :
    (rounds : ℕ) (seen : List ℕ) (f : BootMenuFolder) (lab : Lab) (vs : List BootMenuFolder)
    → visited rounds seen f lab ≡ some vs
    → (ws : List BootMenuFolder) × (vs ≡ f ∷ ws)
unfolding visited
visited-head zero seen f lab vs h = cc
visited-head (suc rounds) seen f lab vs h =
    elim (Bool-cases (not (has_parent f.parent_id) || sees f.id seen)) [
      | inl stop ↦ ([], let one : some (f ∷ []) ≡ some vs = rw stop at h in cc)
      | inr go ↦ elim (Option-cases (get_folder f.parent_id lab)) [
        | inl gone ↦ ([], let one : some (f ∷ []) ≡ some vs = rw (go, gone) at h in cc)
        | inr (p, found) ↦
            let inv =
              and_then-inv f (visited rounds (f.id ∷ seen) p lab) vs (rw (go, found) at h) in
            (inv.0, inv.2)
      ]
    ]

get_folder-row :
    (k : ℕ) (lab : Lab) → (k == 0) ≡ false → get_folder (some k) lab ≡ row folder_key k lab.folders
unfolding get_folder
get_folder-row k lab h = rw h refl

-- One folder of the table is written anew.
module _ (lab : Lab) (new : BootMenuFolder) where
  abbrev after : List BootMenuFolder
  after = put_row folder_key new lab.folders

  row-other :
      (k : ℕ) → (new.id == k) ≡ false → row folder_key k after ≡ row folder_key k lab.folders
  row-other k ne = row-put_row folder_key k new lab.folders ∙ rw ne refl

  -- The chain of a folder that does not pass the one that is written.
  Rooted-avoiding :
      (n rounds : ℕ) (seen : List ℕ) (f : BootMenuFolder) (vs : List BootMenuFolder)
      → Rooted lab.folders n f.id
      → row folder_key f.id lab.folders ≡ some f
      → SeenBelow lab.folders n seen
      → visited rounds seen f lab ≡ some vs
      → any_is (λ g. g.id == new.id) vs ≡ false
      → Rooted after n f.id
  unfolding visited
  Rooted-avoiding zero rounds seen f vs (g, there, top) stored below walked free =
      let (ws, head) = visited-head rounds seen f lab vs walked in
      let ne : (new.id == f.id) ≡ false = ground (arith, free, head) in
      (g, row-other f.id ne ∙ there, top)
  Rooted-avoiding (suc n) zero seen f vs r stored below walked free = cc
  Rooted-avoiding (suc n) (suc rounds) seen f vs (g, j, there, parent, nonzero, rest) stored below
        walked free =
      let same = some_same (row folder_key f.id lab.folders) g f there stored in
      let up : f.parent_id ≡ some j = ap (λ h. h.parent_id) (sym same) ∙ parent in
      let go : (not (has_parent f.parent_id) || sees f.id seen) ≡ false = ground (
        arith,
        up,
        nonzero,
        unseen lab.folders (suc n) f.id seen (g, j, there, parent, nonzero, rest) below,
      ) in
      let (p, found) = Rooted-row lab.folders n j rest in
      let got : get_folder f.parent_id lab ≡ some p =
        ap (λ o. get_folder o lab) up ∙ get_folder-row j lab nonzero ∙ found in
      let (ws, later, whole) =
        and_then-inv f (visited rounds (f.id ∷ seen) p lab) vs (rw (go, got) at walked) in
      let own : p.id ≡ j = key-row folder_key j lab.folders p found in
      let ne : (new.id == f.id) ≡ false = ground (arith, free, whole) in
      let above : Rooted after n p.id =
        Rooted-avoiding n rounds (f.id ∷ seen) p ws
          (subst (λ i. Rooted lab.folders n i) (sym own) rest)
          (ap (λ i. row folder_key i lab.folders) own ∙ found)
          (
            (suc n, omega arith, (g, j, there, parent, nonzero, rest)),
            lower lab.folders n seen below,
          )
          later (ground (arith, free, whole)) in
      (f, j, row-other f.id ne ∙ stored, up, nonzero, subst (λ i. Rooted after n i) own above)

  pub row-own :
      (old : BootMenuFolder)
      → row folder_key new.id lab.folders ≡ some old
      → row folder_key new.id after ≡ some new
  row-own old stored = row-put_row folder_key new.id new lab.folders ∙ ground (arith, stored)

  -- The chains of all folders follow from that of the one that is written.
  Rooted-same :
      (k : ℕ) → (new.id == k) ≡ true → (m : ℕ) × Rooted after m new.id → (m : ℕ) × Rooted after m k
  Rooted-same k e (m, own) = (m, subst (λ i. Rooted after m i) ((==_iff new.id k).0 e) own)

  Rooted-rest :
      (n k : ℕ)
      → Rooted lab.folders n k
      → (m : ℕ) × Rooted after m new.id
      → (m : ℕ) × Rooted after m k
  Rooted-rest zero k (f, there, top) own = elim (Bool-cases (new.id == k)) [
    | inl e ↦ Rooted-same k e own
    | inr ne ↦ (zero, (f, row-other k ne ∙ there, top))
  ]
  Rooted-rest (suc n) k (f, j, there, parent, nonzero, rest) own = elim (Bool-cases (new.id == k)) [
    | inl e ↦ Rooted-same k e own
    | inr ne ↦
        let (m, above) = Rooted-rest n j rest own in
        (suc m, (f, j, row-other k ne ∙ there, parent, nonzero, above))
  ]

  was-stored : (k : ℕ) → row folder_key k after ≢ none → row folder_key k lab.folders ≢ none
  was-stored k there gone = there (row-put_row folder_key k new lab.folders ∙ ground (arith, gone))

  pub written-IsForest : IsForest lab.folders → (m : ℕ) × Rooted after m new.id → IsForest after
  written-IsForest forest own = record {
    rooted = λ k there. let (n, r) = forest.rooted k (was-stored k there) in Rooted-rest n k r own;
  }

  -- A row that keeps its parent.
  Rooted-kept :
      (old : BootMenuFolder)
      → row folder_key new.id lab.folders ≡ some old
      → new.parent_id ≡ old.parent_id
      → (n k : ℕ) → Rooted lab.folders n k
      → Rooted after n k
  Rooted-kept old stored kept zero k (f, there, top) = elim (Bool-cases (new.id == k)) [
    | inl e ↦
        let same : new.id ≡ k = (==_iff new.id k).0 e in
        let was : old ≡ f =
          some_same (row folder_key k lab.folders) old f
            (ap (λ i. row folder_key i lab.folders) (sym same) ∙ stored) there in
        (
          new,
          ap (λ i. row folder_key i after) (sym same) ∙ row-own old stored,
          ground (arith, kept, was, top),
        )
    | inr ne ↦ (f, row-other k ne ∙ there, top)
  ]
  Rooted-kept old stored kept (suc n) k (f, j, there, parent, nonzero, rest) =
      elim (Bool-cases (new.id == k)) [
        | inl e ↦
            let same : new.id ≡ k = (==_iff new.id k).0 e in
            let was : old ≡ f =
              some_same (row folder_key k lab.folders) old f
                (ap (λ i. row folder_key i lab.folders) (sym same) ∙ stored) there in
            (
              new,
              j,
              ap (λ i. row folder_key i after) (sym same) ∙ row-own old stored,
              kept ∙ ap (λ g. g.parent_id) was ∙ parent,
              nonzero,
              Rooted-kept old stored kept n j rest,
            )
        | inr ne ↦
            (f, j, row-other k ne ∙ there, parent, nonzero, Rooted-kept old stored kept n j rest)
      ]

  pub kept-IsForest :
      (old : BootMenuFolder)
      → row folder_key new.id lab.folders ≡ some old
      → new.parent_id ≡ old.parent_id
      → IsForest lab.folders
      → IsForest after
  kept-IsForest old stored kept forest = record {
    rooted = λ k there.
        let (n, r) = forest.rooted k (was-stored k there) in (n, Rooted-kept old stored kept n k r);
  }

  -- A row below a folder whose chain does not pass it.
  pub below-Rooted :
      (old p : BootMenuFolder)
      → row folder_key new.id lab.folders ≡ some old
      → row folder_key p.id lab.folders ≡ some p
      → new.parent_id ≡ some p.id
      → (p.id == 0) ≡ false
      → is_self_or_descendant p new.id lab ≡ false
      → IsForest lab.folders
      → (m : ℕ) × Rooted after m new.id
  unfolding is_self_or_descendant visits
  below-Rooted old p stored parent below nonzero free forest =
      let there : row folder_key p.id lab.folders ≢ none =
        λ gone. let no : none ≡ some p = sym gone ∙ parent in cc in
      let (n, r) = forest.rooted p.id there in
      elim (Option-cases (visits p lab)) [
        | inl ends ↦ absurd (visits-ends p lab there ends)
        | inr (vs, walked) ↦ (
          suc n,
          (
            new,
            p.id,
            row-own old stored,
            below,
            nonzero,
            Rooted-avoiding n (suc (length lab.folders)) [] p vs r parent tt walked
                (ground (arith, free, walked)),
          ),
        )
      ]
