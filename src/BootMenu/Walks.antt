-- ===== src/BootMenu/Walks.antt =====
-- The loops up the parents of a folder end: a table of folders cannot be walked through for more
-- rounds than it has rows.
use home_lab_pxe.Prelude.{
  ℕ, suc, zero, ◌+◌, ◌≤◌, ◌<◌, ◌≡◌, ◌≢◌, refl, ◌==◌, false, not, ◌||◌, Bool-cases, inl, inr, Option,
  none, some, Option-cases, List, [], ◌∷◌, length, arith,
}
use home_lab_pxe.Models.{BootMenuFolder}
use home_lab_pxe.Lab.{Lab, row, drop_row}
use home_lab_pxe.Lab.Tables.{row-drop_row_ne, key-row}
use home_lab_pxe.BootMenu.{has_parent, get_folder, sees, and_then, visited, visits}

abbrev pub folder_key : BootMenuFolder → ℕ
folder_key f = f.id

-- The keys are distinct, and each has a row.
abbrev pub AllStored : List ℕ → List BootMenuFolder → Type 0
AllStored [] folders = Unit
AllStored (k ∷ ks) folders =
    (row folder_key k folders ≢ none) × (sees k ks ≡ false) × AllStored ks folders

length-drop_row-le :
    (k : ℕ) (folders : List BootMenuFolder)
    → length (drop_row folder_key k folders) ≤ length folders
unfolding drop_row
length-drop_row-le k [] = omega arith
length-drop_row-le k (f ∷ folders) = ground (arith, length-drop_row-le k folders)

length-drop_row-lt :
    (k : ℕ) (folders : List BootMenuFolder)
    → row folder_key k folders ≢ none
    → length (drop_row folder_key k folders) < length folders
unfolding drop_row row
length-drop_row-lt k [] h = absurd (h refl)
length-drop_row-lt k (f ∷ folders) h = elim (Bool-cases (f.id == k)) [
  | inl e ↦ rw e (omega (arith, length-drop_row-le k folders))
  | inr e ↦ rw e (omega (arith, length-drop_row-lt k folders (rw e at h)))
]

AllStored-drop_row :
    (k : ℕ) (ks : List ℕ) (folders : List BootMenuFolder)
    → sees k ks ≡ false
    → AllStored ks folders
    → AllStored ks (drop_row folder_key k folders)
AllStored-drop_row k [] folders h all = tt
AllStored-drop_row k (j ∷ ks) folders h (there, new, rest) = (
  rw (row-drop_row_ne folder_key j k folders (ground (arith, h))) there,
  new,
  AllStored-drop_row k ks folders (ground (arith, h)) rest,
)

-- Distinct keys of rows are no more than there are rows.
length-AllStored :
    (ks : List ℕ) (folders : List BootMenuFolder)
    → AllStored ks folders
    → length ks ≤ length folders
length-AllStored [] folders all = omega arith
length-AllStored (k ∷ ks) folders (there, new, rest) = omega (
  arith,
  length-AllStored ks (drop_row folder_key k folders) (AllStored-drop_row k ks folders new rest),
  length-drop_row-lt k folders there,
)

pub get_folder-stored :
    (parent_id : Option ℕ) (parent : BootMenuFolder) (lab : Lab)
    → get_folder parent_id lab ≡ some parent
    → row folder_key parent.id lab.folders ≢ none
unfolding get_folder
get_folder-stored none parent lab h = absurd cc
get_folder-stored (some k) parent lab h = elim (Bool-cases (k == 0)) [
  | inl z ↦ absurd (let no : none ≡ some parent = rw z at h in cc)
  | inr z ↦
      let found : row folder_key k lab.folders ≡ some parent = rw z at h in
      let same : folder_key parent ≡ k = key-row folder_key k lab.folders parent found in
      rw (same, found) (λ e. cc)
]

and_then-some :
    (folder : BootMenuFolder) (visits : Option (List BootMenuFolder))
    → visits ≢ none
    → and_then folder visits ≢ none
and_then-some folder none h e = h refl
and_then-some folder (some visits) h e = cc

visited-ends :
    (rounds : ℕ) (seen : List ℕ) (folder : BootMenuFolder) (lab : Lab)
    → AllStored seen lab.folders
    → row folder_key folder.id lab.folders ≢ none
    → length lab.folders < length seen + rounds
    → visited rounds seen folder lab ≢ none
unfolding visited
visited-ends zero seen folder lab all there h =
    absurd (omega (arith, h, length-AllStored seen lab.folders all))
visited-ends (suc rounds) seen folder lab all there h =
    elim (Bool-cases (not (has_parent folder.parent_id) || sees folder.id seen)) [
      | inl stop ↦ rw stop (λ e. cc)
      | inr go ↦ rw go (elim (Option-cases (get_folder folder.parent_id lab)) [
        | inl gone ↦ rw gone (λ e. cc)
        | inr (parent, found) ↦ rw found (
            and_then-some folder (visited rounds (folder.id ∷ seen) parent lab) (
              visited-ends rounds (folder.id ∷ seen) parent lab (there, ground (arith, go), all)
                (get_folder-stored folder.parent_id parent lab found) (omega (arith, h))))
      ])
    ]

-- The loop that walks up from a stored folder ends within one round more than there are folders,
-- whatever the parents are, cycles included.
pub visits-ends :
    (folder : BootMenuFolder) (lab : Lab)
    → row folder_key folder.id lab.folders ≢ none
    → visits folder lab ≢ none
unfolding visits
visits-ends folder lab there =
    visited-ends (suc (length lab.folders)) [] folder lab tt there (omega arith)
