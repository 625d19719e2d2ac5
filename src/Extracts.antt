-- ===== src/Extracts.antt =====
-- src/extract_worker.py, `gc_extract_generations`: directories of extracted media that neither the
-- current revision nor a running install needs are removed.
pub mod Pins
use home_lab_pxe.Prelude.{
  ℕ, ◌==◌, Bool, true, false, not, ◌&&◌, ◌||◌, Option, none, some, List, [], ◌∷◌, map, where_is,
  any_is, if◌then◌else◌,
}
use home_lab_pxe.Models.{Image, Iso, InstallAttempt}
use home_lab_pxe.Lab.{
  Lab, Env, row, ExtractBase, isos_extracts, uploads_extracts, smb, nfs, ExtractDir, DirName,
  revision, temporary, other_name,
}
use home_lab_pxe.Attempts.{is_open, is_for}

-- The argument is an Iso or an Image.
pub data Media : Type 0 where
  of_iso : Iso → Media
  of_image : Image → Media

abbrev linked : Image → Option Iso → Media
linked image none = of_image image
linked image (some iso) = of_iso iso

unfoldable pub owner_media : Lab → Media → Media
owner_media lab (of_iso iso) = of_iso iso
owner_media lab (of_image image) = elim image.iso_id [
  | none ↦ of_image image
  | some i ↦ if i == 0 then of_image image else linked image (row (λ iso. iso.id) i lab.isos)
]

abbrev pub owner_id : Media → ℕ
owner_id (of_iso iso) = iso.id
owner_id (of_image image) = image.id

abbrev pub current_revision : Media → ℕ
current_revision (of_iso iso) = iso.extract_revision
current_revision (of_image image) = image.extract_revision

-- The images whose installs read the media.
unfoldable pub media_images : Lab → Media → List ℕ
media_images lab (of_iso iso) =
    map (λ image. image.id) (where_is (λ image. is_for iso.id image.iso_id) lab.images)
media_images lab (of_image image) = image.id ∷ []

abbrev pub attempt_of : List ℕ → InstallAttempt → Bool
attempt_of ids attempt = elim attempt.image_id [ none ↦ false | some i ↦ any_is (λ j. i == j) ids ]

unfoldable pub pinned_revisions : Lab → Media → List ℕ
unfolding media_images
pinned_revisions lab media =
    map (λ attempt. attempt.extract_revision)
      (where_is (λ attempt. attempt_of (media_images lab media) attempt && is_open attempt)
        lab.attempts)

unfoldable pub keeps : ℕ → List ℕ → DirName → Bool
keeps current pinned (temporary t) = false
keeps current pinned (revision n) = n == current || any_is (λ r. n == r) pinned
keeps current pinned (other_name t) = true

abbrev pub same_base : ExtractBase → ExtractBase → Bool
same_base isos_extracts isos_extracts = true
same_base uploads_extracts uploads_extracts = true
same_base smb smb = true
same_base nfs nfs = true
same_base _ _ = false

-- The bases that the loop goes through, as they are named below the image root: `isos/<id>/extracts`,
-- `uploads/<id>/extracts`, `smb/<id>` and `nfs/<id>`.
abbrev pub swept_bases : ℕ → List (ExtractBase × ℕ)
swept_bases owner =
    (isos_extracts, owner) ∷ (uploads_extracts, owner) ∷ (smb, owner) ∷ (nfs, owner) ∷ []

-- A directory is a child of one of the bases.
abbrev pub is_swept : List (ExtractBase × ℕ) → ExtractDir → Bool
is_swept bases dir = any_is (λ base. same_base base.0 dir.base && base.1 == dir.owner) bases

-- `rmtree` ignores errors: a directory that cannot be removed stays.
abbrev pub sweep : Env → List (ExtractBase × ℕ) → ℕ → List ℕ → List ExtractDir → List ExtractDir
sweep env bases current pinned dirs =
    where_is
      (λ dir.
        not (is_swept bases dir) || keeps current pinned dir.name || not (env.removes_dir dir))
      dirs

unfoldable pub gc_extract_generations : Env → Media → Lab → Lab
gc_extract_generations env given lab =
    let media = owner_media lab given in
    record lab {
      extract_dirs =
          sweep env (swept_bases (owner_id media)) (current_revision media)
            (pinned_revisions lab media) lab.extract_dirs;
    }
