-- ===== src/Isos/Mirrors.antt =====
-- A template shows the media columns of its ISO, whatever happens to the ISO.
use home_lab_pxe.Prelude.{
  ℕ, ◌≡◌, refl, sym, ap, ◌∙◌, ◌==◌, ==_iff, true, false, Bool-cases, inl, inr, ◌⊎◌, Option, none,
  some, Option-cases, List, [], ◌∷◌, map, is_nil, if◌then◌else◌, arith, All,
}
use home_lab_pxe.Models.{Image, Iso}
use home_lab_pxe.Lab.{Lab, Env}
use home_lab_pxe.Lab.Tables.{row-put_row}
use home_lab_pxe.Catalog.{InstallSource, catalog_from_json, pick_source_id, wim_index_for_source}
use home_lab_pxe.Isos.{
  iso_in, get_iso, uses_iso, mirror, with_index, choose_source, linux_boot_mode, sync_template,
  sync_templates, save_iso,
}

-- The columns that a template shows are those of the ISO.
abbrev pub Mirrors : Iso → Image → Type 0
Mirrors iso image = mirror iso image ≡ image

-- Every template of a stored ISO mirrors it.
pub record IsMirrored (lab : Lab) : Type 0 where
  pub mirrors :
      All
        (λ image. (iso : Iso) → get_iso image.iso_id lab ≡ some iso → Mirrors iso image)
        lab.images

index-Mirrors :
    (iso : Iso) (n : Option ℕ) (image : Image)
    → Mirrors iso image
    → Mirrors iso (with_index n image)
index-Mirrors iso none image h = h
index-Mirrors iso (some n) image h = ap (λ (i : Image). record i { wim_index = n }) h

choose-Mirrors :
    (iso : Iso) (options : List InstallSource) (image : Image)
    → Mirrors iso (choose_source options (mirror iso image))
choose-Mirrors iso [] image = refl
choose-Mirrors iso (item ∷ items) image =
    let options = item ∷ items in
    let chosen = pick_source_id options image.source_id in
    index-Mirrors iso (wim_index_for_source options chosen)
      (record (mirror iso image) { source_id = chosen }) refl

pub sync_template-Mirrors :
    (env : Env) (iso : Iso) (image : Image) → Mirrors iso (sync_template env iso image)
unfolding sync_template
sync_template-Mirrors env iso image = elim (Bool-cases (is_nil (linux_boot_mode env iso))) [
  | inl e ↦ rw e (choose-Mirrors iso (catalog_from_json env iso.source_options) image)
  | inr e ↦ rw e refl
]

abbrev pub iso_key : Iso → ℕ
iso_key iso = iso.id

pub All-map :
    (P Q : Image → Type 0) (f : Image → Image) (images : List Image)
    → ((image : Image) → P image → Q (f image))
    → All P images
    → All Q (map f images)
All-map P Q f [] h all = tt
All-map P Q f (image ∷ images) h all = (h image all.0, All-map P Q f images h all.1)

All-imp :
    (P Q : Image → Type 0) (images : List Image)
    → ((image : Image) → P image → Q image)
    → All P images
    → All Q images
All-imp P Q [] h all = tt
All-imp P Q (image ∷ images) h all = (h image all.0, All-imp P Q images h all.1)

module _ (iso : Iso) (lab : Lab) where
  -- What a table with a changed ISO shows.
  pub get-saved :
      (j : ℕ) (found : Iso)
      → get_iso (some j) (save_iso iso lab) ≡ some found
      → ((j ≡ iso.id) × (found ≡ iso))
        ⊎ ((j == iso.id ≡ false) × (get_iso (some j) lab ≡ some found))
  unfolding iso_in
  get-saved j found h = elim (Bool-cases (j == iso.id)) [
    | inl e ↦
        let same : j ≡ iso.id = (==_iff j iso.id).0 e in
        inl (same, ground (arith, h, e, row-put_row iso_key j iso lab.isos))
    | inr e ↦ inr (e, ground (arith, h, e, row-put_row iso_key j iso lab.isos))
  ]

module _ (env : Env) (iso : Iso) (lab : Lab) where
  abbrev synced_or : Image → Image
  synced_or image = if uses_iso iso.id image then sync_template env iso image else image

  abbrev Shown : Lab → Image → Type 0
  Shown state image = (found : Iso) → get_iso image.iso_id state ≡ some found → Mirrors found image

  hit-synced :
      (image : Image) → uses_iso iso.id image ≡ true → synced_or image ≡ sync_template env iso image
  hit-synced image e = rw e

  synced-miss : (image : Image) → uses_iso iso.id image ≡ false → synced_or image ≡ image
  synced-miss image e = rw e

  sync-iso_id : (image : Image) → (sync_template env iso image).iso_id ≡ some iso.id
  sync-iso_id image = sym (ap (λ (i : Image). i.iso_id) (sync_template-Mirrors env iso image))

  hit-Shown : (image : Image) → Shown (save_iso iso lab) (sync_template env iso image)
  hit-Shown image found h =
      elim (get-saved iso lab iso.id found
        (ap (λ k. get_iso k (save_iso iso lab)) (sym (sync-iso_id image)) ∙ h)) [
          | inl (own, same) ↦ rw same (sync_template-Mirrors env iso image)
          | inr (ne, other) ↦ absurd (ground arith)
        ]

  miss-Shown :
      (image : Image)
      → uses_iso iso.id image ≡ false
      → Shown lab image
      → Shown (save_iso iso lab) image
  unfolding iso_in
  miss-Shown image miss shown found h = elim (Option-cases image.iso_id) [
    | inl e ↦ cc (rw e at h)
    | inr (j, e) ↦
        elim (get-saved iso lab j found (ap (λ k. get_iso k (save_iso iso lab)) (sym e) ∙ h)) [
          | inl (own, same) ↦ absurd (ground (arith, miss, e, own))
          | inr (ne, other) ↦ shown found (ap (λ k. get_iso k lab) e ∙ other)
        ]
  ]

  synced-Shown : (image : Image) → Shown lab image → Shown (save_iso iso lab) (synced_or image)
  synced-Shown image shown = elim (Bool-cases (uses_iso iso.id image)) [
    | inl e ↦ rw (hit-synced image e) (hit-Shown image)
    | inr e ↦ rw (synced-miss image e) (miss-Shown image e shown)
  ]

  -- A template cannot use the key 0.
  zero-Shown :
      iso.id == 0 ≡ true → (image : Image) → Shown lab image → Shown (save_iso iso lab) image
  unfolding iso_in
  zero-Shown zero image shown found h = elim (Bool-cases (uses_iso iso.id image)) [
    | inl e ↦ elim (Option-cases image.iso_id) [
      | inl free ↦ cc (rw free at h)
      | inr (j, used) ↦
          absurd
            (ground (arith, ap (λ k. get_iso k (save_iso iso lab)) (sym used) ∙ h, e, used, zero))
    ]
    | inr e ↦ miss-Shown image e shown found h
  ]

  -- Writing an ISO and its templates back keeps every template a mirror of its ISO.
  pub save_and_sync-IsMirrored :
      IsMirrored lab → IsMirrored (sync_templates env iso (save_iso iso lab))
  unfolding sync_templates
  save_and_sync-IsMirrored m = elim (Bool-cases (iso.id == 0)) [
    | inl e ↦ rw e (record {
      mirrors = All-imp (Shown lab) (Shown (save_iso iso lab)) lab.images (zero-Shown e) m.mirrors;
    })
    | inr e ↦ rw e (record {
      mirrors =
          All-map (Shown lab) (Shown (save_iso iso lab)) synced_or lab.images synced-Shown
            m.mirrors;
    })
  ]
