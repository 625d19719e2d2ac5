-- ===== src/Uploads/Safety.antt =====
-- Uploads are written, and removed, below the directory of their owner only.
use home_lab_pxe.Prelude.{
  ℕ, ◌≡◌, refl, ◌==◌, Text, codes, text_eq, text_eq_sound, ◌⊎◌, raised, os_error, starts_with,
  contains, strip, Bool, true, false, not, ◌&&◌, ◌||◌, Bool-cases, inl, inr, Option-cases, List, [],
  ◌∷◌, ◌++◌, any_is, is_nil, drop, length, arith, All, Outcome, ok,
}
use home_lab_pxe.Lab.{Env}
use home_lab_pxe.Scripts.Nfs.{slashes, split_slashes}
use home_lab_pxe.Uploads.{
  is_name_char, without_feed, is_safe_name, safe_upload_filename, Slot, slot_of, kernel_slot,
  initrd_slot, boot_wim_slot, install_wim_slot, iso_slot, Area, uploads, isos, area_name, area_of,
  with_suffix, image_suffix, suffix_of, slot_file, owner_path, placed_file, relative_slot_path,
  is_climbing, owned_text, owned_upload, owned_uploads, upload_prefix, remove_template_files,
}

abbrev pub is_slash : ℕ → Bool
is_slash c = c == b'/'

-- One segment, which names neither the directory itself nor the one above.
abbrev pub IsSegment : Text → Type 0
IsSegment text = (any_is is_slash text ≡ false) × (is_climbing text ≡ false)

-- Below a prefix, through no segment that may climb out of it.
pub record IsBelow (prefix path : Text) : Type 0 where
  pub rest : Text
  pub joined : path ≡ prefix ++ rest
  pub stays : any_is is_climbing (split_slashes [] rest) ≡ false

starts-drop : (s prefix : Text) → starts_with s prefix ≡ true → s ≡ prefix ++ drop (length prefix) s
unfolding starts_with
starts-drop s [] h = refl
starts-drop [] (d ∷ prefix) h = cc
starts-drop (c ∷ s) (d ∷ prefix) h = ground (arith, h, starts-drop s prefix)

owned-IsBelow :
    (prefix text : Text)
    → is_nil (owned_text prefix text) ≡ false
    → IsBelow prefix (owned_text prefix text)
owned-IsBelow prefix text h =
    elim (Bool-cases (not (starts_with text prefix) || contains text (codes "/extracts/"))) [
      | inl e ↦ absurd (ground (arith, h, e))
      | inr e ↦
          elim (Bool-cases (any_is is_climbing (split_slashes [] (drop (length prefix) text)))) [
            | inl climbs ↦ absurd (ground (arith, h, e, climbs))
            | inr stays ↦
                rw (e, stays)
                  (record {
                    rest = drop (length prefix) text;
                    joined = starts-drop text prefix (ground (arith, e));
                    stays = stays;
                  })
          ]
    ]

uploads-IsBelow :
    (prefix : Text) (paths : List Text) → All (IsBelow prefix) (owned_uploads prefix paths)
unfolding owned_upload
uploads-IsBelow prefix [] = tt
uploads-IsBelow prefix (path ∷ paths) = elim (Bool-cases (is_nil (owned_upload path prefix))) [
  | inl e ↦ rw e (uploads-IsBelow prefix paths)
  | inr e ↦ rw e (owned-IsBelow prefix (strip (slashes path)) e, uploads-IsBelow prefix paths)
]

-- Deleting a template removes files below its own directory only, whatever paths it holds: each path
-- that is removed continues the prefix of the template by segments none of which is empty, `.` or `..`.
pub remove_template_files-IsBelow :
    (image_id : ℕ) (owned_paths : List Text)
    → All (IsBelow (upload_prefix image_id)) (remove_template_files image_id owned_paths)
unfolding remove_template_files split_slashes text_eq mathlib.Core.Bool.xor
remove_template_files-IsBelow image_id owned_paths = (
  record { rest = codes "user-data"; joined = refl; stays = refl },
  (
    record { rest = codes "unattend.xml"; joined = refl; stays = refl },
    uploads-IsBelow (upload_prefix image_id) owned_paths,
  ),
)

feed-plain : (s : Text) → any_is is_slash (without_feed s) ≡ false → any_is is_slash s ≡ false
feed-plain [] h = refl
feed-plain (c ∷ []) h = ground (arith, h)
feed-plain (c ∷ d ∷ s) h = ground (arith, h, feed-plain (d ∷ s))

named-plain : (s : Text) → any_is (λ c. not (is_name_char c)) s ≡ false → any_is is_slash s ≡ false
named-plain [] h = refl
named-plain (c ∷ s) h = ground (arith, h, named-plain s)

safe-plain : (s : Text) → is_safe_name s ≡ true → any_is is_slash s ≡ false
unfolding is_safe_name
safe-plain s h = feed-plain s (named-plain (without_feed s) (ground (arith, h)))

image_suffix-cases :
    (lowered : Text) → (image_suffix lowered ≡ codes ".iso") ⊎ (image_suffix lowered ≡ codes ".img")
image_suffix-cases lowered = elim (Bool-cases (text_eq lowered (codes ".iso"))) [
  | inl e ↦ inl (rw e (text_eq_sound lowered (codes ".iso") e))
  | inr ne ↦ elim (Bool-cases (text_eq lowered (codes ".img"))) [
    | inl e ↦ inr (rw (ne, e) (text_eq_sound lowered (codes ".img") e))
    | inr other ↦ inl (rw (ne, other) refl)
  ]
]

kernel-IsSegment : (suffix : Text) → IsSegment (with_suffix (codes "kernel") suffix)
unfolding text_eq mathlib.Core.Bool.xor
kernel-IsSegment suffix =
    elim (Bool-cases (not (is_nil suffix) && is_safe_name (codes "kernel" ++ suffix))) [
      | inl e ↦ rw e (safe-plain (codes "kernel" ++ suffix) (ground (arith, e)), refl)
      | inr e ↦ rw e (refl, refl)
    ]

initrd-IsSegment : (suffix : Text) → IsSegment (with_suffix (codes "initrd") suffix)
unfolding text_eq mathlib.Core.Bool.xor
initrd-IsSegment suffix =
    elim (Bool-cases (not (is_nil suffix) && is_safe_name (codes "initrd" ++ suffix))) [
      | inl e ↦ rw e (safe-plain (codes "initrd" ++ suffix) (ground (arith, e)), refl)
      | inr e ↦ rw e (refl, refl)
    ]

image-IsSegment :
    (lowered : Text)
    → IsSegment (codes "image" ++ image_suffix lowered)
      × IsSegment (codes "source" ++ image_suffix lowered)
unfolding text_eq mathlib.Core.Bool.xor
image-IsSegment lowered = elim (image_suffix-cases lowered) [
  | inl e ↦ rw e ((refl, refl), (refl, refl))
  | inr e ↦ rw e ((refl, refl), (refl, refl))
]

slot_file-IsSegment :
    (env : Env) (area : Area) (slot : Slot) (suffix : Text)
    → IsSegment (slot_file env area slot suffix)
unfolding text_eq mathlib.Core.Bool.xor
slot_file-IsSegment env area kernel_slot suffix = kernel-IsSegment suffix
slot_file-IsSegment env area initrd_slot suffix = initrd-IsSegment suffix
slot_file-IsSegment env area boot_wim_slot suffix = (refl, refl)
slot_file-IsSegment env area install_wim_slot suffix = (refl, refl)
slot_file-IsSegment env uploads iso_slot suffix = (image-IsSegment (env.lower suffix)).0
slot_file-IsSegment env isos iso_slot suffix = (image-IsSegment (env.lower suffix)).1

placed-IsSegment :
    (env : Env) (area : Area) (slot : Slot) (owner_id : ℕ) (name : Outcome Text) (path : Text)
    → placed_file env area slot owner_id name ≡ ok path
    → (file : Text) × (path ≡ owner_path (area_name area) owner_id ++ b'/' ∷ file) × IsSegment file
placed-IsSegment env area slot owner_id (ok name) path h = (
  slot_file env area slot (suffix_of name),
  cc,
  slot_file-IsSegment env area slot (suffix_of name),
)
placed-IsSegment env area slot owner_id (raised message) path h = cc
placed-IsSegment env area slot owner_id os_error path h = cc

-- The path that an upload is given, whatever the browser calls the file, is that of one file directly
-- in the directory of its owner: it has no further slash, and is neither empty, `.` nor `..`.
pub relative_slot_path-IsSegment :
    (env : Env) (owner_id : ℕ) (slot original_name base path : Text)
    → relative_slot_path env owner_id slot original_name base ≡ ok path
    → (area : Area) × (file : Text) × (path ≡ owner_path (area_name area) owner_id ++ b'/' ∷ file)
      × IsSegment file
unfolding relative_slot_path
relative_slot_path-IsSegment env owner_id slot original_name base path h =
    elim (Option-cases (area_of base)) [
      | inl e ↦ absurd (ground (arith, h, e))
      | inr (area, e) ↦ elim (Option-cases (slot_of slot)) [
        | inl none_there ↦ absurd (ground (arith, h, e, none_there))
        | inr (known, k) ↦
            let (file, same, segment) =
              placed-IsSegment env area known owner_id (safe_upload_filename original_name) path
                (ground (arith, h, e, k)) in
            (area, file, same, segment)
      ]
    ]
