-- ===== src/Seeds/Copies.antt =====
-- Copying a seed to a machine changes seed files below the data root and nothing else.
use home_lab_pxe.Prelude.{
  ℕ, Text, ◌≡◌, refl, has_text, Bool, true, false, Bool-cases, inl, inr, Outcome-cases, is_ok,
  is_raised, is_os_error, arith,
}
use home_lab_pxe.Models.{OsFamily}
use home_lab_pxe.Lab.{Lab, Env}
use home_lab_pxe.Seeds.{
  Files, default_seed_text, write_machine_seed, copy_default, read_machine_seed,
  copy_image_seed_to_machine,
}

-- The second state differs from the first in seed files below the data root at most.
abbrev pub OnlySeeds : Lab → Lab → Type 0
OnlySeeds before after = (files : Files) × (after ≡ record before { data_seeds = files })

module _ (env : Env) (machine_id image_id : ℕ) (family : OsFamily) where
  default_seed_text-state : (lab : Lab) → (default_seed_text env image_id family lab).1 ≡ lab
  unfolding default_seed_text
  default_seed_text-state lab = ground arith

  write_machine_seed-OnlySeeds :
      (body : Text) (lab : Lab)
      → OnlySeeds lab (write_machine_seed env machine_id family body lab).1
  unfolding write_machine_seed
  write_machine_seed-OnlySeeds body lab =
      ((write_machine_seed env machine_id family body lab).1.data_seeds, ground arith)

  copy_default-OnlySeeds :
      (lab : Lab) → OnlySeeds lab (copy_default env machine_id image_id family lab).1
  unfolding default_seed_text write_machine_seed
  copy_default-OnlySeeds lab =
      ((copy_default env machine_id image_id family lab).1.data_seeds, ground arith)

  pub copy-OnlySeeds :
      (overwrite : Bool) (lab : Lab)
      → OnlySeeds lab (copy_image_seed_to_machine env machine_id image_id family overwrite lab).1
  unfolding copy_image_seed_to_machine read_machine_seed
  copy-OnlySeeds true lab = copy_default-OnlySeeds lab
  copy-OnlySeeds false lab = elim (Outcome-cases (read_machine_seed env machine_id family lab).0) [
    | is_ok own e ↦ elim (Bool-cases (has_text own)) [
      | inl full ↦ (lab.data_seeds, rw (e, full) refl)
      | inr blank ↦ rw (e, blank) (copy_default-OnlySeeds lab)
    ]
    | is_raised message e ↦ (lab.data_seeds, rw e refl)
    | is_os_error e ↦ (lab.data_seeds, rw e refl)
  ]
