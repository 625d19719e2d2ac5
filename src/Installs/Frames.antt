-- ===== src/Installs/Frames.antt =====
-- What the clean-up of seeds and of extracted media leaves alone.
use home_lab_pxe.Prelude.{
  ℕ, ◌≡◌, refl, Option, none, some, List, [], ◌∷◌, ◌∙◌, false, Bool-cases, ◌⊎◌, inl, inr, In, ok,
  os_error, arith,
}
use home_lab_pxe.Models.{Image, InstallAttempt, SeedPath}
use home_lab_pxe.Lab.{Lab, Env}
use home_lab_pxe.Seeds.{delete_seed}
use home_lab_pxe.Attempts.{get_image}
use home_lab_pxe.Extracts.{gc_extract_generations}
use home_lab_pxe.Installs.{delete_snapshots, gc_images, gc_found}

-- The tables of machines, attempts and images are those of the first state.
pub record SameRows (before after : Lab) : Type 0 where
  pub machines : after.machines ≡ before.machines
  pub attempts : after.attempts ≡ before.attempts
  pub images : after.images ≡ before.images

pub SameRows-trans : {a b c : Lab} → SameRows a b → SameRows b c → SameRows a c
SameRows-trans p q = record {
  machines = q.machines ∙ p.machines;
  attempts = q.attempts ∙ p.attempts;
  images = q.images ∙ p.images;
}

delete_seed-SameRows :
    (env : Env) (path : Option SeedPath) (lab : Lab) → SameRows lab (delete_seed env path lab).1
unfolding delete_seed
delete_seed-SameRows env none lab = record { machines = refl; attempts = refl; images = refl }
delete_seed-SameRows env (some p) lab = record {
  machines = ground arith;
  attempts = ground arith;
  images = ground arith;
}

-- A snapshot that cannot be deleted.
abbrev pub Sticks : Env → List InstallAttempt → Type 0
Sticks env attempts =
    (attempt : InstallAttempt) × In attempt attempts
    × (path : SeedPath) × (attempt.seed_snapshot_path ≡ some path)
    × (env.unlinks path ≡ false)

delete_seed-cases :
    (env : Env) (path : Option SeedPath) (lab : Lab)
    → ((delete_seed env path lab).0 ≡ ok tt)
      ⊎ (((delete_seed env path lab).0 ≡ os_error)
          × (p : SeedPath) × (path ≡ some p)
          × (env.unlinks p ≡ false))
unfolding delete_seed
delete_seed-cases env none lab = inl refl
delete_seed-cases env (some p) lab = elim (Bool-cases (env.unlinks p)) [
  | inl e ↦ inl (rw e refl)
  | inr e ↦ inr (rw e refl, p, refl, e)
]

-- The snapshots are deleted, or the error of one that cannot be ends the loop.
pub delete_snapshots-cases :
    (env : Env) (attempts : List InstallAttempt) (lab : Lab)
    → ((delete_snapshots env attempts lab).0 ≡ ok tt)
      ⊎ (((delete_snapshots env attempts lab).0 ≡ os_error) × Sticks env attempts)
unfolding delete_snapshots
delete_snapshots-cases env [] lab = inl refl
delete_snapshots-cases env (a ∷ attempts) lab =
    let first = delete_seed env a.seed_snapshot_path lab in
    elim (delete_seed-cases env a.seed_snapshot_path lab) [
      | inr (e, p, path, kept) ↦ inr (rw e refl, (a, inl refl, p, path, kept))
      | inl e ↦ elim (delete_snapshots-cases env attempts first.1) [
        | inl rest ↦ inl (rw e rest)
        | inr (rest, (b, there, p, path, kept)) ↦ inr (rw e rest, (b, inr there, p, path, kept))
      ]
    ]

pub delete_snapshots-SameRows :
    (env : Env) (attempts : List InstallAttempt) (lab : Lab)
    → SameRows lab (delete_snapshots env attempts lab).1
unfolding delete_snapshots
delete_snapshots-SameRows env [] lab = record { machines = refl; attempts = refl; images = refl }
delete_snapshots-SameRows env (a ∷ attempts) lab =
    let first = delete_seed env a.seed_snapshot_path lab in
    elim (delete_seed-cases env a.seed_snapshot_path lab) [
      | inl e ↦ rw e (
          SameRows-trans (delete_seed-SameRows env a.seed_snapshot_path lab)
            (delete_snapshots-SameRows env attempts first.1))
      | inr (e, p, path, kept) ↦ rw e (delete_seed-SameRows env a.seed_snapshot_path lab)
    ]

gc_found-SameRows :
    (env : Env) (image : Option Image) (lab : Lab) → SameRows lab (gc_found env image lab)
unfolding gc_extract_generations
gc_found-SameRows env none lab = record { machines = refl; attempts = refl; images = refl }
gc_found-SameRows env (some image) lab = record { machines = refl; attempts = refl; images = refl }

pub gc_images-SameRows :
    (env : Env) (ids : List ℕ) (lab : Lab) → SameRows lab (gc_images env ids lab)
unfolding gc_images
gc_images-SameRows env [] lab = record { machines = refl; attempts = refl; images = refl }
gc_images-SameRows env (i ∷ ids) lab =
    let swept = gc_found env (get_image lab (some i)) lab in
    SameRows-trans (gc_found-SameRows env (get_image lab (some i)) lab)
      (gc_images-SameRows env ids swept)
