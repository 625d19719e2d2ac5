-- ===== src/Installs.antt =====
-- src/inventory/service.py: the end of an install, reimaging, and the removal of a machine.
pub mod Stage
pub mod Frames
pub mod Ended
pub mod Steps
use home_lab_pxe.Prelude.{
  ℕ, ◌==◌, ltb, Text, codes, Bool, true, false, not, ◌&&◌, ◌||◌, Option, none, some, List, [], ◌∷◌,
  ◌++◌, map, where_is, any_is, if◌then◌else◌, Action, pure, Outcome, os_error, raise, modify, lift,
  ◌>>=◌, ◌>>◌, ok, raised,
}
use home_lab_pxe.Models.{MachineState, tool, Image, Machine, StagedJob, InstallAttempt}
use home_lab_pxe.Lab.{Lab, Env, drop_row, next_key}
use home_lab_pxe.Seeds.{copy_image_seed_to_machine, delete_seed, prune_install_seeds}
use home_lab_pxe.Readiness.{assert_image_deployable}
use home_lab_pxe.Attempts.{
  save_machine, is_open, get_image, record_activity, close_attempt, close_open_attempts,
  create_install_attempt, refresh_install_attempt, bump_instance_id,
}
use home_lab_pxe.Extracts.{of_image, gc_extract_generations}
use home_lab_pxe.Lifecycle.{enter, is_family}

-- The rows that `mark_deployed` reads: the open attempts of a machine.
abbrev pub open_for : ℕ → InstallAttempt → Bool
open_for machine_id attempt = attempt.machine_id == machine_id && is_open attempt

abbrev pub apply_job : ℕ → ℕ → StagedJob → StagedJob
apply_job now machine_id job =
    if job.machine_id == machine_id && (elim job.applied_at [ none ↦ true | some t ↦ false ])
    then record job { applied_at = some now }
    else job

-- `image_ids.add(int(attempt.image_id))`
abbrev add_id : Option ℕ → List ℕ → List ℕ
add_id none ids = ids
add_id (some i) ids = if i == 0 || any_is (λ j. i == j) ids then ids else i ∷ ids

unfoldable pub attempt_images : List InstallAttempt → List ℕ
attempt_images [] = []
attempt_images (attempt ∷ attempts) = add_id attempt.image_id (attempt_images attempts)

-- The loop ends with the first file that cannot be deleted.
unfoldable pub delete_snapshots : Env → List InstallAttempt → Action Lab (Unit {0})
unfolding delete_seed
delete_snapshots env [] = pure tt
delete_snapshots env (attempt ∷ attempts) =
    delete_seed env attempt.seed_snapshot_path >> delete_snapshots env attempts

-- `image or get_image(db, machine.assigned_image_id)`
abbrev pub stage_target : Machine → Option Image → Lab → Option Image
stage_target machine (some image) lab = some image
stage_target machine none lab = get_image lab machine.assigned_image_id

abbrev pub assigned : Option Image → Machine → Option ℕ
assigned none machine = machine.assigned_image_id
assigned (some image) machine = some image.id

abbrev pub overlaid : Option (List (Text × Text)) → Machine → Option (List (Text × Text))
overlaid none machine = machine.guest_overlay
overlaid (some overlay) machine = some overlay

module _ (env : Env) where
  abbrev pub gc_found : Option Image → Lab → Lab
  gc_found none lab = lab
  gc_found (some image) lab = gc_extract_generations env (of_image image) lab

  unfoldable pub gc_images : List ℕ → Lab → Lab
  gc_images [] lab = lab
  gc_images (image_id ∷ ids) lab = gc_images ids (gc_found (get_image lab (some image_id)) lab)

  unfoldable pub apply_jobs : ℕ → Lab → Lab
  apply_jobs machine_id lab = record lab { jobs = map (apply_job env.now machine_id) lab.jobs }

  unfoldable pub complete_attempts : ℕ → Lab → Lab
  complete_attempts machine_id lab = record lab {
    attempts = map (close_attempt env.now machine_id) lab.attempts;
  }

  abbrev pub finish_deployed :
      Text → Machine → List InstallAttempt → Outcome (Unit {0}) × Lab → Outcome Machine × Lab
  finish_deployed actor machine attempts (ok u, lab) =
      let deployed = enter MachineState.deployed machine in
      let saved = save_machine deployed (prune_install_seeds env machine.id [] lab) in
      let recorded = record_activity env actor (codes "machine.deployed") machine.mac saved in
      (ok deployed, gc_images (attempt_images attempts) recorded)
  finish_deployed actor machine attempts (raised message, lab) = (raised message, lab)
  finish_deployed actor machine attempts (os_error, lab) = (os_error, lab)

  unfoldable pub mark_deployed : Text → Machine → Action Lab Machine
  mark_deployed actor machine lab =
      let attempts = where_is (open_for machine.id) lab.attempts in
      let completed = complete_attempts machine.id (apply_jobs machine.id lab) in
      finish_deployed actor machine attempts (delete_snapshots env attempts completed)

  unfoldable pub disable_machine : Text → Machine → Bool → Lab → Machine × Lab
  disable_machine actor machine true lab =
      let disabled = enter MachineState.disabled machine in
      (
        disabled,
        record_activity env actor (codes "machine.disabled") machine.mac
            (save_machine disabled (close_open_attempts env machine lab)),
      )
  disable_machine actor machine false lab =
      let enabled = enter MachineState.ready machine in
      (
        enabled,
        record_activity env actor (codes "machine.enabled") machine.mac (save_machine enabled lab),
      )

  unfoldable pub add_staged_job : Text → Machine → Lab → Lab
  add_staged_job actor machine lab = record lab {
    jobs =
        lab.jobs
        ++ record {
          id = next_key (λ j. j.id) lab.jobs;
          machine_id = machine.id;
          image_id = machine.assigned_image_id;
          guest_overlay = machine.guest_overlay;
          created_by = actor;
          created_at = env.now;
          applied_at = none;
        }
          ∷ [];
  }

  unfoldable pub stage_onto :
      Text
      → Machine
      → Option Image
      → Option (List (Text × Text))
      → Option Image
      → Action Lab Machine
  stage_onto actor machine image overlay none = raise "Assign an image before staging a reimage"
  stage_onto actor machine image overlay (some target) =
      if is_family target.os_family tool
      then raise "Tool images boot from the PXE menu and cannot be staged"
      else do
        lift (assert_image_deployable env target)
        let staged = bump_instance_id env (
            enter MachineState.staged (record machine {
              assigned_image_id = assigned image machine;
              guest_overlay = overlaid overlay machine;
            }))
        modify (save_machine staged)
        copy_image_seed_to_machine env machine.id target.id target.os_family false
        modify (add_staged_job actor staged)
        create_install_attempt env staged target
        modify (record_activity env actor (codes "machine.staged") machine.mac)
        pure staged

  unfoldable pub stage_machine :
      Text → Machine → Option Image → Option (List (Text × Text)) → Action Lab Machine
  unfolding stage_onto
  stage_machine actor machine image overlay lab =
      stage_onto actor machine image overlay (stage_target machine image lab) lab

  unfoldable pub update_staged_attempt : Text → Machine → Image → Action Lab Machine
  update_staged_attempt actor machine image = do
    lift (assert_image_deployable env image)
    refreshed ← refresh_install_attempt env machine image
    modify (record_activity env actor (codes "machine.staged-update") machine.mac)
    pure refreshed

  -- The rows of a machine.
  abbrev pub drop_rows : ℕ → Lab → Lab
  drop_rows k lab = record lab {
    accounts = where_is (λ a. not (a.machine_id == k)) lab.accounts;
    jobs = where_is (λ j. not (j.machine_id == k)) lab.jobs;
    attempts = where_is (λ a. not (a.machine_id == k)) lab.attempts;
    boot_events = where_is (λ e. not (e.machine_id == k)) lab.boot_events;
    machines = drop_row (λ m. m.id) k lab.machines;
  }

  -- The rows of a machine, and the seed snapshots of its attempts.
  unfoldable pub drop_machine_rows : ℕ → Action Lab (Unit {0})
  drop_machine_rows k lab =
      (delete_snapshots env (where_is (λ a. a.machine_id == k) lab.attempts)
          >> modify (drop_rows k))
        lab

  unfoldable pub delete_machine : Text → Machine → Action Lab ℕ
  unfolding drop_machine_rows
  delete_machine actor machine = if ltb machine.id 1 then raise "Unknown machine" else do
    modify (close_open_attempts env machine)
    drop_machine_rows machine.id
    modify (record_activity env actor (codes "machine.delete") machine.mac)
    pure machine.id
