-- ===== src/Attempts.antt =====
-- src/inventory/service.py: the audit log and the install attempts, and the clean-up of extracted
-- media of src/extract_worker.py that an attempt holds back.
pub mod Creation
pub mod Open
pub mod Pinned
use home_lab_pxe.Prelude.{
  ℕ, ◌==◌, Text, text_eq, strip, has_text, codes, take, Bool, true, false, not, ◌&&◌, ◌||◌, Option,
  none, some, List, [], ◌∷◌, ◌++◌, map, where_is, first_where, any_is, if◌then◌else◌, Outcome,
  Action, pure, modify, ◌>>=◌, ◌>>◌,
}
use home_lab_pxe.Models.{SeedPath, Image, Iso, Machine, InstallAttempt}
use home_lab_pxe.Lab.{
  Lab, Env, row, put_row, next_key, ExtractBase, ExtractDir, DirName, revision, temporary,
  other_name,
}
use home_lab_pxe.Payload.{or_one}
use home_lab_pxe.Seeds.{select_seed_text, snapshot_seed_relative, write_seed, prune_install_seeds}

-- `db.add(machine)`: the changed object is the row.
unfoldable pub save_machine : Machine → Lab → Lab
unfolding put_row
save_machine machine lab = record lab { machines = put_row (λ m. m.id) machine lab.machines }

abbrev pub is_open : InstallAttempt → Bool
is_open attempt = elim attempt.completed_at [ none ↦ true | some t ↦ false ]

abbrev pub is_for : ℕ → Option ℕ → Bool
is_for image_id none = false
is_for image_id (some i) = i == image_id

-- The attempt that `get_open_attempt` looks for.
abbrev pub is_current : Machine → InstallAttempt → Bool
is_current machine attempt =
    attempt.machine_id == machine.id
    && (text_eq attempt.instance_id machine.instance_id && is_open attempt)

unfoldable pub get_open_attempt : Lab → Machine → Option InstallAttempt
get_open_attempt lab machine =
    if machine.id == 0 then none else first_where (is_current machine) lab.attempts

abbrev pub get_image : Lab → Option ℕ → Option Image
get_image lab none = none
get_image lab (some i) = if i == 0 then none else row (λ image. image.id) i lab.images

-- One row of the loop of `close_open_attempts`.
abbrev pub close_attempt : ℕ → ℕ → InstallAttempt → InstallAttempt
close_attempt now machine_id attempt =
    if attempt.machine_id == machine_id && is_open attempt
    then record attempt { completed_at = some now }
    else attempt

module _ (env : Env) where
  unfoldable pub record_activity : Text → Text → Text → Lab → Lab
  record_activity actor action detail lab = record lab {
    activity =
        lab.activity
        ++ record {
          id = next_key (λ a. a.id) lab.activity;
          at = env.now;
          actor = actor;
          action = action;
          detail = take 500 detail;
        }
          ∷ [];
  }

  unfoldable pub close_open_attempts : Machine → Lab → Lab
  close_open_attempts machine lab =
      if machine.id == 0
      then lab
      else record lab { attempts = map (close_attempt env.now machine.id) lab.attempts }

  -- The row that `create_install_attempt` adds.
  unfoldable pub new_attempt : Machine → Image → SeedPath → List InstallAttempt → InstallAttempt
  new_attempt machine image snapshot attempts = record {
    id = next_key (λ a. a.id) attempts;
    machine_id = machine.id;
    instance_id = machine.instance_id;
    image_id = some image.id;
    os_family = image.os_family;
    extract_revision = image.extract_revision;
    kernel_path = image.kernel_path;
    initrd_path = image.initrd_path;
    boot_wim_path = image.boot_wim_path;
    install_wim_path = image.install_wim_path;
    iso_path = image.iso_path;
    cmdline = image.cmdline;
    wim_index = or_one image.wim_index;
    source_id = strip image.source_id;
    media_relative = strip image.extract_generation;
    seed_snapshot_path = some snapshot;
    created_at = env.now;
    completed_at = none;
  }

  unfoldable pub add_attempt : Machine → Image → SeedPath → Action Lab InstallAttempt
  unfolding new_attempt
  add_attempt machine image snapshot lab =
      let attempt = new_attempt machine image snapshot lab.attempts in
      (Outcome.ok attempt, record lab { attempts = lab.attempts ++ attempt ∷ [] })

  unfoldable pub create_install_attempt : Machine → Image → Action Lab InstallAttempt
  create_install_attempt machine image = do
    modify (close_open_attempts machine)
    text ← select_seed_text env (some image) machine image.os_family
    let body = if has_text text then text else env.factory_seed image.os_family
    let snapshot = snapshot_seed_relative machine.id machine.instance_id image.os_family
    write_seed env snapshot body
    modify (prune_install_seeds env machine.id machine.instance_id)
    add_attempt machine image snapshot

  -- A machine whose instance id is new.
  abbrev pub bump_instance_id : Machine → Machine
  bump_instance_id machine = record machine { instance_id = env.fresh_instance }

  unfoldable pub refresh_install_attempt : Machine → Image → Action Lab Machine
  unfolding create_install_attempt
  refresh_install_attempt machine image = do
    modify (close_open_attempts machine)
    let bumped = bump_instance_id machine
    modify (save_machine bumped)
    create_install_attempt bumped image
    pure bumped
