-- ===== src/Attempts/Creation.antt =====
-- What `create_install_attempt` leaves behind, when it returns and when it raises.
use home_lab_pxe.Prelude.{
  Text, ◌≡◌, refl, String, Option, some, none, [], ◌∷◌, ◌++◌, has_text, if◌then◌else◌, Outcome, ok,
  raised, os_error, Action, arith, Outcome-cases, is_ok, is_raised, is_os_error, ◌⊎◌, inl, inr, ◌≢◌,
  Bool-cases, modify, ◌>>◌,
}
use home_lab_pxe.Models.{OsFamily, Image, Machine, InstallAttempt, SeedPath}
use home_lab_pxe.Lab.{Lab, Env}
use home_lab_pxe.Seeds.{
  store_file, too_large, select_seed_text, image_or_factory, write_seed, snapshot_seed_relative,
  prune_install_seeds,
}
use home_lab_pxe.Attempts.{close_open_attempts, new_attempt, add_attempt, create_install_attempt}

module _ (env : Env) where
  image_or_factory-state :
      (image : Option Image) (family : OsFamily) (lab : Lab)
      → (image_or_factory env image family lab).1 ≡ lab
  unfolding image_or_factory
  image_or_factory-state none family lab = refl
  image_or_factory-state (some image) family lab = ground arith

  -- Reading seeds changes nothing.
  pub select_seed_text-state :
      (image : Option Image) (machine : Machine) (family : OsFamily) (lab : Lab)
      → (select_seed_text env image machine family lab).1 ≡ lab
  unfolding select_seed_text
  select_seed_text-state image machine family lab =
      ground (arith, image_or_factory-state image family lab)

  image_or_factory-no_os_error :
      (image : Option Image) (family : OsFamily) (lab : Lab)
      → (image_or_factory env image family lab).0 ≢ os_error
  unfolding image_or_factory
  image_or_factory-no_os_error none family lab = ground arith
  image_or_factory-no_os_error (some image) family lab = ground arith

  select_seed_text-no_os_error :
      (image : Option Image) (machine : Machine) (family : OsFamily) (lab : Lab)
      → (select_seed_text env image machine family lab).0 ≢ os_error
  unfolding select_seed_text
  select_seed_text-no_os_error image machine family lab =
      ground (arith, image_or_factory-no_os_error image family lab)

  module _ (machine : Machine) (image : Image) where
    abbrev pub snapshot_path : SeedPath
    snapshot_path = snapshot_seed_relative machine.id machine.instance_id image.os_family

    -- The state after a snapshot with the given body was written and the attempt was added.
    abbrev pub after_creation : Text → Lab → Lab
    after_creation body lab =
        let pruned =
          prune_install_seeds env machine.id machine.instance_id
            (record lab { data_seeds = store_file snapshot_path body lab.data_seeds }) in
        record pruned {
          attempts = lab.attempts ++ new_attempt env machine image snapshot_path lab.attempts ∷ [];
        }

    -- The body of the snapshot of a selected seed.
    abbrev pub chosen_body : Text → Text
    chosen_body text = if has_text text then text else env.factory_seed image.os_family

    abbrev pub CreatedWith : Text → Lab → Outcome InstallAttempt × Lab → Type 0
    CreatedWith body closed r =
        (r.0 ≡ ok (new_attempt env machine image snapshot_path closed.attempts))
        × (r.1 ≡ after_creation body closed)

    -- The attempt was added, with a snapshot of the seed that is selected for the machine.
    abbrev pub Created : Lab → Outcome InstallAttempt × Lab → Type 0
    Created closed r =
        (text : Text) × ((select_seed_text env (some image) machine image.os_family closed).0
          ≡ ok text)
        × CreatedWith (chosen_body text) closed r

    -- An error was raised, or one of the operating system was not caught.
    abbrev pub NotCreated : Lab → Outcome InstallAttempt × Lab → Type 0
    NotCreated closed r =
        ((message : String) × (r ≡ (raised message, closed))) ⊎ (r ≡ (os_error, closed))

    -- The rest of the operation, from the body of the snapshot on.
    abbrev write_snapshot : Text → Action Lab InstallAttempt
    write_snapshot body = do
      write_seed env snapshot_path body
      modify (prune_install_seeds env machine.id machine.instance_id)
      add_attempt env machine image snapshot_path

    write_snapshot-cases :
        (body : Text) (closed : Lab)
        → CreatedWith body closed (write_snapshot body closed)
          ⊎ NotCreated closed (write_snapshot body closed)
    unfolding add_attempt prune_install_seeds write_seed
    write_snapshot-cases body closed = elim (Bool-cases (too_large env body)) [
      | inl big ↦ inr (inl ("Seed file exceeds PXE_MAX_SEED_BYTES", rw big))
      | inr fits ↦ elim (Bool-cases (env.makes_dir snapshot_path)) [
        | inr no_dir ↦ inr (inr (rw (fits, no_dir)))
        | inl dir ↦ elim (Bool-cases (env.writable snapshot_path)) [
          | inl can ↦ inl (rw (fits, dir, can), rw (fits, dir, can))
          | inr cannot ↦ elim (Bool-cases (env.cleans snapshot_path)) [
            | inl cleaned ↦ inr (inl ("Cannot write seed file", rw (fits, dir, cannot, cleaned)))
            | inr left ↦ inr (inr (rw (fits, dir, cannot, left)))
          ]
        ]
      ]
    ]

    pub create-cases :
        (lab : Lab)
        → Created
            (close_open_attempts env machine lab)
            (create_install_attempt env machine image lab)
          ⊎ NotCreated
              (close_open_attempts env machine lab)
              (create_install_attempt env machine image lab)
    unfolding create_install_attempt
    create-cases lab =
        let closed = close_open_attempts env machine lab in
        let state = select_seed_text-state (some image) machine image.os_family closed in
        elim (Outcome-cases (select_seed_text env (some image) machine image.os_family closed).0) [
          | is_ok text e ↦ elim (write_snapshot-cases (chosen_body text) closed) [
            | inl created ↦ inl (text, e, rw (e, state) created)
            | inr failed ↦ inr (rw (e, state) failed)
          ]
          | is_raised message e ↦ inr (inl (message, ground (arith, state)))
          | is_os_error e ↦
              absurd (select_seed_text-no_os_error (some image) machine image.os_family closed e)
        ]
