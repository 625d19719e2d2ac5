-- ===== src/Lifecycle/Deploy.antt =====
-- A deployment that returns: the state that it leaves, whatever seed files it wrote.
use home_lab_pxe.Prelude.{
  ℕ, Text, codes, ◌≡◌, false, some, ◌++◌, Outcome, ok, Action, pure, modify, ◌>>◌, arith, bind-ok,
  Outcome-cases, is_ok, is_raised, is_os_error, Bool-cases, inl, inr, [],
}
use home_lab_pxe.Models.{MachineState, tool, Image, Machine}
use home_lab_pxe.Lab.{Lab, Env}
use home_lab_pxe.Seeds.{Files, prune_install_seeds, copy_image_seed_to_machine}
use home_lab_pxe.Seeds.Copies.{copy-OnlySeeds}
use home_lab_pxe.Readiness.{assert_image_deployable}
use home_lab_pxe.Attempts.{
  save_machine, bump_instance_id, close_open_attempts, create_install_attempt, record_activity,
}
use home_lab_pxe.Attempts.Creation.{after_creation, chosen_body, create-cases}
use home_lab_pxe.Lifecycle.{enter, is_family, deploy_machine}

module _ (env : Env) (machine : Machine) (image : Image) where
  -- The state in which an attempt for the image was added, after the seed files were changed.
  abbrev pub with_attempt : Text → Files → Lab → Lab
  with_attempt body files lab =
      after_creation env machine image body
        (close_open_attempts env machine (record lab { data_seeds = files }))

  module _ (body : Text) (files : Files) (lab : Lab) where
    pub with_attempt-images : (with_attempt body files lab).images ≡ lab.images
    unfolding close_open_attempts prune_install_seeds
    with_attempt-images = ground arith

    pub with_attempt-machines : (with_attempt body files lab).machines ≡ lab.machines
    unfolding close_open_attempts prune_install_seeds
    with_attempt-machines = ground arith

  -- Copying the seed and adding the attempt, with what is recorded in between and behind.
  abbrev pub install_tail : ℕ → (Lab → Lab) → (Lab → Lab) → Action Lab Machine
  install_tail machine_id between behind = do
    copy_image_seed_to_machine env machine_id image.id image.os_family false
    modify between
    create_install_attempt env machine image
    modify behind
    pure machine

  abbrev creation_tail : (Lab → Lab) → Action Lab Machine
  creation_tail behind = do create_install_attempt env machine image; modify behind; pure machine

  creation_tail-ok :
      (behind : Lab → Lab) (lab : Lab) (m : Machine)
      → (creation_tail behind lab).0 ≡ ok m
      → (body : Text) × (m ≡ machine)
        × ((creation_tail behind lab).1
            ≡ behind (after_creation env machine image body (close_open_attempts env machine lab)))
  creation_tail-ok behind lab m h = elim (create-cases env machine image lab) [
    | inl (text, selected, (value, state)) ↦
        (chosen_body env machine image text, ground (arith, value), rw (value, state))
    | inr (inl (message, e)) ↦ cc (rw e at h)
    | inr (inr e) ↦ cc (rw e at h)
  ]

  pub install_tail-ok :
      (machine_id : ℕ) (between behind : Lab → Lab) (lab : Lab) (m : Machine)
      → (install_tail machine_id between behind lab).0 ≡ ok m
      → (body : Text) × (files : Files) × (m ≡ machine)
        × ((install_tail machine_id between behind lab).1
            ≡ behind (
                after_creation env machine image body
                  (close_open_attempts env machine (between (record lab { data_seeds = files })))))
  install_tail-ok machine_id between behind lab m h =
      let copied = copy_image_seed_to_machine env machine_id image.id image.os_family false lab in
      let (files, same) = copy-OnlySeeds env machine_id image.id image.os_family false lab in
      let (wrote, value, rest) =
        bind-ok (copy_image_seed_to_machine env machine_id image.id image.os_family false)
          (λ w. modify between >> creation_tail behind) lab m h in
      let (body, same_machine, state) =
        creation_tail-ok behind (between copied.1) m (rw rest at h) in
      (body, files, same_machine, rw rest (rw (← same) state))

-- The machine that `deploy_machine` returns.
abbrev pub deploying : Env → Machine → Image → Machine
deploying env machine image = bump_instance_id env (
    enter MachineState.deploying
      (record machine { assigned_image_id = some image.id; install_log = [] }))

module _ (env : Env) (actor : Text) (machine : Machine) (image : Image) (lab : Lab) where
  abbrev pub Deployed : Outcome Machine × Lab → Machine → Type 0
  Deployed r m =
      (body : Text) × (files : Files) × (m ≡ deploying env machine image)
      × (r.1
          ≡ record_activity env actor (codes "machine.deploy") (codes "image=" ++ image.name) (
              with_attempt env (deploying env machine image) image body files
                (save_machine (deploying env machine image) lab)))

  deploy_rest-ok :
      (m : Machine)
      → is_family image.os_family tool ≡ false
      → assert_image_deployable env image ≡ ok tt
      → (deploy_machine env actor machine image lab).0 ≡ ok m
      → Deployed (deploy_machine env actor machine image lab) m
  unfolding deploy_machine
  deploy_rest-ok m family deployable h =
      rw (family, deployable)
        (install_tail-ok env (deploying env machine image) image machine.id (λ l. l)
          (record_activity env actor (codes "machine.deploy") (codes "image=" ++ image.name))
          (save_machine (deploying env machine image) lab) m (rw (family, deployable) at h))

  -- What a deployment that returns has checked.
  pub deploy_checked :
      (m : Machine)
      → (deploy_machine env actor machine image lab).0 ≡ ok m
      → (is_family image.os_family tool ≡ false) × (assert_image_deployable env image ≡ ok tt)
  unfolding deploy_machine
  deploy_checked m h = elim (Bool-cases (is_family image.os_family tool)) [
    | inl e ↦ cc (rw e at h)
    | inr e ↦ elim (Outcome-cases (assert_image_deployable env image)) [
      | is_ok a ok_a ↦ (e, ok_a)
      | is_raised message r ↦ cc (rw (e, r) at h)
      | is_os_error r ↦ cc (rw (e, r) at h)
    ]
  ]

  pub deploy-ok :
      (m : Machine)
      → (deploy_machine env actor machine image lab).0 ≡ ok m
      → Deployed (deploy_machine env actor machine image lab) m
  deploy-ok m h =
      let (family, deployable) = deploy_checked m h in deploy_rest-ok m family deployable h
