-- ===== src/Ipxe/Installing.antt =====
-- A machine whose deployment or reimage was started boots into the installer of its image, with the
-- boot artifacts that the image had.
use home_lab_pxe.Prelude.{
  ℕ, ◌<◌, ◌≡◌, refl, Text, Option, some, true, false, arith, ok, List, ap, ◌∙◌,
}
use home_lab_pxe.Models.{OsFamily, linux, windows, tool, Image, Machine, InstallAttempt}
use home_lab_pxe.Lab.{Lab, Env}
use home_lab_pxe.Seeds.{Files}
use home_lab_pxe.Attempts.{
  save_machine, get_image, get_open_attempt, close_open_attempts, record_activity, new_attempt,
}
use home_lab_pxe.Attempts.Creation.{snapshot_path}
use home_lab_pxe.Attempts.Pinned.{
  pinned_payload, from_attempt-new_attempt, get_open_attempt-created,
}
use home_lab_pxe.Attempts.Open.{get_open_attempt-same}
use home_lab_pxe.Lifecycle.{is_family, deploy_machine}
use home_lab_pxe.Lifecycle.Deploy.{
  with_attempt, with_attempt-images, deploying, deploy-ok, deploy_checked,
}
use home_lab_pxe.Installs.{stage_machine, add_staged_job, assigned, stage_target}
use home_lab_pxe.Installs.Stage.{staged, stage-ok}
use home_lab_pxe.Ipxe.{payload_for}
use home_lab_pxe.Readiness.{in_install_states}
use home_lab_pxe.Payload.{BootPayload, from_attempt, from_image}
use home_lab_pxe.Policy.{ScriptKind, install_linux, install_windows, decide_script}

-- The installer of an operating system.
abbrev pub installer : OsFamily → ScriptKind
installer windows = install_windows
installer linux = install_linux
installer tool = install_linux

module _ (env : Env) (machine : Machine) (image : Image) (body : Text) (files : Files)
    (behind lab : Lab)
    (same : behind.attempts ≡ (with_attempt env machine image body files lab).attempts)
    (key : 0 < machine.id) where
  created_attempt :
      (a : InstallAttempt) × (get_open_attempt behind machine ≡ some a)
      × (from_attempt a ≡ pinned_payload image)
  created_attempt =
      let emptied = close_open_attempts env machine (record lab { data_seeds = files }) in
      let path = snapshot_path env machine image in
      (
        new_attempt env machine image path emptied.attempts,
        get_open_attempt-same machine behind (with_attempt env machine image body files lab) same
            ∙ get_open_attempt-created env machine image body (record lab { data_seeds = files })
                key,
        from_attempt-new_attempt env machine image path emptied.attempts,
      )

  -- The payload is read from the attempt that was created for the image.
  pub payload_for-created : payload_for behind machine ≡ some (pinned_payload image)
  unfolding payload_for
  payload_for-created = let (a, found, payload) = created_attempt in ground (arith, found, payload)

  -- The boot decision is the installer of the image that the machine is assigned.
  pub decide_script-created :
      in_install_states machine.state ≡ true
      → get_image behind machine.assigned_image_id ≡ some image
      → is_family image.os_family tool ≡ false
      → decide_script behind machine ≡ installer image.os_family
  unfolding decide_script from_image
  decide_script-created installing assigned family =
      let (a, found, payload) = created_attempt in
      ground (arith, found, assigned, ap (λ (p : BootPayload). p.os_family) payload)

get_image-same :
    (lab other : Lab) (image_id : Option ℕ)
    → other.images ≡ lab.images
    → get_image other image_id ≡ get_image lab image_id
get_image-same lab other image_id e = rw e

module _ (env : Env) (actor : Text) (machine : Machine) (image : Image) (lab : Lab)
    (m : Machine) where
  -- A deployment that returns leaves a machine in the state Deploying that is assigned the image;
  -- its next boot decision is the installer of the image's operating system, and the boot payload
  -- that it is served is that of the image, for a stored machine and a stored image.
  pub deploy_machine-boots :
      0 < machine.id
      → get_image lab (some image.id) ≡ some image
      → (deploy_machine env actor machine image lab).0 ≡ ok m
      → let after = (deploy_machine env actor machine image lab).1 in
        (m ≡ deploying env machine image)
        × (decide_script after m ≡ installer image.os_family)
        × (payload_for after m ≡ some (pinned_payload image))
  unfolding record_activity save_machine
  deploy_machine-boots key stored returns =
      let (body, files, same_machine, state) = deploy-ok env actor machine image lab m returns in
      let (family, deployable) = deploy_checked env actor machine image lab m returns in
      let m' = deploying env machine image in
      let after = (deploy_machine env actor machine image lab).1 in
      let saved = save_machine m' lab in
      let same = ap (λ (l : Lab). l.attempts) state in
      let images =
        ap (λ (l : Lab). l.images) state ∙ with_attempt-images env m' image body files saved in
      (
        same_machine,
        rw same_machine (
            decide_script-created env m' image body files after saved same key refl
              (get_image-same lab after (some image.id) images ∙ stored) family),
        rw same_machine (payload_for-created env m' image body files after saved same key),
      )

module _ (env : Env) (actor : Text) (machine : Machine) (image : Option Image)
    (overlay : Option (List (Text × Text))) (lab : Lab) (m : Machine) where
  -- A staging that returns leaves a machine in the state Staged; its next boot decision is the
  -- installer of the target's operating system, where the target is the image that was given, or
  -- else the one that the machine was assigned, and the boot payload is that of the target, for a
  -- stored machine and a stored image.
  pub stage_machine-boots :
      0 < machine.id
      → get_image lab (assigned image machine) ≡ stage_target machine image lab
      → (stage_machine env actor machine image overlay lab).0 ≡ ok m
      → let after = (stage_machine env actor machine image overlay lab).1 in
        (target : Image) × (stage_target machine image lab ≡ some target)
        × (m ≡ staged env machine image overlay)
        × (decide_script after m ≡ installer target.os_family)
        × (payload_for after m ≡ some (pinned_payload target))
  unfolding record_activity save_machine add_staged_job
  stage_machine-boots key stored returns =
      let (target, found, family, deployable, (body, files, same_machine, state)) =
        stage-ok env actor machine image overlay lab m returns in
      let m' = staged env machine image overlay in
      let after = (stage_machine env actor machine image overlay lab).1 in
      let saved = add_staged_job env actor m' (save_machine m' lab) in
      let same = ap (λ (l : Lab). l.attempts) state in
      let images =
        ap (λ (l : Lab). l.images) state ∙ with_attempt-images env m' target body files saved in
      (
        target,
        found,
        same_machine,
        rw same_machine (
            decide_script-created env m' target body files after saved same key refl
              (get_image-same lab after m'.assigned_image_id images ∙ (stored ∙ found)) family),
        rw same_machine (payload_for-created env m' target body files after saved same key),
      )
