-- ===== src/Installs/Stage.antt =====
-- A reimage that is staged: the state that it leaves, whatever seed files it wrote.
use home_lab_pxe.Prelude.{
  Text, codes, ◌≡◌, false, Option, some, Outcome, ok, Outcome-cases, is_ok, is_raised, is_os_error,
  Bool-cases, inl, inr, Option-cases, List,
}
use home_lab_pxe.Models.{MachineState, tool, Image, Machine}
use home_lab_pxe.Lab.{Lab, Env}
use home_lab_pxe.Seeds.{Files}
use home_lab_pxe.Readiness.{assert_image_deployable}
use home_lab_pxe.Attempts.{save_machine, bump_instance_id, record_activity}
use home_lab_pxe.Lifecycle.{enter, is_family}
use home_lab_pxe.Lifecycle.Deploy.{with_attempt, install_tail-ok}
use home_lab_pxe.Installs.{
  add_staged_job, assigned, overlaid, stage_target, stage_onto, stage_machine,
}

-- The machine that `stage_machine` returns.
abbrev pub staged : Env → Machine → Option Image → Option (List (Text × Text)) → Machine
staged env machine image overlay = bump_instance_id env (
    enter MachineState.staged (record machine {
      assigned_image_id = assigned image machine;
      guest_overlay = overlaid overlay machine;
    }))

module _ (env : Env) (actor : Text) (machine : Machine) (image : Option Image)
    (overlay : Option (List (Text × Text))) (lab : Lab) where
  abbrev pub StagedFor : Image → Outcome Machine × Lab → Machine → Type 0
  StagedFor target r m =
      (body : Text) × (files : Files) × (m ≡ staged env machine image overlay)
      × (r.1
          ≡ record_activity env actor (codes "machine.staged") machine.mac (
              with_attempt env (staged env machine image overlay) target body files (
                add_staged_job env actor (staged env machine image overlay)
                  (save_machine (staged env machine image overlay) lab))))

  stage_checked :
      (target : Image) (m : Machine)
      → (stage_onto env actor machine image overlay (some target) lab).0 ≡ ok m
      → (is_family target.os_family tool ≡ false) × (assert_image_deployable env target ≡ ok tt)
  unfolding stage_onto
  stage_checked target m h = elim (Bool-cases (is_family target.os_family tool)) [
    | inl e ↦ cc (rw e at h)
    | inr e ↦ elim (Outcome-cases (assert_image_deployable env target)) [
      | is_ok a ok_a ↦ (e, ok_a)
      | is_raised message r ↦ cc (rw (e, r) at h)
      | is_os_error r ↦ cc (rw (e, r) at h)
    ]
  ]

  stage_rest-ok :
      (target : Image) (m : Machine)
      → is_family target.os_family tool ≡ false
      → assert_image_deployable env target ≡ ok tt
      → (stage_onto env actor machine image overlay (some target) lab).0 ≡ ok m
      → StagedFor target (stage_onto env actor machine image overlay (some target) lab) m
  unfolding stage_onto add_staged_job
  stage_rest-ok target m family deployable h =
      rw (family, deployable)
        (install_tail-ok env (staged env machine image overlay) target machine.id
          (add_staged_job env actor (staged env machine image overlay))
          (record_activity env actor (codes "machine.staged") machine.mac)
          (save_machine (staged env machine image overlay) lab) m (rw (family, deployable) at h))

  -- A staging that returns had a target, which is no tool image and is deployable.
  pub stage-ok :
      (m : Machine)
      → (stage_machine env actor machine image overlay lab).0 ≡ ok m
      → (target : Image) × (stage_target machine image lab ≡ some target)
        × (is_family target.os_family tool ≡ false)
        × (assert_image_deployable env target ≡ ok tt)
        × StagedFor target (stage_machine env actor machine image overlay lab) m
  unfolding stage_machine
  stage-ok m h = elim (Option-cases (stage_target machine image lab)) [
    | inl e ↦ cc (rw e at h)
    | inr (target, e) ↦
        let returns = rw e at h in
        let (family, deployable) = stage_checked target m returns in
        (target, e, family, deployable, rw e (stage_rest-ok target m family deployable returns))
  ]
