-- ===== src/Tests/Installs.antt =====
-- The theorems about installs and boots at a small lab.
use home_lab_pxe.Prelude.{
  utf8_length, ℕ, ◌≡◌, ◌⊎◌, ◌↔◌, refl, Text, codes, text_eq, true, false, ◌&&◌, none, some, arith,
  ok, raised, os_error, where_is, In, count_is, map_option, has_text,
}
use home_lab_pxe.Models.{MachineState, Image}
use home_lab_pxe.Lab.{Lab, row}
use home_lab_pxe.Readiness.{assert_image_deployable, in_install_states, is_imaging}
use home_lab_pxe.Attempts.{
  add_attempt, get_open_attempt, save_machine, get_image, create_install_attempt,
  close_open_attempts,
}
use home_lab_pxe.Lifecycle.{
  get_machine, enter, deploy_machine, mark_imaging, mark_install_failed, abort_deploy, is_stale,
  expire_stale_imaging,
}
use home_lab_pxe.Lifecycle.Deploy.{deploying}
use home_lab_pxe.Lifecycle.Expiry.{expire_machine, expire_stale_imaging-exact}
use home_lab_pxe.Installs.{
  add_staged_job, stage_machine, disable_machine, stage_target, assigned, open_for, mark_deployed,
}
use home_lab_pxe.Installs.Frames.{Sticks}
use home_lab_pxe.Installs.Stage.{staged}
use home_lab_pxe.Installs.Ended.{
  IsEnded, AbortsTo, disable_machine-IsEnded, mark_deployed-IsEnded, mark_install_failed-IsEnded,
  abort_deploy-cases,
}
use home_lab_pxe.Installs.Steps.{IsSound, here, next, deploys, images, Reach-IsSound}
use home_lab_pxe.Machines.{touch_normal}
use home_lab_pxe.Machines.Identity.{IsRegistry, touch_normal-IsRegistry}
use home_lab_pxe.Extracts.{of_image, gc_extract_generations, owner_media}
use home_lab_pxe.Extracts.Pins.{PinnedBy, gc_keeps-revision}
use home_lab_pxe.Policy.{decide_script, install_linux, menu}
use home_lab_pxe.Attempts.Pinned.{pinned_payload}
use home_lab_pxe.Ipxe.{
  is_install, runs_alone, payload_for, render_policy_script, rendered, served_payload,
}
use home_lab_pxe.Ipxe.Installing.{installer, deploy_machine-boots, stage_machine-boots}
use home_lab_pxe.Ipxe.Handout.{render_policy_script-alone}
use home_lab_pxe.Events.{is_success_event, is_imaging_event, machine_event, refused}
use home_lab_pxe.Events.Reports.{answer, Crashes, machine_event-refused, machine_event-answer}
use home_lab_pxe.Seeds.{copy_image_seed_to_machine, same_path, select_seed_text}
use home_lab_pxe.Payload.{skips_guest_init}
use home_lab_pxe.Tests.Data.{
  environment, live_environment, debian, ready_machine, ready_lab, imaging_machine, imaging_lab,
  deployed_machine, deployed_lab, generation, no_hardware,
}

abbrev admin : Text
admin = codes "admin"

deploy_returns :
    (deploy_machine environment admin ready_machine debian ready_lab).0
    ≡ ok (deploying environment ready_machine debian)
unfolding deploy_machine assert_image_deployable has_text copy_image_seed_to_machine save_machine
    utf8_length create_install_attempt select_seed_text close_open_attempts same_path add_attempt
deploy_returns = refl

stored_image : get_image ready_lab (some 7) ≡ some debian
unfolding row
stored_image = refl

deploy_machine-boots_example :
    let after = (deploy_machine environment admin ready_machine debian ready_lab).1 in
    let m = deploying environment ready_machine debian in
    (m ≡ m)
    × (decide_script after m ≡ install_linux)
    × (payload_for after m ≡ some (pinned_payload debian))
deploy_machine-boots_example =
    deploy_machine-boots environment admin ready_machine debian ready_lab
      (deploying environment ready_machine debian) (omega arith) stored_image deploy_returns

stage_returns :
    (stage_machine environment admin deployed_machine (some debian) none deployed_lab).0
    ≡ ok (staged environment deployed_machine (some debian) none)
unfolding stage_machine assert_image_deployable has_text copy_image_seed_to_machine save_machine
    utf8_length create_install_attempt select_seed_text close_open_attempts add_staged_job same_path
    add_attempt
stage_returns = refl

assigned_image :
    get_image deployed_lab (assigned (some debian) deployed_machine)
    ≡ stage_target deployed_machine (some debian) deployed_lab
unfolding row
assigned_image = refl

stage_machine-boots_example :
    let after =
      (stage_machine environment admin deployed_machine (some debian) none deployed_lab).1 in
    let m = staged environment deployed_machine (some debian) none in
    (target : Image) × (stage_target deployed_machine (some debian) deployed_lab ≡ some target)
    × (m ≡ m)
    × (decide_script after m ≡ installer target.os_family)
    × (payload_for after m ≡ some (pinned_payload target))
stage_machine-boots_example =
    stage_machine-boots environment admin deployed_machine (some debian) none deployed_lab
      (staged environment deployed_machine (some debian) none) (omega arith) assigned_image
      stage_returns

abbrev after_deploy : Lab
after_deploy = (deploy_machine environment admin ready_machine debian ready_lab).1

abbrev after_imaging : Lab
after_imaging =
    (mark_imaging environment admin (deploying environment ready_machine debian) after_deploy).1

deploy_result :
    deploy_machine environment admin ready_machine debian ready_lab
    ≡ (ok (deploying environment ready_machine debian), after_deploy)
unfolding deploy_machine assert_image_deployable has_text copy_image_seed_to_machine save_machine
    utf8_length create_install_attempt select_seed_text close_open_attempts same_path add_attempt
deploy_result = refl

ready_lab-IsSound : IsSound ready_lab
unfolding row
ready_lab-IsSound = record {
  single = record { at_most_one = λ k. omega arith };
  distinct = (refl, tt);
}

Reach-IsSound_example : IsSound after_imaging
Reach-IsSound_example =
    Reach-IsSound
      (next
        (next here (
          deploys environment admin ready_machine debian
            (deploying environment ready_machine debian) (omega arith) deploy_result))
        (images environment admin (deploying environment ready_machine debian) refl))
      ready_lab-IsSound

expire_stale_imaging-exact_example :
    ((k : ℕ)
      → get_machine (expire_stale_imaging environment imaging_lab).0 k
        ≡ map_option (expire_machine environment 60) (get_machine imaging_lab k))
    × ((expire_stale_imaging environment imaging_lab).1
        ≡ count_is (λ m. is_imaging m.state && is_stale environment 60 m) imaging_lab.machines)
unfolding row
expire_stale_imaging-exact_example =
    expire_stale_imaging-exact environment imaging_lab (refl, tt) (omega arith)

ready-IsRegistry : IsRegistry ready_lab.machines
unfolding row
ready-IsRegistry = record {
  distinct = (refl, tt);
  one_mac = λ mac. ground arith;
  one_uuid = λ uuid. ground arith;
}

touch_normal-IsRegistry_example :
    IsRegistry
      (touch_normal environment
        (codes "m2")
        (some (codes "u"))
        (codes "10.0.0.9")
        no_hardware
        ready_lab).1.machines
touch_normal-IsRegistry_example =
    touch_normal-IsRegistry environment (codes "m2") (codes "10.0.0.9") no_hardware
      (some (codes "u")) ready_lab ready-IsRegistry

gc_keeps-revision_example :
    In
      (generation 2)
      (gc_extract_generations environment (of_image debian) imaging_lab).extract_dirs
    ↔ (In (generation 2) imaging_lab.extract_dirs
        × ((◌≡◌ {A = ℕ} 2 3)
            ⊎ (PinnedBy imaging_lab (owner_media imaging_lab (of_image debian)) 2
                ⊎ (environment.removes_dir (generation 2) ≡ false))))
unfolding owner_media
gc_keeps-revision_example =
    gc_keeps-revision environment imaging_lab (of_image debian) (generation 2) 2 refl refl

installs : is_install (decide_script imaging_lab imaging_machine) ≡ true
unfolding decide_script row get_open_attempt text_eq
installs = refl

no_such_machine : (machine_event environment 2 (codes "imaging") imaging_lab).0 ≡ refused 404
unfolding machine_event is_imaging_event text_eq row
no_such_machine = refl

machine_event-refused_example :
    (machine_event environment 2 (codes "imaging") imaging_lab).1 ≡ imaging_lab
machine_event-refused_example =
    machine_event-refused environment 2 (codes "imaging") imaging_lab 404 no_such_machine

stored_machine : get_machine imaging_lab 1 ≡ some imaging_machine
unfolding row
stored_machine = refl

machine_event-answer_example :
    let late =
      expire_machine environment imaging_lab.runtime.imaging_timeout_minutes imaging_machine in
    let response = (machine_event environment 1 (codes "imaging") imaging_lab).0 in
    (response ≡ answer environment imaging_machine late (codes "imaging"))
    ⊎ ((is_success_event (codes "imaging") ≡ true)
        × Crashes environment late (expire_stale_imaging environment imaging_lab).0 response)
unfolding row
machine_event-answer_example =
    machine_event-answer environment 1 (codes "imaging") imaging_lab imaging_machine (refl, tt)
      (omega arith) stored_machine

mark_deployed-IsEnded_example :
    let deployed = enter MachineState.deployed imaging_machine in
    let r = mark_deployed environment admin imaging_machine imaging_lab in
    ((r.0 ≡ ok deployed) × IsEnded MachineState.deployed deployed r.1)
    ⊎ ((r.0 ≡ os_error)
        × Sticks environment (where_is (open_for imaging_machine.id) imaging_lab.attempts))
mark_deployed-IsEnded_example =
    mark_deployed-IsEnded environment imaging_machine imaging_lab (omega arith) stored_machine admin

disable_machine-IsEnded_example :
    let r = disable_machine environment admin imaging_machine true imaging_lab in
    IsEnded MachineState.disabled r.0 r.1
disable_machine-IsEnded_example =
    disable_machine-IsEnded environment imaging_machine imaging_lab (omega arith) stored_machine
      admin

mark_install_failed-IsEnded_example :
    let r = mark_install_failed environment admin imaging_machine (codes "log") imaging_lab in
    IsEnded MachineState.failed r.0 r.1
mark_install_failed-IsEnded_example =
    mark_install_failed-IsEnded environment imaging_machine imaging_lab (omega arith) stored_machine
      admin (codes "log")

abort_deploy-cases_example :
    ((in_install_states MachineState.imaging ≡ false)
      × (abort_deploy environment admin imaging_machine imaging_lab
          ≡ (raised "No install is in progress", imaging_lab)))
    ⊎ (((◌≡◌ {A = MachineState} MachineState.imaging MachineState.staged)
          × AbortsTo environment imaging_machine imaging_lab admin MachineState.deployed)
        ⊎ (((◌≡◌ {A = MachineState} MachineState.imaging MachineState.deploying)
              ⊎ (◌≡◌ {A = MachineState} MachineState.imaging MachineState.imaging))
            × AbortsTo environment imaging_machine imaging_lab admin MachineState.timeout_error))
abort_deploy-cases_example =
    abort_deploy-cases environment imaging_machine imaging_lab (omega arith) stored_machine admin

alone :
    runs_alone live_environment (
      served_payload live_environment imaging_lab imaging_machine
        (decide_script imaging_lab imaging_machine))
    ≡ true
unfolding served_payload decide_script row get_open_attempt text_eq payload_for skips_guest_init
    has_text
alone = refl

render_policy_script-alone_example :
    let kind = decide_script imaging_lab imaging_machine in
    let r = render_policy_script live_environment imaging_lab imaging_machine in
    ((r.0
        ≡ ok (
          rendered kind (served_payload live_environment imaging_lab imaging_machine kind),
          kind,
        ))
      × IsEnded MachineState.deployed (enter MachineState.deployed imaging_machine) r.1
      × (decide_script r.1 (enter MachineState.deployed imaging_machine) ≡ menu))
    ⊎ ((r.0 ≡ os_error)
        × Sticks live_environment (where_is (open_for imaging_machine.id) imaging_lab.attempts))
render_policy_script-alone_example =
    render_policy_script-alone live_environment imaging_lab imaging_machine (omega arith)
      stored_machine installs alone

sees_menu : decide_script ready_lab ready_machine ≡ menu
unfolding decide_script has_text
sees_menu = refl
