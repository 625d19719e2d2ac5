-- ===== src/Lifecycle.antt =====
-- src/inventory/service.py: the life of a machine. An operation that cannot raise returns the
-- machine and the state; one that can is an action. The clock stands still during one operation.
pub mod Rows
pub mod Deploy
pub mod Expiry
use home_lab_pxe.Prelude.{
  ℕ, suc, ◌+◌, ◌*◌, ◌==◌, leb, ltb, Text, text_eq, strip, codes, length, take, Bool, true, false,
  not, ◌&&◌, ◌||◌, Option, none, some, List, [], ◌∷◌, ◌++◌, map, where_is, any_is, is_nil,
  if◌then◌else◌, Outcome, ok, raised, Action, pure, raise, modify, lift, ◌>>=◌, ◌>>◌,
}
use home_lab_pxe.Models.{
  MachineState, OsFamily, linux, windows, tool, Image, Machine, StagedJob, InstallAttempt,
  BootEvent, LocalAccount,
}
use home_lab_pxe.Lab.{Lab, Env, row, put_row, drop_row, next_key}
use home_lab_pxe.Seeds.{copy_image_seed_to_machine, delete_seed, prune_install_seeds}
use home_lab_pxe.Readiness.{
  in_install_states, is_imaging, guest_init_allowed, assert_image_deployable,
}
use home_lab_pxe.Attempts.{
  save_machine, is_open, get_image, record_activity, close_open_attempts, create_install_attempt,
  refresh_install_attempt, bump_instance_id,
}
use home_lab_pxe.Extracts.{of_image, gc_extract_generations}
use home_lab_pxe.InstallLog.{redact_install_log}

abbrev pub get_machine : Lab → ℕ → Option Machine
get_machine lab k = row (λ m. m.id) k lab.machines

unfoldable pub apply_hostname : Machine → Text → Outcome Machine
unfolding strip
apply_hostname machine hostname =
    let host = strip hostname in
    if ltb 253 (length host)
    then raised "Hostname is too long"
    else ok (record machine { hostname = host })

-- The state after an operation that ends or changes an install; the timeout clock is cleared.
abbrev pub enter : MachineState → Machine → Machine
enter state machine = record machine { state = state; imaging_started_at = none }

abbrev pub is_family : OsFamily → OsFamily → Bool
is_family linux linux = true
is_family windows windows = true
is_family tool tool = true
is_family _ _ = false

module _ (env : Env) where
  -- `note_imaging_heartbeat`
  unfoldable pub note_imaging_heartbeat : Machine → Lab → Lab
  note_imaging_heartbeat machine lab =
      if is_imaging machine.state
      then save_machine (record machine { imaging_started_at = some env.now }) lab
      else lab

  abbrev pub wrong_instance : Option Text → Machine → Bool
  wrong_instance none machine = false
  wrong_instance (some instance_id) machine = not (text_eq machine.instance_id instance_id)

  abbrev serve_guest : Option Machine → Option Text → Lab → Option Machine × Lab
  serve_guest none instance_id lab = (none, lab)
  serve_guest (some machine) instance_id lab =
      if not (guest_init_allowed machine)
      then (none, lab)
      else if wrong_instance instance_id machine
      then (none, lab)
      else (some machine, note_imaging_heartbeat machine lab)

  unfoldable pub get_machine_for_guest_init : ℕ → Option Text → Lab → Option Machine × Lab
  unfolding note_imaging_heartbeat guest_init_allowed
  get_machine_for_guest_init machine_id instance_id lab =
      serve_guest (get_machine lab machine_id) instance_id lab

  unfoldable pub deploy_machine : Text → Machine → Image → Action Lab Machine
  deploy_machine actor machine image =
      if is_family image.os_family tool
      then raise "Tool images boot from the PXE menu and cannot be deployed"
      else do
        lift (assert_image_deployable env image)
        let deploying = bump_instance_id env (
            enter MachineState.deploying
              (record machine { assigned_image_id = some image.id; install_log = [] }))
        modify (save_machine deploying)
        copy_image_seed_to_machine env machine.id image.id image.os_family false
        create_install_attempt env deploying image
        modify (record_activity env actor (codes "machine.deploy") (codes "image=" ++ image.name))
        pure deploying

  abbrev pub leave_pending : MachineState → MachineState
  leave_pending MachineState.pending = MachineState.ready
  leave_pending state = state

  unfoldable pub mark_ready : Text → Machine → Text → Action Lab Machine
  unfolding apply_hostname
  mark_ready actor machine hostname = do
    named ← lift (apply_hostname machine hostname)
    let ready = record named { state = leave_pending named.state }
    modify (save_machine ready)
    modify (record_activity env actor (codes "machine.ready") ready.hostname)
    pure ready

  -- A repeated call only refreshes the timeout clock.
  unfoldable pub mark_imaging : Text → Machine → Lab → Machine × Lab
  mark_imaging actor machine lab =
      let started = record machine {
        state = MachineState.imaging;
        imaging_started_at = some env.now;
      } in
      if is_imaging machine.state then (started, save_machine started lab) else (
        started,
        record_activity env actor (codes "machine.imaging") machine.mac (save_machine started lab),
      )

  unfoldable pub mark_timeout_error : Text → Machine → Lab → Machine × Lab
  mark_timeout_error actor machine lab =
      let expired = enter MachineState.timeout_error machine in
      (
        expired,
        record_activity env actor (codes "machine.timeout") machine.mac
            (save_machine expired (close_open_attempts env machine lab)),
      )

  -- One row of the loop of `expire_stale_imaging`: `started <= now - timeout`.
  abbrev pub is_stale : ℕ → Machine → Bool
  is_stale minutes machine = elim machine.imaging_started_at [
    | none ↦ false
    | some started ↦ leb (started + minutes * 60) env.now
  ]

  abbrev pub expire_row : ℕ → Machine → Lab → ℕ → Lab × ℕ
  expire_row minutes machine lab expired = elim machine.imaging_started_at [
    | none ↦ (save_machine (record machine { imaging_started_at = some env.now }) lab, expired)
    | some started ↦
        if leb (started + minutes * 60) env.now
        then ((mark_timeout_error (codes "timeout") machine lab).1, suc expired)
        else (lab, expired)
  ]

  unfoldable pub expire_rows : ℕ → List Machine → Lab → ℕ → Lab × ℕ
  expire_rows minutes [] lab expired = (lab, expired)
  expire_rows minutes (machine ∷ rows) lab expired =
      let step = expire_row minutes machine lab expired in expire_rows minutes rows step.0 step.1

  -- 0 minutes disables the timeout. Beside the state, how many machines expired.
  unfoldable pub expire_stale_imaging : Lab → Lab × ℕ
  unfolding expire_rows
  expire_stale_imaging lab =
      let minutes = lab.runtime.imaging_timeout_minutes in
      if leb minutes 0
      then (lab, 0)
      else expire_rows minutes (where_is (λ m. is_imaging m.state) lab.machines) lab 0

  unfoldable pub mark_install_failed : Text → Machine → Text → Lab → Machine × Lab
  mark_install_failed actor machine log lab =
      let failed = record machine {
        install_log = redact_install_log log;
        state = MachineState.failed;
        imaging_started_at = none;
      } in
      (
        failed,
        record_activity env actor (codes "machine.install_failed") machine.mac
            (save_machine failed (close_open_attempts env machine lab)),
      )

  abbrev pub abort_state : MachineState → Option MachineState
  abort_state MachineState.staged = some MachineState.deployed
  abort_state MachineState.deploying = some MachineState.timeout_error
  abort_state MachineState.imaging = some MachineState.timeout_error
  abort_state _ = none

  abbrev pub finish_abort : Text → Machine → Option MachineState → Action Lab Machine
  finish_abort actor machine none lab = (raised "No install is in progress", lab)
  finish_abort actor machine (some state) lab =
      let aborted = enter state machine in
      (
        ok aborted,
        record_activity env actor (codes "machine.abort") machine.mac
            (save_machine aborted (close_open_attempts env machine lab)),
      )

  unfoldable pub abort_deploy : Text → Machine → Action Lab Machine
  abort_deploy actor machine = finish_abort actor machine (abort_state machine.state)
