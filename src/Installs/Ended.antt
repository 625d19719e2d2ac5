-- ===== src/Installs/Ended.antt =====
-- The operations that end an install leave no open attempt of the machine and no running clock.
use home_lab_pxe.Prelude.{
  ◌<◌, ◌≡◌, refl, Text, codes, true, false, none, some, [], map, where_is, ok, raised, os_error,
  arith, ap, ◌∙◌, ◌⊎◌, inl, inr,
}
use home_lab_pxe.Models.{MachineState, Machine}
use home_lab_pxe.Lab.{Lab, Env, put_row}
use home_lab_pxe.Readiness.{in_install_states}
use home_lab_pxe.Seeds.{prune_install_seeds}
use home_lab_pxe.Attempts.{
  close_attempt, close_open_attempts, get_open_attempt, record_activity, save_machine,
}
use home_lab_pxe.Attempts.Open.{open_count, open_count-close, no_current_of_closed}
use home_lab_pxe.Lifecycle.{
  get_machine, enter, mark_timeout_error, mark_install_failed, abort_deploy, abort_state,
  finish_abort,
}
use home_lab_pxe.Lifecycle.Rows.{machines-close, get_machine-same, get_machine-save_stored}
use home_lab_pxe.Installs.Frames.{
  Sticks, delete_snapshots-SameRows, delete_snapshots-cases, gc_images-SameRows,
}
use home_lab_pxe.Installs.{
  open_for, attempt_images, mark_deployed, disable_machine, complete_attempts, apply_jobs,
  delete_snapshots, gc_images,
}

install_cases :
    (state : MachineState)
    → (in_install_states state ≡ false)
      ⊎ ((state ≡ MachineState.staged)
          ⊎ ((state ≡ MachineState.deploying) ⊎ (state ≡ MachineState.imaging)))
install_cases MachineState.staged = inr (inl refl)
install_cases MachineState.deploying = inr (inr (inl refl))
install_cases MachineState.imaging = inr (inr (inr refl))
install_cases MachineState.pending = inl refl
install_cases MachineState.ready = inl refl
install_cases MachineState.timeout_error = inl refl
install_cases MachineState.deployed = inl refl
install_cases MachineState.disabled = inl refl
install_cases MachineState.failed = inl refl

-- The machine is stored with the state given, its timeout clock does not run, and no attempt of it is
-- open.
pub record IsEnded (state : MachineState) (machine : Machine) (lab : Lab) : Type 0 where
  pub in_state : machine.state ≡ state
  pub stopped : machine.imaging_started_at ≡ none
  pub stored : get_machine lab machine.id ≡ some machine
  pub closed : open_count machine.id lab.attempts ≡ 0
  pub unserved : get_open_attempt lab machine ≡ none

-- An abort returns, and the install has ended with the machine in the state given.
abbrev pub AbortsTo : Env → Machine → Lab → Text → MachineState → Type 0
AbortsTo env machine lab actor state =
    let r = abort_deploy env actor machine lab in (m : Machine) × (r.0 ≡ ok m) × IsEnded state m r.1

-- `unserved` follows from `closed`.
ended :
    (state : MachineState) (machine : Machine) (lab : Lab)
    → machine.state ≡ state
    → machine.imaging_started_at ≡ none
    → get_machine lab machine.id ≡ some machine
    → open_count machine.id lab.attempts ≡ 0
    → IsEnded state machine lab
unfolding get_open_attempt
ended state machine lab a b c d = record {
  in_state = a;
  stopped = b;
  stored = c;
  closed = d;
  unserved = ground (arith, no_current_of_closed machine lab.attempts);
}

module _ (env : Env) (machine : Machine) (lab : Lab) (actor : Text) where
  -- The state before the media is swept.
  abbrev pub recorded : Lab
  recorded =
      let attempts = where_is (open_for machine.id) lab.attempts in
      let completed = complete_attempts env machine.id (apply_jobs env machine.id lab) in
      record_activity env actor (codes "machine.deployed") machine.mac (
        save_machine (enter MachineState.deployed machine)
          (prune_install_seeds env machine.id [] (delete_snapshots env attempts completed).1))

  -- The tables behind the media sweep.
  swept-rows :
      let attempts = where_is (open_for machine.id) lab.attempts in
      let swept = gc_images env (attempt_images attempts) recorded in
      (swept.machines ≡ (save_machine (enter MachineState.deployed machine) lab).machines)
      × (swept.attempts ≡ map (close_attempt env.now machine.id) lab.attempts)
  unfolding record_activity save_machine complete_attempts apply_jobs prune_install_seeds
  swept-rows =
      let attempts = where_is (open_for machine.id) lab.attempts in
      let completed = complete_attempts env machine.id (apply_jobs env machine.id lab) in
      let deleted = delete_snapshots-SameRows env attempts completed in
      let swept = gc_images-SameRows env (attempt_images attempts) recorded in
      (
        swept.machines
            ∙ ap (put_row (λ (m : Machine). m.id) (enter MachineState.deployed machine))
                deleted.machines,
        swept.attempts ∙ deleted.attempts,
      )

  -- A call that returns has stored the machine as Deployed and closed its attempts; a call that does
  -- not ends with the error of a snapshot that cannot be deleted.
  pub mark_deployed-rows :
      let r = mark_deployed env actor machine lab in
      ((r.0 ≡ ok (enter MachineState.deployed machine))
        × (r.1.machines ≡ (save_machine (enter MachineState.deployed machine) lab).machines)
        × (r.1.attempts ≡ map (close_attempt env.now machine.id) lab.attempts))
      ⊎ ((r.0 ≡ os_error) × Sticks env (where_is (open_for machine.id) lab.attempts))
  unfolding mark_deployed
  mark_deployed-rows =
      let attempts = where_is (open_for machine.id) lab.attempts in
      let completed = complete_attempts env machine.id (apply_jobs env machine.id lab) in
      elim (delete_snapshots-cases env attempts completed) [
        | inl e ↦ inl (rw e refl, rw e swept-rows.0, rw e swept-rows.1)
        | inr (e, stuck) ↦ inr (rw e refl, stuck)
      ]

module _ (env : Env) (machine : Machine) (lab : Lab) (key : 0 < machine.id)
    (stored : get_machine lab machine.id ≡ some machine) where
  -- A changed machine saved after its attempts were closed, whatever is recorded behind.
  close_and_save-IsEnded :
      (state : MachineState) (after : Machine) (other : Lab)
      → machine.id ≡ after.id
      → after.state ≡ state
      → after.imaging_started_at ≡ none
      → other.machines ≡ (save_machine after (close_open_attempts env machine lab)).machines
      → other.attempts ≡ (close_open_attempts env machine lab).attempts
      → IsEnded state after other
  unfolding save_machine close_open_attempts
  close_and_save-IsEnded state after other same a b machines attempts =
      let closed = close_open_attempts env machine lab in
      let saved : get_machine (save_machine after closed) after.id ≡ some after =
        get_machine-save_stored machine after closed same
          (get_machine-same lab closed machine.id (machines-close env machine lab) ∙ stored) in
      ended state after other a b
        (get_machine-same (save_machine after closed) other after.id machines ∙ saved)
        (rw attempts (ground (arith, open_count-close env.now machine.id after.id lab.attempts)))

  -- A stored machine that is marked Timeout Error has ended its install: it is stored in that state,
  -- its timeout clock does not run, and none of its attempts is open.
  pub mark_timeout_error-IsEnded :
      (actor : Text)
      → let r = mark_timeout_error env actor machine lab in
        IsEnded MachineState.timeout_error r.0 r.1
  unfolding mark_timeout_error record_activity save_machine
  mark_timeout_error-IsEnded actor =
      let r = mark_timeout_error env actor machine lab in
      close_and_save-IsEnded MachineState.timeout_error r.0 r.1 refl refl refl refl refl

  -- A stored machine whose failure is reported has ended its install: it is stored as failed, its
  -- timeout clock does not run, and none of its attempts is open.
  pub mark_install_failed-IsEnded :
      (actor log : Text)
      → let r = mark_install_failed env actor machine log lab in IsEnded MachineState.failed r.0 r.1
  unfolding mark_install_failed record_activity save_machine
  mark_install_failed-IsEnded actor log =
      let r = mark_install_failed env actor machine log lab in
      close_and_save-IsEnded MachineState.failed r.0 r.1 refl refl refl refl refl

  -- A stored machine that is disabled has ended its install: it is stored as Disabled, its timeout
  -- clock does not run, and none of its attempts is open.
  pub disable_machine-IsEnded :
      (actor : Text)
      → let r = disable_machine env actor machine true lab in IsEnded MachineState.disabled r.0 r.1
  unfolding disable_machine record_activity save_machine
  disable_machine-IsEnded actor =
      let r = disable_machine env actor machine true lab in
      close_and_save-IsEnded MachineState.disabled r.0 r.1 refl refl refl refl refl

  abort-IsEnded :
      (actor : Text) (state : MachineState) (m : Machine)
      → (finish_abort env actor machine (some state) lab).0 ≡ ok m
      → IsEnded state m (finish_abort env actor machine (some state) lab).1
  unfolding record_activity save_machine
  abort-IsEnded actor state m h =
      let after = enter state machine in
      let same : after ≡ m = cc in
      rw (← same) (
        close_and_save-IsEnded state after (finish_abort env actor machine (some state) lab).1 refl
          refl refl refl refl)

  aborts_to :
      (actor : Text) (state : MachineState)
      → abort_state env machine.state ≡ some state
      → AbortsTo env machine lab actor state
  unfolding abort_deploy
  aborts_to actor state e =
      (enter state machine, rw e, rw e (abort-IsEnded actor state (enter state machine) refl))

  idle_abort :
      (actor : Text)
      → in_install_states machine.state ≡ false
      → abort_deploy env actor machine lab ≡ (raised "No install is in progress", lab)
  unfolding abort_deploy
  idle_abort actor idle =
      let none_named : abort_state env machine.state ≡ none = ground arith in rw none_named refl

  -- An abort of a stored machine that is not being installed raises and changes nothing. The abort of
  -- a staged one ends its install as Deployed; the abort of one that is deploying or imaging ends it
  -- as Timeout Error. Ended means stored in that state, with no running clock and no open attempt.
  pub abort_deploy-cases :
      (actor : Text)
      → ((in_install_states machine.state ≡ false)
          × (abort_deploy env actor machine lab ≡ (raised "No install is in progress", lab)))
        ⊎ (((machine.state ≡ MachineState.staged)
              × AbortsTo env machine lab actor MachineState.deployed)
            ⊎ (((machine.state ≡ MachineState.deploying) ⊎ (machine.state ≡ MachineState.imaging))
                × AbortsTo env machine lab actor MachineState.timeout_error))
  abort_deploy-cases actor = elim (install_cases machine.state) [
    | inl idle ↦ inl (idle, idle_abort actor idle)
    | inr (inl staged) ↦
        inr (inl (staged, aborts_to actor MachineState.deployed (ground (arith, staged))))
    | inr (inr busy) ↦
        inr (inr (busy, aborts_to actor MachineState.timeout_error (ground (arith, busy))))
  ]

  -- Marking a stored machine Deployed ends its install: it is stored as Deployed, its timeout clock
  -- does not run, and none of its attempts is open; or the call ends with an uncaught error of the
  -- operating system, where the seed snapshot of an open attempt cannot be deleted.
  pub mark_deployed-IsEnded :
      (actor : Text)
      → let r = mark_deployed env actor machine lab in
        ((r.0 ≡ ok (enter MachineState.deployed machine))
          × IsEnded MachineState.deployed (enter MachineState.deployed machine) r.1)
        ⊎ ((r.0 ≡ os_error) × Sticks env (where_is (open_for machine.id) lab.attempts))
  mark_deployed-IsEnded actor =
      let r = mark_deployed env actor machine lab in
      let after = enter MachineState.deployed machine in
      elim (mark_deployed-rows env machine lab actor) [
        | inr stuck ↦ inr stuck
        | inl (returns, machines, attempts) ↦ inl (
          returns,
          ended MachineState.deployed after r.1 refl refl
              (get_machine-same (save_machine after lab) r.1 after.id machines
                ∙ get_machine-save_stored machine after lab refl stored)
              (rw attempts
                (ground (arith, open_count-close env.now machine.id machine.id lab.attempts))),
        )
      ]
