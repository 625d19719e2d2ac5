-- ===== src/Events/Reports.antt =====
-- What a report of an installer does, for every event, machine and state.
use home_lab_pxe.Prelude.{
  ℕ, ◌<◌, ◌≡◌, refl, ◌∙◌, ap, Text, codes, Option, none, some, List, [], ◌∷◌, arith, ◌||◌, leb,
  if◌then◌else◌, Bool-cases, inl, inr, ◌⊎◌, true, map_option, where_is,
}
use home_lab_pxe.Models.{MachineState, Machine}
use home_lab_pxe.Lab.{Lab, Env, rollback}
use home_lab_pxe.Lab.Tables.{Distinct, key-row}
use home_lab_pxe.Readiness.{in_install_states, is_imaging}
use home_lab_pxe.Attempts.{save_machine, record_activity, close_open_attempts}
use home_lab_pxe.Lifecycle.{
  get_machine, mark_imaging, mark_timeout_error, expire_row, expire_rows, expire_stale_imaging,
}
use home_lab_pxe.Lifecycle.Expiry.{expire_machine, expire_stale_imaging-exact}
use home_lab_pxe.Installs.{open_for}
use home_lab_pxe.Installs.Frames.{Sticks}
use home_lab_pxe.Installs.Ended.{mark_deployed-rows}
use home_lab_pxe.Events.{
  Response, accepted, refused, crashed, is_imaging_event, is_success_event, event_for, deployed_now,
  report_imaging, machine_event,
}

-- The files of the second state are those of the first.
abbrev SameFiles : Lab → Lab → Type 0
SameFiles lab other =
    (other.image_seeds ≡ lab.image_seeds)
    × (other.data_seeds ≡ lab.data_seeds)
    × (other.extract_dirs ≡ lab.extract_dirs)

rollback-same : (lab other : Lab) → SameFiles lab other → rollback lab other ≡ lab
unfolding rollback
rollback-same lab other (a, b, c) = rw (a, b, c)

module _ (env : Env) where
  timeout-files :
      (actor : Text) (machine : Machine) (lab : Lab)
      → SameFiles lab (mark_timeout_error env actor machine lab).1
  unfolding mark_timeout_error record_activity save_machine close_open_attempts
  timeout-files actor machine lab = (ground arith, ground arith, ground arith)

  expire_row-files :
      (minutes : ℕ) (machine : Machine) (lab : Lab) (n : ℕ)
      → SameFiles lab (expire_row env minutes machine lab n).0
  unfolding save_machine
  expire_row-files minutes machine lab n =
      let (a, b, c) = timeout-files (codes "timeout") machine lab in
      (ground (arith, a), ground (arith, b), ground (arith, c))

  expire_rows-files :
      (minutes : ℕ) (rows : List Machine) (lab : Lab) (n : ℕ)
      → SameFiles lab (expire_rows env minutes rows lab n).0
  unfolding expire_rows
  expire_rows-files minutes [] lab n = (refl, refl, refl)
  expire_rows-files minutes (machine ∷ rows) lab n =
      let step = expire_row env minutes machine lab n in
      let (a, b, c) = expire_row-files minutes machine lab n in
      let (d, e, f) = expire_rows-files minutes rows step.0 step.1 in (d ∙ a, e ∙ b, f ∙ c)

  expire-files : (lab : Lab) → SameFiles lab (expire_stale_imaging env lab).0
  unfolding expire_stale_imaging
  expire-files lab = elim (Bool-cases (leb lab.runtime.imaging_timeout_minutes 0)) [
    | inl e ↦ rw e (refl, refl, refl)
    | inr e ↦ rw e (
        expire_rows-files lab.runtime.imaging_timeout_minutes
          (where_is (λ m. is_imaging m.state) lab.machines) lab 0)
  ]

  abbrev Unchanged : ℕ → Lab → Response × Lab → Type 0
  Unchanged code lab r = (r.0 ≡ refused code) → (r.1 ≡ lab)

  deployed_now-refused :
      (found : Option Machine) (lab other : Lab) (code : ℕ)
      → SameFiles lab other
      → Unchanged code lab (deployed_now env found lab other)
  deployed_now-refused none lab other code same h = rollback-same lab other same
  deployed_now-refused (some machine) lab other code same h =
      elim (Bool-cases (in_install_states machine.state)) [
        | inl e ↦ elim (mark_deployed-rows env machine other (codes "installer")) [
          | inl (returns, machines, attempts) ↦ cc (rw (e, returns) at h)
          | inr (failed, stuck) ↦ cc (rw (e, failed) at h)
        ]
        | inr e ↦ rw e (rollback-same lab other same)
      ]

  imaging-refused :
      (machine : Machine) (lab : Lab) (code : ℕ)
      → Unchanged code lab (report_imaging env machine lab)
  imaging-refused machine lab code h = elim (Bool-cases (in_install_states machine.state)) [
    | inl e ↦ cc
    | inr e ↦ rw e refl
  ]

  event_for-refused :
      (found : Option Machine) (event : Text) (lab : Lab) (code : ℕ)
      → Unchanged code lab (event_for env found event lab)
  event_for-refused none event lab code h = refl
  event_for-refused (some machine) event lab code h = elim (Bool-cases (is_imaging_event event)) [
    | inl e ↦ rw e (imaging-refused machine lab code (rw e at h))
    | inr e ↦
        let expired = (expire_stale_imaging env lab).0 in
        rw e (
          deployed_now-refused (get_machine expired machine.id) lab expired code (expire-files lab)
            (rw e at h))
  ]

  -- A report that is refused leaves the state as it was, the imaging timeouts that it looked at
  -- included.
  pub machine_event-refused :
      (machine_id : ℕ) (event : Text) (lab : Lab) (code : ℕ)
      → (machine_event env machine_id event lab).0 ≡ refused code
      → (machine_event env machine_id event lab).1 ≡ lab
  unfolding machine_event
  machine_event-refused machine_id event lab code h =
      elim (Bool-cases (is_imaging_event event || is_success_event event)) [
        | inl e ↦ rw e (event_for-refused (get_machine lab machine_id) event lab code (rw e at h))
        | inr e ↦ rw e refl
      ]

  imaging-answer :
      (machine : Machine) (lab : Lab)
      → (report_imaging env machine lab).0
        ≡ (if in_install_states machine.state then accepted MachineState.imaging else refused 409)
  unfolding mark_imaging
  imaging-answer machine lab = elim (Bool-cases (in_install_states machine.state)) [
    | inl e ↦ rw e (ground arith)
    | inr e ↦ rw e refl
  ]

  -- The call ends with the error of the seed snapshot of an open attempt that cannot be deleted.
  abbrev pub Crashes : Machine → Lab → Response → Type 0
  Crashes machine lab response =
      (response ≡ crashed)
      × (in_install_states machine.state ≡ true)
      × Sticks env (where_is (open_for machine.id) lab.attempts)

  deployed-answer :
      (machine : Machine) (lab other : Lab)
      → let r = deployed_now env (some machine) lab other in
        (r.0 ≡ (
          if in_install_states machine.state then accepted MachineState.deployed else refused 409))
        ⊎ Crashes machine other r.0
  deployed-answer machine lab other = elim (Bool-cases (in_install_states machine.state)) [
    | inl e ↦ elim (mark_deployed-rows env machine other (codes "installer")) [
      | inl (returns, machines, attempts) ↦ inl (rw (e, returns) refl)
      | inr (failed, stuck) ↦ inr (rw (e, failed) refl, e, stuck)
    ]
    | inr e ↦ inl (rw e refl)
  ]

  abbrev pub answer : Machine → Machine → Text → Response
  answer machine expired event =
      if is_imaging_event event
      then (if in_install_states machine.state then accepted MachineState.imaging else refused 409)
      else if is_success_event event
      then (if in_install_states expired.state then accepted MachineState.deployed else refused 409)
      else refused 400

  -- The answer to a report about a stored machine, where the machines have distinct keys and the
  -- timeout is above 0: an imaging event is accepted exactly while the machine is being installed, a
  -- success event exactly while it is so after its imaging timeout was looked at, and any other event
  -- is a bad request. The one exception is a success event of a machine that is then being installed
  -- and has an open attempt whose seed snapshot cannot be deleted: the request may fail.
  pub machine_event-answer :
      (machine_id : ℕ) (event : Text) (lab : Lab) (machine : Machine)
      → Distinct (λ (m : Machine). m.id) lab.machines
      → 0 < lab.runtime.imaging_timeout_minutes
      → get_machine lab machine_id ≡ some machine
      → let expired = expire_machine env lab.runtime.imaging_timeout_minutes machine in
        let response = (machine_event env machine_id event lab).0 in
        (response ≡ answer machine expired event)
        ⊎ ((is_success_event event ≡ true)
            × Crashes expired (expire_stale_imaging env lab).0 response)
  unfolding machine_event
  machine_event-answer machine_id event lab machine d h stored =
      let same_key : machine.id ≡ machine_id =
        key-row (λ (m : Machine). m.id) machine_id lab.machines machine stored in
      let expired = expire_machine env lab.runtime.imaging_timeout_minutes machine in
      let other = (expire_stale_imaging env lab).0 in
      let now_stored : get_machine other machine.id ≡ some expired =
        (expire_stale_imaging-exact env lab d h).0 machine.id
        ∙ ap (map_option (expire_machine env lab.runtime.imaging_timeout_minutes))
            (ap (get_machine lab) same_key ∙ stored) in
      elim (Bool-cases (is_imaging_event event)) [
        | inl imaging ↦ inl (rw (imaging, stored, imaging) (imaging-answer machine lab))
        | inr late ↦ elim (Bool-cases (is_success_event event)) [
          | inr bad ↦ inl (rw (late, bad) refl)
          | inl success ↦ elim (deployed-answer expired lab other) [
            | inl told ↦ inl (rw (late, success, stored, late, now_stored) told)
            | inr (failed, installing, stuck) ↦
                inr (
                  success,
                  (rw (late, success, stored, late, now_stored) failed, installing, stuck),
                )
          ]
        ]
      ]
