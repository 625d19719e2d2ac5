-- ===== src/Events.antt =====
-- src/routes/events.py: what the installer of a machine reports. The name of an event is read from
-- the query, and from a JSON or form body where it has one; `reported` is what the body gives.
pub mod Reports
use home_lab_pxe.Prelude.{
  ℕ, Text, text_eq, strip, codes, Bool, true, false, ◌||◌, Option, none, some, List, [], ◌∷◌,
  is_nil, any_is, if◌then◌else◌, String, Outcome, ok, raised, os_error,
}
use home_lab_pxe.Models.{MachineState, Machine}
use home_lab_pxe.Lab.{Lab, Env, rollback}
use home_lab_pxe.Readiness.{in_install_states}
use home_lab_pxe.InstallLog.{install_log_max_bytes, last_bytes}
use home_lab_pxe.Lifecycle.{get_machine, mark_imaging, mark_install_failed, expire_stale_imaging}
use home_lab_pxe.Installs.{mark_deployed}

-- The response: status 200 with the new state, an `HTTPException`, or the status 500 of an exception
-- that nothing catches.
pub data Response : Type 0 where
  accepted : MachineState → Response
  refused : ℕ → Response
  crashed : Response

abbrev pub success_events : List Text
success_events = codes "deployed" ∷ codes "phone_home" ∷ codes "success" ∷ []

abbrev pub imaging_events : List Text
imaging_events = codes "imaging" ∷ codes "installing" ∷ []

unfoldable pub is_success_event : Text → Bool
is_success_event event = any_is (text_eq event) success_events

unfoldable pub is_imaging_event : Text → Bool
is_imaging_event event = any_is (text_eq event) imaging_events

abbrev or_default : Text → Text
or_default [] = codes "deployed"
or_default (c ∷ s) = c ∷ s

-- `_event_name`: a value in the body overrides the query; no value at all is `deployed`.
unfoldable pub event_name : Env → Text → Option Text → Text
event_name env query none = or_default (env.lower (strip query))
event_name env query (some reported) =
    if is_nil reported
    then or_default (env.lower (strip query))
    else or_default (env.lower (strip reported))

module _ (env : Env) where
  abbrev pub commit : Machine × Lab → Response × Lab
  commit r = (accepted r.0.state, r.1)

  -- An exception leaves the session without a commit.
  abbrev pub commit_outcome : Lab → Outcome Machine × Lab → Response × Lab
  commit_outcome before (ok machine, lab) = commit (machine, lab)
  commit_outcome before (raised message, lab) = (crashed, rollback before lab)
  commit_outcome before (os_error, lab) = (crashed, rollback before lab)

  abbrev pub report_imaging : Machine → Lab → Response × Lab
  report_imaging machine lab =
      if in_install_states machine.state
      then commit (mark_imaging env (codes "installer") machine lab)
      else (refused 409, lab)

  abbrev pub deployed_now : Option Machine → Lab → Lab → Response × Lab
  deployed_now none before lab = (refused 404, rollback before lab)
  deployed_now (some machine) before lab =
      if in_install_states machine.state
      then commit_outcome before (mark_deployed env (codes "installer") machine lab)
      else (refused 409, rollback before lab)

  -- Stale installs expire first, and the object is then the row as it stands.
  abbrev pub report_deployed : Machine → Lab → Response × Lab
  report_deployed machine lab =
      let expired = (expire_stale_imaging env lab).0 in
      deployed_now (get_machine expired machine.id) lab expired

  abbrev pub event_for : Option Machine → Text → Lab → Response × Lab
  event_for none event lab = (refused 404, lab)
  event_for (some machine) event lab =
      if is_imaging_event event then report_imaging machine lab else report_deployed machine lab

  unfoldable pub machine_event : ℕ → Text → Lab → Response × Lab
  unfolding rollback
  machine_event machine_id event lab =
      if is_imaging_event event || is_success_event event
      then event_for (get_machine lab machine_id) event lab
      else (refused 400, lab)

  abbrev log_for : Option Machine → Text → Lab → Response × Lab
  log_for none text lab = (refused 404, lab)
  log_for (some machine) text lab =
      if in_install_states machine.state
      then commit (mark_install_failed env (codes "installer") machine text lab)
      else (refused 409, lab)

  -- `text` is the body, cut to its last 64 KiB and decoded.
  unfoldable pub machine_install_log : ℕ → Text → Lab → Response × Lab
  machine_install_log machine_id text lab = log_for (get_machine lab machine_id) text lab
