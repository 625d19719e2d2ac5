-- ===== src/Ipxe/Handout.antt =====
-- Media that runs its own installer never phones home: the machine is Deployed when its script is
-- handed out, so that it does not install itself again at the next boot.
use home_lab_pxe.Prelude.{
  ◌<◌, ◌≡◌, refl, true, false, Option, some, Option-cases, ◌⊎◌, inl, inr, ok, os_error, where_is,
  arith, ap, ◌∙◌,
}
use home_lab_pxe.Models.{MachineState, Machine, BootMenuSettings}
use home_lab_pxe.Lab.{Lab, Env}
use home_lab_pxe.BootMenu.{get_or_create_settings, default_settings}
use home_lab_pxe.Attempts.{get_open_attempt}
use home_lab_pxe.Payload.{BootPayload}
use home_lab_pxe.Lifecycle.{get_machine, enter}
use home_lab_pxe.Lifecycle.Rows.{get_machine-same}
use home_lab_pxe.Installs.{open_for}
use home_lab_pxe.Installs.Frames.{Sticks}
use home_lab_pxe.Installs.Ended.{IsEnded, mark_deployed-IsEnded}
use home_lab_pxe.Policy.{ScriptKind, menu, decide_script, machine_menu_eligible}
use home_lab_pxe.Ipxe.{
  rendered, is_install, is_menu, runs_alone, payload_for, settled, served_payload, handed_out,
  render_policy_script,
}

install-not_menu : (kind : ScriptKind) → is_install kind ≡ true → is_menu kind ≡ false
install-not_menu kind h = ground arith

deployed-menu :
    (lab : Lab) (machine : Machine)
    → machine.state ≡ MachineState.deployed
    → decide_script lab machine ≡ menu
unfolding decide_script machine_menu_eligible
deployed-menu lab machine h = ground arith

module _ (env : Env) (lab : Lab) (machine : Machine) where
  abbrev pub kind : ScriptKind
  kind = decide_script lab machine

  abbrev pub payload : Option BootPayload
  payload = served_payload env lab machine kind

  -- The settings row is there already, or it is all that is added.
  settled-cases :
      (settled env lab ≡ lab)
      ⊎ ((settings : BootMenuSettings) × (settled env lab
            ≡ record lab { menu_settings = some settings }))
  unfolding get_or_create_settings
  settled-cases = elim (Option-cases lab.menu_settings) [
    | inl e ↦
        inr (default_settings env env.default_unknown_timeout env.default_menu_timeout, rw e refl)
    | inr (settings, e) ↦ inl (rw e refl)
  ]

  settled-machines : (settled env lab).machines ≡ lab.machines
  settled-machines = elim settled-cases [
    | inl same ↦ ap (λ (l : Lab). l.machines) same
    | inr (settings, added) ↦ ap (λ (l : Lab). l.machines) added
  ]

  settled-attempts : (settled env lab).attempts ≡ lab.attempts
  settled-attempts = elim settled-cases [
    | inl same ↦ ap (λ (l : Lab). l.attempts) same
    | inr (settings, added) ↦ ap (λ (l : Lab). l.attempts) added
  ]

  -- The settings decide no payload.
  payload-settled : served_payload env (settled env lab) machine kind ≡ payload
  unfolding served_payload payload_for get_open_attempt
  payload-settled = elim settled-cases [
    | inl same ↦ ap (λ (l : Lab). served_payload env l machine kind) same
    | inr (settings, added) ↦ ap (λ (l : Lab). served_payload env l machine kind) added
  ]

  -- A stored machine that is handed out an installer that runs alone is Deployed, with no attempt
  -- open; the script is the installer that was decided, and the next boot decision is the menu. Or no
  -- script is handed out, by an uncaught error of the operating system, where the seed snapshot of an
  -- open attempt of the machine cannot be deleted.
  pub render_policy_script-alone :
      0 < machine.id
      → get_machine lab machine.id ≡ some machine
      → is_install kind ≡ true
      → runs_alone env payload ≡ true
      → let r = render_policy_script env lab machine in
        ((r.0 ≡ ok (rendered kind payload, kind))
          × IsEnded MachineState.deployed (enter MachineState.deployed machine) r.1
          × (decide_script r.1 (enter MachineState.deployed machine) ≡ menu))
        ⊎ ((r.0 ≡ os_error) × Sticks env (where_is (open_for machine.id) lab.attempts))
  unfolding render_policy_script
  render_policy_script-alone key stored install alone =
      let no_menu = install-not_menu kind install in
      let r = render_policy_script env lab machine in
      let now_stored =
        get_machine-same lab (settled env lab) machine.id settled-machines ∙ stored in
      elim (mark_deployed-IsEnded env machine (settled env lab) key now_stored
        (handed_out env payload)) [
          | inl (returns, is_ended) ↦ inl (
            rw (no_menu, install, payload-settled, alone, returns) refl,
            rw (no_menu, install, payload-settled, alone, returns) is_ended,
            deployed-menu r.1 (enter MachineState.deployed machine) refl,
          )
          | inr (failed, stuck) ↦ inr (
            rw (no_menu, install, payload-settled, alone, failed) refl,
            rw (← settled-attempts) stuck,
          )
        ]
