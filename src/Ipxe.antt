-- ===== src/Ipxe.antt =====
-- src/routes/ipxe.py: what a machine is served at each boot. A script is the call of the renderer
-- that prints it; `render_script` and the menus are in src/boot/ipxe.py and src/boot/menu.py.
pub mod Installing
pub mod Handout
use home_lab_pxe.Prelude.{
  ℕ, Text, codes, Bool, true, false, not, ◌&&◌, ◌||◌, Option, none, some, if◌then◌else◌, Outcome,
  ok, raised, os_error,
}
use home_lab_pxe.Models.{MachineState, tool, Image, Machine}
use home_lab_pxe.Lab.{Lab, Env, rollback}
use home_lab_pxe.Payload.{BootPayload, from_attempt, from_image, sanboots, skips_guest_init}
use home_lab_pxe.Readiness.{in_install_states, image_deploy_blocked}
use home_lab_pxe.Attempts.{get_image, get_open_attempt}
use home_lab_pxe.Lifecycle.{get_machine, is_family, deploy_machine, expire_stale_imaging}
use home_lab_pxe.Installs.{mark_deployed, stage_machine}
use home_lab_pxe.BootMenu.{get_or_create_settings}
use home_lab_pxe.Machines.{touch_normal, record_boot_event}
use home_lab_pxe.Hardware.{Hardware}
use home_lab_pxe.Policy.{
  ScriptKind, unknown_local, menu, install_linux, install_windows, image_not_ready, kind_value,
  machine_menu_eligible, decide_script,
}

pub data Script : Type 0 where
  folder_menu : Option ℕ → Script
  rendered : ScriptKind → Option BootPayload → Script
  tool_boot : BootPayload → Script

abbrev pub is_install : ScriptKind → Bool
is_install install_linux = true
is_install install_windows = true
is_install _ = false

abbrev pub is_menu : ScriptKind → Bool
is_menu menu = true
is_menu _ = false

-- `_payload_for`
unfoldable pub payload_for : Lab → Machine → Option BootPayload
payload_for lab machine = elim (get_open_attempt lab machine) [
  | some attempt ↦ some (from_attempt attempt)
  | none ↦ elim (get_image lab machine.assigned_image_id) [
    | some image ↦ some (from_image image)
    | none ↦ none
  ]
]

module _ (env : Env) where
  -- Media that runs its own installer.
  abbrev pub runs_alone : Option BootPayload → Bool
  runs_alone none = false
  runs_alone (some payload) = skips_guest_init env payload

  abbrev current_or : Option Image → Option BootPayload → Option BootPayload
  current_or none payload = payload
  current_or (some image) payload =
      if skips_guest_init env (from_image image) then some (from_image image) else payload

  -- Such media is served from the current revision, not from the pinned copy.
  unfoldable pub served_payload : Lab → Machine → ScriptKind → Option BootPayload
  served_payload lab machine kind =
      let payload = payload_for lab machine in
      if is_install kind && runs_alone payload
      then current_or (get_image lab machine.assigned_image_id) payload
      else payload

  abbrev pub handed_out : Option BootPayload → Text
  handed_out none = codes "live-boot"
  handed_out (some payload) = if sanboots payload then codes "sanboot" else codes "live-boot"

  -- `get_or_create_settings(db)`: the row is written where there is none. `folder_menu_script` begins
  -- with the same call, and writes nothing else.
  abbrev pub settled : Lab → Lab
  settled lab =
      (get_or_create_settings env env.default_unknown_timeout env.default_menu_timeout lab).1

  -- The script is returned where `mark_deployed` does.
  abbrev pub handed :
      Script × ScriptKind → Outcome Machine × Lab → Outcome (Script × ScriptKind) × Lab
  handed served (ok machine, lab) = (ok served, lab)
  handed served (raised message, lab) = (raised message, lab)
  handed served (os_error, lab) = (os_error, lab)

  abbrev pub render_kind : Lab → Machine → ScriptKind → Outcome (Script × ScriptKind) × Lab
  render_kind lab machine kind =
      let payload = served_payload lab machine kind in
      let script = rendered kind payload in
      if is_install kind && runs_alone payload
      then handed (script, kind) (mark_deployed env (handed_out payload) machine lab)
      else (ok (script, kind), lab)

  -- `_render_policy_script`: Deployed is recorded when a script is handed out that never phones home.
  unfoldable pub render_policy_script : Lab → Machine → Outcome (Script × ScriptKind) × Lab
  unfolding get_or_create_settings
  render_policy_script lab machine =
      let kind = decide_script lab machine in
      if is_menu kind
      then (ok (folder_menu none, kind), settled lab)
      else render_kind (settled lab) machine kind

  -- The object of a machine after other operations of the session.
  abbrev refreshed : Machine → Lab → Machine
  refreshed machine lab = elim (get_machine lab machine.id) [ none ↦ machine | some m ↦ m ]

  -- The beginning of every handler: the machine is touched and stale installs expire.
  unfoldable pub arrive : Text → Option Text → Text → Hardware → Lab → Machine × Lab
  arrive mac uuid client hw lab =
      let touched = touch_normal env mac uuid client hw lab in
      let expired = (expire_stale_imaging env touched.1).0 in (refreshed touched.0 expired, expired)

  -- The end of a handler. Where an exception is not caught, the request fails and nothing is committed
  -- since the state given first.
  abbrev record_kind :
      Machine → Text → Lab → Outcome (Script × ScriptKind) × Lab → Option Script × Lab
  record_kind machine client before (ok served, lab) =
      (some served.0, record_boot_event env machine client (kind_value served.1) lab)
  record_kind machine client before (raised message, lab) = (none, rollback before lab)
  record_kind machine client before (os_error, lab) = (none, rollback before lab)

  abbrev serve_policy : Machine → Text → Lab → Lab → Option Script × Lab
  serve_policy machine client before lab =
      record_kind machine client before (render_policy_script lab machine)

  -- GET /ipxe/{mac}, with the normal forms of the MAC, the UUID and the hardware.
  unfoldable pub ipxe_script : Text → Option Text → Text → Hardware → Lab → Option Script × Lab
  unfolding arrive render_policy_script
  ipxe_script mac uuid client hw lab =
      let here = arrive mac uuid client hw lab in serve_policy here.0 client lab here.1

  -- GET /ipxe/{mac}/menu/{folder_id}
  unfoldable pub ipxe_folder_menu :
      Text → Option Text → Text → Hardware → ℕ → Lab → Option Script × Lab
  unfolding arrive render_policy_script
  ipxe_folder_menu mac uuid client hw folder_id lab =
      let here = arrive mac uuid client hw lab in
      let kind = decide_script here.1 here.0 in
      if is_menu kind
      then record_kind here.0 client lab (ok (folder_menu (some folder_id), kind), settled here.1)
      else serve_policy here.0 client lab here.1

  abbrev is_deployed : MachineState → Bool
  is_deployed MachineState.deployed = true
  is_deployed _ = false

  -- Staging of a deployed machine, deployment of any other that installs nothing.
  unfoldable pub start_install : Machine → Image → Lab → Outcome Machine × Lab
  start_install machine image lab =
      if is_deployed machine.state
      then stage_machine env (codes "pxe-menu") machine (some image) none lab
      else if in_install_states machine.state
      then (ok machine, lab)
      else deploy_machine env (codes "pxe-menu") machine image lab

  -- What follows the commit, or the rollback after a `ValueError`; another exception is a failure
  -- of the request, `none`. The menu that is shown after the rollback may add the settings row, which
  -- the end of the session drops, since nothing commits it.
  abbrev after_start : Text → Lab → Outcome Machine × Lab → Option Script × Lab
  after_start client before (ok machine, lab) = serve_policy machine client lab lab
  after_start client before (raised message, lab) = (some (folder_menu none), rollback before lab)
  after_start client before (os_error, lab) = (none, rollback before lab)

  abbrev chosen_image : Machine → Text → Lab → Lab → Image → Option Script × Lab
  chosen_image machine client before lab image =
      if image_deploy_blocked env image
      then (
        some (folder_menu none),
        record_boot_event env machine client (kind_value menu) (settled lab),
      )
      else if is_family image.os_family tool
      then (
        some (tool_boot (from_image image)),
        record_boot_event env machine client (codes "tool") lab,
      )
      else after_start client before (start_install machine image lab)

  abbrev chosen : Machine → Text → Lab → Lab → Option Image → Option Script × Lab
  chosen machine client before lab none = (
    some (folder_menu none),
    record_boot_event env machine client (kind_value menu) (settled lab),
  )
  chosen machine client before lab (some image) = chosen_image machine client before lab image

  -- GET /ipxe/{mac}/boot/{image_id}
  unfoldable pub ipxe_boot_image :
      Text → Option Text → Text → Hardware → ℕ → Lab → Option Script × Lab
  unfolding arrive render_policy_script start_install
  ipxe_boot_image mac uuid client hw image_id lab =
      let here = arrive mac uuid client hw lab in
      let machine = here.0 in
      if is_menu (decide_script here.1 machine) && machine_menu_eligible machine
      then chosen machine client lab here.1 (get_image here.1 (some image_id))
      else serve_policy machine client lab here.1
