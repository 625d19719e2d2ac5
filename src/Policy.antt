-- ===== src/Policy.antt =====
-- src/boot/policy.py: which script a machine that boots is served.
pub mod Safety
use home_lab_pxe.Prelude.{
  Text, has_text, codes, Bool, true, false, Option, none, some, if◌then◌else◌, ◌&&◌,
}
use home_lab_pxe.Models.{
  MachineState, OsFamily, linux, windows, tool, Image, Machine, InstallAttempt,
}
use home_lab_pxe.Lab.{Lab}
use home_lab_pxe.Readiness.{in_install_states, image_extract_blocking}
use home_lab_pxe.Attempts.{get_image, get_open_attempt}
use home_lab_pxe.Payload.{BootPayload, from_attempt, from_image}

pub data ScriptKind : Type 0 where
  unknown_local menu install_linux install_windows image_not_ready : ScriptKind

-- `kind.value`
pub kind_value : ScriptKind → Text
kind_value unknown_local = codes "unknown_local"
kind_value menu = codes "menu"
kind_value install_linux = codes "install_linux"
kind_value install_windows = codes "install_windows"
kind_value image_not_ready = codes "image_not_ready"

-- The states in which a host with no name still sees the menu.
abbrev pub in_managed_states : MachineState → Bool
in_managed_states MachineState.ready = true
in_managed_states MachineState.deployed = true
in_managed_states MachineState.timeout_error = true
in_managed_states MachineState.failed = true
in_managed_states _ = false

abbrev pub is_disabled : MachineState → Bool
is_disabled MachineState.disabled = true
is_disabled _ = false

unfoldable pub machine_menu_eligible : Machine → Bool
machine_menu_eligible machine =
    if is_disabled machine.state
    then false
    else if in_install_states machine.state
    then false
    else if has_text machine.hostname
    then true
    else in_managed_states machine.state

abbrev pub menu_or_local : Machine → ScriptKind
menu_or_local machine = if machine_menu_eligible machine then menu else unknown_local

abbrev pub install_kind : OsFamily → ScriptKind
install_kind windows = install_windows
install_kind linux = install_linux
install_kind tool = install_linux

abbrev pub attempt_kind : Image → Option InstallAttempt → ScriptKind
attempt_kind image none =
    if image_extract_blocking image
    then image_not_ready
    else install_kind (from_image image).os_family
attempt_kind image (some attempt) = install_kind (from_attempt attempt).os_family

abbrev pub image_kind : Machine → Option InstallAttempt → Image → OsFamily → ScriptKind
image_kind machine attempt image tool = menu_or_local machine
image_kind machine attempt image linux = attempt_kind image attempt
image_kind machine attempt image windows = attempt_kind image attempt

abbrev pub assigned_kind : Machine → Option InstallAttempt → Option Image → ScriptKind
assigned_kind machine attempt none = menu_or_local machine
assigned_kind machine attempt (some image) = image_kind machine attempt image image.os_family

unfoldable pub decide_script : Lab → Machine → ScriptKind
unfolding machine_menu_eligible from_image from_attempt
decide_script lab machine =
    if in_install_states machine.state
    then assigned_kind machine (get_open_attempt lab machine)
        (get_image lab machine.assigned_image_id)
    else menu_or_local machine
