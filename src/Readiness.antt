-- ===== src/Readiness.antt =====
-- src/inventory/service.py: the states of a machine that the guards test, and whether an image can
-- be deployed. `image_deploy_reason` returns "" for a deployable image, here `none`.
use home_lab_pxe.Prelude.{
  has_text, Bool, true, false, not, ◌&&◌, ◌||◌, Option, none, some, String, if◌then◌else◌, Outcome,
  ok, raised,
}
use home_lab_pxe.Models.{
  MachineState, OsFamily, linux, windows, tool, ExtractStatus, Image, Machine,
}
use home_lab_pxe.Lab.{Env}

-- INSTALL_STATES
abbrev pub in_install_states : MachineState → Bool
in_install_states MachineState.deploying = true
in_install_states MachineState.staged = true
in_install_states MachineState.imaging = true
in_install_states _ = false

-- EDIT_LOCKED_STATES
abbrev pub in_edit_locked_states : MachineState → Bool
in_edit_locked_states MachineState.deploying = true
in_edit_locked_states MachineState.imaging = true
in_edit_locked_states _ = false

-- WAIT_STATES
abbrev pub in_wait_states : MachineState → Bool
in_wait_states MachineState.pending = true
in_wait_states MachineState.ready = true
in_wait_states MachineState.timeout_error = true
in_wait_states _ = false

abbrev pub is_imaging : MachineState → Bool
is_imaging MachineState.imaging = true
is_imaging _ = false

unfoldable pub guest_init_allowed : Machine → Bool
guest_init_allowed machine = in_install_states machine.state

unfoldable pub edit_locked : Machine → Bool
edit_locked machine = in_edit_locked_states machine.state

-- EXTRACT_IN_PROGRESS
abbrev pub in_progress : ExtractStatus → Bool
in_progress ExtractStatus.queued = true
in_progress ExtractStatus.extracting = true
in_progress _ = false

-- EXTRACT_BLOCKING
abbrev pub in_blocking : ExtractStatus → Bool
in_blocking ExtractStatus.failed = true
in_blocking s = in_progress s

unfoldable pub image_extract_in_progress : Image → Bool
image_extract_in_progress image = in_progress image.extract_status

unfoldable pub image_extract_blocking : Image → Bool
image_extract_blocking image = in_blocking image.extract_status

abbrev pub has_kernel_and_initrd : Image → Bool
has_kernel_and_initrd image = has_text image.kernel_path && has_text image.initrd_path

abbrev boot_media_reason : Image → String → Option String
boot_media_reason image missing =
    if has_kernel_and_initrd image
    then none
    else if has_text image.iso_path
    then none
    else some missing

abbrev windows_reason : Env → Image → Option String
windows_reason env image =
    if has_text image.extract_generation && has_text image.boot_wim_path
    then (if not env.wimboot_available
        then some "valid wimboot is not installed"
        else if not env.smb_password_configured
        then some "Windows installation media share is not configured"
        else none)
    else if has_text image.iso_path || has_text image.boot_wim_path
    then none
    else some "Windows image needs extracted Setup media or an ISO"

abbrev family_reason : Env → OsFamily → Image → Option String
family_reason env tool image =
    boot_media_reason image "Tool image needs a kernel and initrd, or an ISO"
family_reason env linux image =
    boot_media_reason image "Linux image needs a kernel and initrd, or an ISO"
family_reason env windows image = windows_reason env image

abbrev status_reason : Env → ExtractStatus → Image → Option String
status_reason env ExtractStatus.queued image = some "extraction in progress"
status_reason env ExtractStatus.extracting image = some "extraction in progress"
status_reason env ExtractStatus.failed image = some "extraction failed"
status_reason env ExtractStatus.idle image = family_reason env image.os_family image
status_reason env ExtractStatus.ready image = family_reason env image.os_family image

unfoldable pub image_deploy_reason : Env → Image → Option String
image_deploy_reason env image = status_reason env image.extract_status image

abbrev pub is_reason : Option String → Bool
is_reason none = false
is_reason (some reason) = true

unfoldable pub image_deploy_blocked : Env → Image → Bool
unfolding image_deploy_reason
image_deploy_blocked env image = is_reason (image_deploy_reason env image)

abbrev refuse : Image → Option String → Outcome (Unit {0})
refuse image none = ok tt
refuse image (some reason) =
    if image_extract_blocking image
    then raised "This image is not ready to deploy until extraction succeeds"
    else raised reason

unfoldable pub assert_image_deployable : Env → Image → Outcome (Unit {0})
unfolding image_deploy_reason image_extract_blocking
assert_image_deployable env image = refuse image (image_deploy_reason env image)
