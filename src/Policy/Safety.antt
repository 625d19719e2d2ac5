-- ===== src/Policy/Safety.antt =====
-- When an installer is served, and from what.
use home_lab_pxe.Prelude.{◌≡◌, false, Option, none, some, ◌⊎◌, if◌then◌else◌}
use home_lab_pxe.Models.{windows, tool, Image, Machine, InstallAttempt}
use home_lab_pxe.Lab.{Lab}
use home_lab_pxe.Payload.{BootPayload, from_attempt, from_image}
use home_lab_pxe.Readiness.{image_extract_blocking}
use home_lab_pxe.Attempts.{get_image, get_open_attempt}
use home_lab_pxe.Lifecycle.{is_family}
use home_lab_pxe.Ipxe.{payload_for}
use home_lab_pxe.Policy.{install_linux, install_windows, assigned_kind, ScriptKind}

-- The payload is pinned by the open attempt, of whatever image that is, or no attempt is open and it is
-- the image, whose media is not being extracted.
abbrev pub IsPinned : Lab → Machine → Image → BootPayload → Type 0
IsPinned lab machine image payload =
    ((attempt : InstallAttempt) × (get_open_attempt lab machine ≡ some attempt)
      × (payload ≡ from_attempt attempt))
    ⊎ ((get_open_attempt lab machine ≡ none)
        × (payload ≡ from_image image)
        × (image_extract_blocking image ≡ false))

-- An image is assigned that is no tool, and the script installs the family of the payload.
abbrev pub Installable : Lab → Machine → ScriptKind → Type 0
Installable lab machine kind =
    (image : Image) × (get_image lab machine.assigned_image_id ≡ some image)
    × (is_family image.os_family tool ≡ false)
    × (payload : BootPayload) × (payload_for lab machine ≡ some payload)
    × IsPinned lab machine image payload
    × (kind ≡ (if is_family payload.os_family windows then install_windows else install_linux))

module _ (lab : Lab) (machine : Machine) where
  abbrev kind_of : Option Image → ScriptKind
  kind_of found = assigned_kind machine (get_open_attempt lab machine) found
