-- ===== src/Payload.antt =====
-- src/boot/payload.py: the boot artifacts of one install, from the image or from the attempt that
-- pinned them. `live_boot_generation` of src/nfs_media.py reads the media tree; the answer for a
-- generation is `live_media` of the surroundings.
use home_lab_pxe.Prelude.{
  ℕ, ◌==◌, Text, strip, has_text, Bool, false, not, ◌&&◌, ◌||◌, Option, none, some, if◌then◌else◌,
}
use home_lab_pxe.Models.{OsFamily, linux, windows, tool, ExtractStatus, Image, InstallAttempt}
use home_lab_pxe.Lab.{Env}

pub record BootPayload : Type 0 where
  pub image_id : ℕ
  pub os_family : OsFamily
  pub kernel_path : Text
  pub initrd_path : Text
  pub boot_wim_path : Text
  pub install_wim_path : Text
  pub iso_path : Text
  pub cmdline : Text
  pub wim_index : ℕ
  pub media_relative : Text
  pub extract_revision : ℕ
  pub extract_status : ExtractStatus

abbrev loads_media : OsFamily → BootPayload → Bool
loads_media windows payload = has_text payload.boot_wim_path
loads_media linux payload = has_text payload.kernel_path && has_text payload.initrd_path
loads_media tool payload = has_text payload.kernel_path && has_text payload.initrd_path

-- The install script sanboots the ISO instead of loading extracted media.
unfoldable pub sanboots : BootPayload → Bool
sanboots payload =
    if not (has_text payload.iso_path) then false else not (loads_media payload.os_family payload)

-- Sanbooted ISOs and live-boot media run their own installer.
unfoldable pub skips_guest_init : Env → BootPayload → Bool
unfolding sanboots
skips_guest_init env payload = sanboots payload || env.live_media payload.media_relative

-- `image.wim_index or 1`
abbrev pub or_one : ℕ → ℕ
or_one n = if n == 0 then 1 else n

-- `attempt.image_id or 0`
abbrev pub or_zero : Option ℕ → ℕ
or_zero none = 0
or_zero (some n) = n

unfoldable pub from_image : Image → BootPayload
from_image image = record {
  image_id = image.id;
  os_family = image.os_family;
  kernel_path = image.kernel_path;
  initrd_path = image.initrd_path;
  boot_wim_path = image.boot_wim_path;
  install_wim_path = image.install_wim_path;
  iso_path = image.iso_path;
  cmdline = image.cmdline;
  wim_index = or_one image.wim_index;
  media_relative = strip image.extract_generation;
  extract_revision = image.extract_revision;
  extract_status = image.extract_status;
}

unfoldable pub from_attempt : InstallAttempt → BootPayload
from_attempt attempt = record {
  image_id = or_zero attempt.image_id;
  os_family = attempt.os_family;
  kernel_path = attempt.kernel_path;
  initrd_path = attempt.initrd_path;
  boot_wim_path = attempt.boot_wim_path;
  install_wim_path = attempt.install_wim_path;
  iso_path = attempt.iso_path;
  cmdline = attempt.cmdline;
  wim_index = or_one attempt.wim_index;
  media_relative = attempt.media_relative;
  extract_revision = attempt.extract_revision;
  extract_status = ExtractStatus.ready;
}
