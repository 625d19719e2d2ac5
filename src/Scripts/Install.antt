-- ===== src/Scripts/Install.antt =====
-- src/boot/ipxe.py: the scripts that boot an installer, and the choice of a script.
use home_lab_pxe.Prelude.{
  ℕ, Text, codes, strip, has_text, starts_with, Bool, true, false, not, ◌&&◌, ◌||◌, Option, none,
  some, List, [], ◌∷◌, ◌++◌, any_is, if◌then◌else◌,
}
use home_lab_pxe.Models.{Machine}
use home_lab_pxe.Lab.{Env}
use home_lab_pxe.Payload.{BootPayload, sanboots}
use home_lab_pxe.Policy.{ScriptKind, install_linux, install_windows, image_not_ready}
use home_lab_pxe.Scripts.{
  decimal, header, below, boot_file_url, has_token, without_prefix, linux_kernel_args, kernel_lines,
  live_boot_script, unless_token, casper_nfsopts, image_not_ready_script, unknown_local_script,
}
use home_lab_pxe.Scripts.Nfs.{advertised_nfsroot}

abbrev sanboot_lines : Text → List Text
sanboot_lines iso =
    header ∷ (codes "sanboot --no-describe " ++ iso ++ codes " || sanboot " ++ iso) ∷ []

-- What the kernel is told beside the fixed tokens: the operator's command line and the defaults.
pub record KernelArgs : Type 0 where
  pub extra : Text
  pub defaults : List Text

abbrev pub seed_config : Text
seed_config = codes "cloud-config-url=${seed-url}user-data"

abbrev pub netboot_defaults : Env → Text → Text → List Text
netboot_defaults env extra nfsroot =
    unless_token env extra (codes "boot=") (codes "boot=casper")
    ++ unless_token env extra (codes "netboot=") (codes "netboot=nfs")
    ++ unless_token env extra (codes "nfsroot=") (codes "nfsroot=" ++ nfsroot)
    ++ unless_token env extra (codes "NFSOPTS=") (codes "NFSOPTS=" ++ casper_nfsopts)
    ++ unless_token env extra (codes "ip=") (codes "ip=dhcp")
    ++ unless_token env extra (codes "noprompt") (codes "noprompt")
    ++ unless_token env extra (codes "quickreboot") (codes "quickreboot")
    ++ seed_config ∷ []

abbrev pub iso_defaults : Env → Text → Text → List Text
iso_defaults env extra iso_url =
    unless_token env extra (codes "root=") (codes "root=/dev/ram0")
    ++ unless_token env extra (codes "ramdisk_size=") (codes "ramdisk_size=1500000")
    ++ unless_token env extra (codes "ip=") (codes "ip=dhcp")
    ++ unless_token env extra (codes "iso-url=") (codes "iso-url=" ++ iso_url)
    ++ unless_token env extra (codes "url=") (codes "url=" ++ iso_url)
    ++ unless_token env extra (codes "cloud-config-url=") (codes "cloud-config-url=/dev/null")

abbrev pub without_config : Env → Text → Text
without_config env extra = without_prefix env extra (codes "cloud-config-url=")

abbrev pub base_args : Env → Text → Option Text → Bool → Text → KernelArgs
base_args env extra (some nfsroot) iso_ok iso_url = record {
  extra = without_config env extra;
  defaults = netboot_defaults env (without_config env extra) nfsroot;
}
base_args env extra none true iso_url = record {
  extra = extra;
  defaults = iso_defaults env extra iso_url;
}
base_args env extra none false iso_url = record {
  extra = without_config env extra;
  defaults = seed_config ∷ [];
}

abbrev pub with_reboot : Env → KernelArgs → KernelArgs
with_reboot env args =
    if has_token env args.extra (codes "reboot=")
      || any_is (λ part. starts_with part (codes "reboot=")) args.defaults
    then args
    else record args { defaults = args.defaults ++ codes "reboot=force" ∷ [] }

unfoldable pub linux_args : Env → Machine → BootPayload → KernelArgs
unfolding has_token without_prefix boot_file_url advertised_nfsroot has_text strip
linux_args env machine payload = with_reboot env (
    base_args env (strip payload.cmdline) (advertised_nfsroot env payload.media_relative)
      (has_text payload.iso_path) (boot_file_url env machine payload (codes "image.iso")))

abbrev pub seeded_lines : Env → Machine → BootPayload → List Text
seeded_lines env machine payload =
    let args = linux_args env machine payload in
    header
    ∷ (codes "set seed-url "
        ++ env.public_url
        ++ below (codes "/cloud-init/") machine.id (machine.instance_id ++ codes "/"))
    ∷ kernel_lines (boot_file_url env machine payload (codes "kernel"))
        (boot_file_url env machine payload (codes "initrd"))
        (linux_kernel_args env args.extra args.defaults)

abbrev pub image_file : Env → BootPayload → Text → Text
image_file env payload slot = env.public_url ++ below (codes "/boot-files/") payload.image_id slot

abbrev pub live_or_seeded : Env → Machine → BootPayload → Option Text → List Text
live_or_seeded env machine payload none = seeded_lines env machine payload
live_or_seeded env machine payload (some nfsroot) =
    if env.live_media payload.media_relative
    then live_boot_script env (image_file env payload (codes "kernel"))
        (image_file env payload (codes "initrd")) nfsroot (strip payload.cmdline)
    else seeded_lines env machine payload

unfoldable pub linux_install_script : Env → Machine → BootPayload → List Text
unfolding sanboots advertised_nfsroot linux_args linux_kernel_args live_boot_script boot_file_url
    decimal strip
linux_install_script env machine payload =
    if sanboots payload
    then sanboot_lines (image_file env payload (codes "iso"))
    else live_or_seeded env machine payload (advertised_nfsroot env payload.media_relative)

abbrev windows_file : Env → Machine → Text → Text
windows_file env machine name =
    env.public_url ++ below (codes "/windows/") machine.id (machine.instance_id ++ b'/' ∷ name)

unfoldable pub windows_install_script : Env → Machine → BootPayload → List Text
unfolding sanboots boot_file_url decimal
windows_install_script env machine payload =
    if sanboots payload
    then sanboot_lines (image_file env payload (codes "iso"))
    else header
      ∷ (codes "kernel " ++ env.public_url ++ codes "/tftp/wimboot")
      ∷ (codes "initrd "
          ++ windows_file env machine (codes "winpeshl.ini")
          ++ codes " winpeshl.ini")
      ∷ (codes "initrd "
          ++ windows_file env machine (codes "startnet.cmd")
          ++ codes " startnet.cmd")
      ∷ (codes "initrd "
          ++ windows_file env machine (codes "unattend.xml")
          ++ codes " unattend.xml")
      ∷ (codes "initrd "
          ++ boot_file_url env machine payload (codes "boot.wim")
          ++ codes " boot.wim")
      ∷ codes "boot"
      ∷ []

abbrev tool_kernel : Text → Text → Text
tool_kernel kernel [] = codes "kernel " ++ kernel
tool_kernel kernel (c ∷ extra) = codes "kernel " ++ kernel ++ b' ' ∷ c ∷ extra

unfoldable pub tool_boot_script : Env → BootPayload → List Text
unfolding has_text decimal strip
tool_boot_script env payload =
    if not (has_text payload.kernel_path && has_text payload.initrd_path)
      && has_text payload.iso_path
    then sanboot_lines (image_file env payload (codes "iso"))
    else header
      ∷ tool_kernel (image_file env payload (codes "kernel")) (strip payload.cmdline)
      ∷ (codes "initrd " ++ image_file env payload (codes "initrd"))
      ∷ codes "boot"
      ∷ []

unfoldable pub render_script :
    Env → ScriptKind → Text → Option Machine → Option BootPayload → ℕ → List Text
unfolding image_not_ready_script unknown_local_script linux_install_script windows_install_script
render_script env image_not_ready mac machine payload timeout = image_not_ready_script env mac
render_script env install_linux mac (some machine) (some payload) timeout =
    linux_install_script env machine payload
render_script env install_windows mac (some machine) (some payload) timeout =
    windows_install_script env machine payload
render_script env _ mac _ _ timeout = unknown_local_script timeout
