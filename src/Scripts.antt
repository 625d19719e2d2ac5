-- ===== src/Scripts.antt =====
-- src/boot/ipxe.py: the text of the scripts that install an operating system or boot a tool. A script
-- is the list of its lines, each of which ends in a line feed.
pub mod Nfs
pub mod Menu
pub mod Install
pub mod Labels
pub mod Pages
pub mod Targets
pub mod Arguments
use home_lab_pxe.Prelude.{
  ℕ, zero, suc, ◌+◌, ◌==◌, Text, text_eq, codes, strip, has_text, starts_with, Bool, true, false,
  not, ◌&&◌, ◌||◌, Option, none, some, List, [], ◌∷◌, ◌++◌, where_is, any_is, is_nil, if◌then◌else◌,
}
use Prim.Native.Nat.{◌/◌, ◌%◌}
use home_lab_pxe.Models.{Machine}
use home_lab_pxe.Lab.{Env}
use home_lab_pxe.Hardware.{split_words, join_words}
use home_lab_pxe.Payload.{BootPayload, sanboots}
use home_lab_pxe.Policy.{
  ScriptKind, unknown_local, menu, install_linux, install_windows, image_not_ready,
}
use home_lab_pxe.Scripts.Nfs.{advertised_nfsroot}

-- The digits of a number in front of a text; a number has fewer digits than it counts.
unfoldable pub digits : ℕ → ℕ → Text → Text
digits zero n out = out
digits (suc rounds) n out =
    let rest = digits rounds (n / 10) ((b'0' + n % 10) ∷ out) in if n == 0 then out else rest

-- `str(n)`
unfoldable pub decimal : ℕ → Text
unfolding digits
decimal n = if n == 0 then b'0' ∷ [] else digits n n []

unfoldable pub print_lines : List Text → Text
print_lines [] = []
print_lines (line ∷ lines) = line ++ 10 ∷ print_lines lines

abbrev pub header : Text
header = codes "#!ipxe"

abbrev pub clear : Text
clear = codes "isset ${cls} && cls ||"

abbrev pub tokens : Text → List Text
tokens cmdline = split_words [] cmdline

abbrev pub has_prefix : Env → Text → Text → Bool
has_prefix env prefix token = starts_with (env.lower token) (env.lower prefix)

unfoldable pub has_token : Env → Text → Text → Bool
unfolding split_words starts_with
has_token env cmdline prefix = any_is (has_prefix env prefix) (tokens cmdline)

unfoldable pub without_prefix : Env → Text → Text → Text
unfolding split_words join_words starts_with
without_prefix env cmdline prefix =
    join_words (where_is (λ token. not (has_prefix env prefix token)) (tokens cmdline))

abbrev pub is_dashes : Text → Bool
is_dashes token = text_eq token (codes "---")

abbrev pub nocloud : Text
nocloud = codes "ds=nocloud" ++ b'\\' ∷ codes ";s=${seed-url}"

unfoldable pub linux_kernel_parts : Env → Text → List Text → List Text
unfolding without_prefix split_words starts_with text_eq
linux_kernel_parts env extra defaults =
    (codes "autoinstall"
      ∷ where_is (λ token. not (is_dashes token))
          (tokens (without_prefix env extra (codes "autoinstall"))))
    ++ (where_is (λ part. not (is_nil part)) defaults
        ++ (nocloud ∷ codes "autoinstall" ∷ codes "---" ∷ []))

unfoldable pub linux_kernel_args : Env → Text → List Text → Text
unfolding linux_kernel_parts join_words
linux_kernel_args env extra defaults = join_words (linux_kernel_parts env extra defaults)

abbrev pub below : Text → ℕ → Text → Text
below area k slot = area ++ decimal k ++ b'/' ∷ slot

unfoldable pub image_not_ready_script : Env → Text → List Text
image_not_ready_script env mac =
    let url = env.public_url ++ codes "/ipxe/" ++ mac in
    header
    ∷ clear
    ∷ codes "echo home-lab-pxe"
    ∷ codes "echo Image is not ready yet. Waiting for operator."
    ∷ codes "sleep 5"
    ∷ (codes "chain --replace " ++ url ++ codes " || sleep 5 && chain --replace " ++ url)
    ∷ []

abbrev pub local_disk_line : Text
local_disk_line = codes "exit 1 || sanboot --no-describe --drive 0x80 || exit"

abbrev pub delay_lines : ℕ → List Text
delay_lines seconds = if seconds == 0 then [] else (codes "sleep " ++ decimal seconds) ∷ []

unfoldable pub unknown_local_script : ℕ → List Text
unfolding decimal
unknown_local_script timeout_seconds =
    header
      ∷ clear
      ∷ codes "echo home-lab-pxe"
      ∷ codes "echo Unknown or disabled machine ${mac}"
      ∷ codes "echo Continuing to next boot device. No disk install."
      ∷ delay_lines timeout_seconds
    ++ local_disk_line ∷ []

-- The slot "iso" has the path "image.iso", which the calls below name.
unfoldable pub boot_file_url : Env → Machine → BootPayload → Text → Text
unfolding decimal
boot_file_url env machine payload slot =
    if not (machine.id == 0)
    then env.public_url ++ below (codes "/install-files/") machine.id slot
    else env.public_url ++ below (codes "/boot-files/") payload.image_id slot

-- The default for a prefix that the operator's command line has no token for.
abbrev pub unless_token : Env → Text → Text → Text → List Text
unless_token env extra prefix value = if has_token env extra prefix then [] else value ∷ []

-- CASPER_NFSOPTS
abbrev pub casper_nfsopts : Text
casper_nfsopts = codes "vers=3,tcp,port=2049"

abbrev pub kernel_lines : Text → Text → Text → List Text
kernel_lines kernel initrd cmdline =
    (codes "kernel --name=vmlinuz " ++ kernel ++ b' ' ∷ cmdline)
    ∷ (codes "initrd " ++ initrd)
    ∷ (codes "imgargs vmlinuz " ++ cmdline)
    ∷ codes "boot"
    ∷ []

abbrev live_parts : Env → Text → Text → List Text
live_parts env nfsroot extra =
    tokens extra
    ++ unless_token env extra (codes "boot=") (codes "boot=live")
    ++ unless_token env extra (codes "netboot=") (codes "netboot=nfs")
    ++ unless_token env extra (codes "nfsroot=") (codes "nfsroot=" ++ nfsroot)
    ++ unless_token env extra (codes "nfsopts=") (codes "nfsopts=" ++ casper_nfsopts)
    ++ unless_token env extra (codes "ip=") (codes "ip=dhcp")
    ++ unless_token env extra (codes "systemd.mount-extra=")
        (codes "systemd.mount-extra=/run/live/medium:/cdrom:none:bind")

unfoldable pub live_boot_script : Env → Text → Text → Text → Text → List Text
unfolding has_token join_words split_words
live_boot_script env kernel initrd nfsroot extra =
    header ∷ kernel_lines kernel initrd (join_words (live_parts env nfsroot extra))
