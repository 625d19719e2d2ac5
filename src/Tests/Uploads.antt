-- ===== src/Tests/Uploads.antt =====
-- The theorems about uploads at small inputs.
use home_lab_pxe.Prelude.{◌≡◌, refl, codes, text_eq, [], ◌∷◌, ◌++◌, Text, All, ok}
use home_lab_pxe.Uploads.{
  Area, area_name, owner_path, upload_prefix, relative_slot_path, remove_template_files,
  safe_upload_filename, is_safe_name, last_dot,
}
use home_lab_pxe.Scripts.{decimal}
use home_lab_pxe.Scripts.Nfs.{split_slashes}
use home_lab_pxe.Uploads.Safety.{
  IsBelow, IsSegment, relative_slot_path-IsSegment, remove_template_files-IsBelow,
}
use home_lab_pxe.Tests.Data.{environment}

kernel_path :
    relative_slot_path environment 3 (codes "kernel") (codes "vmlinuz.efi") (codes "uploads")
    ≡ ok (codes "uploads/3/kernel.efi")
unfolding relative_slot_path safe_upload_filename is_safe_name last_dot split_slashes text_eq
    mathlib.Core.Bool.xor decimal
kernel_path = refl

relative_slot_path-IsSegment_example :
    (area : Area) × (file : Text) × (codes "uploads/3/kernel.efi"
      ≡ owner_path (area_name area) 3 ++ b'/' ∷ file)
    × IsSegment file
relative_slot_path-IsSegment_example =
    relative_slot_path-IsSegment environment 3 (codes "kernel") (codes "vmlinuz.efi")
      (codes "uploads") (codes "uploads/3/kernel.efi") kernel_path

remove_template_files-IsBelow_example :
    All
      (IsBelow (upload_prefix 3))
      (remove_template_files 3 (codes "uploads/3/kernel.efi" ∷ codes "uploads/3/../4/kernel" ∷ []))
remove_template_files-IsBelow_example =
    remove_template_files-IsBelow 3
      (codes "uploads/3/kernel.efi" ∷ codes "uploads/3/../4/kernel" ∷ [])
