-- ===== src/Tests/Media.antt =====
-- The theorems about ISOs, their extraction and images at a small lab.
use home_lab_pxe.Prelude.{
  strip, ◌+◌, ◌≡◌, ◌⊎◌, refl, Text, codes, text_eq, none, some, [], false, ◌&&◌, arith, ok, raised,
  String, any_is,
}
use home_lab_pxe.Models.{Iso, linux}
use home_lab_pxe.Readiness.{in_install_states}
use home_lab_pxe.Attempts.{is_open}
use home_lab_pxe.Lab.{row}
use home_lab_pxe.Isos.{
  create_iso, update_iso, IsoChange, find_iso_by_name, new_iso, get_iso, mirror, iso_in,
}
use home_lab_pxe.Isos.Mirrors.{Mirrors}
use home_lab_pxe.Isos.Queue.{claim_next_job, take_job}
use home_lab_pxe.Isos.Steps.{IsMedia, here, next, claims, MediaReach-IsMedia}
use home_lab_pxe.Isos.Claims.{
  queue_length, after_claims, IsLost, take_job-cases, Claimed, claim_next_job-cases, claims-empty,
}
use home_lab_pxe.Isos.Names.{
  IsNew, IsNamed, create_iso-IsNew, create_iso-IsNamed, update_iso-IsNamed,
}
use home_lab_pxe.Images.{delete_image, reads_image, assigned_to}
use home_lab_pxe.Images.Deletion.{IsGone, KeepsInstalls, delete_image-cases}
use home_lab_pxe.Tests.Data.{environment, debian, ready_lab, queued_iso, media_lab}

abbrev admin : Text
admin = codes "admin"

mirrored :
    (iso : Iso) → get_iso (some 3) media_lab ≡ some iso → Mirrors iso (mirror queued_iso debian)
unfolding row iso_in
mirrored iso h =
    let same : some queued_iso ≡ some iso = h in let own : queued_iso ≡ iso = cc in rw (← own) refl

media_lab-IsMedia : IsMedia media_lab
unfolding row iso_in
media_lab-IsMedia = record { mirrored = record { mirrors = (mirrored, tt) }; distinct = (refl, tt) }

MediaReach-IsMedia_example : IsMedia (claim_next_job media_lab).1
MediaReach-IsMedia_example = MediaReach-IsMedia (next here (claims refl)) media_lab-IsMedia

claim_next_job-cases_example :
    let r = claim_next_job media_lab in
    ((queue_length media_lab ≡ 0) × (r ≡ (none, media_lab)))
    ⊎ ((iso : Iso) × Claimed iso media_lab r × (queue_length r.1 + 1 ≡ queue_length media_lab))
claim_next_job-cases_example = claim_next_job-cases media_lab media_lab-IsMedia.distinct

take_job-cases_example :
    let r = take_job (3, queued_iso.extract_revision) media_lab in
    (IsLost (3, queued_iso.extract_revision) media_lab × (r ≡ (none, media_lab)))
    ⊎ ((iso : Iso) × (iso.id ≡ 3)
        × (iso.extract_revision ≡ queued_iso.extract_revision)
        × Claimed iso media_lab r
        × (queue_length r.1 + 1 ≡ queue_length media_lab))
take_job-cases_example =
    take_job-cases (3, queued_iso.extract_revision) media_lab media_lab-IsMedia.distinct

claims-empty_example : queue_length (after_claims 1 media_lab) ≡ 0
claims-empty_example = claims-empty 1 media_lab media_lab-IsMedia.distinct refl

abbrev fedora : Iso
fedora = new_iso environment (codes "fedora") linux [] media_lab

creates_fedora : (create_iso environment admin (codes "fedora") linux [] media_lab).0 ≡ ok fedora
unfolding create_iso find_iso_by_name strip text_eq mathlib.Core.Bool.xor
creates_fedora = refl

create_iso-IsNew_example : IsNew fedora.id media_lab
create_iso-IsNew_example =
    create_iso-IsNew environment admin (codes "fedora") linux [] media_lab fedora creates_fedora

media_lab-IsNamed : IsNamed media_lab.isos
media_lab-IsNamed = record { at_most_one = λ name. ground arith }

create_iso-IsNamed_example :
    IsNamed (create_iso environment admin (codes "fedora") linux [] media_lab).1.isos
create_iso-IsNamed_example =
    create_iso-IsNamed environment admin (codes "fedora") linux [] media_lab media_lab-IsNamed

abbrev no_change : IsoChange
no_change = record {
  cmdline = none;
  kernel_path = none;
  initrd_path = none;
  boot_wim_path = none;
  install_wim_path = none;
  iso_path = none;
  size_bytes = none;
}

update_iso-IsNamed_example :
    IsNamed (update_iso environment admin queued_iso (codes "fedora") [] no_change media_lab).1.isos
unfolding row
update_iso-IsNamed_example =
    update_iso-IsNamed environment admin queued_iso (codes "fedora") [] no_change media_lab
      media_lab-IsMedia.distinct refl media_lab-IsNamed

delete_image-cases_example :
    let r = delete_image environment admin debian ready_lab in
    ((message : String) × (r ≡ (raised message, ready_lab)))
    ⊎ ((r.0 ≡ ok 7)
        × IsGone 7 r.1
        × KeepsInstalls ready_lab r.1
        × (any_is (λ a. reads_image 7 a && is_open a) ready_lab.attempts ≡ false)
        × (any_is (λ m. assigned_to 7 m && in_install_states m.state) ready_lab.machines ≡ false))
delete_image-cases_example = delete_image-cases environment admin debian ready_lab
