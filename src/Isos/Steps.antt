-- ===== src/Isos/Steps.antt =====
-- The console and the extraction worker change an ISO by turns; its templates follow each change.
use home_lab_pxe.Prelude.{
  ℕ, ◌≡◌, sym, ap, ◌∙◌, ◌==◌, map, Text, codes, true, false, Bool-cases, inl, inr, Option, none,
  some, Option-cases, List, [], ◌∷◌, where_is, is_nil, arith, Outcome, ok, strip,
}
use home_lab_pxe.Models.{Image, Iso, ExtractStatus}
use home_lab_pxe.Lab.{Lab, Env, row, put_row}
use home_lab_pxe.Lab.Tables.{Distinct, put_row-Distinct, key-row}
use home_lab_pxe.Attempts.{record_activity}
use home_lab_pxe.Isos.{
  IsoChange, iso_in, uses_iso, is_tool, clashes, find_iso_by_name, changed_iso, sync_templates,
  update_iso,
}
use home_lab_pxe.Isos.Mirrors.{
  Mirrors, IsMirrored, All-map, get-saved, save_and_sync-IsMirrored, iso_key,
}
use home_lab_pxe.Isos.Queue.{
  is_extracting, is_on_disk, queued_anew, save_and_sync, schedule_extract, requeued, requeue_rows,
  requeue_stale_extracting, extracting, marked, matches, select_job, take_job, claim_next_job,
  failed_with, fail_found, mark_failed,
}

-- Distinct keys, and templates that mirror their ISO.
pub record IsMedia (lab : Lab) : Type 0 where
  pub mirrored : IsMirrored lab
  pub distinct : Distinct iso_key lab.isos

-- One committed change of an ISO.
pub data MediaStep (before after : Lab) : Type 0 where
  updates :
      (env : Env) (actor : Text) (iso : Iso) (name arch : Text) (change : IsoChange) (m : Iso)
      → update_iso env actor iso name arch change before ≡ (ok m, after)
      → MediaStep before after
  schedules :
      (env : Env) (iso : Iso) → (schedule_extract env iso before).1 ≡ after → MediaStep before after
  requeues : (env : Env) → requeue_stale_extracting env before ≡ after → MediaStep before after
  claims : (claim_next_job before).1 ≡ after → MediaStep before after
  takes : (job : ℕ × ℕ) → (take_job job before).1 ≡ after → MediaStep before after
  fails :
      (env : Env) (iso_id revision : ℕ) (message : Text)
      → mark_failed env iso_id revision message before ≡ after
      → MediaStep before after

pub data MediaReach (start : Lab) : Lab → Type 0 where
  here : MediaReach start start
  next : {lab after : Lab} → MediaReach start lab → MediaStep lab after → MediaReach start after

synced-Distinct :
    (env : Env) (iso : Iso) (lab : Lab)
    → Distinct iso_key lab.isos
    → Distinct iso_key (save_and_sync env iso lab).isos
unfolding sync_templates
synced-Distinct env iso lab d = elim (Bool-cases (iso.id == 0)) [
  | inl e ↦ rw e (put_row-Distinct iso_key iso lab.isos d)
  | inr e ↦ rw e (put_row-Distinct iso_key iso lab.isos d)
]

synced-IsMedia :
    (env : Env) (iso : Iso) (lab : Lab) → IsMedia lab → IsMedia (save_and_sync env iso lab)
synced-IsMedia env iso lab m = record {
  mirrored = save_and_sync-IsMirrored env iso lab m.mirrored;
  distinct = synced-Distinct env iso lab m.distinct;
}

module _ (env : Env) (lab : Lab) (m : IsMedia lab) where
  schedule-IsMedia : (iso : Iso) → IsMedia (schedule_extract env iso lab).1
  unfolding schedule_extract
  schedule-IsMedia iso = elim (Bool-cases (is_tool iso.os_family)) [
    | inl e ↦ rw e m
    | inr e ↦ elim (Bool-cases (is_on_disk env iso)) [
      | inl there ↦ rw (e, there) (synced-IsMedia env (queued_anew iso) lab m)
      | inr missing ↦ rw (e, missing) m
    ]
  ]

  fail-IsMedia :
      (revision : ℕ) (message : Text) (found : Option Iso)
      → IsMedia (fail_found env revision message found lab)
  fail-IsMedia revision message none = m
  fail-IsMedia revision message (some iso) = elim (Bool-cases (iso.extract_revision == revision)) [
    | inl e ↦ rw e (synced-IsMedia env (failed_with message iso) lab m)
    | inr e ↦ rw e m
  ]

requeue-IsMedia :
    (env : Env) (rows : List Iso) (lab : Lab) → IsMedia lab → IsMedia (requeue_rows env rows lab)
requeue-IsMedia env [] lab m = m
requeue-IsMedia env (iso ∷ rows) lab m =
    requeue-IsMedia env rows (save_and_sync env (requeued iso) lab)
      (synced-IsMedia env (requeued iso) lab m)

activity-IsMedia :
    (env : Env) (actor action detail : Text) (lab : Lab)
    → IsMedia lab
    → IsMedia (record_activity env actor action detail lab)
unfolding record_activity
activity-IsMedia env actor action detail lab m = record {
  mirrored = record { mirrors = m.mirrored.mirrors };
  distinct = m.distinct;
}

module _ (lab : Lab) (m : IsMedia lab) (iso : Iso)
    (stored : row iso_key iso.id lab.isos ≡ some iso) where
  marked-Mirrors :
      (image : Image)
      → uses_iso iso.id image ≡ true
      → ((found : Iso) → iso_in image.iso_id lab.isos ≡ some found → Mirrors found image)
      → (found : Iso) → iso_in image.iso_id (put_row iso_key (extracting iso) lab.isos) ≡ some found
      → Mirrors found (record image { extract_status = ExtractStatus.extracting })
  unfolding iso_in
  marked-Mirrors image e shown found h = elim (Option-cases image.iso_id) [
    | inl free ↦ cc (rw free at h)
    | inr (j, used) ↦
        elim (get-saved (extracting iso) lab j found
          (ap (λ k. iso_in k (put_row iso_key (extracting iso) lab.isos)) (sym used) ∙ h)) [
            | inl (own, same) ↦
                let now : Mirrors iso image = shown iso (ground (arith, used, own, stored, h)) in
                rw same
                  (ap (λ (i : Image). record i { extract_status = ExtractStatus.extracting }) now)
            | inr (ne, other) ↦ absurd (ground (arith, e, used, ne))
          ]
  ]

  unmarked-Mirrors :
      (image : Image)
      → uses_iso iso.id image ≡ false
      → ((found : Iso) → iso_in image.iso_id lab.isos ≡ some found → Mirrors found image)
      → (found : Iso) → iso_in image.iso_id (put_row iso_key (extracting iso) lab.isos) ≡ some found
      → Mirrors found image
  unfolding iso_in
  unmarked-Mirrors image e shown found h = elim (Option-cases image.iso_id) [
    | inl free ↦ cc (rw free at h)
    | inr (j, used) ↦
        elim (get-saved (extracting iso) lab j found
          (ap (λ k. iso_in k (put_row iso_key (extracting iso) lab.isos)) (sym used) ∙ h)) [
            | inl (own, same) ↦ absurd (ground (arith, e, used, own))
            | inr (ne, other) ↦ shown found (ap (λ k. iso_in k lab.isos) used ∙ other)
          ]
  ]

  marked-Shown :
      (image : Image)
      → ((found : Iso) → iso_in image.iso_id lab.isos ≡ some found → Mirrors found image)
      → (found : Iso)
      → iso_in (marked iso.id image).iso_id (put_row iso_key (extracting iso) lab.isos) ≡ some found
      → Mirrors found (marked iso.id image)
  marked-Shown image shown found h = elim (Bool-cases (uses_iso iso.id image)) [
    | inl e ↦ rw e (marked-Mirrors image e shown found (rw e at h))
    | inr e ↦ rw e (unmarked-Mirrors image e shown found (rw e at h))
  ]

  taken-IsMedia : IsMedia (record lab {
    isos = put_row iso_key (extracting iso) lab.isos;
    images = map (marked iso.id) lab.images;
  })
  taken-IsMedia = record {
    mirrored = record {
      mirrors = All-map _ _ (marked iso.id) lab.images marked-Shown m.mirrored.mirrors;
    };
    distinct = put_row-Distinct iso_key (extracting iso) lab.isos m.distinct;
  }

module _ (lab : Lab) (m : IsMedia lab) where
  take-IsMedia : (job : ℕ × ℕ) → IsMedia (take_job job lab).1
  unfolding take_job
  take-IsMedia job = elim (Option-cases (row iso_key job.0 lab.isos)) [
    | inl e ↦ rw e m
    | inr (iso, e) ↦ elim (Bool-cases (matches job.1 iso)) [
      | inl match ↦
          rw (e, match)
            (taken-IsMedia lab m iso
              (ap (λ k. row iso_key k lab.isos) (key-row iso_key job.0 lab.isos iso e) ∙ e))
      | inr other ↦ rw (e, other) m
    ]
  ]

  claimed-IsMedia : IsMedia (claim_next_job lab).1
  unfolding claim_next_job
  claimed-IsMedia = elim (Option-cases (select_job lab)) [
    | inl e ↦ rw e m
    | inr (job, e) ↦ rw e (take-IsMedia job)
  ]

  update-IsMedia :
      (env : Env) (actor : Text) (iso : Iso) (name arch : Text) (change : IsoChange)
      → IsMedia (update_iso env actor iso name arch change lab).1
  unfolding update_iso
  update-IsMedia env actor iso name arch change = elim (Bool-cases (is_nil (strip name))) [
    | inl blank ↦ rw blank m
    | inr named ↦ elim (Bool-cases (clashes iso.id (find_iso_by_name (strip name) lab))) [
      | inl taken ↦ rw (named, taken) m
      | inr free ↦
          let updated = changed_iso (strip name) arch change iso in
          rw (named, free)
            (activity-IsMedia env actor (codes "iso.update") updated.name
              (save_and_sync env updated lab) (synced-IsMedia env updated lab m))
    ]
  ]

-- Every change of an ISO keeps the media in order.
MediaStep-IsMedia : {before after : Lab} → MediaStep before after → IsMedia before → IsMedia after
unfolding requeue_stale_extracting mark_failed
MediaStep-IsMedia {before} {after} (updates env actor iso name arch change r e) m =
    rw (← ap (λ (p : Outcome Iso × Lab). p.1) e)
      (update-IsMedia before m env actor iso name arch change)
MediaStep-IsMedia {before} {after} (schedules env iso e) m =
    rw (← e) (schedule-IsMedia env before m iso)
MediaStep-IsMedia {before} {after} (requeues env e) m =
    rw (← e) (requeue-IsMedia env (where_is is_extracting before.isos) before m)
MediaStep-IsMedia {before} {after} (claims e) m = rw (← e) (claimed-IsMedia before m)
MediaStep-IsMedia {before} {after} (takes job e) m = rw (← e) (take-IsMedia before m job)
MediaStep-IsMedia {before} {after} (fails env iso_id revision message e) m =
    rw (← e) (fail-IsMedia env before m revision message (row iso_key iso_id before.isos))

-- However changes of ISOs, requeueing, claims and failures of extraction jobs follow one another from
-- a state where ISO keys are distinct and every template shows the media columns of its stored ISO,
-- both hold of the state that is reached. A claim may take up any job, also one that was read before
-- other changes.
pub MediaReach-IsMedia : {start lab : Lab} → MediaReach start lab → IsMedia start → IsMedia lab
MediaReach-IsMedia here m = m
MediaReach-IsMedia (next r step) m = MediaStep-IsMedia step (MediaReach-IsMedia r m)
