-- ===== src/Isos/Queue.antt =====
-- src/extract_worker.py: the queue of extraction jobs. A job is an ISO that is queued, with the
-- revision that it is extracted under; there is one worker.
use home_lab_pxe.Prelude.{
  ℕ, ◌+◌, ◌==◌, Text, strip, has_text, Bool, true, false, not, ◌&&◌, Option, none, some, List, [],
  ◌∷◌, map, where_is, first_where, if◌then◌else◌,
}
use home_lab_pxe.Models.{ExtractStatus, Image, Iso}
use home_lab_pxe.Lab.{Lab, Env, row, put_row}
use home_lab_pxe.Isos.{is_tool, uses_iso, save_iso, sync_templates}

abbrev pub is_queued : Iso → Bool
is_queued iso = elim iso.extract_status [ ExtractStatus.queued ↦ true | _ ↦ false ]

abbrev pub is_extracting : Iso → Bool
is_extracting iso = elim iso.extract_status [ ExtractStatus.extracting ↦ true | _ ↦ false ]

-- The object in the place of its row, and on its templates.
abbrev pub save_and_sync : Env → Iso → Lab → Lab
save_and_sync env iso lab = sync_templates env iso (save_iso iso lab)

-- `iso_on_disk(media) is not None`
unfoldable pub is_on_disk : Env → Iso → Bool
unfolding has_text strip
is_on_disk env iso = has_text iso.iso_path && env.on_disk (strip iso.iso_path)

abbrev pub queued_anew : Iso → Iso
queued_anew iso = record iso {
  extract_revision = iso.extract_revision + 1;
  extract_status = ExtractStatus.queued;
  extract_error = [];
}

unfoldable pub schedule_extract : Env → Iso → Lab → Bool × Lab
unfolding is_on_disk sync_templates
schedule_extract env iso lab =
    if is_tool iso.os_family
    then (false, lab)
    else if not (is_on_disk env iso)
    then (false, lab)
    else (true, save_and_sync env (queued_anew iso) lab)

abbrev pub requeued : Iso → Iso
requeued iso = record iso { extract_status = ExtractStatus.queued }

abbrev pub requeue_rows : Env → List Iso → Lab → Lab
requeue_rows env [] lab = lab
requeue_rows env (iso ∷ rows) lab = requeue_rows env rows (save_and_sync env (requeued iso) lab)

-- At the start of the worker.
unfoldable pub requeue_stale_extracting : Env → Lab → Lab
unfolding sync_templates
requeue_stale_extracting env lab = requeue_rows env (where_is is_extracting lab.isos) lab

abbrev pub extracting : Iso → Iso
extracting iso = record iso { extract_status = ExtractStatus.extracting }

abbrev pub marked : ℕ → Image → Image
marked iso_id image =
    if uses_iso iso_id image
    then record image { extract_status = ExtractStatus.extracting }
    else image

-- SELECT id, extract_revision … WHERE extract_status = queued ORDER BY id LIMIT 1: the queued ISO with
-- the smallest key is the first of the table.
abbrev pub job_of : Iso → ℕ × ℕ
job_of iso = (iso.id, iso.extract_revision)

abbrev pub first_job : Option Iso → Option (ℕ × ℕ)
first_job none = none
first_job (some iso) = some (job_of iso)

unfoldable pub select_job : Lab → Option (ℕ × ℕ)
select_job lab = first_job (first_where is_queued lab.isos)

-- The row that the UPDATE … WHERE id, extract_revision and extract_status = queued matches.
abbrev pub matches : ℕ → Iso → Bool
matches revision iso = iso.extract_revision == revision && is_queued iso

abbrev pub claim : ℕ × ℕ → Option Iso → Lab → Option (ℕ × ℕ) × Lab
claim job none lab = (none, lab)
claim job (some iso) lab =
    if matches job.1 iso
    then (
      some job,
      record lab {
        isos = put_row (λ (i : Iso). i.id) (extracting iso) lab.isos;
        images = map (marked iso.id) lab.images;
      },
    )
    else (none, lab)

-- The two updates. Where the first one matches no row (`rowcount != 1`), another writer was there
-- between the query and the update, and nothing is claimed.
unfoldable pub take_job : ℕ × ℕ → Lab → Option (ℕ × ℕ) × Lab
unfolding row
take_job job lab = claim job (row (λ (i : Iso). i.id) job.0 lab.isos) lab

abbrev pub take_selected : Option (ℕ × ℕ) → Lab → Option (ℕ × ℕ) × Lab
take_selected none lab = (none, lab)
take_selected (some job) lab = take_job job lab

-- The query and the updates with no other writer between them; `take_job` alone, on a later state,
-- is the claim that another writer comes before.
unfoldable pub claim_next_job : Lab → Option (ℕ × ℕ) × Lab
unfolding take_job
claim_next_job lab = take_selected (select_job lab) lab

abbrev pub failed_with : Text → Iso → Iso
failed_with message iso = record iso {
  extract_status = ExtractStatus.failed;
  extract_error = message;
}

abbrev pub fail_found : Env → ℕ → Text → Option Iso → Lab → Lab
fail_found env revision message none lab = lab
fail_found env revision message (some iso) lab =
    if iso.extract_revision == revision
    then save_and_sync env (failed_with message iso) lab
    else lab

-- A job whose revision is no longer the current one fails silently.
unfoldable pub mark_failed : Env → ℕ → ℕ → Text → Lab → Lab
unfolding row sync_templates
mark_failed env iso_id revision message lab =
    fail_found env revision message (row (λ (i : Iso). i.id) iso_id lab.isos) lab
