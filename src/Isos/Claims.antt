-- ===== src/Isos/Claims.antt =====
-- Each claim of the extraction worker takes one job off the queue.
use home_lab_pxe.Prelude.{
  ℕ, suc, zero, ◌+◌, ◌≡◌, refl, ap, ==_iff, map, true, false, Bool-cases, ◌≢◌, ◌∙◌, inl, inr, ◌⊎◌,
  Option, none, some, Option-cases, first_where, count_is, arith,
}
use home_lab_pxe.Models.{Iso}
use home_lab_pxe.Lab.{Lab, row, put_row}
use home_lab_pxe.Lab.Tables.{
  Distinct, row-put_row, key-row, row-first_where, first_where-holds, count-first_where,
  count-put_row, put_row-Distinct,
}
use home_lab_pxe.Isos.Mirrors.{iso_key}
use home_lab_pxe.Isos.Queue.{
  is_queued, extracting, marked, matches, job_of, first_job, select_job, take_job, claim_next_job,
}

abbrev pub queue_length : Lab → ℕ
queue_length lab = count_is is_queued lab.isos

-- The ISO is stored and queued; the claim names it under its revision and stores it as extracting.
abbrev pub Claimed : Iso → Lab → Option (ℕ × ℕ) × Lab → Type 0
Claimed iso lab r =
    (row iso_key iso.id lab.isos ≡ some iso)
    × (is_queued iso ≡ true)
    × (r.0 ≡ some (iso.id, iso.extract_revision))
    × (row iso_key iso.id r.1.isos ≡ some (extracting iso))

no_job : (lab : Lab) → first_where is_queued lab.isos ≡ none → select_job lab ≡ none
unfolding select_job
no_job lab e = ap first_job e

a_job :
    (lab : Lab) (iso : Iso)
    → first_where is_queued lab.isos ≡ some iso
    → select_job lab ≡ some (job_of iso)
unfolding select_job
a_job lab iso e = ap first_job e

select_none : (lab : Lab) → first_where is_queued lab.isos ≡ none → claim_next_job lab ≡ (none, lab)
unfolding claim_next_job
select_none lab e = let idle : select_job lab ≡ none = no_job lab e in rw idle refl

module _ (lab : Lab) (distinct : Distinct iso_key lab.isos) (iso : Iso)
    (first : first_where is_queued lab.isos ≡ some iso) where
  -- With no other writer between, the update matches the row that the query found.
  claimed_lem : claim_next_job lab ≡ (
    some (job_of iso),
    record lab {
      isos = put_row iso_key (extracting iso) lab.isos;
      images = map (marked iso.id) lab.images;
    },
  )
  unfolding claim_next_job take_job
  claimed_lem =
      let stored = row-first_where iso_key is_queued iso lab.isos distinct first in
      let match : matches iso.extract_revision iso ≡ true = ground (
        arith,
        first_where-holds is_queued lab.isos iso first,
        (==_iff iso.extract_revision iso.extract_revision).1 refl,
      ) in
      rw (a_job lab iso first, stored, match) refl

module _ (lab : Lab) (distinct : Distinct iso_key lab.isos) where
  -- Where the keys of the ISOs are distinct, a claim finds no job exactly where none is queued, and
  -- changes nothing then; else it takes a queued ISO with its revision, marks it as extracting, and
  -- the queue is shorter by one.
  pub claim_next_job-cases :
      let r = claim_next_job lab in
      ((queue_length lab ≡ 0) × (r ≡ (none, lab)))
      ⊎ ((iso : Iso) × Claimed iso lab r × (queue_length r.1 + 1 ≡ queue_length lab))
  claim_next_job-cases = elim (Option-cases (first_where is_queued lab.isos)) [
    | inl e ↦ inl (count-first_where is_queued lab.isos e, select_none lab e)
    | inr (iso, e) ↦
        let stored = row-first_where iso_key is_queued iso lab.isos distinct e in
        let queued = first_where-holds is_queued lab.isos iso e in
        inr (
          iso,
          rw (claimed_lem lab distinct iso e) (
            stored,
            queued,
            refl,
            ground (arith, stored, row-put_row iso_key iso.id (extracting iso) lab.isos),
          ),
          rw (claimed_lem lab distinct iso e) (
              ground (
                arith,
                count-put_row iso_key is_queued (extracting iso) iso lab.isos distinct stored,
                queued,
              )),
        )
  ]

-- The update finds no queued row with the key and the revision of the job.
abbrev pub IsLost : ℕ × ℕ → Lab → Type 0
IsLost job lab =
    (iso : Iso)
    → row iso_key job.0 lab.isos ≡ some iso
    → is_queued iso ≡ true
    → iso.extract_revision ≢ job.1

module _ (job : ℕ × ℕ) (lab : Lab) (distinct : Distinct iso_key lab.isos) where
  lost :
      (iso : Iso)
      → row iso_key job.0 lab.isos ≡ some iso
      → matches job.1 iso ≡ false
      → IsLost job lab
  lost iso found other stored there queued same = ground (arith, found, there, other, queued, same)

  taken :
      (iso : Iso)
      → row iso_key job.0 lab.isos ≡ some iso
      → matches job.1 iso ≡ true
      → let r = take_job job lab in
        (stored : Iso) × (stored.id ≡ job.0)
        × (stored.extract_revision ≡ job.1)
        × Claimed stored lab r
        × (queue_length r.1 + 1 ≡ queue_length lab)
  unfolding take_job
  taken iso found match =
      let key : iso.id ≡ job.0 = key-row iso_key job.0 lab.isos iso found in
      let rev : iso.extract_revision ≡ job.1 =
        (==_iff iso.extract_revision job.1).0 (ground arith) in
      let queued : is_queued iso ≡ true = ground arith in
      let stored = ap (λ k. row iso_key k lab.isos) key ∙ found in
      (
        iso,
        key,
        rev,
        (
          stored,
          queued,
          rw (found, match, key, rev) refl,
          rw (found, match)
              (ground (arith, stored, row-put_row iso_key iso.id (extracting iso) lab.isos)),
        ),
        rw (found, match)
            (ground (
              arith,
              count-put_row iso_key is_queued (extracting iso) iso lab.isos distinct stored,
              queued,
            )),
      )

  -- The updates of a claim on whatever state another writer left between, for a job that was read
  -- before: where no queued ISO is stored under the key and the revision of the job any more, nothing
  -- is claimed and nothing changes; else the stored ISO is claimed under that revision, is marked as
  -- extracting, and the queue is shorter by one. The keys of the ISOs are distinct.
  pub take_job-cases :
      let r = take_job job lab in
      (IsLost job lab × (r ≡ (none, lab)))
      ⊎ ((iso : Iso) × (iso.id ≡ job.0)
          × (iso.extract_revision ≡ job.1)
          × Claimed iso lab r
          × (queue_length r.1 + 1 ≡ queue_length lab))
  unfolding take_job
  take_job-cases = elim (Option-cases (row iso_key job.0 lab.isos)) [
    | inl gone ↦ inl (λ iso found. cc (gone, found), rw gone refl)
    | inr (iso, found) ↦ elim (Bool-cases (matches job.1 iso)) [
      | inr other ↦ inl (lost iso found other, rw (found, other) refl)
      | inl match ↦ inr (taken iso found match)
    ]
  ]

-- The state behind as many claims.
abbrev pub after_claims : ℕ → Lab → Lab
after_claims zero lab = lab
after_claims (suc n) lab = after_claims n (claim_next_job lab).1

claimed-Distinct :
    (lab : Lab) → Distinct iso_key lab.isos → Distinct iso_key (claim_next_job lab).1.isos
claimed-Distinct lab d = elim (Option-cases (first_where is_queued lab.isos)) [
  | inl e ↦ rw (select_none lab e) d
  | inr (iso, e) ↦
      rw (claimed_lem lab d iso e) (put_row-Distinct iso_key (extracting iso) lab.isos d)
]

-- As many claims as there are queued jobs empty the queue, where the keys of the ISOs are distinct.
pub claims-empty :
    (n : ℕ) (lab : Lab)
    → Distinct iso_key lab.isos
    → queue_length lab ≡ n
    → queue_length (after_claims n lab) ≡ 0
claims-empty zero lab d e = e
claims-empty (suc n) lab d e = elim (claim_next_job-cases lab d) [
  | inl (empty, same) ↦ absurd (omega arith)
  | inr (iso, claimed, shorter) ↦
      claims-empty n (claim_next_job lab).1 (claimed-Distinct lab d) (omega arith)
]
