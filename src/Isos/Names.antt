-- ===== src/Isos/Names.antt =====
-- The names and the ids of ISOs.
use home_lab_pxe.Prelude.{
  ℕ, ◌≤◌, ◌<◌, ◌≡◌, sym, ap, ◌∙◌, Text, text_eq_iff, text_eq_self, strip, strip-strip, ==_iff, true,
  false, Bool-cases, inl, inr, ◌⊎◌, some, Option-cases, List, [], ◌∷◌, ◌++◌, first_where, count_is,
  count_is-append, is_nil, arith, ok,
}
use home_lab_pxe.Models.{OsFamily, Iso, Image}
use home_lab_pxe.Lab.{Lab, Env, row, put_row}
use home_lab_pxe.Lab.Tables.{
  Distinct, row-lt-next_key, count-first_where, count-put_row, first_where-holds, row-first_where,
}
use home_lab_pxe.Attempts.{record_activity}
use home_lab_pxe.Isos.{
  IsoChange, iso_named, find_iso_by_name, next_iso_id, new_iso, create_iso, is_tool, clashes,
  changed_iso, save_iso, sync_templates, update_iso,
}
use home_lab_pxe.Isos.Mirrors.{iso_key}

abbrev pub image_key : Image → ℕ
image_key image = image.id

-- The id is above the ids of all ISOs and of all images.
pub record IsNew (iso_id : ℕ) (lab : Lab) : Type 0 where
  pub above_isos : (k : ℕ) (iso : Iso) → row iso_key k lab.isos ≡ some iso → k < iso_id
  pub above_images : (k : ℕ) (image : Image) → row image_key k lab.images ≡ some image → k < iso_id

-- No two ISOs have one name.
pub record IsNamed (isos : List Iso) : Type 0 where
  pub at_most_one : (name : Text) → count_is (iso_named name) isos ≤ 1

next-IsNew : (lab : Lab) → IsNew (next_iso_id lab) lab
unfolding next_iso_id
next-IsNew lab = record {
  above_isos = λ k iso h. omega (arith, row-lt-next_key iso_key k lab.isos iso h);
  above_images = λ k image h. omega (arith, row-lt-next_key image_key k lab.images image h);
}

module _ (isos : List Iso) (iso : Iso) where
  own_name : (name : Text) → iso_named name iso ≡ true → iso.name ≡ name
  own_name name h = (text_eq_iff iso.name name).0 h

  appended-IsNamed :
      count_is (iso_named iso.name) isos ≡ 0 → IsNamed isos → IsNamed (isos ++ iso ∷ [])
  appended-IsNamed free named = record {
    at_most_one = λ name. elim (Bool-cases (iso_named name iso)) [
      | inl e ↦
          let unused : count_is (iso_named name) isos ≡ 0 = rw (← own_name name e) free in
          ground (arith, count_is-append (iso_named name) isos (iso ∷ []), unused)
      | inr e ↦
          ground
            (arith, count_is-append (iso_named name) isos (iso ∷ []), named.at_most_one name, e)
    ];
  }

module _ (env : Env) (actor name : Text) (family : OsFamily) (arch : Text) (lab : Lab) where
  -- Creating an ISO that returns gives it an id above the ids of all ISOs and of all images.
  pub create_iso-IsNew :
      (iso : Iso) → (create_iso env actor name family arch lab).0 ≡ ok iso → IsNew iso.id lab
  unfolding create_iso
  create_iso-IsNew iso h = elim (Bool-cases (is_nil (strip name))) [
    | inl blank ↦ cc (rw blank at h)
    | inr full ↦ elim (Bool-cases (is_tool family)) [
      | inl tool ↦ cc (rw (full, tool) at h)
      | inr media ↦ elim (Option-cases (find_iso_by_name (strip name) lab)) [
        | inl free ↦
            let made : new_iso env (strip name) family arch lab ≡ iso =
              ground (arith, h, full, media, free) in
            rw (← made) (next-IsNew lab)
        | inr (other, taken) ↦ absurd (ground (arith, h, full, media, taken))
      ]
    ]
  ]

  -- Creating an ISO, whether it returns or raises, keeps the names of ISOs distinct.
  pub create_iso-IsNamed :
      IsNamed lab.isos → IsNamed (create_iso env actor name family arch lab).1.isos
  unfolding create_iso record_activity find_iso_by_name
  create_iso-IsNamed names = elim (Bool-cases (is_nil (strip name))) [
    | inl blank ↦ rw blank names
    | inr full ↦ elim (Bool-cases (is_tool family)) [
      | inl tool ↦ rw (full, tool) names
      | inr media ↦ elim (Option-cases (first_where (iso_named (strip (strip name))) lab.isos)) [
        | inl free ↦
            rw (full, media, free)
              (appended-IsNamed lab.isos (new_iso env (strip name) family arch lab)
                (count-first_where (iso_named (strip name)) lab.isos
                  (ap (λ n. first_where (iso_named n) lab.isos) (sym (strip-strip name)) ∙ free))
                names)
        | inr (other, taken) ↦ rw (full, media, taken) names
      ]
    ]
  ]

-- The name that an ISO takes is free, or it was its own.
abbrev NewName : List Iso → Iso → Iso → Type 0
NewName isos old new = (old.name ≡ new.name) ⊎ (count_is (iso_named new.name) isos ≡ 0)

replaced-IsNamed :
    (isos : List Iso) (old new : Iso)
    → Distinct iso_key isos
    → row iso_key new.id isos ≡ some old
    → NewName isos old new
    → IsNamed isos
    → IsNamed (put_row iso_key new isos)
replaced-IsNamed isos old new d stored fresh names = record {
  at_most_one = λ name. elim (Bool-cases (iso_named name new)) [
    | inl e ↦
        let own : new.name ≡ name = own_name isos new name e in
        elim fresh [
          | inl same ↦
              let was : iso_named name old ≡ true = rw (same ∙ own) (text_eq_self name) in
              ground (
                arith,
                count-put_row iso_key (iso_named name) new old isos d stored,
                names.at_most_one name,
                was,
              )
          | inr free ↦
              let unused : count_is (iso_named name) isos ≡ 0 = rw (← own) free in
              ground (arith, count-put_row iso_key (iso_named name) new old isos d stored, unused)
        ]
    | inr e ↦ ground (
      arith,
      count-put_row iso_key (iso_named name) new old isos d stored,
      names.at_most_one name,
      e,
    )
  ];
}

synced-isos : (env : Env) (iso : Iso) (lab : Lab) → (sync_templates env iso lab).isos ≡ lab.isos
unfolding sync_templates
synced-isos env iso lab = ground arith

module _ (env : Env) (actor : Text) (iso : Iso) (name arch : Text) (change : IsoChange)
    (lab : Lab) where
  abbrev updated : Iso
  updated = changed_iso (strip name) arch change iso

  -- The ISO that has the new name is the one that is updated, or there is none.
  unclashed-NewName :
      Distinct iso_key lab.isos
      → row iso_key iso.id lab.isos ≡ some iso
      → clashes iso.id (find_iso_by_name (strip name) lab) ≡ false
      → NewName lab.isos iso updated
  unfolding find_iso_by_name
  unclashed-NewName d stored free =
      elim (Option-cases (first_where (iso_named (strip (strip name))) lab.isos)) [
        | inl e ↦ inr (
            count-first_where (iso_named (strip name)) lab.isos
              (ap (λ n. first_where (iso_named n) lab.isos) (sym (strip-strip name)) ∙ e))
        | inr (other, e) ↦
            let its = row-first_where iso_key (iso_named (strip (strip name))) other lab.isos d e in
            let named = first_where-holds (iso_named (strip (strip name))) lab.isos other e in
            let key : other.id ≡ iso.id = (==_iff other.id iso.id).0 (ground (arith, free, e)) in
            let same : other ≡ iso = ground (arith, its, stored, key) in
            inl (
              rw (← same)
                ((text_eq_iff other.name (strip (strip name))).0 named ∙ strip-strip name))
      ]

  -- Updating a stored ISO, whether it returns or raises, keeps the names of ISOs distinct, where their
  -- keys are distinct.
  pub update_iso-IsNamed :
      Distinct iso_key lab.isos
      → row iso_key iso.id lab.isos ≡ some iso
      → IsNamed lab.isos
      → IsNamed (update_iso env actor iso name arch change lab).1.isos
  unfolding update_iso record_activity
  update_iso-IsNamed d stored names = elim (Bool-cases (is_nil (strip name))) [
    | inl blank ↦ rw blank names
    | inr full ↦ elim (Bool-cases (clashes iso.id (find_iso_by_name (strip name) lab))) [
      | inl taken ↦ rw (full, taken) names
      | inr free ↦
          rw (full, free, synced-isos env updated (save_iso updated lab))
            (replaced-IsNamed lab.isos iso updated d stored (unclashed-NewName d stored free) names)
    ]
  ]
