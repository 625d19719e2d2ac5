-- ===== src/Extracts/Pins.antt =====
-- The clean-up of extracted media against the installs that are running.
use home_lab_pxe.Prelude.{
  ℕ, ◌≡◌, refl, sym, ap, ◌∙◌, ◌==◌, ==_iff, Bool, true, false, not, ◌&&◌, ◌||◌, Option, none, some,
  Option-cases, List, [], ◌∷◌, map, where_is, any_is, arith, ◌⊎◌, ◌↔◌, inl, inr, Bool-cases, In,
  In-where_is, where_is-In, any_is-In, any_is-found, map-In, In-map,
}
use home_lab_pxe.Models.{Image, InstallAttempt}
use home_lab_pxe.Lab.{Lab, Env, ExtractDir, revision, isos_extracts, uploads_extracts, smb, nfs}
use home_lab_pxe.Attempts.{is_open, is_for}
use home_lab_pxe.Extracts.{
  Media, of_iso, of_image, owner_media, owner_id, current_revision, media_images, attempt_of,
  pinned_revisions, keeps, swept_bases, is_swept, gc_extract_generations,
}

found_pin : (n : ℕ) (pinned : List ℕ) → any_is (λ r. n == r) pinned ≡ true → In n pinned
found_pin n pinned h =
    let (r, there, same) = any_is-found (λ r. n == r) pinned h in rw ((==_iff n r).0 same) there

-- The install reads the media: its image is the media, or a template of the ISO that is the media.
abbrev pub ReadsMedia : Lab → Media → InstallAttempt → Type 0
ReadsMedia lab (of_iso iso) attempt =
    (image : Image) × In image lab.images
    × (image.iso_id ≡ some iso.id)
    × (attempt.image_id ≡ some image.id)
ReadsMedia lab (of_image image) attempt = attempt.image_id ≡ some image.id

-- A running install that reads a revision of the media.
abbrev pub PinnedBy : Lab → Media → ℕ → Type 0
PinnedBy lab media n =
    (attempt : InstallAttempt) × In attempt lab.attempts
    × ReadsMedia lab media attempt
    × (is_open attempt ≡ true)
    × (attempt.extract_revision ≡ n)

is_for-some : (k : ℕ) (o : Option ℕ) → is_for k o ≡ true → o ≡ some k
is_for-some k none h = cc
is_for-some k (some i) h = ap some ((==_iff i k).0 h)

some-is_for : (k : ℕ) (o : Option ℕ) → o ≡ some k → is_for k o ≡ true
some-is_for k o e = rw e ((==_iff k k).1 refl)

attempt_of-In :
    (ids : List ℕ) (a : InstallAttempt)
    → attempt_of ids a ≡ true
    → (i : ℕ) × In i ids × (a.image_id ≡ some i)
attempt_of-In ids a h = elim (Option-cases a.image_id) [
  | inl e ↦ cc (rw e at h)
  | inr (i, e) ↦ (i, found_pin i ids (rw e at h), e)
]

In-attempt_of :
    (ids : List ℕ) (a : InstallAttempt) (i : ℕ)
    → In i ids
    → a.image_id ≡ some i
    → attempt_of ids a ≡ true
In-attempt_of ids a i there e = rw e (any_is-In (λ j. i == j) i ids there ((==_iff i i).1 refl))

reads-ReadsMedia :
    (lab : Lab) (media : Media) (a : InstallAttempt)
    → attempt_of (media_images lab media) a ≡ true
    → ReadsMedia lab media a
unfolding media_images
reads-ReadsMedia lab (of_iso iso) a h =
    let template : Image → Bool = λ i. is_for iso.id i.iso_id in
    let ids = map (λ (i : Image). i.id) (where_is template lab.images) in
    let (i, there, e) = attempt_of-In ids a h in
    let (image, listed, same) =
      In-map (λ (i : Image). i.id) i (where_is template lab.images) there in
    let (stored, linked) = where_is-In template image lab.images listed in
    (image, stored, is_for-some iso.id image.iso_id linked, e ∙ ap some same)
reads-ReadsMedia lab (of_image image) a h =
    let (i, there, e) = attempt_of-In (image.id ∷ []) a h in
    elim there [ inl same ↦ e ∙ ap some same | inr gone ↦ elim gone [ ] ]

ReadsMedia-reads :
    (lab : Lab) (media : Media) (a : InstallAttempt)
    → ReadsMedia lab media a
    → attempt_of (media_images lab media) a ≡ true
unfolding media_images
ReadsMedia-reads lab (of_iso iso) a (image, stored, linked, e) =
    let template : Image → Bool = λ i. is_for iso.id i.iso_id in
    In-attempt_of (map (λ (i : Image). i.id) (where_is template lab.images)) a image.id
      (map-In (λ (i : Image). i.id) image (where_is template lab.images)
        (In-where_is template image lab.images stored (some-is_for iso.id image.iso_id linked)))
      e
ReadsMedia-reads lab (of_image image) a e = In-attempt_of (image.id ∷ []) a image.id (inl refl) e

pinned_revisions-In :
    (lab : Lab) (media : Media) (n : ℕ) → PinnedBy lab media n → In n (pinned_revisions lab media)
unfolding pinned_revisions
pinned_revisions-In lab media n (attempt, there, of, opened, rev) = rw (← rev) (
    map-In (λ (a : InstallAttempt). a.extract_revision) attempt
      (where_is (λ a. attempt_of (media_images lab media) a && is_open a) lab.attempts)
      (In-where_is (λ a. attempt_of (media_images lab media) a && is_open a) attempt lab.attempts
        there (rw (ReadsMedia-reads lab media attempt of, opened))))

In-pinned_revisions :
    (lab : Lab) (media : Media) (n : ℕ) → In n (pinned_revisions lab media) → PinnedBy lab media n
unfolding pinned_revisions
In-pinned_revisions lab media n m =
    let test : InstallAttempt → Bool = λ a. attempt_of (media_images lab media) a && is_open a in
    let (attempt, there, rev) =
      In-map (λ (a : InstallAttempt). a.extract_revision) n (where_is test lab.attempts) m in
    let (stored, h) = where_is-In test attempt lab.attempts there in
    (attempt, stored, reads-ReadsMedia lab media attempt (ground arith), ground arith, sym rev)

-- The test of the loop on a numbered directory of the owner.
kept_revision :
    (current n : ℕ) (pinned : List ℕ)
    → keeps current pinned (revision n) ≡ true
    → (n ≡ current) ⊎ In n pinned
unfolding keeps
kept_revision current n pinned h = elim (Bool-cases (n == current)) [
  | inl e ↦ inl ((==_iff n current).0 e)
  | inr e ↦ inr (found_pin n pinned (rw e at h))
]

keeps_revision :
    (current n : ℕ) (pinned : List ℕ)
    → (n ≡ current) ⊎ In n pinned
    → keeps current pinned (revision n) ≡ true
unfolding keeps
keeps_revision current n pinned (inl e) = ground arith
keeps_revision current n pinned (inr m) =
    ground (arith, any_is-In (λ r. n == r) n pinned m ((==_iff n n).1 refl))

-- The four bases are all that there are, so that they hold the directories of the owner.
is_swept-owner :
    (owner : ℕ) (dir : ExtractDir) → is_swept (swept_bases owner) dir ≡ (owner == dir.owner)
is_swept-owner owner dir =
    elim dir.base
      as (λ b. is_swept (swept_bases owner) (record dir { base = b }) ≡ (owner == dir.owner)) [
        | isos_extracts ↦ ground arith
        | uploads_extracts ↦ ground arith
        | smb ↦ ground arith
        | nfs ↦ ground arith
      ]

module _ (env : Env) (current : ℕ) (pinned : List ℕ) (swept : Bool) where
  -- The whole test of the loop.
  abbrev stays : ExtractDir → Bool
  stays dir = not swept || keeps current pinned dir.name || not (env.removes_dir dir)

  stays-kept :
      (dir : ExtractDir) (n : ℕ)
      → swept ≡ true
      → dir.name ≡ revision n
      → stays dir ≡ true
      → (n ≡ current) ⊎ (In n pinned ⊎ (env.removes_dir dir ≡ false))
  stays-kept dir n own name h = elim (Bool-cases (env.removes_dir dir)) [
    | inl e ↦ elim (kept_revision current n pinned (ground (arith, own, name, e, h))) [
      | inl same ↦ inl same
      | inr pin ↦ inr (inl pin)
    ]
    | inr e ↦ inr (inr e)
  ]

  kept-stays :
      (dir : ExtractDir) (n : ℕ)
      → dir.name ≡ revision n
      → (n ≡ current) ⊎ (In n pinned ⊎ (env.removes_dir dir ≡ false))
      → stays dir ≡ true
  kept-stays dir n name (inl same) =
      ground (arith, name, keeps_revision current n pinned (inl same))
  kept-stays dir n name (inr (inl pin)) =
      ground (arith, name, keeps_revision current n pinned (inr pin))
  kept-stays dir n name (inr (inr e)) = ground arith

module _ (env : Env) (lab : Lab) (given : Media) (dir : ExtractDir) where
  abbrev media : Media
  media = owner_media lab given

  -- A pinned revision is one that a running install reads.
  read_pin :
      {n : ℕ}
      → (n ≡ current_revision media)
        ⊎ (In n (pinned_revisions lab media) ⊎ (env.removes_dir dir ≡ false))
      → (n ≡ current_revision media) ⊎ (PinnedBy lab media n ⊎ (env.removes_dir dir ≡ false))
  read_pin (inl same) = inl same
  read_pin {n} (inr (inl pin)) = inr (inl (In-pinned_revisions lab media n pin))
  read_pin (inr (inr e)) = inr (inr e)

  pin_read :
      {n : ℕ}
      → (n ≡ current_revision media) ⊎ (PinnedBy lab media n ⊎ (env.removes_dir dir ≡ false))
      → (n ≡ current_revision media)
        ⊎ (In n (pinned_revisions lab media) ⊎ (env.removes_dir dir ≡ false))
  pin_read (inl same) = inl same
  pin_read {n} (inr (inl pin)) = inr (inl (pinned_revisions-In lab media n pin))
  pin_read (inr (inr e)) = inr (inr e)

  -- A revision of the media's owner is there after the clean-up exactly when it was there before and
  -- is the current one, or one that a running install of the media reads, or cannot be removed.
  pub gc_keeps-revision :
      (n : ℕ)
      → dir.owner ≡ owner_id media
      → dir.name ≡ revision n
      → In dir (gc_extract_generations env given lab).extract_dirs ↔ (
          In dir lab.extract_dirs
          × ((n ≡ current_revision media) ⊎ (PinnedBy lab media n ⊎ (env.removes_dir dir ≡ false))))
  unfolding gc_extract_generations
  gc_keeps-revision n owner name =
      let current = current_revision media in
      let pinned = pinned_revisions lab media in
      let own : is_swept (swept_bases (owner_id media)) dir ≡ true =
        is_swept-owner (owner_id media) dir ∙ (==_iff (owner_id media) dir.owner).1 (sym owner) in
      let test : ExtractDir → Bool =
        λ d. stays env current pinned (is_swept (swept_bases (owner_id media)) d) d in
      let swept = is_swept (swept_bases (owner_id media)) dir in
      (
        λ m.
            let (there, h) = where_is-In test dir lab.extract_dirs m in
            (there, read_pin (stays-kept env current pinned swept dir n own name h)),
        λ m.
            In-where_is test dir lab.extract_dirs m.0
              (kept-stays env current pinned swept dir n name (pin_read m.1)),
      )
