-- ===== src/Images/Deletion.antt =====
-- `delete_image` leaves no reference to the image behind, and refuses while an install needs it.
use home_lab_pxe.Prelude.{
  ℕ, ◌≡◌, refl, ltb, false, not, ◌&&◌, Bool-cases, inl, inr, ◌⊎◌, none, List, [], ◌∷◌, map,
  where_is, any_is, ok, raised, String, Text, arith,
}
use home_lab_pxe.Models.{Machine, Image, InstallAttempt, StagedJob}
use home_lab_pxe.Lab.{Lab, Env, row}
use home_lab_pxe.Lab.Tables.{row-drop_row}
use home_lab_pxe.Readiness.{in_install_states}
use home_lab_pxe.Attempts.{record_activity, is_for, is_open}
use home_lab_pxe.Images.{reads_image, assigned_to, unassign, unlink, without_image, delete_image}

-- No row of the state refers to the image, which is gone.
pub record IsGone (image_id : ℕ) (lab : Lab) : Type 0 where
  pub no_row : row (λ (i : Image). i.id) image_id lab.images ≡ none
  pub unassigned : any_is (assigned_to image_id) lab.machines ≡ false
  pub unread : any_is (reads_image image_id) lab.attempts ≡ false
  pub unstaged : any_is (λ (j : StagedJob). is_for image_id j.image_id) lab.jobs ≡ false

-- What the deletion does to the machines and attempts that an install uses: nothing.
pub record KeepsInstalls (lab after : Lab) : Type 0 where
  pub machines :
      where_is (λ m. in_install_states m.state) after.machines
      ≡ where_is (λ m. in_install_states m.state) lab.machines
  pub attempts : where_is is_open after.attempts ≡ where_is is_open lab.attempts

module _ (image_id : ℕ) where
  any-unassign :
      (machines : List Machine)
      → any_is (assigned_to image_id) (map (unassign image_id) machines) ≡ false
  any-unassign [] = refl
  any-unassign (m ∷ machines) = elim (Bool-cases (assigned_to image_id m)) [
    | inl e ↦ rw e (any-unassign machines)
    | inr e ↦ rw (e, e) (any-unassign machines)
  ]

  any-unlink :
      (attempts : List InstallAttempt)
      → any_is (reads_image image_id) (map (unlink image_id) attempts) ≡ false
  any-unlink [] = refl
  any-unlink (a ∷ attempts) = elim (Bool-cases (reads_image image_id a)) [
    | inl e ↦ rw e (any-unlink attempts)
    | inr e ↦ rw (e, e) (any-unlink attempts)
  ]

  any-kept :
      (jobs : List StagedJob)
      → any_is
          (λ (j : StagedJob). is_for image_id j.image_id)
          (where_is (λ (j : StagedJob). not (is_for image_id j.image_id)) jobs)
        ≡ false
  any-kept [] = refl
  any-kept (j ∷ jobs) = elim (Bool-cases (is_for image_id j.image_id)) [
    | inl e ↦ rw e (any-kept jobs)
    | inr e ↦ rw (e, e) (any-kept jobs)
  ]

  installing-unassign :
      (machines : List Machine)
      → any_is (λ m. assigned_to image_id m && in_install_states m.state) machines ≡ false
      → where_is (λ m. in_install_states m.state) (map (unassign image_id) machines)
        ≡ where_is (λ m. in_install_states m.state) machines
  installing-unassign [] h = refl
  installing-unassign (m ∷ machines) h = elim (Bool-cases (assigned_to image_id m)) [
    | inl e ↦
        let idle : in_install_states m.state ≡ false = ground (arith, h, e) in
        rw (e, idle) (installing-unassign machines (ground (arith, h, e)))
    | inr e ↦ rw e (ground (arith, installing-unassign machines (ground (arith, h, e))))
  ]

  open-unlink :
      (attempts : List InstallAttempt)
      → any_is (λ a. reads_image image_id a && is_open a) attempts ≡ false
      → where_is is_open (map (unlink image_id) attempts) ≡ where_is is_open attempts
  open-unlink [] h = refl
  open-unlink (a ∷ attempts) h = elim (Bool-cases (reads_image image_id a)) [
    | inl e ↦
        let done : is_open a ≡ false = ground (arith, h, e) in
        rw (e, done) (open-unlink attempts (ground (arith, h, e)))
    | inr e ↦ rw e (ground (arith, open-unlink attempts (ground (arith, h, e))))
  ]

module _ (env : Env) (actor : Text) (image : Image) (lab : Lab) where
  gone : IsGone image.id (without_image env actor image lab)
  unfolding record_activity
  gone = record {
    no_row = row-drop_row (λ (i : Image). i.id) image.id lab.images;
    unassigned = any-unassign image.id lab.machines;
    unread = any-unlink image.id lab.attempts;
    unstaged = any-kept image.id lab.jobs;
  }

  kept :
      any_is (λ a. reads_image image.id a && is_open a) lab.attempts ≡ false
      → any_is (λ m. assigned_to image.id m && in_install_states m.state) lab.machines ≡ false
      → KeepsInstalls lab (without_image env actor image lab)
  unfolding record_activity
  kept reading busy = record {
    machines = installing-unassign image.id lab.machines busy;
    attempts = open-unlink image.id lab.attempts reading;
  }

  -- Deleting an image either raises and changes nothing, or returns; then neither a machine, an
  -- attempt, a job nor a row of the images refers to it, the machines that are being installed and
  -- the open attempts are what they were, and none of them referred to the image.
  pub delete_image-cases :
      let r = delete_image env actor image lab in
      ((message : String) × (r ≡ (raised message, lab)))
      ⊎ ((r.0 ≡ ok image.id)
          × IsGone image.id r.1
          × KeepsInstalls lab r.1
          × (any_is (λ a. reads_image image.id a && is_open a) lab.attempts ≡ false)
          × (any_is (λ m. assigned_to image.id m && in_install_states m.state) lab.machines
              ≡ false))
  unfolding delete_image
  delete_image-cases = elim (Bool-cases (ltb image.id 1)) [
    | inl e ↦ inl ("Unknown image", rw e)
    | inr e ↦ elim (Bool-cases (any_is (λ a. reads_image image.id a && is_open a) lab.attempts)) [
      | inl reading ↦
          inl ("Cannot delete this image while a machine is installing it", rw (e, reading))
      | inr unread ↦
          elim (Bool-cases
            (any_is (λ m. assigned_to image.id m && in_install_states m.state) lab.machines)) [
              | inl busy ↦ inl (
                "Cannot delete this image while a machine is deploying or staged",
                rw (e, unread, busy),
              )
              | inr free ↦ inr (rw (e, unread, free) (refl, gone, kept unread free, refl, refl))
            ]
    ]
  ]
