-- ===== src/Attempts/Pinned.antt =====
-- What a machine is served after an attempt was created for it: the boot artifacts of the image at
-- that time.
use home_lab_pxe.Prelude.{◌<◌, ◌≡◌, refl, Text, text_eq_self, some, true, arith, ==_iff}
use home_lab_pxe.Models.{ExtractStatus, Image, Machine}
use home_lab_pxe.Lab.{Lab, Env}
use home_lab_pxe.Payload.{BootPayload, from_image, from_attempt}
use home_lab_pxe.Attempts.{close_open_attempts, new_attempt, get_open_attempt, is_current}
use home_lab_pxe.Attempts.Creation.{after_creation, snapshot_path}
use home_lab_pxe.Attempts.Open.{open_count, open_count-close, get_open_attempt-added}

-- The image's boot payload, taken as ready.
abbrev pub pinned_payload : Image → BootPayload
pinned_payload image = record (from_image image) { extract_status = ExtractStatus.ready }

module _ (env : Env) (machine : Machine) (image : Image) where
  pub from_attempt-new_attempt :
      (path : _) (attempts : _)
      → from_attempt (new_attempt env machine image path attempts) ≡ pinned_payload image
  unfolding from_attempt new_attempt from_image
  from_attempt-new_attempt path attempts = ground arith

  open_count-closed :
      (lab : Lab)
      → 0 < machine.id
      → open_count machine.id (close_open_attempts env machine lab).attempts ≡ 0
  unfolding close_open_attempts
  open_count-closed lab h =
      ground (arith, open_count-close env.now machine.id machine.id lab.attempts)

  new_attempt-is_current :
      (path : _) (attempts : _)
      → is_current machine (new_attempt env machine image path attempts) ≡ true
  unfolding new_attempt
  new_attempt-is_current path attempts =
      rw ((==_iff machine.id machine.id).1 refl, text_eq_self machine.instance_id)

  -- The attempt that was created is the one that the machine is served from.
  pub get_open_attempt-created :
      (body : Text) (lab : Lab)
      → 0 < machine.id
      → get_open_attempt
          (after_creation env machine image body (close_open_attempts env machine lab))
          machine
        ≡ some (
            new_attempt env machine image
              (snapshot_path env machine image)
              (close_open_attempts env machine lab).attempts)
  get_open_attempt-created body lab h =
      let closed = close_open_attempts env machine lab in
      let attempt =
        new_attempt env machine image (snapshot_path env machine image) closed.attempts in
      get_open_attempt-added machine attempt closed.attempts
        (after_creation env machine image body closed) refl h (open_count-closed lab h)
        (new_attempt-is_current (snapshot_path env machine image) closed.attempts)
