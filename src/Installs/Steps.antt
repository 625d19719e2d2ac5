-- ===== src/Installs/Steps.antt =====
-- The operations of the life cycle as steps between committed states, and what every sequence of
-- them keeps. An operation that raises is rolled back, so that it is no step.
mod Lemmas
use home_lab_pxe.Prelude.{ℕ, ◌<◌, ◌≡◌, Text, Bool, true, false, Option, List, Outcome, ok}
use home_lab_pxe.Models.{Image, Machine}
use home_lab_pxe.Lab.{Lab, Env}
use home_lab_pxe.Attempts.{save_machine}
use home_lab_pxe.Lifecycle.{
  deploy_machine, mark_ready, mark_imaging, mark_timeout_error, expire_stale_imaging,
  mark_install_failed, abort_deploy, get_machine_for_guest_init,
}
use home_lab_pxe.Installs.{
  mark_deployed, disable_machine, stage_machine, update_staged_attempt, delete_machine,
}
pub use Lemmas.{IsSound}
use Lemmas.{
  deploy-IsSound, ready-IsSound, imaging-IsSound, timeout-IsSound, expire-IsSound, failed-IsSound,
  abort-IsSound, deployed-IsSound, disable-IsSound, stage-IsSound, update-IsSound, delete-IsSound,
  guest-IsSound,
}

-- One committed operation on a stored machine; the surroundings may differ from step to step.
pub data Step (before after : Lab) : Type 0 where
  deploys :
      (env : Env) (actor : Text) (machine : Machine) (image : Image) (m : Machine)
      → 0 < machine.id
      → deploy_machine env actor machine image before ≡ (ok m, after)
      → Step before after
  stages :
      (env : Env) (actor : Text) (machine : Machine) (image : Option Image)
      (overlay : Option (List (Text × Text))) (m : Machine)
      → 0 < machine.id
      → stage_machine env actor machine image overlay before ≡ (ok m, after)
      → Step before after
  updates :
      (env : Env) (actor : Text) (machine : Machine) (image : Image) (m : Machine)
      → 0 < machine.id
      → update_staged_attempt env actor machine image before ≡ (ok m, after)
      → Step before after
  readies :
      (env : Env) (actor : Text) (machine : Machine) (hostname : Text) (m : Machine)
      → mark_ready env actor machine hostname before ≡ (ok m, after)
      → Step before after
  images :
      (env : Env) (actor : Text) (machine : Machine)
      → (mark_imaging env actor machine before).1 ≡ after
      → Step before after
  times_out :
      (env : Env) (actor : Text) (machine : Machine)
      → (mark_timeout_error env actor machine before).1 ≡ after
      → Step before after
  expires : (env : Env) → (expire_stale_imaging env before).0 ≡ after → Step before after
  fails :
      (env : Env) (actor log : Text) (machine : Machine)
      → (mark_install_failed env actor machine log before).1 ≡ after
      → Step before after
  aborts :
      (env : Env) (actor : Text) (machine m : Machine)
      → abort_deploy env actor machine before ≡ (ok m, after)
      → Step before after
  completes :
      (env : Env) (actor : Text) (machine m : Machine)
      → mark_deployed env actor machine before ≡ (ok m, after)
      → Step before after
  disables :
      (env : Env) (actor : Text) (machine : Machine) (disabled : Bool)
      → (disable_machine env actor machine disabled before).1 ≡ after
      → Step before after
  deletes :
      (env : Env) (actor : Text) (machine : Machine) (k : ℕ)
      → delete_machine env actor machine before ≡ (ok k, after)
      → Step before after
  serves :
      (env : Env) (machine_id : ℕ) (instance_id : Option Text)
      → (get_machine_for_guest_init env machine_id instance_id before).1 ≡ after
      → Step before after

pub data Reach (start : Lab) : Lab → Type 0 where
  here : Reach start start
  next : {lab after : Lab} → Reach start lab → Step lab after → Reach start after

-- Every committed operation keeps the tables sound.
Step-IsSound : {before after : Lab} → Step before after → IsSound before → IsSound after
Step-IsSound {before} {after} (deploys env actor machine image m h e) s =
    deploy-IsSound env actor machine before after s image m h e
Step-IsSound {before} {after} (stages env actor machine image overlay m h e) s =
    stage-IsSound env actor machine before after s image overlay m h e
Step-IsSound {before} {after} (updates env actor machine image m h e) s =
    update-IsSound env actor machine before after s image m h e
Step-IsSound {before} {after} (readies env actor machine hostname m e) s =
    ready-IsSound env actor machine before after s hostname m e
Step-IsSound {before} {after} (images env actor machine e) s =
    rw (← e) (imaging-IsSound env actor machine before after s)
Step-IsSound {before} {after} (times_out env actor machine e) s =
    rw (← e) (timeout-IsSound env actor machine before after s)
Step-IsSound {before} {after} (expires env e) s = rw (← e) (expire-IsSound env before s)
Step-IsSound {before} {after} (fails env actor log machine e) s =
    rw (← e) (failed-IsSound env actor machine before after s log)
Step-IsSound {before} {after} (aborts env actor machine m e) s =
    abort-IsSound env actor machine before after s m e
Step-IsSound {before} {after} (completes env actor machine m e) s =
    deployed-IsSound env actor machine before after s m e
Step-IsSound {before} {after} (disables env actor machine disabled e) s =
    rw (← e) (disable-IsSound env actor machine before after s disabled)
Step-IsSound {before} {after} (deletes env actor machine k e) s =
    delete-IsSound env actor machine before after s k e
Step-IsSound {before} {after} (serves env machine_id instance_id e) s =
    rw (← e) (guest-IsSound env before s machine_id instance_id)

-- Whatever committed operations of the life cycle follow one another from a state in which no machine
-- has two open attempts and no two machines have one key, both hold of the state that is reached.
pub Reach-IsSound : {start lab : Lab} → Reach start lab → IsSound start → IsSound lab
Reach-IsSound here s = s
Reach-IsSound (next r step) s = Step-IsSound step (Reach-IsSound r s)
