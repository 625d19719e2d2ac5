-- ===== src/Installs/Steps/Lemmas.antt =====
-- Each operation of the life cycle keeps the tables sound.
use home_lab_pxe.Prelude.{
  ℕ, ◌<◌, ◌≤◌, ◌+◌, ◌≡◌, refl, sym, ap, ◌∙◌, ◌==◌, Text, codes, Bool, true, false, not, Option,
  some, List, [], ◌∷◌, where_is, arith, Outcome, ok, bind-ok, inl, inr, Bool-cases, Option-cases,
  leb, ltb, ◌*◌, modify, ◌>>◌, Outcome-cases, is_ok, is_raised, is_os_error, pure,
}
use home_lab_pxe.Models.{MachineState, Image, Machine, InstallAttempt}
use home_lab_pxe.Lab.{Lab, Env, drop_row}
use home_lab_pxe.Lab.Tables.{Distinct, put_row-Distinct, where_is-Distinct}
use home_lab_pxe.Seeds.{prune_install_seeds}
use home_lab_pxe.Readiness.{assert_image_deployable, guest_init_allowed, is_imaging}
use home_lab_pxe.Attempts.{
  close_open_attempts, save_machine, record_activity, new_attempt, refresh_install_attempt,
  bump_instance_id,
}
use home_lab_pxe.Attempts.Open.{
  IsSingle, open_count, open_count-close, add-IsSingle, close-IsSingle,
}
use home_lab_pxe.Attempts.Creation.{after_creation, chosen_body, snapshot_path, create-cases}
use home_lab_pxe.Lifecycle.{
  deploy_machine, mark_ready, mark_imaging, mark_timeout_error, expire_row, expire_rows,
  expire_stale_imaging, mark_install_failed, abort_deploy, abort_state, get_machine_for_guest_init,
  note_imaging_heartbeat, get_machine, enter, apply_hostname, leave_pending, wrong_instance,
}
use home_lab_pxe.Lifecycle.Deploy.{deploying, deploy-ok}
use home_lab_pxe.Installs.{
  mark_deployed, disable_machine, stage_machine, update_staged_attempt, delete_machine,
  add_staged_job, drop_machine_rows,
}
use home_lab_pxe.Installs.Stage.{staged, stage-ok}
use home_lab_pxe.Installs.Ended.{mark_deployed-rows}
use home_lab_pxe.Installs.Frames.{delete_snapshots-SameRows, delete_snapshots-cases}

-- No machine has two open attempts, and no two machines have one key.
pub record IsSound (lab : Lab) : Type 0 where
  pub single : IsSingle lab.attempts
  pub distinct : Distinct (λ (m : Machine). m.id) lab.machines

close-IsSound :
    (env : Env) (machine : Machine) (lab : Lab)
    → IsSound lab
    → IsSound (close_open_attempts env machine lab)
unfolding close_open_attempts
close-IsSound env machine lab s = elim (Bool-cases (machine.id == 0)) [
  | inl e ↦ rw e s
  | inr e ↦ rw e (record {
    single = close-IsSingle env.now machine.id lab.attempts s.single;
    distinct = s.distinct;
  })
]

save-IsSound : (machine : Machine) (lab : Lab) → IsSound lab → IsSound (save_machine machine lab)
unfolding save_machine
save-IsSound machine lab s = record {
  single = s.single;
  distinct = put_row-Distinct (λ (m : Machine). m.id) machine lab.machines s.distinct;
}

-- The tables of a sound state, whatever else differs.
same-IsSound :
    (lab other : Lab)
    → other.attempts ≡ lab.attempts
    → other.machines ≡ lab.machines
    → IsSound lab
    → IsSound other
same-IsSound lab other a m s = record { single = rw a s.single; distinct = rw m s.distinct }

open_count-closed :
    (env : Env) (machine : Machine) (lab : Lab)
    → 0 < machine.id
    → open_count machine.id (close_open_attempts env machine lab).attempts ≡ 0
unfolding close_open_attempts
open_count-closed env machine lab h =
    ground (arith, open_count-close env.now machine.id machine.id lab.attempts)

creation-IsSound :
    (env : Env) (machine : Machine) (image : Image) (body : Text) (lab : Lab)
    → 0 < machine.id
    → IsSound lab
    → IsSound (after_creation env machine image body (close_open_attempts env machine lab))
unfolding prune_install_seeds new_attempt
creation-IsSound env machine image body lab h s =
    let closed = close_open_attempts env machine lab in
    let sound = close-IsSound env machine lab s in
    record {
      single =
          add-IsSingle
            (new_attempt env machine image (snapshot_path env machine image) closed.attempts)
            closed.attempts (open_count-closed env machine lab h) sound.single;
      distinct = sound.distinct;
    }

open_count-where_is :
    (p : InstallAttempt → Bool) (k : ℕ) (attempts : List InstallAttempt)
    → open_count k (where_is p attempts) ≤ open_count k attempts
open_count-where_is p k [] = omega arith
open_count-where_is p k (a ∷ attempts) = ground (arith, open_count-where_is p k attempts)

-- The attempts that a query keeps.
where_is-IsSingle :
    (p : InstallAttempt → Bool) (attempts : List InstallAttempt)
    → IsSingle attempts
    → IsSingle (where_is p attempts)
where_is-IsSingle p attempts s = record {
  at_most_one = λ k. omega (arith, s.at_most_one k, open_count-where_is p k attempts);
}

-- Saving after the attempts were closed.
mark_timeout_error-IsSound :
    (env : Env) (actor : Text) (machine : Machine) (lab : Lab)
    → IsSound lab
    → IsSound (mark_timeout_error env actor machine lab).1
unfolding mark_timeout_error record_activity save_machine
mark_timeout_error-IsSound env actor machine lab s =
    let r = mark_timeout_error env actor machine lab in
    let closed = close_open_attempts env machine lab in
    same-IsSound (save_machine r.0 closed) r.1 refl refl
      (save-IsSound r.0 closed (close-IsSound env machine lab s))

beat-IsSound :
    (env : Env) (machine : Machine) (lab : Lab)
    → IsSound lab
    → IsSound (note_imaging_heartbeat env machine lab)
unfolding note_imaging_heartbeat
beat-IsSound env machine lab s = elim (Bool-cases (is_imaging machine.state)) [
  | inl e ↦ rw e (save-IsSound (record machine { imaging_started_at = some env.now }) lab s)
  | inr e ↦ rw e s
]

module _ (env : Env) (actor : Text) (machine : Machine) (before after : Lab)
    (s : IsSound before) where
  pub deploy-IsSound :
      (image : Image) (m : Machine)
      → 0 < machine.id
      → deploy_machine env actor machine image before ≡ (ok m, after)
      → IsSound after
  unfolding record_activity
  deploy-IsSound image m h e =
      let (body, files, same_machine, state) =
        deploy-ok env actor machine image before m (ap (λ (r : Outcome Machine × Lab). r.0) e) in
      let m' = deploying env machine image in
      let made =
        creation-IsSound env m' image body (record (save_machine m' before) { data_seeds = files })
          h
          (same-IsSound (save_machine m' before)
            (record (save_machine m' before) { data_seeds = files }) refl refl
            (save-IsSound m' before s)) in
      rw (sym (ap (λ (r : Outcome Machine × Lab). r.1) e) ∙ state)
        (record { single = made.single; distinct = made.distinct })

  pub stage-IsSound :
      (image : Option Image) (overlay : Option (List (Text × Text))) (m : Machine)
      → 0 < machine.id
      → stage_machine env actor machine image overlay before ≡ (ok m, after)
      → IsSound after
  unfolding record_activity add_staged_job
  stage-IsSound image overlay m h e =
      let (target, found, family, deployable, (body, files, same_machine, state)) =
        stage-ok env actor machine image overlay before m
          (ap (λ (r : Outcome Machine × Lab). r.0) e) in
      let m' = staged env machine image overlay in
      let saved = add_staged_job env actor m' (save_machine m' before) in
      let made =
        creation-IsSound env m' target body (record saved { data_seeds = files }) h
          (same-IsSound (save_machine m' before) (record saved { data_seeds = files }) refl refl
            (save-IsSound m' before s)) in
      rw (sym (ap (λ (r : Outcome Machine × Lab). r.1) e) ∙ state)
        (record { single = made.single; distinct = made.distinct })

  -- A machine that was changed and saved after its attempts were closed.
  closed_save-IsSound :
      (changed : Machine) (other : Lab)
      → other.attempts ≡ (close_open_attempts env machine before).attempts
      → other.machines ≡ (save_machine changed (close_open_attempts env machine before)).machines
      → IsSound other
  unfolding save_machine
  closed_save-IsSound changed other a m =
      let closed = close_open_attempts env machine before in
      same-IsSound (save_machine changed closed) other a m
        (save-IsSound changed closed (close-IsSound env machine before s))

  pub timeout-IsSound : IsSound (mark_timeout_error env actor machine before).1
  timeout-IsSound = mark_timeout_error-IsSound env actor machine before s

  pub failed-IsSound : (log : Text) → IsSound (mark_install_failed env actor machine log before).1
  unfolding mark_install_failed record_activity save_machine
  failed-IsSound log =
      let r = mark_install_failed env actor machine log before in
      closed_save-IsSound r.0 r.1 refl refl

  pub disable-IsSound :
      (disabled : Bool) → IsSound (disable_machine env actor machine disabled before).1
  unfolding disable_machine record_activity save_machine
  disable-IsSound true =
      let r = disable_machine env actor machine true before in closed_save-IsSound r.0 r.1 refl refl
  disable-IsSound false =
      let r = disable_machine env actor machine false before in
      same-IsSound (save_machine r.0 before) r.1 refl refl (save-IsSound r.0 before s)

  pub imaging-IsSound : IsSound (mark_imaging env actor machine before).1
  unfolding mark_imaging record_activity save_machine
  imaging-IsSound =
      let r = mark_imaging env actor machine before in
      let started = record machine {
        state = MachineState.imaging;
        imaging_started_at = some env.now;
      } in
      same-IsSound (save_machine started before) r.1 (ground arith) (ground arith)
        (save-IsSound started before s)

  pub abort-IsSound :
      (m : Machine) → abort_deploy env actor machine before ≡ (ok m, after) → IsSound after
  unfolding abort_deploy record_activity save_machine
  abort-IsSound m e = elim (Option-cases (abort_state env machine.state)) [
    | inl none_state ↦ cc (rw none_state at (ap (λ (r : Outcome Machine × Lab). r.0) e))
    | inr (state, some_state) ↦
        let at_end = ap (λ (r : Outcome Machine × Lab). r.1) (rw some_state at e) in
        rw (← at_end) (closed_save-IsSound (enter state machine) _ refl refl)
  ]

  pub deployed-IsSound :
      (m : Machine) → mark_deployed env actor machine before ≡ (ok m, after) → IsSound after
  deployed-IsSound m e =
      let changed = enter MachineState.deployed machine in
      let at_end = ap (λ (r : Outcome Machine × Lab). r.1) e in
      elim (mark_deployed-rows env machine before actor) [
        | inr (failed, stuck) ↦ cc (failed, ap (λ (r : Outcome Machine × Lab). r.0) e)
        | inl (returns, machines, attempts) ↦ rw (← at_end) (record {
          single = rw attempts (close-IsSingle env.now machine.id before.attempts s.single);
          distinct = rw machines (save-IsSound changed before s).distinct;
        })
      ]

  pub ready-IsSound :
      (hostname : Text) (m : Machine)
      → mark_ready env actor machine hostname before ≡ (ok m, after)
      → IsSound after
  unfolding mark_ready record_activity save_machine
  ready-IsSound hostname m e = elim (Outcome-cases (apply_hostname machine hostname)) [
    | is_ok named r ↦
        let ready = record named { state = leave_pending env named.state } in
        let at_end = ap (λ (r : Outcome Machine × Lab). r.1) (rw r at e) in
        rw (← at_end)
          (same-IsSound (save_machine ready before) _ refl refl (save-IsSound ready before s))
    | is_raised message r ↦ cc (rw r at (ap (λ (r : Outcome Machine × Lab). r.0) e))
    | is_os_error r ↦ cc (rw r at (ap (λ (r : Outcome Machine × Lab). r.0) e))
  ]

  refresh-IsSound :
      (image : Image) (m : Machine)
      → 0 < machine.id
      → (refresh_install_attempt env machine image before).0 ≡ ok m
      → IsSound (refresh_install_attempt env machine image before).1
  unfolding refresh_install_attempt
  refresh-IsSound image m h e =
      let bumped = bump_instance_id env machine in
      let saved = save_machine bumped (close_open_attempts env machine before) in
      let sound =
        save-IsSound bumped (close_open_attempts env machine before)
          (close-IsSound env machine before s) in
      elim (create-cases env bumped image saved) [
        | inl (text, selected, (value, state)) ↦
            rw (value, state)
              (creation-IsSound env bumped image (chosen_body env bumped image text) saved h sound)
        | inr (inl (message, failed)) ↦ cc (rw failed at e)
        | inr (inr failed) ↦ cc (rw failed at e)
      ]

  pub update-IsSound :
      (image : Image) (m : Machine)
      → 0 < machine.id
      → update_staged_attempt env actor machine image before ≡ (ok m, after)
      → IsSound after
  unfolding update_staged_attempt record_activity
  update-IsSound image m h e = elim (Outcome-cases (assert_image_deployable env image)) [
    | is_ok a checked ↦
        let done = rw checked at e in
        let (m', returns, rest) =
          bind-ok (refresh_install_attempt env machine image)
            (λ r.
              modify (record_activity env actor (codes "machine.staged-update") machine.mac)
              >> pure r)
            before m (ap (λ (r : Outcome Machine × Lab). r.0) done) in
        let refreshed = refresh-IsSound image m' h returns in
        rw
          (sym (ap (λ (r : Outcome Machine × Lab). r.1) done)
            ∙ ap (λ (r : Outcome Machine × Lab). r.1) rest)
          (record { single = refreshed.single; distinct = refreshed.distinct })
    | is_raised message r ↦ cc (rw r at (ap (λ (r : Outcome Machine × Lab). r.0) e))
    | is_os_error r ↦ cc (rw r at (ap (λ (r : Outcome Machine × Lab). r.0) e))
  ]

  pub delete-IsSound :
      (k : ℕ) → delete_machine env actor machine before ≡ (ok k, after) → IsSound after
  unfolding delete_machine drop_machine_rows record_activity drop_row
  delete-IsSound k e = elim (Bool-cases (ltb machine.id 1)) [
    | inl none_stored ↦ cc (rw none_stored at (ap (λ (r : Outcome ℕ × Lab). r.0) e))
    | inr stored ↦
        let closed = close_open_attempts env machine before in
        let sound = close-IsSound env machine before s in
        let rows = where_is (λ a. a.machine_id == machine.id) closed.attempts in
        let seedless = delete_snapshots-SameRows env rows closed in
        elim (delete_snapshots-cases env rows closed) [
          | inr (failed, stuck) ↦ cc (rw (stored, failed) at (ap (λ (r : Outcome ℕ × Lab). r.0) e))
          | inl deleted ↦
              rw (← ap (λ (r : Outcome ℕ × Lab). r.1) (rw (stored, deleted) at e)) (record {
                single = rw seedless.attempts (
                    where_is-IsSingle (λ a. not (a.machine_id == machine.id)) closed.attempts
                      sound.single);
                distinct = rw seedless.machines (
                    where_is-Distinct (λ (m : Machine). m.id) (λ m. not (m.id == machine.id))
                      closed.machines sound.distinct);
              })
        ]
  ]

module _ (env : Env) (before : Lab) (s : IsSound before) where
  pub guest-IsSound :
      (machine_id : ℕ) (instance_id : Option Text)
      → IsSound (get_machine_for_guest_init env machine_id instance_id before).1
  unfolding get_machine_for_guest_init save_machine
  guest-IsSound machine_id instance_id = elim (Option-cases (get_machine before machine_id)) [
    | inl e ↦ rw e s
    | inr (found, e) ↦ elim (Bool-cases (guest_init_allowed found)) [
      | inr locked ↦ rw (e, locked) s
      | inl allowed ↦ elim (Bool-cases (wrong_instance env instance_id found)) [
        | inl wrong ↦ rw (e, allowed, wrong) s
        | inr right ↦ rw (e, allowed, right) (beat-IsSound env found before s)
      ]
    ]
  ]

  expire_row-IsSound :
      (minutes : ℕ) (row : Machine) (lab : Lab) (n : ℕ)
      → IsSound lab
      → IsSound (expire_row env minutes row lab n).0
  expire_row-IsSound minutes row lab n sound = elim (Option-cases row.imaging_started_at) [
    | inl e ↦ rw e (save-IsSound (record row { imaging_started_at = some env.now }) lab sound)
    | inr (started, e) ↦ elim (Bool-cases (leb (started + minutes * 60) env.now)) [
      | inl stale ↦
          rw (e, stale)
            (mark_timeout_error-IsSound env (codes "timeout")
              (record row { imaging_started_at = some started }) lab sound)
      | inr fresh ↦ rw (e, fresh) sound
    ]
  ]

  expire_rows-IsSound :
      (minutes : ℕ) (rows : List Machine) (lab : Lab) (n : ℕ)
      → IsSound lab
      → IsSound (expire_rows env minutes rows lab n).0
  unfolding expire_rows
  expire_rows-IsSound minutes [] lab n sound = sound
  expire_rows-IsSound minutes (row ∷ rows) lab n sound =
      let step = expire_row env minutes row lab n in
      expire_rows-IsSound minutes rows step.0 step.1 (expire_row-IsSound minutes row lab n sound)

  pub expire-IsSound : IsSound (expire_stale_imaging env before).0
  unfolding expire_stale_imaging
  expire-IsSound = elim (Bool-cases (leb before.runtime.imaging_timeout_minutes 0)) [
    | inl e ↦ rw e s
    | inr e ↦ rw e (
        expire_rows-IsSound before.runtime.imaging_timeout_minutes
          (where_is (λ m. is_imaging m.state) before.machines) before 0 s)
  ]
