-- ===== src/Lifecycle/Expiry.antt =====
-- The imaging timeout: which machines it moves to Timeout Error, and that it leaves all others.
use home_lab_pxe.Prelude.{
  count_is, ◌&&◌, ℕ, ◌+◌, ◌*◌, ◌<◌, ◌≡◌, refl, ◌==◌, leb, Bool, false, Option, none, some, List, [],
  ◌∷◌, where_is, map_option, if◌then◌else◌, arith, ◌∙◌, sym, codes,
}
use home_lab_pxe.Models.{MachineState, Machine}
use home_lab_pxe.Lab.{Lab, Env, row}
use home_lab_pxe.Lab.Tables.{Distinct, keep_if, row-where_is, where_is-Distinct}
use home_lab_pxe.Readiness.{is_imaging}
use home_lab_pxe.Attempts.{record_activity, close_open_attempts}
use home_lab_pxe.Lifecycle.Rows.{machines-close, get_machine-same, get_machine-save}
use home_lab_pxe.Lifecycle.{
  get_machine, enter, mark_timeout_error, expire_row, expire_rows, is_stale, expire_stale_imaging,
}

module _ (env : Env) (minutes : ℕ) where
  -- A machine that images: the clock starts if it was not set, and runs out after the timeout.
  abbrev pub expire_imaging : Machine → Machine
  expire_imaging machine = elim machine.imaging_started_at [
    | none ↦ record machine { imaging_started_at = some env.now }
    | some started ↦
        if leb (started + minutes * 60) env.now
        then enter MachineState.timeout_error machine
        else machine
  ]

  -- What the timeout makes of a machine.
  abbrev pub expire_machine : Machine → Machine
  expire_machine machine = if is_imaging machine.state then expire_imaging machine else machine

  timeout-machine :
      (machine : Machine) (lab : Lab) (k : ℕ)
      → get_machine lab machine.id ≡ some machine
      → get_machine (mark_timeout_error env (codes "timeout") machine lab).1 k ≡ (
          if machine.id == k
          then some (enter MachineState.timeout_error machine)
          else get_machine lab k)
  unfolding mark_timeout_error record_activity
  timeout-machine machine lab k h =
      let closed = close_open_attempts env machine lab in
      ground (
        arith,
        get_machine-save (enter MachineState.timeout_error machine) closed k,
        get_machine-same lab closed k (machines-close env machine lab),
      )

  expire_row-machine :
      (machine : Machine) (lab : Lab) (n k : ℕ)
      → get_machine lab machine.id ≡ some machine
      → get_machine (expire_row env minutes machine lab n).0 k
        ≡ (if machine.id == k then some (expire_imaging machine) else get_machine lab k)
  expire_row-machine machine lab n k h = ground (
    arith,
    timeout-machine machine lab k,
    get_machine-save (record machine { imaging_started_at = some env.now }) lab k,
  )

  -- The rows that are still to be visited are as the table has them.
  abbrev Agrees : List Machine → Lab → Type 0
  Agrees rows lab =
      (k : ℕ) (m : Machine)
      → row (λ (r : Machine). r.id) k rows ≡ some m
      → get_machine lab k ≡ some m

  abbrev or_else : Option Machine → Option Machine → Option Machine
  or_else none other = other
  or_else (some m) other = some (expire_imaging m)

  expire_rows-machine :
      (rows : List Machine) (lab : Lab) (n k : ℕ)
      → Distinct (λ (r : Machine). r.id) rows
      → Agrees rows lab
      → get_machine (expire_rows env minutes rows lab n).0 k
        ≡ or_else (row (λ (r : Machine). r.id) k rows) (get_machine lab k)
  unfolding expire_rows row
  expire_rows-machine [] lab n k d agrees = refl
  expire_rows-machine (machine ∷ rows) lab n k d agrees =
      let step = expire_row env minutes machine lab n in
      let stored : get_machine lab machine.id ≡ some machine =
        agrees machine.id machine (ground arith) in
      let moved = λ (j : ℕ). expire_row-machine machine lab n j stored in
      expire_rows-machine rows step.0 step.1 k d.1
        (λ j m e. ground (arith, moved j, agrees j m, d.0, e))
      ∙ ground (arith, moved k, d.0)

  expire_rows-count :
      (rows : List Machine) (lab : Lab) (n : ℕ)
      → (expire_rows env minutes rows lab n).1 ≡ n + count_is (is_stale env minutes) rows
  unfolding expire_rows
  expire_rows-count [] lab n = omega arith
  expire_rows-count (machine ∷ rows) lab n =
      let step = expire_row env minutes machine lab n in
      ground (arith, expire_rows-count rows step.0 step.1)

  pub count-where_is :
      (machines : List Machine)
      → count_is (is_stale env minutes) (where_is (λ m. is_imaging m.state) machines)
        ≡ count_is (λ m. is_imaging m.state && is_stale env minutes m) machines
  count-where_is [] = refl
  count-where_is (machine ∷ machines) = ground (arith, count-where_is machines)

  or_else-keep_if :
      (found : Option Machine)
      → or_else (keep_if (λ (r : Machine). r.id) (λ m. is_imaging m.state) found) found
        ≡ map_option expire_machine found
  or_else-keep_if none = refl
  or_else-keep_if (some m) = ground arith

  keep_if-some :
      (found : Option Machine) (m : Machine)
      → keep_if (λ (r : Machine). r.id) (λ m. is_imaging m.state) found ≡ some m
      → found ≡ some m
  keep_if-some none m h = cc
  keep_if-some (some a) m h = ground arith

module _ (env : Env) (lab : Lab) where
  -- Where the machines have distinct keys and the timeout is above 0 minutes, the call makes of every
  -- stored machine what `expire_machine` says: a machine that images moves to Timeout Error exactly when its clock ran
  -- out, its clock starts if it was not set, and any other machine stays as it is. It reports how
  -- many machines that images had run out of time.
  pub expire_stale_imaging-exact :
      Distinct (λ (r : Machine). r.id) lab.machines
      → 0 < lab.runtime.imaging_timeout_minutes
      → ((k : ℕ)
          → get_machine (expire_stale_imaging env lab).0 k
            ≡ map_option
                (expire_machine env lab.runtime.imaging_timeout_minutes)
                (get_machine lab k))
        × ((expire_stale_imaging env lab).1
            ≡ count_is
                (λ m. is_imaging m.state && is_stale env lab.runtime.imaging_timeout_minutes m)
                lab.machines)
  unfolding expire_stale_imaging
  expire_stale_imaging-exact d h =
      let minutes = lab.runtime.imaging_timeout_minutes in
      let p : Machine → Bool = λ m. is_imaging m.state in
      let key : Machine → ℕ = λ m. m.id in
      let rows = where_is p lab.machines in
      let by_key = λ (k : ℕ). row-where_is key p k lab.machines d in
      let on : leb minutes 0 ≡ false = ground arith in
      (
        λ k. rw on (
            expire_rows-machine env minutes rows lab 0 k (where_is-Distinct key p lab.machines d)
              (λ j m e. keep_if-some env minutes (get_machine lab j) m (sym (by_key j) ∙ e))
            ∙ rw (by_key k) (or_else-keep_if env minutes (get_machine lab k))),
        rw on (
            omega (
              arith,
              expire_rows-count env minutes rows lab 0,
              count-where_is env minutes lab.machines,
            )),
      )

  -- A timeout of 0 minutes disables the call: nothing changes and nothing is reported.
  pub expire_stale_imaging-off :
      lab.runtime.imaging_timeout_minutes ≡ 0 → expire_stale_imaging env lab ≡ (lab, 0)
  unfolding expire_stale_imaging
  expire_stale_imaging-off h = rw h
