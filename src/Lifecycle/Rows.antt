-- ===== src/Lifecycle/Rows.antt =====
-- The row of a machine after an operation saved it.
use home_lab_pxe.Prelude.{ℕ, ◌≡◌, ◌==◌, some, if◌then◌else◌, arith}
use home_lab_pxe.Models.{Machine}
use home_lab_pxe.Lab.{Lab, Env}
use home_lab_pxe.Lab.Tables.{row-put_row, present}
use home_lab_pxe.Attempts.{save_machine, close_open_attempts}
use home_lab_pxe.Lifecycle.{get_machine}

pub machines-close :
    (env : Env) (machine : Machine) (lab : Lab)
    → (close_open_attempts env machine lab).machines ≡ lab.machines
unfolding close_open_attempts
machines-close env machine lab = ground arith

pub get_machine-same :
    (lab other : Lab) (k : ℕ)
    → other.machines ≡ lab.machines
    → get_machine other k ≡ get_machine lab k
get_machine-same lab other k e = rw e

pub get_machine-save :
    (machine : Machine) (lab : Lab) (k : ℕ)
    → get_machine (save_machine machine lab) k ≡ (
        if machine.id == k
        then present (λ (m : Machine). m.id) machine (get_machine lab k)
        else get_machine lab k)
unfolding save_machine
get_machine-save machine lab k = row-put_row (λ (m : Machine). m.id) k machine lab.machines

-- A stored machine is the row with its key after it was saved.
pub get_machine-save_stored :
    (before after : Machine) (lab : Lab)
    → before.id ≡ after.id
    → get_machine lab before.id ≡ some before
    → get_machine (save_machine after lab) after.id ≡ some after
get_machine-save_stored before after lab same stored =
    ground (arith, get_machine-save after lab after.id)
