-- ===== src/Machines.antt =====
-- src/inventory/service.py: how a machine enters the registry and is recognised when it boots.
pub mod Identity
use home_lab_pxe.Prelude.{
  ℕ, suc, ◌+◌, ◌*◌, ◌==◌, leb, Text, text_eq, strip, codes, take, is_space, Bool, true, false, not,
  ◌&&◌, ◌||◌, Option, none, some, List, [], ◌∷◌, ◌++◌, map, where_is, first_where, is_nil,
  if◌then◌else◌, Outcome, ok, raised, os_error, Action, pure, raise, modify, lift, ◌>>=◌, ◌>>◌,
}
use mathlib.Core.List.{reverse}
use home_lab_pxe.Models.{MachineState, OsFamily, linux, NextBootDevice, pxe, Machine, BootEvent}
use home_lab_pxe.Lab.{Lab, Env, row, put_row, next_key}
use home_lab_pxe.Attempts.{save_machine, get_image, record_activity}
use home_lab_pxe.Lifecycle.{apply_hostname}
use home_lab_pxe.Hardware.{Hardware, clean_hardware, or_old, apply_hardware, apply_lab_timezone}
use home_lab_pxe.Mac.{normalize_mac, normalize_uuid}

abbrev pub by_mac : Text → Machine → Bool
by_mac mac machine = text_eq machine.mac mac

abbrev pub by_uuid : Text → Machine → Bool
by_uuid uuid machine = elim machine.uuid [ none ↦ false | some u ↦ text_eq u uuid ]

unfoldable pub find_by_mac : Text → Lab → Option Machine
find_by_mac mac lab = first_where (by_mac mac) lab.machines

unfoldable pub find_by_uuid : Text → Lab → Option Machine
find_by_uuid uuid lab = first_where (by_uuid uuid) lab.machines

-- A UUID is live for an hour after its machine was seen.
unfoldable pub uuid_is_live : Env → Machine → Bool
uuid_is_live env machine = elim machine.last_seen_at [
  | none ↦ false
  | some seen ↦ leb env.now (seen + 3600)
]

-- `db.add` of a new object, and the flush that gives it its key.
unfoldable pub insert_machine : Machine → Lab → Lab
insert_machine machine lab = record lab { machines = lab.machines ++ machine ∷ [] }

-- What the two queries find: the machine, the UUID to record, and the state.
pub record Recognised : Type 0 where
  pub machine : Option Machine
  pub uuid : Option Text
  pub lab : Lab

-- The UUID of a row that has none, unless another machine has it.
unfoldable pub record_uuid : Option Text → Machine → Lab → Machine
record_uuid none machine lab = machine
record_uuid (some uuid) machine lab = elim machine.uuid [
  | some u ↦ machine
  | none ↦ elim (find_by_uuid uuid lab) [
    | none ↦ record machine { uuid = some uuid }
    | some taken ↦ if taken.id == machine.id then record machine { uuid = some uuid } else machine
  ]
]

-- A UUID that another row has is not given to a new machine.
unfoldable pub free_uuid : Option Text → Lab → Option Text
free_uuid none lab = none
free_uuid (some uuid) lab = elim (find_by_uuid uuid lab) [ none ↦ some uuid | some m ↦ none ]

module _ (env : Env) where
  -- `Machine(mac=…, uuid=…, state=pending, …)` with the defaults of the columns.
  unfoldable pub new_machine : Lab → Text → Option Text → Text → Hardware → Machine
  unfolding apply_lab_timezone
  new_machine lab mac uuid client_ip hw = apply_lab_timezone lab (record {
    id = next_key (λ m. m.id) lab.machines;
    mac = mac;
    uuid = uuid;
    hostname = [];
    state = MachineState.pending;
    last_seen_at = some env.now;
    last_ip = client_ip;
    manufacturer = hw.manufacturer;
    product = hw.product;
    serial = hw.serial;
    install_log = [];
    assigned_image_id = none;
    instance_id = env.fresh_instance;
    guest_overlay = some [];
    next_boot_device = pxe;
    imaging_started_at = none;
    created_at = env.now;
  })

  -- The UUID of a live machine that has another MAC: neither is taken over, and it is recorded.
  abbrev pub collided : Text → Text → Machine → Lab → Recognised
  collided mac uuid found lab = record {
    machine = none;
    uuid = none;
    lab =
        record_activity env (codes "system") (codes "machine.uuid_collision")
          (codes "uuid=" ++ (uuid ++ (codes " mac=" ++ (mac ++ (codes " kept=" ++ found.mac)))))
          lab;
  }

  abbrev pub by_other_mac : Text → Text → Option Machine → Lab → Recognised
  by_other_mac mac uuid none lab = record { machine = none; uuid = some uuid; lab = lab }
  by_other_mac mac uuid (some found) lab =
      if not (text_eq found.mac mac) && uuid_is_live env found
      then collided mac uuid found lab
      else record { machine = some (record found { mac = mac }); uuid = some uuid; lab = lab }

  abbrev pub by_uuid_query : Text → Option Text → Lab → Recognised
  by_uuid_query mac none lab = record { machine = none; uuid = none; lab = lab }
  by_uuid_query mac (some uuid) lab = by_other_mac mac uuid (find_by_uuid uuid lab) lab

  abbrev pub recognise_by : Text → Option Text → Option Machine → Lab → Recognised
  recognise_by mac uuid (some machine) lab = record {
    machine = some machine;
    uuid = uuid;
    lab = lab;
  }
  recognise_by mac uuid none lab = by_uuid_query mac uuid lab

  unfoldable pub recognise : Text → Option Text → Lab → Recognised
  unfolding uuid_is_live
  recognise mac uuid lab = recognise_by mac uuid (find_by_mac mac lab) lab

  abbrev pub touch_known : Recognised → Text → Text → Hardware → Option Machine → Machine × Lab
  touch_known r mac client_ip hw (some machine) =
      let seen = record machine {
        last_seen_at = some env.now;
        last_ip = or_old client_ip machine.last_ip;
      } in
      let touched = apply_hardware hw (record_uuid r.uuid seen r.lab) in
      (touched, save_machine touched r.lab)
  touch_known r mac client_ip hw none =
      let machine = new_machine r.lab mac (free_uuid r.uuid r.lab) client_ip hw in
      (
        machine,
        record_activity env (codes "system") (codes "machine.discovered") mac
            (insert_machine machine r.lab),
      )

  -- `touch_machine` with a normal MAC.
  unfoldable pub touch_normal : Text → Option Text → Text → Hardware → Lab → Machine × Lab
  unfolding recognise record_uuid free_uuid
  touch_normal mac uuid client_ip hw lab =
      let r = recognise mac uuid lab in touch_known r mac client_ip hw r.machine

  abbrev touch_parsed : Outcome Text → Option Text → Text → Hardware → Action Lab Machine
  touch_parsed (ok mac) uuid client_ip hw lab =
      let r = touch_normal mac (normalize_uuid env uuid) client_ip hw lab in (ok r.0, r.1)
  touch_parsed (raised message) uuid client_ip hw lab = (raised message, lab)
  touch_parsed os_error uuid client_ip hw lab = (os_error, lab)

  unfoldable pub touch_machine :
      Text → Option Text → Text → Option Text → Option Text → Option Text → Action Lab Machine
  unfolding touch_normal
  touch_machine mac uuid client_ip manufacturer product serial =
      touch_parsed (normalize_mac mac) uuid client_ip (record {
        manufacturer = clean_hardware env manufacturer;
        product = clean_hardware env product;
        serial = clean_hardware env serial;
      })

  abbrev refuse_known : Option Machine → Outcome (Unit {0})
  refuse_known none = ok tt
  refuse_known (some machine) = raised "A machine with that MAC already exists"

  abbrev no_hardware : Hardware
  no_hardware = record { manufacturer = []; product = []; serial = [] }

  unfoldable pub register_machine : Text → Text → Text → Action Lab Machine
  unfolding apply_hostname
  register_machine actor mac hostname = do
    mac_n ← lift (normalize_mac mac)
    known ← λ lab. (ok (find_by_mac mac_n lab), lab)
    lift (refuse_known known)
    blank ← λ lab. (ok (new_machine lab mac_n none [] no_hardware), lab)
    machine ← lift (apply_hostname blank hostname)
    modify (insert_machine machine)
    modify (record_activity env actor (codes "machine.register") mac_n)
    pure machine

  unfoldable pub record_boot_event : Machine → Text → Text → Lab → Lab
  record_boot_event machine client_ip script_kind lab = record lab {
    boot_events =
        lab.boot_events
        ++ record {
          id = next_key (λ e. e.id) lab.boot_events;
          machine_id = machine.id;
          at = env.now;
          client_ip = client_ip;
          script_kind = script_kind;
        }
          ∷ [];
  }
