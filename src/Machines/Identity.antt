-- ===== src/Machines/Identity.antt =====
-- A booting machine is recognised by its MAC or its UUID, and the registry never gives one MAC or one
-- UUID to two machines.
use home_lab_pxe.Prelude.{
  ℕ, ◌≤◌, ◌≡◌, refl, sym, ap, ◌∙◌, ◌==◌, ==_iff, Text, ◌++◌, text_eq, text_eq_iff, not, ◌&&◌,
  Option, none, some, List, [], ◌∷◌, count_is, first_where, count_is-append, arith, ◌⊎◌, inl, inr,
  Bool-cases, Option-cases,
}
use home_lab_pxe.Models.{Machine}
use home_lab_pxe.Lab.{Lab, Env, row, put_row, next_key}
use home_lab_pxe.Lab.Tables.{
  Distinct, put_row-Distinct, count-put_row, row-first_where, append-Distinct, row-next_key,
  count-first_where, first_where-holds,
}
use home_lab_pxe.Attempts.{save_machine, record_activity}
use home_lab_pxe.Hardware.{Hardware, apply_hardware, or_old, apply_lab_timezone}
use home_lab_pxe.Machines.{
  by_mac, by_uuid, find_by_mac, find_by_uuid, uuid_is_live, insert_machine, Recognised, collided,
  by_other_mac, by_uuid_query, record_uuid, free_uuid, new_machine, touch_known, touch_normal,
}

same_value : {a b : Machine} → some a ≡ some b → a ≡ b
same_value h = cc

abbrev key : Machine → ℕ
key m = m.id

-- Keys, MACs and UUIDs each name one machine at most.
pub record IsRegistry (machines : List Machine) : Type 0 where
  pub distinct : Distinct (λ (m : Machine). m.id) machines
  pub one_mac : (mac : Text) → count_is (by_mac mac) machines ≤ 1
  pub one_uuid : (uuid : Text) → count_is (by_uuid uuid) machines ≤ 1

-- A new MAC is the old one, or no machine has it.
abbrev NewMac : List Machine → Machine → Machine → Type 0
NewMac machines old new = (new.mac ≡ old.mac) ⊎ (count_is (by_mac new.mac) machines ≡ 0)

abbrev NewUuid : List Machine → Machine → Option Text → Type 0
NewUuid machines new old =
    (new.uuid ≡ old)
    ⊎ ((uuid : Text) × (new.uuid ≡ some uuid) × (count_is (by_uuid uuid) machines ≡ 0))

module _ (machines : List Machine) (r : IsRegistry machines) where
  replace-one_mac :
      (old new : Machine)
      → row key new.id machines ≡ some old
      → NewMac machines old new
      → (mac : Text) → count_is (by_mac mac) (put_row key new machines) ≤ 1
  replace-one_mac old new stored (inl same) mac = ground (
    arith,
    r.one_mac mac,
    count-put_row key (by_mac mac) new old machines r.distinct stored,
    same,
  )
  replace-one_mac old new stored (inr free) mac = ground (
    arith,
    r.one_mac mac,
    count-put_row key (by_mac mac) new old machines r.distinct stored,
    text_eq_iff new.mac mac,
  )

  replace-one_uuid :
      (old new : Machine)
      → row key new.id machines ≡ some old
      → NewUuid machines new old.uuid
      → (uuid : Text) → count_is (by_uuid uuid) (put_row key new machines) ≤ 1
  replace-one_uuid old new stored (inl same) uuid = ground (
    arith,
    r.one_uuid uuid,
    count-put_row key (by_uuid uuid) new old machines r.distinct stored,
    same,
  )
  replace-one_uuid old new stored (inr (u, is_new, free)) uuid = ground (
    arith,
    r.one_uuid uuid,
    count-put_row key (by_uuid uuid) new old machines r.distinct stored,
    text_eq_iff u uuid,
  )

  -- A stored machine is replaced.
  replace-IsRegistry :
      (old new : Machine)
      → row key new.id machines ≡ some old
      → NewMac machines old new
      → NewUuid machines new old.uuid
      → IsRegistry (put_row key new machines)
  replace-IsRegistry old new stored mac uuid = record {
    distinct = put_row-Distinct key new machines r.distinct;
    one_mac = replace-one_mac old new stored mac;
    one_uuid = replace-one_uuid old new stored uuid;
  }

  insert-one_uuid :
      (new : Machine)
      → NewUuid machines new none
      → (uuid : Text) → count_is (by_uuid uuid) (machines ++ new ∷ []) ≤ 1
  insert-one_uuid new (inl blank) uuid =
      ground (arith, r.one_uuid uuid, count_is-append (by_uuid uuid) machines (new ∷ []), blank)
  insert-one_uuid new (inr (u, is_new, free)) uuid = ground (
    arith,
    r.one_uuid uuid,
    count_is-append (by_uuid uuid) machines (new ∷ []),
    text_eq_iff u uuid,
  )

  -- A machine with a new key, a new MAC, and no UUID or a new one is added.
  insert-IsRegistry :
      (new : Machine)
      → new.id ≡ next_key key machines
      → count_is (by_mac new.mac) machines ≡ 0
      → NewUuid machines new none
      → IsRegistry (machines ++ new ∷ [])
  insert-IsRegistry new k mac uuid = record {
    distinct = append-Distinct key new machines (rw k (row-next_key key machines)) r.distinct;
    one_mac = λ t.
        ground (
          arith,
          r.one_mac t,
          count_is-append (by_mac t) machines (new ∷ []),
          text_eq_iff new.mac t,
        );
    one_uuid = insert-one_uuid new uuid;
  }

module _ (lab : Lab) (reg : IsRegistry lab.machines) where
  -- The UUID that a stored machine is given is its own, or new.
  record_uuid-NewUuid :
      (uuid : Option Text) (m old : Machine)
      → row key m.id lab.machines ≡ some old
      → m.uuid ≡ old.uuid
      → NewUuid lab.machines (record_uuid uuid m lab) old.uuid
  unfolding record_uuid find_by_uuid
  record_uuid-NewUuid none m old stored same = inl same
  record_uuid-NewUuid (some u) m old stored same = elim (Option-cases m.uuid) [
    | inr (v, has) ↦ inl (ground arith)
    | inl blank ↦ elim (Option-cases (first_where (by_uuid u) lab.machines)) [
      | inl free ↦ inr (u, ground arith, count-first_where (by_uuid u) lab.machines free)
      | inr (taken, e) ↦ elim (Bool-cases (taken.id == m.id)) [
        | inr other ↦ inl (ground arith)
        | inl own ↦
            let there = row-first_where key (by_uuid u) taken lab.machines reg.distinct e in
            let as_old : taken ≡ old = same_value (
              sym there
              ∙ (ap (λ (k : ℕ). row key k lab.machines) ((==_iff taken.id m.id).0 own) ∙ stored)) in
            absurd (
              ground (
                arith,
                first_where-holds (by_uuid u) lab.machines taken e,
                ap (λ (x : Machine). x.uuid) as_old,
              ))
      ]
    ]
  ]

  record_uuid_rest :
      (uuid : Option Text) (m : Machine)
      → ((record_uuid uuid m lab).id ≡ m.id) × ((record_uuid uuid m lab).mac ≡ m.mac)
  unfolding record_uuid
  record_uuid_rest none m = (refl, refl)
  record_uuid_rest (some u) m = (ground arith, ground arith)

module _ (env : Env) (mac : Text) (client_ip : Text) (hw : Hardware) where
  -- A machine that was recognised: the stored one, or that one with the MAC that is new to it.
  known-IsRegistry :
      (r : Recognised) (found old : Machine)
      → IsRegistry r.lab.machines
      → row key found.id r.lab.machines ≡ some old
      → found.uuid ≡ old.uuid
      → NewMac r.lab.machines old found
      → IsRegistry (touch_known env r mac client_ip hw (some found)).1.machines
  unfolding save_machine
  known-IsRegistry r found old reg stored same_uuid new_mac =
      let seen = record found {
        last_seen_at = some env.now;
        last_ip = or_old client_ip found.last_ip;
      } in
      let named = record_uuid r.uuid seen r.lab in
      let rest = record_uuid_rest r.lab reg r.uuid seen in
      replace-IsRegistry r.lab.machines reg old (apply_hardware hw named) (rw rest.0 stored)
        (rw rest.1 new_mac) (record_uuid-NewUuid r.lab reg r.uuid seen old stored same_uuid)

  free_uuid-cases :
      (uuid : Option Text) (lab : Lab)
      → (free_uuid uuid lab ≡ none)
        ⊎ ((u : Text) × (free_uuid uuid lab ≡ some u) × (count_is (by_uuid u) lab.machines ≡ 0))
  unfolding free_uuid find_by_uuid
  free_uuid-cases none lab = inl refl
  free_uuid-cases (some u) lab = elim (Option-cases (first_where (by_uuid u) lab.machines)) [
    | inl free ↦ inr (u, ground arith, count-first_where (by_uuid u) lab.machines free)
    | inr (taken, e) ↦ inl (ground arith)
  ]

  new_machine_fields :
      (uuid : Option Text) (lab : Lab)
      → let m = new_machine env lab mac uuid client_ip hw in
        (m.id ≡ next_key key lab.machines) × (m.mac ≡ mac) × (m.uuid ≡ uuid)
  unfolding new_machine apply_lab_timezone
  new_machine_fields uuid lab = (ground arith, ground arith, ground arith)

  new-IsRegistry :
      (r : Recognised)
      → IsRegistry r.lab.machines
      → count_is (by_mac mac) r.lab.machines ≡ 0
      → IsRegistry (touch_known env r mac client_ip hw none).1.machines
  unfolding insert_machine record_activity
  new-IsRegistry r reg no_mac =
      let uuid = free_uuid r.uuid r.lab in
      let new = new_machine env r.lab mac uuid client_ip hw in
      let (id, same_mac, same_uuid) = new_machine_fields uuid r.lab in
      insert-IsRegistry r.lab.machines reg new id (rw same_mac no_mac)
        (elim (free_uuid-cases r.uuid r.lab) [
          | inl e ↦ inl (same_uuid ∙ e)
          | inr (u, e, free) ↦ inr (u, same_uuid ∙ e, free)
        ])

  module _ (lab : Lab) (reg : IsRegistry lab.machines)
      (no_mac : count_is (by_mac mac) lab.machines ≡ 0) where
    touched_other-IsRegistry :
        (uuid : Text) (found : Option Machine)
        → find_by_uuid uuid lab ≡ found
        → let r = by_other_mac env mac uuid found lab in
          IsRegistry (touch_known env r mac client_ip hw r.machine).1.machines
    unfolding find_by_uuid record_activity
    touched_other-IsRegistry uuid none e =
        new-IsRegistry (by_other_mac env mac uuid none lab) reg no_mac
    touched_other-IsRegistry uuid (some found) e =
        elim (Bool-cases (not (text_eq found.mac mac) && uuid_is_live env found)) [
          | inl live ↦ rw live (new-IsRegistry (collided env mac uuid found lab) reg no_mac)
          | inr moved ↦ rw moved (
              known-IsRegistry
                (record {
                  machine = some (record found { mac = mac });
                  uuid = some uuid;
                  lab = lab;
                })
                (record found { mac = mac }) found reg
                (row-first_where key (by_uuid uuid) found lab.machines reg.distinct e) refl
                (inr no_mac))
        ]

    touched_query-IsRegistry :
        (uuid : Option Text)
        → let r = by_uuid_query env mac uuid lab in
          IsRegistry (touch_known env r mac client_ip hw r.machine).1.machines
    touched_query-IsRegistry none = new-IsRegistry (by_uuid_query env mac none lab) reg no_mac
    touched_query-IsRegistry (some uuid) =
        touched_other-IsRegistry uuid (find_by_uuid uuid lab) refl

  -- Whatever a booting machine reports, the registry keeps each key, each MAC and each UUID with one
  -- machine at most.
  pub touch_normal-IsRegistry :
      (uuid : Option Text) (lab : Lab)
      → IsRegistry lab.machines
      → IsRegistry (touch_normal env mac uuid client_ip hw lab).1.machines
  unfolding touch_normal find_by_mac
  touch_normal-IsRegistry uuid lab reg =
      elim (Option-cases (first_where (by_mac mac) lab.machines)) [
        | inr (found, e) ↦ rw e (
            known-IsRegistry (record { machine = some found; uuid = uuid; lab = lab }) found found
              reg (row-first_where key (by_mac mac) found lab.machines reg.distinct e) refl
              (inl refl))
        | inl unknown ↦ rw unknown (
            touched_query-IsRegistry lab reg (count-first_where (by_mac mac) lab.machines unknown)
              uuid)
      ]
