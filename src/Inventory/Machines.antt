-- ===== src/Inventory/Machines.antt =====
-- The functions on machines of services/api/internal/store/store.go.
use smart_deploy_linux.Prelude.Table.{find, any, update, delete, count}
use smart_deploy_linux.Prelude.{
  ℕ, Bool, false, not, ◌&&◌, ◌||◌, Option, none, some, List, [], ◌∷◌, ◌++◌, take, drop, Bytes,
  bytes_eq, codes, ltb, ◌==◌, if◌then◌else◌,
}
use smart_deploy_linux.Schema.{
  AuthCode, Job, Db, db_error, not_found, in_use, Error, Result, ok, err,
}
use smart_deploy_linux.Drivers.Sort.{stable_sort}
use smart_deploy_linux.Inventory.{
  Machine, Inventory, Faults, insert_machine, select_machine, update_machine, list_machines,
  record_inventory, count_jobs, delete_machine, or_else, or_option, has_machine, has_profile,
  allows, is_non_terminal,
}

unfoldable pub get_machine : Faults → Inventory → ℕ → Result Machine
get_machine fails inv id =
    if fails select_machine
    then err db_error
    else elim (find (λ (m : Machine). m.id == id) inv.machines) [
      | none ↦ err not_found
      | some m ↦ ok m
    ]

pub record CreateMachineInput : Type 0 where
  pub asset_tag : Option Bytes
  pub mac_primary : Option Bytes
  pub uuid_smbios : Option ℕ
  pub vendor : Option Bytes
  pub model : Option Bytes
  pub default_profile_id : Option ℕ
  pub attributes : Option Bytes

-- asset_tag is UNIQUE.
abbrev pub has_tag : Option Bytes → Machine → Bool
has_tag none m = false
has_tag (some tag) m = elim m.asset_tag [ none ↦ false | some t ↦ bytes_eq t tag ]

abbrev pub new_machine : ℕ → ℕ → CreateMachineInput → Option Bytes → Machine
new_machine now id input mac = record {
  id = id;
  asset_tag = input.asset_tag;
  mac_primary = mac;
  uuid_smbios = input.uuid_smbios;
  vendor = input.vendor;
  model = input.model;
  default_profile_id = input.default_profile_id;
  attributes = or_else input.attributes (codes "{}");
  created_at = now;
}

abbrev pub refuses_machine : Inventory → CreateMachineInput → Bool
refuses_machine inv input =
    any (has_tag input.asset_tag) inv.machines
    || not (allows (has_profile inv.profiles) input.default_profile_id)

pub record UpdateMachineInput : Type 0 where
  pub asset_tag : Option Bytes
  pub mac_primary : Option Bytes
  pub vendor : Option Bytes
  pub model : Option Bytes
  pub default_profile_id : Option ℕ
  pub clear_default_profile : Bool
  pub attributes : Option Bytes

abbrev pub patched : UpdateMachineInput → Option Bytes → Machine → Machine
patched input mac m = record m {
  asset_tag = or_option input.asset_tag m.asset_tag;
  mac_primary = or_option mac m.mac_primary;
  vendor = or_option input.vendor m.vendor;
  model = or_option input.model m.model;
  default_profile_id =
      if input.clear_default_profile
      then none
      else or_option input.default_profile_id m.default_profile_id;
  attributes = or_else input.attributes m.attributes;
}

-- The constraints on the row that the UPDATE writes.
abbrev pub refuses_patch : Inventory → UpdateMachineInput → ℕ → Bool
refuses_patch inv input id =
    any (λ m. has_tag input.asset_tag m && not (m.id == id)) inv.machines
    || not input.clear_default_profile
      && not (allows (has_profile inv.profiles) input.default_profile_id)

-- The cast `::macaddr`, none where PostgreSQL refuses the text.
module _ (to_mac : Bytes → Option Bytes) where
  abbrev pub cast_mac : Option Bytes → Option (Option Bytes)
  cast_mac none = some none
  cast_mac (some text) = elim (to_mac text) [ none ↦ none | some mac ↦ some (some mac) ]

  unfoldable pub get_machine_by_mac : Faults → Inventory → Bytes → Result Machine
  unfolding bytes_eq
  get_machine_by_mac fails inv text = elim (to_mac text) [
    | none ↦ err db_error
    | some mac ↦
        if fails select_machine
        then err db_error
        else elim (find
            (λ (m : Machine). elim m.mac_primary [ none ↦ false | some n ↦ bytes_eq n mac ])
            inv.machines) [ none ↦ err not_found | some m ↦ ok m ]
  ]

  unfoldable pub create_machine :
      Faults → ℕ → ℕ → Inventory → CreateMachineInput → Inventory × Result Machine
  create_machine fails now id inv input = elim (cast_mac input.mac_primary) [
    | none ↦ (inv, err db_error)
    | some mac ↦
        let inv' = record inv { machines = inv.machines ++ new_machine now id input mac ∷ [] } in
        if fails insert_machine || refuses_machine inv input
        then (inv, err db_error)
        else (inv', get_machine fails inv' id)
  ]

  unfoldable pub update_machine_row :
      Faults → Inventory → ℕ → UpdateMachineInput → Inventory × Result Machine
  update_machine_row fails inv id input = elim (cast_mac input.mac_primary) [
    | none ↦ (inv, err db_error)
    | some mac ↦
        let inv' = record inv {
          machines = update (λ m. m.id == id) (patched input mac) inv.machines;
        } in
        if fails update_machine
        then (inv, err db_error)
        else if not (has_machine inv.machines id)
        then (inv, err not_found)
        else if refuses_patch inv input id
        then (inv, err db_error)
        else (inv', get_machine fails inv' id)
  ]

abbrev pub is_newer : Machine → Machine → Bool
is_newer m n = ltb n.created_at m.created_at

unfoldable pub list_machine_rows : Faults → Inventory → ℕ → ℕ → Result (List Machine)
unfolding stable_sort
list_machine_rows fails inv limit offset =
    if fails list_machines
    then err db_error
    else ok (
        take (if limit == 0 || ltb 500 limit then 100 else limit)
          (drop offset (stable_sort is_newer inv.machines)))

-- The operators `||` and `->>` of jsonb: an object with the key "hardware" set, and a text under a key.
module _ (with_hardware : Bytes → Bytes → Bytes) (text_at : Bytes → Bytes → Option Bytes) where
  abbrev pub with_inventory : Bytes → Machine → Machine
  with_inventory inventory m = record m {
    attributes = with_hardware m.attributes inventory;
    vendor = or_option m.vendor (text_at inventory (codes "dmi_vendor"));
    model = or_option m.model (text_at inventory (codes "dmi_product"));
  }

  unfoldable pub record_machine_inventory :
      Faults → Inventory → ℕ → Bytes → Inventory × Option Error
  record_machine_inventory fails inv id inventory =
      if fails record_inventory then (inv, some db_error) else (
        record inv { machines = update (λ m. m.id == id) (with_inventory inventory) inv.machines },
        none,
      )

abbrev pub is_running_on : ℕ → Job → Bool
is_running_on id j = j.machine_id == id && is_non_terminal j.state

-- Rows that refer to the machine and do not go with it: codes and jobs.
abbrev pub holds_machine : Db → ℕ → Bool
holds_machine db id =
    any (λ (c : AuthCode). c.machine_id == id) db.codes
    || any (λ (j : Job). j.machine_id == id) db.jobs

-- The wake requests of a machine go with it (ON DELETE CASCADE).
abbrev pub without_machine : ℕ → Inventory → Inventory
without_machine id inv = record inv {
  machines = delete (λ m. m.id == id) inv.machines;
  wakes = delete (λ w. w.machine_id == id) inv.wakes;
}

unfoldable pub delete_machine_row : Faults → Inventory → ℕ → Inventory × Option Error
delete_machine_row fails inv id =
    let running = count (is_running_on id) inv.db.jobs in
    if fails count_jobs
    then (inv, some db_error)
    else if ltb 0 running
    then (inv, some (in_use running))
    else if fails delete_machine
    then (inv, some db_error)
    else if not (has_machine inv.machines id)
    then (inv, some not_found)
    else if holds_machine inv.db id
    then (inv, some db_error)
    else (without_machine id inv, none)
