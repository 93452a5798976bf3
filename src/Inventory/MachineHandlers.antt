-- ===== src/Inventory/MachineHandlers.antt =====
-- The handlers on machines of services/api/cmd/api/render.go and services/api/cmd/api/operator.go. The
-- decoded body comes from outside.
use smart_deploy_linux.Prelude.{
  ℕ, Bool, true, false, not, Option, none, some, List, [], Bytes, bytes_eq, if◌then◌else◌,
}
use smart_deploy_linux.Schema
use smart_deploy_linux.Schema.{Error, Result, ok, err}
use smart_deploy_linux.Access.{Principal, has_perm}
use smart_deploy_linux.Inventory.{Machine, Inventory, Faults}
use smart_deploy_linux.Inventory.Machines.{
  CreateMachineInput, UpdateMachineInput, get_machine, create_machine, update_machine_row,
  list_machine_rows, delete_machine_row,
}

-- What the handlers answer.
pub data MachineReply : Type 0 where
  forbidden bad_json bad_id bad_uuid_smbios bad_default_profile_id internal not_found create_failed
        update_failed :
      MachineReply
  conflict : Error → MachineReply
  machines : List Machine → MachineReply
  created found : Machine → MachineReply
  no_content : MachineReply

unfoldable pub list_machines_handler : Faults → Option Principal → Inventory → MachineReply
unfolding list_machine_rows
list_machines_handler fails p inv =
    if not (has_perm p "machine.read")
    then forbidden
    else elim (list_machine_rows fails inv 100 0) [ err _ ↦ internal | ok ms ↦ machines ms ]

pub record CreateMachineReq : Type 0 where
  pub asset_tag : Option Bytes
  pub mac_primary : Option Bytes
  pub uuid_smbios : Option Bytes
  pub vendor : Option Bytes
  pub model : Option Bytes
  pub default_profile_id : Option Bytes
  pub attributes : Option Bytes

pub record UpdateMachineReq : Type 0 where
  pub asset_tag : Option Bytes
  pub mac_primary : Option Bytes
  pub vendor : Option Bytes
  pub model : Option Bytes
  pub default_profile_id : Option Bytes
  pub attributes : Option Bytes

-- uuid.Parse, and the cast `::macaddr`.
module _ (parse_uuid : Bytes → Option ℕ) (to_mac : Bytes → Option Bytes) where
  -- A field that may be left out: none where its text is no UUID.
  abbrev pub optional_uuid : Option Bytes → Option (Option ℕ)
  optional_uuid none = some none
  optional_uuid (some text) = elim (parse_uuid text) [ none ↦ none | some id ↦ some (some id) ]

  abbrev pub create_input : CreateMachineReq → Option ℕ → Option ℕ → CreateMachineInput
  create_input req smbios profile = record {
    asset_tag = req.asset_tag;
    mac_primary = req.mac_primary;
    uuid_smbios = smbios;
    vendor = req.vendor;
    model = req.model;
    default_profile_id = profile;
    attributes = req.attributes;
  }

  abbrev pub create_reply : Inventory × Result Machine → Inventory × MachineReply
  create_reply (inv, err _) = (inv, create_failed)
  create_reply (inv, ok m) = (inv, created m)

  unfoldable pub create_machine_handler :
      Faults
      → ℕ
      → ℕ
      → Option Principal
      → Option CreateMachineReq
      → Inventory
      → Inventory × MachineReply
  create_machine_handler fails now id p body inv =
      if not (has_perm p "machine.write") then (inv, forbidden) else elim body [
        | none ↦ (inv, bad_json)
        | some req ↦ elim (optional_uuid req.uuid_smbios) [
          | none ↦ (inv, bad_uuid_smbios)
          | some smbios ↦ elim (optional_uuid req.default_profile_id) [
            | none ↦ (inv, bad_default_profile_id)
            | some profile ↦
                create_reply
                  (create_machine to_mac fails now id inv (create_input req smbios profile))
          ]
        ]
      ]

  -- The field default_profile_id: an empty text clears the profile.
  abbrev pub profile_field : Option Bytes → Option (Bool × Option ℕ)
  profile_field none = some (false, none)
  profile_field (some text) =
      if bytes_eq text []
      then some (true, none)
      else elim (parse_uuid text) [ none ↦ none | some id ↦ some (false, some id) ]

  abbrev pub update_input : UpdateMachineReq → Bool × Option ℕ → UpdateMachineInput
  update_input req (clears, profile) = record {
    asset_tag = req.asset_tag;
    mac_primary = req.mac_primary;
    vendor = req.vendor;
    model = req.model;
    default_profile_id = profile;
    clear_default_profile = clears;
    attributes = req.attributes;
  }

  abbrev pub update_reply : Inventory × Result Machine → Inventory × MachineReply
  update_reply (inv, err Schema.not_found) = (inv, not_found)
  update_reply (inv, err _) = (inv, update_failed)
  update_reply (inv, ok m) = (inv, found m)

  unfoldable pub update_machine_handler :
      Faults
      → Option Principal
      → Bytes
      → Option UpdateMachineReq
      → Inventory
      → Inventory × MachineReply
  unfolding bytes_eq
  update_machine_handler fails p id body inv =
      if not (has_perm p "machine.write") then (inv, forbidden) else elim (parse_uuid id) [
        | none ↦ (inv, bad_id)
        | some n ↦ elim body [
          | none ↦ (inv, bad_json)
          | some req ↦ elim (profile_field req.default_profile_id) [
            | none ↦ (inv, bad_default_profile_id)
            | some field ↦
                update_reply (update_machine_row to_mac fails inv n (update_input req field))
          ]
        ]
      ]

  abbrev pub get_reply : Result Machine → MachineReply
  get_reply (err Schema.not_found) = not_found
  get_reply (err _) = internal
  get_reply (ok m) = found m

  unfoldable pub get_machine_handler : Faults → Option Principal → Bytes → Inventory → MachineReply
  unfolding get_machine
  get_machine_handler fails p id inv =
      if not (has_perm p "machine.read")
      then forbidden
      else elim (parse_uuid id) [ none ↦ bad_id | some n ↦ get_reply (get_machine fails inv n) ]

  abbrev pub delete_reply : Inventory × Option Error → Inventory × MachineReply
  delete_reply (inv, none) = (inv, no_content)
  delete_reply (inv, some Schema.not_found) = (inv, not_found)
  delete_reply (inv, some e) = (inv, conflict e)

  unfoldable pub delete_machine_handler :
      Faults → Option Principal → Bytes → Inventory → Inventory × MachineReply
  delete_machine_handler fails p id inv =
      if not (has_perm p "machine.write") then (inv, forbidden) else elim (parse_uuid id) [
        | none ↦ (inv, bad_id)
        | some n ↦ delete_reply (delete_machine_row fails inv n)
      ]
