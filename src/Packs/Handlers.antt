-- ===== src/Packs/Handlers.antt =====
-- The handlers of services/api/cmd/api/driverpacks.go. The decoded body comes from outside.
use smart_deploy_linux.Prelude.Table.{any}
use smart_deploy_linux.Prelude.{
  ℕ, Bool, true, false, not, ◌&&◌, ◌||◌, Option, none, some, String, str_eq, List, [], ◌∷◌, Bytes,
  bytes_eq, codes, if◌then◌else◌,
}
use smart_deploy_linux.Schema.{Error, Result, ok, err}
use smart_deploy_linux.Schema
use smart_deploy_linux.Access.{Principal, has_perm}
use smart_deploy_linux.Drivers.{Rule}
use smart_deploy_linux.Packs.{
  Catalog, Faults, PackInput, create_driver_pack_version, delete_driver_pack_version,
}
use smart_deploy_linux.Packs.Match.{DriverPackRow, list_driver_packs}

abbrev pub is_valid_type : String → Bool
is_valid_type t =
    str_eq t "pci-vid-did"
    || str_eq t "dmi-product"
    || str_eq t "dmi-baseboard"
    || str_eq t "dmi-vendor"
    || str_eq t "os-version"

abbrev pub is_bad_rule : Rule → Bool
is_bad_rule r = not (is_valid_type r.type) || bytes_eq r.value []

-- `blob_id` is none where it does not parse.
pub record CreateDriverPackReq : Type 0 where
  pub vendor : Bytes
  pub model : Bytes
  pub os_family : Bytes
  pub os_version : Bytes
  pub version_tag : Bytes
  pub blob_id : Option ℕ
  pub rules : List Rule

pub data PackReply : Type 0 where
  forbidden bad_json vendor_and_model_required bad_os_family rule_required bad_rule bad_blob_id
        create_error :
      PackReply
  created : ℕ → PackReply

abbrev pub or_v1 : Bytes → Bytes
or_v1 tag = if bytes_eq tag [] then codes "v1" else tag

abbrev pub input_of : CreateDriverPackReq → ℕ → PackInput
input_of req blob_id = record {
  vendor = req.vendor;
  model = req.model;
  os_family = req.os_family;
  os_version = req.os_version;
  version_tag = or_v1 req.version_tag;
  blob_id = blob_id;
  rules = req.rules;
}

abbrev pub no_rules : List Rule → Bool
no_rules [] = true
no_rules (r ∷ rs) = false

-- The tests of createDriverPack, up to the id of the blob.
unfoldable pub check_pack : CreateDriverPackReq → Option PackReply
unfolding any bytes_eq
check_pack req =
    if bytes_eq req.vendor [] || bytes_eq req.model []
    then some vendor_and_model_required
    else if not (bytes_eq req.os_family (codes "windows"))
        && not (bytes_eq req.os_family (codes "linux"))
    then some bad_os_family
    else if no_rules req.rules
    then some rule_required
    else if any is_bad_rule req.rules
    then some bad_rule
    else none

abbrev pub pack_reply : Catalog × Result ℕ → Catalog × PackReply
pack_reply (cat, err _) = (cat, create_error)
pack_reply (cat, ok id) = (cat, created id)

unfoldable pub create_driver_pack :
    Faults
    → ℕ
    → ℕ
    → ℕ
    → Option Principal
    → Option CreateDriverPackReq
    → Catalog
    → Catalog × PackReply
unfolding check_pack
create_driver_pack fails now new_pack_id id p body cat =
    if not (has_perm p "image.write") then (cat, forbidden) else elim body [
      | none ↦ (cat, bad_json)
      | some req ↦ elim (check_pack req) [
        | some reply ↦ (cat, reply)
        | none ↦ elim req.blob_id [
          | none ↦ (cat, bad_blob_id)
          | some blob_id ↦
              pack_reply
                (create_driver_pack_version fails now new_pack_id id cat (input_of req blob_id))
        ]
      ]
    ]

pub data PacksReply : Type 0 where
  forbidden list_error : PacksReply
  packs : List DriverPackRow → PacksReply

unfoldable pub list_packs_handler : Faults → Option Principal → Catalog → PacksReply
unfolding list_driver_packs
list_packs_handler fails p cat =
    if not (has_perm p "driverpack.read") && not (has_perm p "image.read")
    then forbidden
    else elim (list_driver_packs fails cat) [ err _ ↦ list_error | ok rows ↦ packs rows ]

pub data DeleteReply : Type 0 where
  forbidden bad_id not_found delete_error no_content : DeleteReply

abbrev pub delete_reply : Catalog × Option Error → Catalog × DeleteReply
delete_reply (cat, none) = (cat, no_content)
delete_reply (cat, some Schema.not_found) = (cat, not_found)
delete_reply (cat, some _) = (cat, delete_error)

unfoldable pub delete_version_handler :
    Faults → Option Principal → Option ℕ → Catalog → Catalog × DeleteReply
delete_version_handler fails p id cat =
    if not (has_perm p "image.write") then (cat, forbidden) else elim id [
      | none ↦ (cat, bad_id)
      | some n ↦ delete_reply (delete_driver_pack_version fails cat n)
    ]
