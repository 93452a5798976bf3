-- ===== src/Inventory/VersionHandlers.antt =====
-- createImageVersion and listImageVersions of services/api/cmd/api/ingest.go. The decoded body and the
-- text of the current time come from outside.
use smart_deploy_linux.Prelude.{
  ℕ, not, Option, none, some, List, [], Bytes, bytes_eq, if◌then◌else◌,
}
use smart_deploy_linux.Schema.{Result, ok, err}
use smart_deploy_linux.Access.{Principal, has_perm}
use smart_deploy_linux.Inventory.{Inventory, Faults}
use smart_deploy_linux.Inventory.Images.{VersionInfo, create_image_version, list_image_versions}

-- `blob_id` is none where it does not parse.
pub record CreateImageVersionReq : Type 0 where
  pub blob_id : Option ℕ
  pub version_tag : Bytes

pub data VersionReply : Type 0 where
  forbidden bad_image_id bad_json bad_blob_id create_error list_error : VersionReply
  created : ℕ → Bytes → VersionReply
  versions : List VersionInfo → VersionReply

abbrev pub tag_or : Bytes → Bytes → Bytes
tag_or stamp tag = if bytes_eq tag [] then stamp else tag

abbrev pub version_reply : Bytes → Inventory × Result ℕ → Inventory × VersionReply
version_reply tag (inv, err _) = (inv, create_error)
version_reply tag (inv, ok id) = (inv, created id tag)

unfoldable pub create_version_handler :
    Faults
    → ℕ
    → Bytes
    → ℕ
    → Option Principal
    → Option ℕ
    → Option CreateImageVersionReq
    → Inventory
    → Inventory × VersionReply
unfolding bytes_eq
create_version_handler fails now stamp id p image_id body inv =
    if not (has_perm p "image.write") then (inv, forbidden) else elim image_id [
      | none ↦ (inv, bad_image_id)
      | some image ↦ elim body [
        | none ↦ (inv, bad_json)
        | some req ↦ elim req.blob_id [
          | none ↦ (inv, bad_blob_id)
          | some blob ↦
              let tag = tag_or stamp req.version_tag in
              version_reply tag (create_image_version fails now id inv image blob tag)
        ]
      ]
    ]

unfoldable pub list_versions_handler :
    Faults → Option Principal → Option ℕ → Inventory → VersionReply
unfolding list_image_versions
list_versions_handler fails p image_id inv =
    if not (has_perm p "image.read") then forbidden else elim image_id [
      | none ↦ bad_image_id
      | some image ↦ elim (list_image_versions fails inv image) [
        | err _ ↦ list_error
        | ok vs ↦ versions vs
      ]
    ]
