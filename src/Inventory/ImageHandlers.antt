-- ===== src/Inventory/ImageHandlers.antt =====
-- The handlers on images of services/api/cmd/api/operator.go, with the installation from the catalog.
-- The decoded body and the catalog come from outside.
use smart_deploy_linux.Prelude.Table.{find}
use smart_deploy_linux.Prelude.{
  ℕ, Bool, not, ◌||◌, Option, none, some, List, [], ◌∷◌, Bytes, bytes_eq, if◌then◌else◌,
}
use smart_deploy_linux.Schema
use smart_deploy_linux.Schema.{Error, Result, ok, err}
use smart_deploy_linux.Access.{Principal, has_perm}
use smart_deploy_linux.Inventory.{Inventory, Faults, or_else}
use smart_deploy_linux.Inventory.Images.{
  ImageInfo, CreateImageInput, UpdateImageInput, get_image, create_image, update_image_row,
  delete_image_row,
}

-- `created` and `updated` have the image as GetImage reads it back, none where that fails.
pub data ImageReply : Type 0 where
  forbidden bad_id bad_json internal not_found create_error update_error catalog_error
        unknown_entry :
      ImageReply
  conflict : Error → ImageReply
  found : ImageInfo → ImageReply
  created updated : Option ImageInfo → ImageReply
  no_content : ImageReply

-- The test that the writing handlers share.
abbrev pub may_write : Option Principal → Bool
may_write p = has_perm p "*" || has_perm p "image.write"

abbrev pub to_option {ℓ} : {A : Type ℓ} → Result A → Option A
to_option (ok a) = some a
to_option (err _) = none

abbrev pub get_reply : Result ImageInfo → ImageReply
get_reply (err Schema.not_found) = not_found
get_reply (err _) = internal
get_reply (ok i) = found i

unfoldable pub get_image_handler : Faults → Option Principal → Option ℕ → Inventory → ImageReply
unfolding get_image
get_image_handler fails p id inv =
    if not (has_perm p "image.read")
    then forbidden
    else elim id [ none ↦ bad_id | some n ↦ get_reply (get_image fails inv n) ]

-- `media` is the object as it is marshalled again.
pub record CreateImageReq : Type 0 where
  pub name : Bytes
  pub os_family : Bytes
  pub os_version : Bytes
  pub arch : Bytes
  pub description : Option Bytes
  pub media : Option Bytes

abbrev pub create_input : CreateImageReq → CreateImageInput
create_input req = record {
  name = req.name;
  os_family = req.os_family;
  os_version = req.os_version;
  arch = req.arch;
  description = req.description;
  media = or_else req.media [];
}

abbrev pub create_reply : Faults → Inventory × Result ℕ → Inventory × ImageReply
create_reply fails (inv, err _) = (inv, create_error)
create_reply fails (inv, ok id) = (inv, created (to_option (get_image fails inv id)))

unfoldable pub create_image_handler :
    Faults → ℕ → ℕ → Option Principal → Option CreateImageReq → Inventory → Inventory × ImageReply
create_image_handler fails now id p body inv =
    if not (may_write p) then (inv, forbidden) else elim body [
      | none ↦ (inv, bad_json)
      | some req ↦ create_reply fails (create_image fails now id inv (create_input req))
    ]

abbrev pub update_reply : Faults → ℕ → Inventory × Option Error → Inventory × ImageReply
update_reply fails id (inv, none) = (inv, updated (to_option (get_image fails inv id)))
update_reply fails id (inv, some Schema.not_found) = (inv, not_found)
update_reply fails id (inv, some _) = (inv, update_error)

unfoldable pub update_image_handler :
    Faults
    → Option Principal
    → Option ℕ
    → Option UpdateImageInput
    → Inventory
    → Inventory × ImageReply
update_image_handler fails p id body inv = if not (may_write p) then (inv, forbidden) else elim id [
  | none ↦ (inv, bad_id)
  | some n ↦ elim body [
    | none ↦ (inv, bad_json)
    | some input ↦ update_reply fails n (update_image_row fails inv n input)
  ]
]

abbrev pub delete_reply : Inventory × Option Error → Inventory × ImageReply
delete_reply (inv, none) = (inv, no_content)
delete_reply (inv, some Schema.not_found) = (inv, not_found)
delete_reply (inv, some e) = (inv, conflict e)

unfoldable pub delete_image_handler :
    Faults → Option Principal → Option ℕ → Inventory → Inventory × ImageReply
delete_image_handler fails p id inv =
    if not (may_write p)
    then (inv, forbidden)
    else elim id [ none ↦ (inv, bad_id) | some n ↦ delete_reply (delete_image_row fails inv n) ]

-- Entry of services/api/internal/catalog/catalog.go, with its media marshalled.
pub record Entry : Type 0 where
  pub id : Bytes
  pub name : Bytes
  pub os_family : Bytes
  pub os_version : Bytes
  pub arch : Bytes
  pub description : Bytes
  pub media : Bytes

pub record Category : Type 0 where
  pub name : Bytes
  pub entries : List Entry

-- Lookup: the first entry of that id, in the order of the categories.
unfoldable pub lookup_entry : List Category → Bytes → Option Entry
unfolding find
lookup_entry [] id = none
lookup_entry (c ∷ cs) id =
    let rest = lookup_entry cs id in
    elim (find (λ (e : Entry). bytes_eq e.id id) c.entries) [ none ↦ rest | some e ↦ some e ]

pub record CatalogInstallReq : Type 0 where
  pub entry_id : Bytes
  pub name : Bytes

abbrev pub entry_input : Entry → Bytes → CreateImageInput
entry_input e name = record {
  name = if bytes_eq name [] then e.id else name;
  os_family = e.os_family;
  os_version = e.os_version;
  arch = e.arch;
  description = some e.description;
  media = e.media;
}

-- `catalog` is none where it does not load.
unfoldable pub install_from_catalog :
    Faults
    → ℕ
    → ℕ
    → Option Principal
    → Option CatalogInstallReq
    → Option (List Category)
    → Inventory
    → Inventory × ImageReply
unfolding lookup_entry bytes_eq
install_from_catalog fails now id p body catalog inv =
    if not (may_write p) then (inv, forbidden) else elim body [
      | none ↦ (inv, bad_json)
      | some req ↦ elim catalog [
        | none ↦ (inv, catalog_error)
        | some categories ↦ elim (lookup_entry categories req.entry_id) [
          | none ↦ (inv, unknown_entry)
          | some e ↦ create_reply fails (create_image fails now id inv (entry_input e req.name))
        ]
      ]
    ]
