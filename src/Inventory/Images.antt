-- ===== src/Inventory/Images.antt =====
-- The functions on images and their versions of services/api/internal/store/store.go.
use smart_deploy_linux.Prelude.Table.{find, any, update, delete, count, select}
use smart_deploy_linux.Prelude.{
  ℕ, Bool, false, not, ◌&&◌, ◌||◌, Option, none, some, List, [], ◌∷◌, ◌++◌, Bytes, bytes_eq, codes,
  ltb, ◌==◌, if◌then◌else◌, is_none,
}
use smart_deploy_linux.Schema.{
  AuthCode, Job, db_error, not_found, in_use, fields_required, Error, Result, ok, err,
}
use smart_deploy_linux.Packs.{Blob}
use smart_deploy_linux.Drivers.Sort.{stable_sort}
use smart_deploy_linux.Inventory.{
  Image, ImageVersion, Profile, Inventory, Faults, insert_image, select_image, update_image,
  count_profiles, delete_image, insert_version, list_versions, or_else, is_some_id, has_image,
  has_blob,
}

-- Image, as the store returns it: the row with the number of its versions.
pub record ImageInfo : Type 0 where
  pub image : Image
  pub versions_count : ℕ

-- An empty document is read as an empty object.
abbrev pub or_object : Bytes → Bytes
or_object media = if bytes_eq media [] then codes "{}" else media

abbrev pub image_info : Inventory → Image → ImageInfo
image_info inv i = record {
  image = record i { media = or_object i.media };
  versions_count = count (λ (v : ImageVersion). v.image_id == i.id) inv.versions;
}

unfoldable pub get_image : Faults → Inventory → ℕ → Result ImageInfo
unfolding bytes_eq
get_image fails inv id =
    if fails select_image
    then err db_error
    else elim (find (λ (i : Image). i.id == id) inv.images) [
      | none ↦ err not_found
      | some i ↦ ok (image_info inv i)
    ]

pub record CreateImageInput : Type 0 where
  pub name : Bytes
  pub os_family : Bytes
  pub os_version : Bytes
  pub arch : Bytes
  pub description : Option Bytes
  pub media : Bytes

abbrev pub new_image : ℕ → ℕ → CreateImageInput → Image
new_image now id input = record {
  id = id;
  name = input.name;
  os_family = input.os_family;
  os_version = input.os_version;
  arch = input.arch;
  description = input.description;
  media = or_object input.media;
  created_at = now;
}

abbrev pub is_incomplete : CreateImageInput → Bool
is_incomplete input =
    bytes_eq input.name []
    || bytes_eq input.os_family []
    || bytes_eq input.os_version []
    || bytes_eq input.arch []

-- The name is UNIQUE; the CHECKs on os_family and arch.
abbrev pub refuses_image : Inventory → CreateImageInput → Bool
refuses_image inv input =
    any (λ (i : Image). bytes_eq i.name input.name) inv.images
    || not (bytes_eq input.os_family (codes "windows") || bytes_eq input.os_family (codes "linux"))
    || not (bytes_eq input.arch (codes "amd64") || bytes_eq input.arch (codes "arm64"))

unfoldable pub create_image : Faults → ℕ → ℕ → Inventory → CreateImageInput → Inventory × Result ℕ
unfolding bytes_eq
create_image fails now id inv input =
    if is_incomplete input
    then (inv, err fields_required)
    else if fails insert_image || refuses_image inv input
    then (inv, err db_error)
    else (record inv { images = inv.images ++ new_image now id input ∷ [] }, ok id)

pub record UpdateImageInput : Type 0 where
  pub name : Option Bytes
  pub description : Option Bytes
  pub media : Option Bytes

abbrev pub edited : UpdateImageInput → Image → Image
edited input i = record i {
  name = or_else input.name i.name;
  description = elim input.description [ none ↦ i.description | some d ↦ some d ];
  media = or_else input.media i.media;
}

abbrev pub is_named : Option Bytes → ℕ → Image → Bool
is_named none id i = false
is_named (some name) id i = bytes_eq i.name name && not (i.id == id)

-- Without a field to set no statement runs.
unfoldable pub update_image_row :
    Faults → Inventory → ℕ → UpdateImageInput → Inventory × Option Error
unfolding bytes_eq
update_image_row fails inv id input =
    if is_none input.name && is_none input.description && is_none input.media
    then (inv, none)
    else if fails update_image
    then (inv, some db_error)
    else if not (has_image inv.images id)
    then (inv, some not_found)
    else if any (is_named input.name id) inv.images
    then (inv, some db_error)
    else (record inv { images = update (λ i. i.id == id) (edited input) inv.images }, none)

-- Codes and jobs that capture to the image, and the profiles of it.
abbrev pub holds_image : Inventory → ℕ → Bool
holds_image inv id =
    any (λ (c : AuthCode). is_some_id c.capture_image_id id) inv.db.codes
    || any (λ (j : Job). is_some_id j.capture_image_id id) inv.db.jobs
    || any (λ (p : Profile). p.image_id == id) inv.profiles

-- The versions of an image go with it (ON DELETE CASCADE), the blobs do not.
abbrev pub without_image : ℕ → Inventory → Inventory
without_image id inv = record inv {
  images = delete (λ i. i.id == id) inv.images;
  versions = delete (λ v. v.image_id == id) inv.versions;
}

unfoldable pub delete_image_row : Faults → Inventory → ℕ → Inventory × Option Error
delete_image_row fails inv id =
    let users = count (λ (p : Profile). p.image_id == id) inv.profiles in
    if fails count_profiles
    then (inv, some db_error)
    else if ltb 0 users
    then (inv, some (in_use users))
    else if fails delete_image
    then (inv, some db_error)
    else if not (has_image inv.images id)
    then (inv, some not_found)
    else if holds_image inv id
    then (inv, some db_error)
    else (without_image id inv, none)

abbrev pub new_image_version : ℕ → ℕ → ℕ → ℕ → Bytes → ImageVersion
new_image_version now id image_id blob_id tag = record {
  id = id;
  image_id = image_id;
  version_tag = tag;
  blob_id = blob_id;
  created_at = now;
}

-- (image_id, version_tag) is UNIQUE; both ids are references.
abbrev pub refuses_version : Inventory → ℕ → ℕ → Bytes → Bool
refuses_version inv image_id blob_id tag =
    any (λ (v : ImageVersion). v.image_id == image_id && bytes_eq v.version_tag tag) inv.versions
    || not (has_image inv.images image_id)
    || not (has_blob inv.blobs blob_id)

unfoldable pub create_image_version :
    Faults → ℕ → ℕ → Inventory → ℕ → ℕ → Bytes → Inventory × Result ℕ
create_image_version fails now id inv image_id blob_id tag =
    if fails insert_version || refuses_version inv image_id blob_id tag
    then (inv, err db_error)
    else (
      record inv { versions = inv.versions ++ new_image_version now id image_id blob_id tag ∷ [] },
      ok id,
    )

-- ImageVersion, as the store returns it: the row with its blob.
pub record VersionInfo : Type 0 where
  pub version : ImageVersion
  pub blob : Blob

unfoldable pub join_blobs : List Blob → List ImageVersion → List VersionInfo
join_blobs blobs [] = []
join_blobs blobs (v ∷ vs) =
    let rest = join_blobs blobs vs in
    elim (find (λ (b : Blob). b.id == v.blob_id) blobs) [
      | none ↦ rest
      | some b ↦ record { version = v; blob = b } ∷ rest
    ]

abbrev pub is_newer : ImageVersion → ImageVersion → Bool
is_newer v w = ltb w.created_at v.created_at

unfoldable pub list_image_versions : Faults → Inventory → ℕ → Result (List VersionInfo)
unfolding join_blobs stable_sort
list_image_versions fails inv image_id =
    if fails list_versions
    then err db_error
    else ok (
        join_blobs inv.blobs (
          stable_sort is_newer
            (select (λ (v : ImageVersion). v.image_id == image_id) inv.versions)))
