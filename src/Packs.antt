-- ===== src/Packs.antt =====
-- Blobs and driver packs in services/api/internal/store/store.go: CreateBlob, GetBlobBySHA,
-- CreateDriverPackVersion, ListDriverPacks and DeleteDriverPackVersion, with the tables of
-- services/api/internal/store/migrations/0001_init.sql.
pub mod Match
pub mod Handlers
pub mod Ingest
pub mod Stored
pub mod Registers
pub mod Address
pub mod Grouped
pub mod Finds
use smart_deploy_linux.Prelude.Table.{find, select, any, delete}
use smart_deploy_linux.Prelude.{
  ℕ, Bool, true, false, not, ◌&&◌, ◌||◌, Option, none, some, String, str_eq, List, [], ◌∷◌, ◌++◌,
  map, Bytes, bytes_eq, ltb, ◌==◌, if◌then◌else◌, is_none,
}
use smart_deploy_linux.Schema.{db_error, not_found, Error, Result, ok, err}
use smart_deploy_linux.Drivers.{Rule}
use smart_deploy_linux.Drivers.Sort.{stable_sort}

pub record Blob : Type 0 where
  pub id : ℕ
  pub sha256 : Bytes
  pub size_bytes : ℕ
  pub s3_bucket : Bytes
  pub s3_key : Bytes
  pub created_at : ℕ

-- A row of driver_packs.
pub record Pack : Type 0 where
  pub id : ℕ
  pub vendor : Bytes
  pub model : Bytes
  pub os_family : Bytes
  pub os_version : Bytes

-- A row of driver_pack_versions.
pub record Version : Type 0 where
  pub id : ℕ
  pub pack_id : ℕ
  pub version_tag : Bytes
  pub blob_id : ℕ
  pub created_at : ℕ

-- A row of driver_match_rules.
pub record VersionRule : Type 0 where
  pub version_id : ℕ
  pub rule : Rule

pub record Catalog : Type 0 where
  pub blobs : List Blob
  pub packs : List Pack
  pub versions : List Version
  pub rules : List VersionRule

pub data Query : Type 0 where
  upsert_blob select_blob begin upsert_pack insert_version insert_rule commit : Query
  list_packs match_packs delete_version : Query

abbrev pub Faults : Type 0
Faults = Query → Bool

abbrev pub has_sha : Bytes → Blob → Bool
has_sha sha b = bytes_eq b.sha256 sha

abbrev pub new_blob : ℕ → ℕ → Bytes → ℕ → Bytes → Bytes → Blob
new_blob now id sha size bucket key = record {
  id = id;
  sha256 = sha;
  size_bytes = size;
  s3_bucket = bucket;
  s3_key = key;
  created_at = now;
}

-- ON CONFLICT (sha256): a blob of that digest is returned as it is.
unfoldable pub create_blob :
    Faults → ℕ → ℕ → Catalog → Bytes → ℕ → Bytes → Bytes → Catalog × Result Blob
create_blob fails now id cat sha size bucket key =
    let b = new_blob now id sha size bucket key in
    if fails upsert_blob then (cat, err db_error) else elim (find (has_sha sha) cat.blobs) [
      | some old ↦ (cat, ok old)
      | none ↦ (record cat { blobs = cat.blobs ++ b ∷ [] }, ok b)
    ]

unfoldable pub get_blob_by_sha : Faults → Catalog → Bytes → Result Blob
get_blob_by_sha fails cat sha =
    if fails select_blob
    then err db_error
    else elim (find (has_sha sha) cat.blobs) [ none ↦ err not_found | some b ↦ ok b ]

pub record PackInput : Type 0 where
  pub vendor : Bytes
  pub model : Bytes
  pub os_family : Bytes
  pub os_version : Bytes
  pub version_tag : Bytes
  pub blob_id : ℕ
  pub rules : List Rule

abbrev pub is_pack : PackInput → Pack → Bool
is_pack input p =
    bytes_eq p.vendor input.vendor
    && bytes_eq p.model input.model
    && bytes_eq p.os_family input.os_family
    && bytes_eq p.os_version input.os_version

abbrev pub new_pack : ℕ → PackInput → Pack
new_pack id input = record {
  id = id;
  vendor = input.vendor;
  model = input.model;
  os_family = input.os_family;
  os_version = input.os_version;
}

-- The first statement: the packs with the one of the input, and its id.
unfoldable pub upsert : ℕ → PackInput → List Pack → List Pack × ℕ
upsert id input packs = elim (find (is_pack input) packs) [
  | some p ↦ (packs, p.id)
  | none ↦ (packs ++ new_pack id input ∷ [], id)
]

abbrev pub new_version : ℕ → ℕ → ℕ → PackInput → Version
new_version now id pack_id input = record {
  id = id;
  pack_id = pack_id;
  version_tag = input.version_tag;
  blob_id = input.blob_id;
  created_at = now;
}

abbrev pub new_rules : ℕ → PackInput → List VersionRule
new_rules version_id input = map (λ r. record { version_id = version_id; rule = r }) input.rules

-- (pack_id, version_tag) is UNIQUE, and blob_id refers to a blob.
abbrev pub is_refused : ℕ → PackInput → Catalog → Bool
is_refused pack_id input cat =
    any (λ (v : Version). v.pack_id == pack_id && bytes_eq v.version_tag input.version_tag)
      cat.versions
    || not (any (λ (b : Blob). b.id == input.blob_id) cat.blobs)

abbrev pub is_nil : List Rule → Bool
is_nil [] = true
is_nil (r ∷ rs) = false

-- One transaction: an error leaves the catalog as it was. The ids are those of a new pack and of the
-- version.
unfoldable pub create_driver_pack_version :
    Faults → ℕ → ℕ → ℕ → Catalog → PackInput → Catalog × Result ℕ
unfolding upsert
create_driver_pack_version fails now new_pack_id id cat input =
    let (packs', pack_id) = upsert new_pack_id input cat.packs in
    if fails begin || fails upsert_pack
    then (cat, err db_error)
    else if fails insert_version || is_refused pack_id input cat
    then (cat, err db_error)
    else if (fails insert_rule && not (is_nil input.rules)) || fails commit
    then (cat, err db_error)
    else (
      record cat {
        packs = packs';
        versions = cat.versions ++ new_version now id pack_id input ∷ [];
        rules = cat.rules ++ new_rules id input;
      },
      ok id,
    )

-- The rules of a version go with it (ON DELETE CASCADE).
unfoldable pub delete_driver_pack_version : Faults → Catalog → ℕ → Catalog × Option Error
delete_driver_pack_version fails cat id =
    if fails delete_version
    then (cat, some db_error)
    else if any (λ (v : Version). v.id == id) cat.versions
    then (
      record cat {
        versions = delete (λ v. v.id == id) cat.versions;
        rules = delete (λ r. r.version_id == id) cat.rules;
      },
      none,
    )
    else (cat, some not_found)
