-- ===== src/Inventory.antt =====
-- Machines, images, profiles and templates in services/api/internal/store/store.go, with the tables of
-- services/api/internal/store/migrations. A jsonb column holds the text that was written to it.
pub mod Machines
pub mod Images
pub mod Profiles
pub mod MachineHandlers
pub mod ImageHandlers
pub mod VersionHandlers
pub mod ProfileHandlers
pub mod Sites
pub mod Bundle
pub mod MenuDeploy
pub mod Deletable
use smart_deploy_linux.Prelude.Table.{any}
use smart_deploy_linux.Prelude.{
  ℕ, Bool, true, false, not, ◌&&◌, ◌||◌, Option, none, some, String, List, Bytes, bytes_eq, ◌==◌,
}
use smart_deploy_linux.Schema.{
  State, pending, bootstrapped, imaging, post_install, state_eq, AuthCode, Job, Db,
}
use smart_deploy_linux.Packs.{Blob}
use smart_deploy_linux.Wake.{WakeRequest}

pub record Machine : Type 0 where
  pub id : ℕ
  pub asset_tag : Option Bytes
  pub mac_primary : Option Bytes
  pub uuid_smbios : Option ℕ
  pub vendor : Option Bytes
  pub model : Option Bytes
  pub default_profile_id : Option ℕ
  pub attributes : Bytes
  pub created_at : ℕ

pub record Image : Type 0 where
  pub id : ℕ
  pub name : Bytes
  pub os_family : Bytes
  pub os_version : Bytes
  pub arch : Bytes
  pub description : Option Bytes
  pub media : Bytes
  pub created_at : ℕ

-- A row of image_versions.
pub record ImageVersion : Type 0 where
  pub id : ℕ
  pub image_id : ℕ
  pub version_tag : Bytes
  pub blob_id : ℕ
  pub created_at : ℕ

-- A row of deployment_profiles.
pub record Profile : Type 0 where
  pub id : ℕ
  pub name : Bytes
  pub image_id : ℕ
  pub answer_file_vars : Bytes
  pub created_at : ℕ

-- A row of answer_file_templates.
pub record Template : Type 0 where
  pub id : ℕ
  pub profile_id : ℕ
  pub kind : Bytes
  pub body : Bytes
  pub updated_at : ℕ

pub record Inventory : Type 0 where
  pub machines : List Machine
  pub images : List Image
  pub versions : List ImageVersion
  pub profiles : List Profile
  pub templates : List Template
  pub blobs : List Blob
  pub wakes : List WakeRequest
  pub db : Db

-- Which of the statements fail.
pub data Query : Type 0 where
  insert_machine select_machine update_machine list_machines record_inventory count_jobs
        delete_machine :
      Query
  insert_image select_image update_image count_profiles delete_image insert_version list_versions :
      Query
  insert_profile select_profile select_vars update_profile count_machines delete_profile : Query
  upsert_template delete_template : Query
  select_active_job select_bundle select_newest_blob : Query

abbrev pub Faults : Type 0
Faults = Query → Bool

-- COALESCE.
abbrev pub or_else {ℓ} : {A : Type ℓ} → Option A → A → A
or_else none a = a
or_else (some b) a = b

abbrev pub or_option {ℓ} : {A : Type ℓ} → Option A → Option A → Option A
or_option none o = o
or_option (some a) o = some a

abbrev pub is_some_id : Option ℕ → ℕ → Bool
is_some_id none id = false
is_some_id (some n) id = n == id

abbrev pub has_machine : List Machine → ℕ → Bool
has_machine machines id = any (λ m. m.id == id) machines

abbrev pub has_image : List Image → ℕ → Bool
has_image images id = any (λ i. i.id == id) images

abbrev pub has_profile : List Profile → ℕ → Bool
has_profile profiles id = any (λ p. p.id == id) profiles

abbrev pub has_blob : List Blob → ℕ → Bool
has_blob blobs id = any (λ b. b.id == id) blobs

-- A reference that may be NULL.
abbrev pub allows : (ℕ → Bool) → Option ℕ → Bool
allows has none = true
allows has (some id) = has id

-- state IN ('pending','bootstrapped','imaging','post_install')
abbrev pub is_non_terminal : State → Bool
is_non_terminal s =
    state_eq s pending || state_eq s bootstrapped || state_eq s imaging || state_eq s post_install
