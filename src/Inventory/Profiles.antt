-- ===== src/Inventory/Profiles.antt =====
-- The functions on profiles and answer-file templates of services/api/internal/store/store.go.
use smart_deploy_linux.Prelude.Table.{find, any, update, delete, count}
use smart_deploy_linux.Prelude.{
  ℕ, Bool, false, not, ◌&&◌, ◌||◌, Option, none, some, List, [], ◌∷◌, ◌++◌, Bytes, bytes_eq, codes,
  ltb, ◌==◌, if◌then◌else◌, is_none,
}
use smart_deploy_linux.Schema.{
  AuthCode, Job, db_error, not_found, in_use, fields_required, unknown_kind, Error, Result, ok, err,
}
use smart_deploy_linux.Inventory.{
  Machine, Image, Profile, Template, Inventory, Faults, insert_profile, select_profile, select_vars,
  update_profile, count_jobs, count_machines, delete_profile, upsert_template, delete_template,
  or_else, is_some_id, has_image, has_profile, is_non_terminal, allows,
}
use smart_deploy_linux.Inventory.Images.{or_object}

-- Profile, as the store returns it: the row with its image.
pub record ProfileInfo : Type 0 where
  pub profile : Profile
  pub image : Image

unfoldable pub get_profile : Faults → Inventory → ℕ → Result ProfileInfo
get_profile fails inv id =
    if fails select_profile
    then err db_error
    else elim (find (λ (p : Profile). p.id == id) inv.profiles) [
      | none ↦ err not_found
      | some p ↦ elim (find (λ (i : Image). i.id == p.image_id) inv.images) [
        | none ↦ err not_found
        | some i ↦ ok (record { profile = p; image = i })
      ]
    ]

unfoldable pub get_profile_vars : Faults → Inventory → ℕ → Result Bytes
get_profile_vars fails inv id =
    if fails select_vars
    then err db_error
    else elim (find (λ (p : Profile). p.id == id) inv.profiles) [
      | none ↦ err not_found
      | some p ↦ ok p.answer_file_vars
    ]

pub record CreateProfileInput : Type 0 where
  pub name : Bytes
  pub image_id : ℕ
  pub answer_file_vars : Bytes

abbrev pub new_profile : ℕ → ℕ → CreateProfileInput → Profile
new_profile now id input = record {
  id = id;
  name = input.name;
  image_id = input.image_id;
  answer_file_vars = or_object input.answer_file_vars;
  created_at = now;
}

unfoldable pub create_profile :
    Faults → ℕ → ℕ → Inventory → CreateProfileInput → Inventory × Result ℕ
unfolding bytes_eq
create_profile fails now id inv input =
    if bytes_eq input.name []
    then (inv, err fields_required)
    else if fails insert_profile
        || any (λ (p : Profile). bytes_eq p.name input.name) inv.profiles
        || not (has_image inv.images input.image_id)
    then (inv, err db_error)
    else (record inv { profiles = inv.profiles ++ new_profile now id input ∷ [] }, ok id)

pub record UpdateProfileInput : Type 0 where
  pub name : Option Bytes
  pub image_id : Option ℕ
  pub answer_file_vars : Option Bytes

abbrev pub amended : UpdateProfileInput → Profile → Profile
amended input p = record p {
  name = or_else input.name p.name;
  image_id = or_else input.image_id p.image_id;
  answer_file_vars = or_else input.answer_file_vars p.answer_file_vars;
}

abbrev pub is_named : Option Bytes → ℕ → Profile → Bool
is_named none id p = false
is_named (some name) id p = bytes_eq p.name name && not (p.id == id)

-- Without a field to set no statement runs.
unfoldable pub update_profile_row :
    Faults → Inventory → ℕ → UpdateProfileInput → Inventory × Option Error
update_profile_row fails inv id input =
    if is_none input.name && is_none input.image_id && is_none input.answer_file_vars
    then (inv, none)
    else if fails update_profile
    then (inv, some db_error)
    else if not (has_profile inv.profiles id)
    then (inv, some not_found)
    else if any (is_named input.name id) inv.profiles
        || not (allows (has_image inv.images) input.image_id)
    then (inv, some db_error)
    else (record inv { profiles = update (λ p. p.id == id) (amended input) inv.profiles }, none)

abbrev pub is_running_with : ℕ → Job → Bool
is_running_with id j = j.profile_id == id && is_non_terminal j.state

abbrev pub is_default : ℕ → Machine → Bool
is_default id m = is_some_id m.default_profile_id id

-- The foreign keys to the profile.
abbrev pub holds_profile : Inventory → ℕ → Bool
holds_profile inv id =
    any (λ (c : AuthCode). c.profile_id == id) inv.db.codes
    || any (λ (j : Job). j.profile_id == id) inv.db.jobs
    || any (is_default id) inv.machines

-- The templates of a profile go with it (ON DELETE CASCADE).
abbrev pub without_profile : ℕ → Inventory → Inventory
without_profile id inv = record inv {
  profiles = delete (λ p. p.id == id) inv.profiles;
  templates = delete (λ t. t.profile_id == id) inv.templates;
}

-- The DELETE, once both counts are 0.
unfoldable pub delete_unused_profile : Faults → Inventory → ℕ → Inventory × Option Error
delete_unused_profile fails inv id =
    if fails delete_profile
    then (inv, some db_error)
    else if not (has_profile inv.profiles id)
    then (inv, some not_found)
    else if holds_profile inv id
    then (inv, some db_error)
    else (without_profile id inv, none)

unfoldable pub delete_profile_row : Faults → Inventory → ℕ → Inventory × Option Error
unfolding delete_unused_profile
delete_profile_row fails inv id =
    let running = count (is_running_with id) inv.db.jobs in
    let defaults = count (is_default id) inv.machines in
    if fails count_jobs
    then (inv, some db_error)
    else if ltb 0 running
    then (inv, some (in_use running))
    else if fails count_machines
    then (inv, some db_error)
    else if ltb 0 defaults
    then (inv, some (in_use defaults))
    else delete_unused_profile fails inv id

abbrev pub kinds : List Bytes
kinds =
    codes "unattend"
    ∷ codes "autoinstall"
    ∷ codes "kickstart"
    ∷ codes "preseed"
    ∷ codes "ignition"
    ∷ codes "cloud-init"
    ∷ []

abbrev pub is_template : ℕ → Bytes → Template → Bool
is_template profile_id kind t = t.profile_id == profile_id && bytes_eq t.kind kind

abbrev pub new_template : ℕ → ℕ → ℕ → Bytes → Bytes → Template
new_template now id profile_id kind body = record {
  id = id;
  profile_id = profile_id;
  kind = kind;
  body = body;
  updated_at = now;
}

unfoldable pub upsert_profile_template :
    Faults → ℕ → ℕ → Inventory → ℕ → Bytes → Bytes → Inventory × Result ℕ
unfolding any bytes_eq
upsert_profile_template fails now id inv profile_id kind body =
    if not (any (bytes_eq kind) kinds)
    then (inv, err unknown_kind)
    else if fails upsert_template || not (has_profile inv.profiles profile_id)
    then (inv, err db_error)
    else elim (find (is_template profile_id kind) inv.templates) [
      | some t ↦ (
        record inv {
          templates =
              update (is_template profile_id kind) (λ u. record u { body = body; updated_at = now })
                inv.templates;
        },
        ok t.id,
      )
      | none ↦ (
        record inv { templates = inv.templates ++ new_template now id profile_id kind body ∷ [] },
        ok id,
      )
    ]

unfoldable pub delete_profile_template : Faults → Inventory → ℕ → Bytes → Inventory × Option Error
delete_profile_template fails inv profile_id kind =
    if fails delete_template
    then (inv, some db_error)
    else if any (is_template profile_id kind) inv.templates
    then (record inv { templates = delete (is_template profile_id kind) inv.templates }, none)
    else (inv, some not_found)
