-- ===== src/Inventory/ProfileHandlers.antt =====
-- The handlers on profiles and their templates of services/api/cmd/api/operator.go. The decoded body
-- comes from outside.
use smart_deploy_linux.Prelude.{ℕ, not, Option, none, some, [], Bytes, if◌then◌else◌}
use smart_deploy_linux.Schema
use smart_deploy_linux.Schema.{Error, Result, ok, err}
use smart_deploy_linux.Access.{Principal}
use smart_deploy_linux.Inventory.{Inventory, Faults, or_else}
use smart_deploy_linux.Inventory.ImageHandlers.{may_write, to_option}
use smart_deploy_linux.Inventory.Profiles.{
  ProfileInfo, CreateProfileInput, UpdateProfileInput, get_profile, create_profile,
  update_profile_row, delete_profile_row, upsert_profile_template, delete_profile_template,
}

-- `created` and `updated` have the profile as GetProfile reads it back, none where that fails.
pub data ProfileReply : Type 0 where
  forbidden bad_id bad_json bad_image_id not_found create_error update_error template_error :
      ProfileReply
  conflict : Error → ProfileReply
  created updated : Option ProfileInfo → ProfileReply
  template : ℕ → Bytes → ProfileReply
  no_content : ProfileReply

-- `image_id` is none where it does not parse; the variables are as they are marshalled again.
pub record CreateProfileReq : Type 0 where
  pub name : Bytes
  pub image_id : Option ℕ
  pub answer_file_vars : Option Bytes

abbrev pub create_input : CreateProfileReq → ℕ → CreateProfileInput
create_input req image_id = record {
  name = req.name;
  image_id = image_id;
  answer_file_vars = or_else req.answer_file_vars [];
}

abbrev pub create_reply : Faults → Inventory × Result ℕ → Inventory × ProfileReply
create_reply fails (inv, err _) = (inv, create_error)
create_reply fails (inv, ok id) = (inv, created (to_option (get_profile fails inv id)))

unfoldable pub create_profile_handler :
    Faults
    → ℕ
    → ℕ
    → Option Principal
    → Option CreateProfileReq
    → Inventory
    → Inventory × ProfileReply
create_profile_handler fails now id p body inv =
    if not (may_write p) then (inv, forbidden) else elim body [
      | none ↦ (inv, bad_json)
      | some req ↦ elim req.image_id [
        | none ↦ (inv, bad_image_id)
        | some image_id ↦
            create_reply fails (create_profile fails now id inv (create_input req image_id))
      ]
    ]

-- `image_id` is none where the field is left out, and some none where it does not parse.
pub record UpdateProfileReq : Type 0 where
  pub name : Option Bytes
  pub image_id : Option (Option ℕ)
  pub answer_file_vars : Option Bytes

abbrev pub image_field : Option (Option ℕ) → Option (Option ℕ)
image_field none = some none
image_field (some none) = none
image_field (some (some id)) = some (some id)

abbrev pub update_input : UpdateProfileReq → Option ℕ → UpdateProfileInput
update_input req image_id = record {
  name = req.name;
  image_id = image_id;
  answer_file_vars = req.answer_file_vars;
}

abbrev pub update_reply : Faults → ℕ → Inventory × Option Error → Inventory × ProfileReply
update_reply fails id (inv, none) = (inv, updated (to_option (get_profile fails inv id)))
update_reply fails id (inv, some Schema.not_found) = (inv, not_found)
update_reply fails id (inv, some _) = (inv, update_error)

unfoldable pub update_profile_handler :
    Faults
    → Option Principal
    → Option ℕ
    → Option UpdateProfileReq
    → Inventory
    → Inventory × ProfileReply
update_profile_handler fails p id body inv =
    if not (may_write p) then (inv, forbidden) else elim id [
      | none ↦ (inv, bad_id)
      | some n ↦ elim body [
        | none ↦ (inv, bad_json)
        | some req ↦ elim (image_field req.image_id) [
          | none ↦ (inv, bad_image_id)
          | some image_id ↦
              update_reply fails n (update_profile_row fails inv n (update_input req image_id))
        ]
      ]
    ]

abbrev pub delete_reply : Inventory × Option Error → Inventory × ProfileReply
delete_reply (inv, none) = (inv, no_content)
delete_reply (inv, some Schema.not_found) = (inv, not_found)
delete_reply (inv, some e) = (inv, conflict e)

unfoldable pub delete_profile_handler :
    Faults → Option Principal → Option ℕ → Inventory → Inventory × ProfileReply
delete_profile_handler fails p id inv =
    if not (may_write p)
    then (inv, forbidden)
    else elim id [ none ↦ (inv, bad_id) | some n ↦ delete_reply (delete_profile_row fails inv n) ]

pub record UpsertTemplateReq : Type 0 where
  pub kind : Bytes
  pub body : Bytes

abbrev pub template_reply : Bytes → Inventory × Result ℕ → Inventory × ProfileReply
template_reply kind (inv, err _) = (inv, template_error)
template_reply kind (inv, ok id) = (inv, template id kind)

unfoldable pub upsert_template_handler :
    Faults
    → ℕ
    → ℕ
    → Option Principal
    → Option ℕ
    → Option UpsertTemplateReq
    → Inventory
    → Inventory × ProfileReply
upsert_template_handler fails now id p profile_id body inv =
    if not (may_write p) then (inv, forbidden) else elim profile_id [
      | none ↦ (inv, bad_id)
      | some n ↦ elim body [
        | none ↦ (inv, bad_json)
        | some req ↦
            template_reply req.kind (upsert_profile_template fails now id inv n req.kind req.body)
      ]
    ]

abbrev pub template_deleted : Inventory × Option Error → Inventory × ProfileReply
template_deleted (inv, none) = (inv, no_content)
template_deleted (inv, some Schema.not_found) = (inv, not_found)
template_deleted (inv, some _) = (inv, template_error)

unfoldable pub delete_template_handler :
    Faults → Option Principal → Option ℕ → Bytes → Inventory → Inventory × ProfileReply
delete_template_handler fails p profile_id kind inv =
    if not (may_write p) then (inv, forbidden) else elim profile_id [
      | none ↦ (inv, bad_id)
      | some n ↦ template_deleted (delete_profile_template fails inv n kind)
    ]
