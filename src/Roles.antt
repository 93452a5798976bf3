-- ===== src/Roles.antt =====
-- The roles of users: GrantRole, RevokeRole and CountOtherAdmins of services/api/internal/store/store.go,
-- and grantUserRole and revokeUserRole of services/api/cmd/api/users.go. Permissions, parsed ids and
-- decoded bodies come from outside.
pub mod Admins
use smart_deploy_linux.Prelude.Table.{any, count, delete}
use smart_deploy_linux.Prelude.{
  ℕ, Bool, true, false, not, ◌&&◌, ◌||◌, Option, none, some, String, str_eq, List, [], ◌∷◌, ◌++◌,
  ◌==◌, if◌then◌else◌,
}
use smart_deploy_linux.Schema.{Error, db_error, not_found, Result, ok, err}

-- A row of user_roles, with the name of the role.
pub record UserRole : Type 0 where
  pub user_id : ℕ
  pub role : String

pub record Tables : Type 0 where
  pub roles : List String
  pub user_roles : List UserRole

pub data Statement : Type 0 where
  insert_role role_exists delete_role count_admins : Statement

abbrev pub Faults : Type 0
Faults = Statement → Bool

abbrev pub is_grant : ℕ → String → UserRole → Bool
is_grant user role ur = ur.user_id == user && str_eq ur.role role

-- ON CONFLICT DO NOTHING; no row is inserted for an unknown role.
unfoldable pub grant_role : Faults → Tables → ℕ → String → Tables × Option Error
grant_role fails db user role =
    let known = any (λ name. str_eq name role) db.roles in
    let held = any (is_grant user role) db.user_roles in
    if fails insert_role
    then (db, some db_error)
    else if known && not held
    then (
      record db { user_roles = db.user_roles ++ record { user_id = user; role = role } ∷ [] },
      none,
    )
    else if fails role_exists
    then (db, some db_error)
    else if known
    then (db, none)
    else (db, some not_found)

unfoldable pub revoke_role : Faults → Tables → ℕ → String → Tables × Option Error
revoke_role fails db user role =
    if fails delete_role
    then (db, some db_error)
    else (record db { user_roles = delete (is_grant user role) db.user_roles }, none)

abbrev pub is_other_admin : ℕ → UserRole → Bool
is_other_admin user ur = str_eq ur.role "admin" && not (ur.user_id == user)

unfoldable pub count_other_admins : Faults → Tables → ℕ → Result ℕ
count_other_admins fails db user =
    if fails count_admins then err db_error else ok (count (is_other_admin user) db.user_roles)

pub data Reply : Type 0 where
  forbidden bad_id role_required unknown_role grant_error admin_count_error : Reply
  last_admin revoke_error no_content : Reply

-- `body` is the role of a body that decodes.
unfoldable pub grant_user_role : Faults → Tables → Bool → Option ℕ → Option String → Tables × Reply
unfolding grant_role
grant_user_role fails db has_perm id body = if not has_perm then (db, forbidden) else elim id [
  | none ↦ (db, bad_id)
  | some user ↦ elim body [
    | none ↦ (db, role_required)
    | some role ↦
        if str_eq role ""
        then (db, role_required)
        else (let (db', error) = grant_role fails db user role in
            elim error [
              | none ↦ (db', no_content)
              | some not_found ↦ (db', unknown_role)
              | some _ ↦ (db', grant_error)
            ])
  ]
]

-- The first half of revokeUserRole: the guard of the last admin. `none` lets it go on.
unfoldable pub guard_last_admin : Faults → Tables → ℕ → String → Option Reply
unfolding count_other_admins
guard_last_admin fails db user role =
    if str_eq role "admin"
    then elim (count_other_admins fails db user) [
      | err _ ↦ some admin_count_error
      | ok others ↦ if others == 0 then some last_admin else none
    ]
    else none

unfoldable pub finish_revoke : Faults → Tables → ℕ → String → Tables × Reply
unfolding revoke_role
finish_revoke fails db user role =
    let (db', error) = revoke_role fails db user role in
    elim error [ some _ ↦ (db', revoke_error) | none ↦ (db', no_content) ]

unfoldable pub revoke_user_role : Faults → Tables → Bool → Option ℕ → String → Tables × Reply
unfolding guard_last_admin finish_revoke
revoke_user_role fails db has_perm id role = if not has_perm then (db, forbidden) else elim id [
  | none ↦ (db, bad_id)
  | some user ↦ elim (guard_last_admin fails db user role) [
    | some reply ↦ (db, reply)
    | none ↦ finish_revoke fails db user role
  ]
]
