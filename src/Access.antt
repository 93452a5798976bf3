-- ===== src/Access.antt =====
-- Accounts, permissions and API tokens: the rows, services/api/internal/store/apitokens.go, and the
-- principal of services/api/internal/auth/auth.go.
pub mod Owner
pub mod Minted
pub mod Revoked
pub mod Login
pub mod Handlers
use smart_deploy_linux.Prelude.Table.{find, select, update, any}
use smart_deploy_linux.Prelude.{
  ℕ, Bool, true, false, ◌&&◌, ◌||◌, Option, none, some, String, str_eq, List, [], ◌∷◌, ◌++◌, map,
  Bytes, bytes_eq, codes, ltb, ◌==◌, if◌then◌else◌, is_none,
}
use smart_deploy_linux.Schema.{db_error, Result, ok, err}
use smart_deploy_linux.Roles.{UserRole}
use smart_deploy_linux.Drivers.Sort.{stable_sort}

-- A row of users; `email` is a citext, folded to lower case.
pub record User : Type 0 where
  pub id : ℕ
  pub email : Bytes
  pub oidc_subject : Option Bytes

-- A row of role_permissions, with the name of the role.
pub record RolePermission : Type 0 where
  pub role : String
  pub permission : String

pub record ApiToken : Type 0 where
  pub id : ℕ
  pub name : Bytes
  pub token_hash : Bytes
  pub prefix : Bytes
  pub user_id : ℕ
  pub created_at : ℕ
  pub expires_at : Option ℕ
  pub last_used_at : Option ℕ
  pub revoked_at : Option ℕ
  pub scope_roles : List Bytes

pub record Accounts : Type 0 where
  pub users : List User
  pub user_roles : List UserRole
  pub role_permissions : List RolePermission
  pub tokens : List ApiToken

pub data Query : Type 0 where
  insert_token list_tokens revoke_token authenticate load_permissions load_roles : Query
  update_user insert_user : Query

abbrev pub Faults : Type 0
Faults = Query → Bool

pub record Principal : Type 0 where
  pub user_id : ℕ
  pub email : Bytes
  pub sub : Bytes
  pub perms : List String

-- HasPerm: no principal means that sign-in is not configured, and everything is allowed.
unfoldable pub has_perm : Option Principal → String → Bool
unfolding any
has_perm none perm = true
has_perm (some p) perm = any (λ q. str_eq q "*") p.perms || any (λ q. str_eq q perm) p.perms

-- uuid.Nil is 0.
abbrev pub user_id : Option Principal → ℕ
user_id none = 0
user_id (some p) = p.user_id

pub record CreateApiTokenInput : Type 0 where
  pub name : Bytes
  pub user_id : ℕ
  pub token_hash : Bytes
  pub token_prefix : Bytes
  pub expires_at : Option ℕ
  pub scope_roles : List Bytes

abbrev pub new_token : ℕ → ℕ → CreateApiTokenInput → ApiToken
new_token now id input = record {
  id = id;
  name = input.name;
  token_hash = input.token_hash;
  prefix = input.token_prefix;
  user_id = input.user_id;
  created_at = now;
  expires_at = input.expires_at;
  last_used_at = none;
  revoked_at = none;
  scope_roles = input.scope_roles;
}

-- CreateAPIToken; `token_hash` is UNIQUE.
unfoldable pub create_api_token :
    Faults → ℕ → ℕ → Accounts → CreateApiTokenInput → Accounts × Result ApiToken
create_api_token fails now id db input =
    let taken = find (λ (t : ApiToken). bytes_eq t.token_hash input.token_hash) db.tokens in
    let t = new_token now id input in
    if fails insert_token
    then (db, err db_error)
    else if is_none taken
    then (record db { tokens = db.tokens ++ t ∷ [] }, ok t)
    else (db, err db_error)

abbrev pub is_newer : ApiToken → ApiToken → Bool
is_newer t u = ltb u.created_at t.created_at

unfoldable pub list_api_tokens : Faults → Accounts → ℕ → Result (List ApiToken)
unfolding stable_sort select
list_api_tokens fails db user =
    if fails list_tokens
    then err db_error
    else ok (stable_sort is_newer (select (λ t. t.user_id == user) db.tokens))

abbrev pub is_revocable : ℕ → ℕ → ApiToken → Bool
is_revocable id user t = t.id == id && t.user_id == user && is_none t.revoked_at

abbrev pub revoke : ℕ → ApiToken → ApiToken
revoke now t = record t { revoked_at = some now }

unfoldable pub revoke_api_token : Faults → ℕ → Accounts → ℕ → ℕ → Accounts × Result Bool
revoke_api_token fails now db id user = if fails revoke_token then (db, err db_error) else (
  record db { tokens = update (is_revocable id user) (revoke now) db.tokens },
  ok (any (is_revocable id user) db.tokens),
)

abbrev pub is_unexpired : ℕ → Option ℕ → Bool
is_unexpired now none = true
is_unexpired now (some at) = ltb now at

abbrev pub is_live : ℕ → Bytes → ApiToken → Bool
is_live now hash t =
    bytes_eq t.token_hash hash && is_none t.revoked_at && is_unexpired now t.expires_at

abbrev pub stamp : ℕ → ApiToken → ApiToken
stamp now t = record t { last_used_at = some now }

-- The owner and the scope; `none` for a token that is not live.
unfoldable pub authenticate_api_token :
    Faults → ℕ → Accounts → Bytes → Accounts × Result (Option (ℕ × List Bytes))
authenticate_api_token fails now db hash = if fails authenticate then (db, err db_error) else (
  record db { tokens = update (is_live now hash) (stamp now) db.tokens },
  elim (find (is_live now hash) db.tokens) [
    | none ↦ ok none
    | some t ↦ ok (some (t.user_id, t.scope_roles))
  ],
)

-- The join of user_roles and role_permissions.
unfoldable pub perms_via : List RolePermission → List UserRole → List String
unfolding select
perms_via rps [] = []
perms_via rps (ur ∷ urs) =
    map (λ rp. rp.permission) (select (λ rp. str_eq rp.role ur.role) rps) ++ perms_via rps urs

unfoldable pub load_user_permissions : Faults → Accounts → ℕ → Result (List String)
unfolding perms_via
load_user_permissions fails db user =
    if fails load_permissions
    then err db_error
    else ok (perms_via db.role_permissions (select (λ ur. ur.user_id == user) db.user_roles))

-- r.name = ANY(scope)
abbrev pub is_in_scope : List Bytes → UserRole → Bool
is_in_scope scope ur = any (λ name. bytes_eq name (codes ur.role)) scope

unfoldable pub load_user_permissions_scoped :
    Faults → Accounts → ℕ → List Bytes → Result (List String)
unfolding perms_via
load_user_permissions_scoped fails db user scope =
    let held = select (λ ur. ur.user_id == user && is_in_scope scope ur) db.user_roles in
    if fails load_permissions then err db_error else ok (perms_via db.role_permissions held)

unfoldable pub list_user_role_names : Faults → Accounts → ℕ → Result (List Bytes)
list_user_role_names fails db user =
    if fails load_roles
    then err db_error
    else ok (map (λ ur. codes ur.role) (select (λ ur. ur.user_id == user) db.user_roles))
