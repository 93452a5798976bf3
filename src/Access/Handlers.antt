-- ===== src/Access/Handlers.antt =====
-- The handlers of services/api/cmd/api/apitokens.go. The decoded body and the random bytes come from
-- outside.
use smart_deploy_linux.Prelude.Duration.{times, hour, is_negative, add_duration}
use smart_deploy_linux.Prelude.Table.{any}
use smart_deploy_linux.Prelude.{
  ℕ, Bool, true, false, not, ◌||◌, Option, none, some, String, List, [], ◌∷◌, ◌++◌, take, Bytes,
  bytes_eq, ◌==◌, if◌then◌else◌,
}
use smart_deploy_linux.Schema.{Result, ok, err}
use smart_deploy_linux.Codes.{trim_space}
use smart_deploy_linux.Tokens.Hash.{hash_api_token}
use smart_deploy_linux.Tokens.Base64.{base64url}
use smart_deploy_linux.Access.{
  ApiToken, Accounts, Faults, Principal, has_perm, user_id, create_api_token, list_api_tokens,
  revoke_api_token, list_user_role_names,
}
use smart_deploy_linux.Access.Login.{api_token_prefix}

-- Both tests that the handlers make of a permission.
abbrev pub may : Option Principal → String → Bool
may p perm = has_perm p perm || has_perm p "*"

-- `expires_in_days` is an int, kept as its 64-bit pattern.
pub record CreateApiTokenReq : Type 0 where
  pub name : Bytes
  pub expires_in_days : Option ℕ
  pub roles : List Bytes

pub data Scope : Type 0 where
  scoped : List Bytes → Scope
  load_error : Scope
  not_held : Bytes → Scope

-- The loop of validateTokenScope; `seen` has the names of `scope`.
unfoldable pub check_scope : List Bytes → List Bytes → List Bytes → Scope
unfolding trim_space bytes_eq any
check_scope owned scope [] = scoped scope
check_scope owned scope (r ∷ rs) =
    let name = trim_space r in
    let skip = check_scope owned scope rs in
    let add = check_scope owned (scope ++ name ∷ []) rs in
    if bytes_eq name []
    then skip
    else if not (any (λ o. bytes_eq o name) owned)
    then not_held name
    else if any (λ s. bytes_eq s name) scope
    then skip
    else add

unfoldable pub validate_token_scope : Faults → Accounts → ℕ → List Bytes → Scope
validate_token_scope fails db user [] = scoped []
validate_token_scope fails db user (r ∷ rs) = elim (list_user_role_names fails db user) [
  | err _ ↦ load_error
  | ok owned ↦ check_scope owned [] (r ∷ rs)
]

pub data CreateReply : Type 0 where
  forbidden unauthorized bad_json name_required bad_expiry bad_scope random_error create_error :
      CreateReply
  created : ApiToken → Bytes → CreateReply

pub record CreateCall : Type 0 where
  pub now : ℕ
  pub fails : Faults
  pub principal : Option Principal
  pub body : Option CreateApiTokenReq
  pub random : Option Bytes
  pub new_id : ℕ

-- `none` for a number of days that is refused.
unfoldable pub expiry : ℕ → Option ℕ → Option (Option ℕ)
unfolding times
expiry now none = some none
expiry now (some days) =
    if days == 0 || is_negative days
    then none
    else some (some (add_duration now (times (times days 24) hour)))

abbrev pub create_reply : Bytes → Accounts × Result ApiToken → Accounts × CreateReply
create_reply full (db, err _) = (db, create_error)
create_reply full (db, ok t) = (db, created t full)

module _ (sha256 : Bytes → Bytes) (fqdn : Bytes) where
  unfoldable pub store_token :
      CreateCall → Accounts → Bytes → Option ℕ → List Bytes → Bytes → Accounts × CreateReply
  store_token c db name expires_at scope secret =
      let full = api_token_prefix ++ base64url secret in
      create_reply full (
        create_api_token c.fails c.now c.new_id db (record {
          name = name;
          user_id = user_id c.principal;
          token_hash = hash_api_token sha256 full fqdn;
          token_prefix = take 12 full;
          expires_at = expires_at;
          scope_roles = scope;
        }))

  unfoldable pub create_checked : CreateCall → Accounts → CreateApiTokenReq → Accounts × CreateReply
  unfolding expiry trim_space bytes_eq
  create_checked c db req =
      let name = trim_space req.name in
      if bytes_eq name [] then (db, name_required) else elim (expiry c.now req.expires_in_days) [
        | none ↦ (db, bad_expiry)
        | some expires_at ↦ elim (validate_token_scope c.fails db (user_id c.principal) req.roles) [
          | load_error ↦ (db, bad_scope)
          | not_held _ ↦ (db, bad_scope)
          | scoped scope ↦ elim c.random [
            | none ↦ (db, random_error)
            | some secret ↦ store_token c db name expires_at scope secret
          ]
        ]
      ]

  -- createAPIToken
  unfoldable pub create_token : CreateCall → Accounts → Accounts × CreateReply
  unfolding create_checked
  create_token c db =
      if not (may c.principal "apitoken.write")
      then (db, forbidden)
      else if user_id c.principal == 0
      then (db, unauthorized)
      else elim c.body [ none ↦ (db, bad_json) | some req ↦ create_checked c db req ]

pub data ListReply : Type 0 where
  forbidden unauthorized list_error : ListReply
  listed : List ApiToken → ListReply

-- listAPITokens
unfoldable pub list_tokens : Faults → Option Principal → Accounts → ListReply
unfolding list_api_tokens
list_tokens fails p db =
    if not (may p "apitoken.read")
    then forbidden
    else if user_id p == 0
    then unauthorized
    else elim (list_api_tokens fails db (user_id p)) [ err _ ↦ list_error | ok ts ↦ listed ts ]

pub data RevokeReply : Type 0 where
  forbidden unauthorized bad_id revoke_error not_found no_content : RevokeReply

abbrev pub revoke_reply : Accounts × Result Bool → Accounts × RevokeReply
revoke_reply (db, err _) = (db, revoke_error)
revoke_reply (db, ok false) = (db, not_found)
revoke_reply (db, ok true) = (db, no_content)

-- revokeAPIToken
unfoldable pub revoke_token :
    Faults → ℕ → Option Principal → Option ℕ → Accounts → Accounts × RevokeReply
revoke_token fails now p id db =
    if not (may p "apitoken.write")
    then (db, forbidden)
    else if user_id p == 0
    then (db, unauthorized)
    else elim id [
      | none ↦ (db, bad_id)
      | some n ↦ revoke_reply (revoke_api_token fails now db n (user_id p))
    ]
