-- ===== src/Access/Minted.antt =====
-- What createAPIToken of services/api/cmd/api/apitokens.go hands out.
use smart_deploy_linux.Prelude.Table.{find, select, update, find-append_none, find-weaker}
use smart_deploy_linux.Prelude.{
  ℕ, ◌≡◌, refl, true, false, none, some, List, [], ◌∷◌, ◌++◌, map, codes, take, Bytes, bytes_eq,
  bytes_eq_refl, ◌==◌, arith, All,
}
use smart_deploy_linux.Schema.{ok}
use smart_deploy_linux.Codes.{trim_space}
use smart_deploy_linux.Tokens.Hash.{hash_api_token}
use smart_deploy_linux.Tokens.Base64.{base64url}
use smart_deploy_linux.Access.{
  ApiToken, Accounts, Faults, user_id, new_token, CreateApiTokenInput, create_api_token,
  list_user_role_names, is_live, stamp, load_user_permissions, authenticate_api_token, Query,
  load_roles, insert_token, authenticate, load_permissions,
}
use smart_deploy_linux.Access.Owner.{owner}
use smart_deploy_linux.Access.Login.{api_token_prefix, authenticate_token, load_principal}
use smart_deploy_linux.Access.Handlers.{
  may, CreateApiTokenReq, CreateCall, scoped, check_scope, validate_token_scope, store_token,
  create_checked, create_token, created,
}

abbrev pub IsBlank : Bytes → Type 0
IsBlank r = bytes_eq (trim_space r) [] ≡ true

blank_scope :
    (owned : List Bytes) (rs : List Bytes) → All IsBlank rs → check_scope owned [] rs ≡ scoped []
unfolding check_scope
blank_scope owned [] h = refl
blank_scope owned (r ∷ rs) h = rw h.0 (blank_scope owned rs h.1)

list-ok :
    (fails : Faults) (db : Accounts) (user : ℕ)
    → fails load_roles ≡ false
    → list_user_role_names fails db user
      ≡ ok (map (λ ur. codes ur.role) (select (λ ur. ur.user_id == user) db.user_roles))
unfolding list_user_role_names
list-ok fails db user works = rw works

create-ok :
    (fails : Faults) (now id : ℕ) (db : Accounts) (input : CreateApiTokenInput)
    → fails insert_token ≡ false
    → find (λ (t : ApiToken). bytes_eq t.token_hash input.token_hash) db.tokens ≡ none
    → create_api_token fails now id db input ≡ (
      record db { tokens = db.tokens ++ new_token now id input ∷ [] },
      ok (new_token now id input),
    )
unfolding create_api_token
create-ok fails now id db input works fresh = rw (works, fresh) refl

validate-blank :
    (fails : Faults) (db : Accounts) (user : ℕ) (rs : List Bytes)
    → fails load_roles ≡ false
    → All IsBlank rs
    → validate_token_scope fails db user rs ≡ scoped []
unfolding validate_token_scope
validate-blank fails db user [] works h = refl
validate-blank fails db user (r ∷ rs) works h =
    rw (validate_token_scope, list-ok fails db user works) (blank_scope _ (r ∷ rs) h)

abbrev pub minted_input :
    (Bytes → Bytes) → Bytes → CreateCall → CreateApiTokenReq → Bytes → CreateApiTokenInput
minted_input sha256 fqdn c req full = record {
  name = trim_space req.name;
  user_id = user_id c.principal;
  token_hash = hash_api_token sha256 full fqdn;
  token_prefix = take 12 full;
  expires_at = none;
  scope_roles = [];
}

-- The row that createAPIToken stores for a token without expiry and scope.
abbrev pub minted : (Bytes → Bytes) → Bytes → CreateCall → CreateApiTokenReq → Bytes → ApiToken
minted sha256 fqdn c req full = new_token c.now c.new_id (minted_input sha256 fqdn c req full)

module _ (sha256 : Bytes → Bytes) (fqdn : Bytes) (c : CreateCall) (db : Accounts)
    (req : CreateApiTokenReq) (secret : Bytes) (allowed : may c.principal "apitoken.write" ≡ true)
    (known : (user_id c.principal == 0) ≡ false) (decoded : c.body ≡ some req)
    (named : bytes_eq (trim_space req.name) [] ≡ false) (endless : req.expires_in_days ≡ none)
    (blank : All IsBlank req.roles) (drawn : c.random ≡ some secret) (later : ℕ)
    (works : (q : Query) → c.fails q ≡ false) where
  abbrev full : Bytes
  full = api_token_prefix ++ base64url secret

  created_token :
      find (λ (t : ApiToken). bytes_eq t.token_hash (hash_api_token sha256 full fqdn)) db.tokens
        ≡ none
      → create_token sha256 fqdn c db ≡ (
        record db { tokens = db.tokens ++ minted sha256 fqdn c req full ∷ [] },
        created (minted sha256 fqdn c req full) full,
      )
  unfolding create_token create_checked store_token
  created_token fresh =
      let scope =
        validate-blank c.fails db (user_id c.principal) req.roles (works load_roles) blank in
      let stored =
        create-ok c.fails c.now c.new_id db (minted_input sha256 fqdn c req full)
          (works insert_token) fresh in
      rw (allowed, known, decoded, named, endless, create_token, scope, drawn, stored) refl

  abbrev hash : Bytes
  hash = hash_api_token sha256 full fqdn

  is_found :
      find (λ (t : ApiToken). bytes_eq t.token_hash hash) db.tokens ≡ none
      → find (is_live later hash) (db.tokens ++ minted sha256 fqdn c req full ∷ [])
        ≡ some (minted sha256 fqdn c req full)
  is_found fresh =
      let others =
        find-weaker (λ t. bytes_eq t.token_hash hash) (is_live later hash) db.tokens
          (λ t live. ground arith) fresh in
      rw
        (
          find-append_none (is_live later hash) db.tokens (minted sha256 fqdn c req full) others,
          bytes_eq_refl hash,
        )
        refl

auth-ok :
    (fails : Faults) (now : ℕ) (db : Accounts) (hash : Bytes) (t : ApiToken)
    → fails authenticate ≡ false
    → find (is_live now hash) db.tokens ≡ some t
    → authenticate_api_token fails now db hash ≡ (
      record db { tokens = update (is_live now hash) (stamp now) db.tokens },
      ok (some (t.user_id, t.scope_roles)),
    )
unfolding authenticate_api_token
auth-ok fails now db hash t works found = rw (works, found) refl

-- Where no statement fails and the hash of the new token is unused, a caller who may write API
-- tokens and gives a name, no expiry and no role, or blank names of roles only, gets a token that
-- never expires by itself and may do all that its owner may, whatever the caller's own permissions
-- are. It is known by its hash at any later time at which the tables are as they were left.
pub unscoped_mints_all :
    (sha256 : Bytes → Bytes) (fqdn : Bytes) (c : CreateCall) (db : Accounts)
    (req : CreateApiTokenReq) (secret : Bytes) (later : ℕ) (fails : Faults)
    → may c.principal "apitoken.write" ≡ true
    → (user_id c.principal == 0) ≡ false
    → c.body ≡ some req
    → bytes_eq (trim_space req.name) [] ≡ false
    → req.expires_in_days ≡ none
    → All IsBlank req.roles
    → c.random ≡ some secret
    → ((q : Query) → c.fails q ≡ false)
    → ((q : Query) → fails q ≡ false)
    → find
        (λ (t : ApiToken).
          bytes_eq t.token_hash (hash_api_token sha256 (api_token_prefix ++ base64url secret) fqdn))
        db.tokens
      ≡ none
    → let out = create_token sha256 fqdn c db in
      let full = api_token_prefix ++ base64url secret in
      (out.1 ≡ created (minted sha256 fqdn c req full) full)
      × ((authenticate_token sha256 fqdn fails later out.0 full).1
          ≡ some (owner db (user_id c.principal)))
unfolding authenticate_token load_principal load_user_permissions
unscoped_mints_all sha256 fqdn c db req secret later fails allowed known decoded named endless blank
      drawn works works' fresh =
    let made =
      created_token sha256 fqdn c db req secret allowed known decoded named endless blank drawn
        later works fresh in
    let live =
      is_found sha256 fqdn c db req secret allowed known decoded named endless blank drawn later
        works fresh in
    let known' =
      auth-ok fails later
        (record db {
          tokens =
              db.tokens ++ minted sha256 fqdn c req (api_token_prefix ++ base64url secret) ∷ [];
        })
        _ _ (works' authenticate) live in
    rw made (refl, rw (authenticate_token, known', works' load_permissions) refl)
