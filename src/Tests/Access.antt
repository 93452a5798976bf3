-- ===== src/Tests/Access.antt =====
-- Runs of the API tokens and of the resolver.
use smart_deploy_linux.Prelude.Table.{find, select, update, any}
use smart_deploy_linux.Prelude.{
  ◌≡◌, refl, true, false, Option, some, none, [], ◌∷◌, ◌++◌, Bytes, codes, bytes_eq,
}
use smart_deploy_linux.Schema.{ok}
use smart_deploy_linux.Codes.{trim_space}
use smart_deploy_linux.Tokens.Hash.{hex, hash_api_token}
use smart_deploy_linux.Tokens.Base64.{base64url}
use smart_deploy_linux.Access.{
  User, Accounts, ApiToken, Principal, has_perm, authenticate_api_token, perms_via,
}
use smart_deploy_linux.Access
use smart_deploy_linux.Access.Login.{
  api_token_prefix, authenticate_token, load_principal, resolve, insert_or_adopt, match_subject,
}
use smart_deploy_linux.Access.Handlers
use smart_deploy_linux.Access.Handlers.{
  CreateApiTokenReq, CreateCall, create_token, created, revoke_token, no_content,
}
use smart_deploy_linux.Access.Owner.{owner, token_within_owner}
use smart_deploy_linux.Access.Revoked.{authenticates, revokes, calls, revoked_forever}
use smart_deploy_linux.Access.Minted.{minted, unscoped_mints_all}

-- The digest is kept short for the runs.
abbrev digest : Bytes → Bytes
digest _ = 171 ∷ []

abbrev pepper : Bytes
pepper = codes "deploy.example"

abbrev secret_token : Bytes
secret_token = codes "dpsk_AAAA"

abbrev scoped_token : ApiToken
scoped_token = record {
  id = 5;
  name = codes "ci";
  token_hash = codes "sha256:ab";
  prefix = secret_token;
  user_id = 1;
  created_at = 10;
  expires_at = none;
  last_used_at = none;
  revoked_at = none;
  scope_roles = codes "operator" ∷ [];
}

-- An admin who is an operator too, and an account of another subject.
abbrev accounts : Accounts
accounts = record {
  users =
      record { id = 1; email = codes "a@example.org"; oidc_subject = some (codes "s1") }
      ∷ record { id = 2; email = codes "b@example.org"; oidc_subject = none }
      ∷ [];
  user_roles =
      record { user_id = 1; role = "admin" } ∷ record { user_id = 1; role = "operator" } ∷ [];
  role_permissions =
      record { role = "admin"; permission = "*" }
      ∷ record { role = "operator"; permission = "machine.read" }
      ∷ [];
  tokens = scoped_token ∷ [];
}

abbrev scoped_principal : Principal
scoped_principal = record { user_id = 1; email = []; sub = []; perms = "machine.read" ∷ [] }

token_known :
    (authenticate_token digest pepper (λ _. false) 20 accounts secret_token).1
    ≡ some scoped_principal
unfolding authenticate_token authenticate_api_token load_principal hash_api_token hex find select
    any bytes_eq perms_via
token_known = refl

reads_machines : has_perm (some scoped_principal) "machine.read" ≡ true
unfolding has_perm any
reads_machines = refl

-- The scope leaves out what the other role of the owner allows.
writes_nothing : has_perm (some scoped_principal) "machine.write" ≡ false
unfolding has_perm any
writes_nothing = refl

token_within_owner_example : has_perm (some (owner accounts 1)) "machine.read" ≡ true
token_within_owner_example =
    token_within_owner digest pepper (λ _. false) 20 accounts secret_token scoped_principal
      "machine.read" token_known reads_machines

abbrev writer : Option Principal
writer = some (record { user_id = 1; email = []; sub = []; perms = "apitoken.write" ∷ [] })

may_write : Handlers.may writer "apitoken.write" ≡ true
unfolding has_perm any
may_write = refl

revocable : find (Access.is_revocable 5 1) accounts.tokens ≡ some scoped_token
unfolding find
revocable = refl

revoked_forever_example :
    let history =
      authenticates (λ _. false) 40 scoped_token.token_hash ∷ revokes (λ _. false) 50 5 2 ∷ [] in
    ((revoke_token (λ _. false) 30 writer (some 5) accounts).1 ≡ no_content)
    × ((authenticate_api_token
          (λ _. false)
          60
          (calls history (revoke_token (λ _. false) 30 writer (some 5) accounts).0)
          scoped_token.token_hash).1
        ≡ ok none)
revoked_forever_example =
    revoked_forever (λ _. false) 30 writer 5 accounts scoped_token
      (authenticates (λ _. false) 40 scoped_token.token_hash ∷ revokes (λ _. false) 50 5 2 ∷ [])
      (λ _. false) 60 may_write refl refl (tt, tt) revocable refl

abbrev blank_request : CreateApiTokenReq
blank_request = record { name = codes "ci"; expires_in_days = none; roles = codes " " ∷ [] }

abbrev secret_bytes : Bytes
secret_bytes = 0 ∷ 0 ∷ 0 ∷ []

abbrev blank_call : CreateCall
blank_call = record {
  now = 70;
  fails = λ _. false;
  principal = writer;
  body = some blank_request;
  random = some secret_bytes;
  new_id = 6;
}

abbrev no_tokens : Accounts
no_tokens = record accounts { tokens = [] }

is_named : bytes_eq (trim_space blank_request.name) [] ≡ false
unfolding trim_space bytes_eq
is_named = refl

is_blank : bytes_eq (trim_space (codes " ")) [] ≡ true
unfolding trim_space bytes_eq
is_blank = refl

unused_hash :
    find
      (λ (t : ApiToken).
        bytes_eq t.token_hash
          (hash_api_token digest (api_token_prefix ++ base64url secret_bytes) pepper))
      no_tokens.tokens
    ≡ none
unfolding find
unused_hash = refl

unscoped_mints_all_example :
    let full = api_token_prefix ++ base64url secret_bytes in
    let out = create_token digest pepper blank_call no_tokens in
    (out.1 ≡ created (minted digest pepper blank_call blank_request full) full)
    × ((authenticate_token digest pepper (λ _. false) 80 out.0 full).1 ≡ some (owner no_tokens 1))
unscoped_mints_all_example =
    unscoped_mints_all digest pepper blank_call no_tokens blank_request secret_bytes 80 (λ _. false)
      may_write refl refl is_named refl (is_blank, tt) refl (λ _. refl) (λ _. refl) unused_hash

-- A subject that no account has signs in to the account of its email, which belongs to another subject.
adopted :
    (resolve bytes_eq (λ _. false) 3 accounts (codes "s9") (codes "a@example.org")).1
    ≡ some (record {
      user_id = 1;
      email = codes "a@example.org";
      sub = codes "s9";
      perms = "*" ∷ "machine.read" ∷ [];
    })
unfolding resolve insert_or_adopt match_subject find select any update bytes_eq perms_via
adopted = refl
