-- ===== src/Access/Login.antt =====
-- Who a request is: NewAPITokenAuthenticator, Middleware and bearer of
-- services/api/internal/auth/auth.go, and services/api/internal/auth/resolver.go. The verifier of the
-- identity provider is a parameter.
use smart_deploy_linux.Prelude.Table.{find, update, any}
use smart_deploy_linux.Prelude.{
  ℕ, Bool, false, not, ◌&&◌, ◌||◌, Option, none, some, String, List, [], ◌∷◌, ◌++◌, drop, Bytes,
  bytes_eq, has_prefix, codes, if◌then◌else◌, is_none,
}
use smart_deploy_linux.Schema.{Result, ok, err}
use smart_deploy_linux.Tokens.Hash.{hash_api_token}
use smart_deploy_linux.Access.{
  User, Accounts, Faults, Principal, authenticate_api_token, load_user_permissions,
  load_user_permissions_scoped, update_user, insert_user,
}

abbrev pub api_token_prefix : Bytes
api_token_prefix = codes "dpsk_"

-- `header` is the Authorization header, `cookie` the value of deploy_session.
unfoldable pub bearer : Bytes → Option Bytes → Bytes
unfolding has_prefix
bearer header cookie =
    if has_prefix (codes "Bearer ") header
    then drop 7 header
    else elim cookie [ none ↦ [] | some value ↦ value ]

abbrev pub token_principal : ℕ → Result (List String) → Option Principal
token_principal user (err _) = none
token_principal user (ok perms) =
    some (record { user_id = user; email = []; sub = []; perms = perms })

-- All permissions of the owner, or those through the roles of the scope.
unfoldable pub load_principal : Faults → Accounts → ℕ → List Bytes → Option Principal
unfolding load_user_permissions load_user_permissions_scoped
load_principal fails db user [] = token_principal user (load_user_permissions fails db user)
load_principal fails db user (name ∷ names) =
    token_principal user (load_user_permissions_scoped fails db user (name ∷ names))

abbrev pub authenticated :
    Faults → Accounts × Result (Option (ℕ × List Bytes)) → Accounts × Option Principal
authenticated fails (db, err _) = (db, none)
authenticated fails (db, ok none) = (db, none)
authenticated fails (db, ok (some (user, scope))) = (db, load_principal fails db user scope)

-- NewAPITokenAuthenticator; `none` is any of its errors.
unfoldable pub authenticate_token :
    (Bytes → Bytes) → Bytes → Faults → ℕ → Accounts → Bytes → Accounts × Option Principal
authenticate_token sha256 pepper fails now db presented =
    authenticated fails
      (authenticate_api_token fails now db (hash_api_token sha256 presented pepper))

abbrev pub has_subject : Bytes → User → Bool
has_subject sub u = elim u.oidc_subject [ none ↦ false | some s ↦ bytes_eq s sub ]

-- COALESCE(users.oidc_subject, EXCLUDED.oidc_subject)
abbrev pub adopt : Bytes → User → User
adopt sub u = record u { oidc_subject = elim u.oidc_subject [ none ↦ some sub | some s ↦ some s ] }

pub data Entry : Type 0 where
  missing_token api_tokens_off invalid_api_token not_configured invalid_token bad_claims
        resolve_error :
      Entry
  passes : Principal → Entry

-- How Middleware is set up, and what the identity provider says of a token: `none` where it does not
-- verify, `some none` where its claims cannot be read, else the subject and the email.
pub record Setup : Type 0 where
  pub api_tokens : Bool
  pub verifier : Option (Bytes → Option (Option (Bytes × Bytes)))
  pub resolver : Bool

-- The equality of the type citext, which takes upper and lower case for the same.
module _ (same_email : Bytes → Bytes → Bool) where
  abbrev pub is_taken_by_other : Bytes → Bytes → User → Bool
  is_taken_by_other sub email u = same_email u.email email && not (has_subject sub u)

  -- UPDATE users SET email; an email that another row has is refused, since `email` is UNIQUE.
  unfoldable pub match_subject : Faults → Accounts → Bytes → Bytes → Accounts × Option ℕ
  match_subject fails db sub email = elim (find (has_subject sub) db.users) [
    | none ↦ (db, none)
    | some u ↦
        if fails update_user || any (is_taken_by_other sub email) db.users then (db, none) else (
          record db { users = update (has_subject sub) (λ v. record v { email = email }) db.users },
          some u.id,
        )
  ]

  -- INSERT INTO users … ON CONFLICT (email) DO UPDATE; `oidc_subject` is UNIQUE.
  unfoldable pub insert_or_adopt : Faults → ℕ → Accounts → Bytes → Bytes → Accounts × Option ℕ
  insert_or_adopt fails new_id db sub email =
      let known = not (is_none (find (has_subject sub) db.users)) in
      if fails insert_user
      then (db, none)
      else elim (find (λ u. same_email u.email email) db.users) [
        | none ↦ if known then (db, none) else (
          record db {
            users = db.users ++ record { id = new_id; email = email; oidc_subject = some sub } ∷ [];
          },
          some new_id,
        )
        | some u ↦ if is_none u.oidc_subject && known then (db, none) else (
          record db { users = update (λ v. same_email v.email email) (adopt sub) db.users },
          some u.id,
        )
      ]

  unfoldable pub upsert_user : Faults → ℕ → Accounts → Bytes → Bytes → Accounts × Option ℕ
  unfolding match_subject insert_or_adopt
  upsert_user fails new_id db sub email =
      let (db', matched) = match_subject fails db sub email in
      elim matched [ some id ↦ (db', some id) | none ↦ insert_or_adopt fails new_id db sub email ]

  -- ResolverFromPool
  unfoldable pub resolve : Faults → ℕ → Accounts → Bytes → Bytes → Accounts × Option Principal
  unfolding upsert_user load_user_permissions
  resolve fails new_id db sub email =
      if bytes_eq sub []
      then (db, none)
      else (let (db', upserted) = upsert_user fails new_id db sub email in
          elim upserted [
            | none ↦ (db', none)
            | some id ↦ elim (load_user_permissions fails db' id) [
              | err _ ↦ (db', none)
              | ok perms ↦
                  (db', some (record { user_id = id; email = email; sub = sub; perms = perms }))
            ]
          ])

  unfoldable pub sign_in : Setup → Faults → ℕ → Accounts → Bytes → Bytes → Accounts × Entry
  unfolding resolve
  sign_in setup fails new_id db sub email =
      if setup.resolver
      then (let (db', resolved) = resolve fails new_id db sub email in
          elim resolved [ none ↦ (db', resolve_error) | some p ↦ (db', passes p) ])
      else (db, passes (record { user_id = 0; email = email; sub = sub; perms = [] }))

  unfoldable pub middleware :
      Setup
      → (Bytes → Bytes)
      → Bytes
      → Faults
      → ℕ
      → ℕ
      → Accounts
      → Bytes
      → Option Bytes
      → Accounts × Entry
  unfolding bearer sign_in has_prefix bytes_eq
  middleware setup sha256 pepper fails now new_id db header cookie =
      let token = bearer header cookie in
      if bytes_eq token []
      then (db, missing_token)
      else if has_prefix api_token_prefix token
      then (if not setup.api_tokens
          then (db, api_tokens_off)
          else (let (db', found) = authenticate_token sha256 pepper fails now db token in
              elim found [ none ↦ (db', invalid_api_token) | some p ↦ (db', passes p) ]))
      else elim setup.verifier [
        | none ↦ (db, not_configured)
        | some verify ↦ elim (verify token) [
          | none ↦ (db, invalid_token)
          | some none ↦ (db, bad_claims)
          | some (some (sub, email)) ↦ sign_in setup fails new_id db sub email
        ]
      ]
