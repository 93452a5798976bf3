-- ===== src/Access/Owner.antt =====
-- The permissions of a token and of its owner.
use smart_deploy_linux.Prelude.Table.{select, any}
use smart_deploy_linux.Prelude.{
  ℕ, ◌≡◌, inl, inr, refl, ◌∙◌, ap, Bool, true, false, ◌&&◌, ◌||◌, some, String, str_eq, List, [],
  ◌∷◌, ◌++◌, map, Bytes, ◌==◌, arith, Bool-cases, Option-cases,
}
use smart_deploy_linux.Schema.{Result-cases, ok}
use smart_deploy_linux.Roles.{UserRole}
use smart_deploy_linux.Tokens.Hash.{hash_api_token}
use smart_deploy_linux.Access.{
  RolePermission, Accounts, Faults, Principal, has_perm, perms_via, load_user_permissions,
  load_user_permissions_scoped, is_in_scope, authenticate_api_token,
}
use smart_deploy_linux.Access.Login.{authenticate_token, load_principal}

any-append : (f : String → Bool) (xs ys : List String) → any f (xs ++ ys) ≡ (any f xs || any f ys)
unfolding any
any-append f [] ys = refl
any-append f (x ∷ xs) ys = ground (arith, any-append f xs ys)

or_true : (b : Bool) → (b || true) ≡ true
or_true true = refl
or_true false = refl

or_mono : (a b c : Bool) → (b ≡ true → c ≡ true) → (a || b) ≡ true → (a || c) ≡ true
or_mono true b c f h = refl
or_mono false b c f h = f h

-- More roles give no fewer permissions.
any-perms_via :
    (f : String → Bool) (rps : List RolePermission) (p q : UserRole → Bool) (urs : List UserRole)
    → ((ur : UserRole) → p ur ≡ true → q ur ≡ true)
    → any f (perms_via rps (select p urs)) ≡ true
    → any f (perms_via rps (select q urs)) ≡ true
unfolding perms_via any
any-perms_via f rps p q [] weaker h = h
any-perms_via f rps p q (ur ∷ urs) weaker h = elim (Bool-cases (p ur)) [
  | inr out ↦
      let rest = any-perms_via f rps p q urs weaker (rw out at h) in
      elim (Bool-cases (q ur)) [
        | inr skipped ↦ rw skipped rest
        | inl kept ↦
            let here =
              map (λ (rp : RolePermission). rp.permission)
                (select (λ rp. str_eq rp.role ur.role) rps) in
            rw kept (any-append f here _ ∙ (ap (λ b. any f here || b) rest ∙ or_true (any f here)))
      ]
  | inl in_p ↦
      let here =
        map (λ (rp : RolePermission). rp.permission) (select (λ rp. str_eq rp.role ur.role) rps) in
      let split = any-append f here (perms_via rps (select p urs)) in
      let h' : (any f here || any f (perms_via rps (select p urs))) ≡ true =
        cc (split, rw in_p at h) in
      rw (weaker ur in_p)
        (any-append f here _ ∙ or_mono (any f here) _ _ (any-perms_via f rps p q urs weaker) h')
]

-- The permissions that a scope leaves of those of its owner: an empty one leaves all of them.
abbrev pub granted : Accounts → ℕ → List Bytes → List String
granted db user [] = perms_via db.role_permissions (select (λ ur. ur.user_id == user) db.user_roles)
granted db user (name ∷ names) =
    perms_via db.role_permissions
      (select (λ ur. ur.user_id == user && is_in_scope (name ∷ names) ur) db.user_roles)

abbrev pub owner : Accounts → ℕ → Principal
owner db user = record { user_id = user; email = []; sub = []; perms = granted db user [] }

granted-owner :
    (f : String → Bool) (db : Accounts) (user : ℕ) (scope : List Bytes)
    → any f (granted db user scope) ≡ true
    → any f (granted db user []) ≡ true
granted-owner f db user [] h = h
granted-owner f db user (name ∷ names) h =
    any-perms_via f db.role_permissions _ _ db.user_roles (λ ur held. ground arith) h

granted-authenticate :
    (fails : Faults) (now : ℕ) (db : Accounts) (hash : Bytes) (user : ℕ) (scope : List Bytes)
    → granted (authenticate_api_token fails now db hash).0 user scope ≡ granted db user scope
unfolding authenticate_api_token
granted-authenticate fails now db hash user [] = ground arith
granted-authenticate fails now db hash user (name ∷ names) = ground arith

load_principal_lem :
    (fails : Faults) (db : Accounts) (user : ℕ) (scope : List Bytes) (p : Principal)
    → load_principal fails db user scope ≡ some p
    → p ≡ record { user_id = user; email = []; sub = []; perms = granted db user scope }
unfolding load_principal load_user_permissions load_user_permissions_scoped
load_principal_lem fails db user [] p h = ground arith
load_principal_lem fails db user (name ∷ names) p h = ground arith

-- What an authenticated token may do: its row is live and its permissions are those of its scope.
pub authenticate_token_lem :
    (sha256 : Bytes → Bytes) (pepper : Bytes) (fails : Faults) (now : ℕ) (db : Accounts)
    (presented : Bytes) (p : Principal)
    → (authenticate_token sha256 pepper fails now db presented).1 ≡ some p
    → (user : ℕ) × (scope : List Bytes) × ((authenticate_api_token fails now db
          (hash_api_token sha256 presented pepper)).1
        ≡ ok (some (user, scope)))
      × (p ≡ record { user_id = user; email = []; sub = []; perms = granted db user scope })
unfolding authenticate_token
authenticate_token_lem sha256 pepper fails now db presented p h =
    let hash = hash_api_token sha256 presented pepper in
    elim (Result-cases (authenticate_api_token fails now db hash).1) [
      | inr (error, broke) ↦ absurd (let e = rw (broke, authenticate_token) at h in cc e)
      | inl (answer, works) ↦ elim (Option-cases answer) [
        | inl unknown ↦ absurd (let e = rw (works, authenticate_token, unknown) at h in cc e)
        | inr ((user, scope), found) ↦
            let loaded = rw (works, authenticate_token, found) at h in
            (
              user,
              scope,
              works ∙ ap ok found,
              load_principal_lem fails _ user scope p loaded
                  ∙ ap (λ perms. record { user_id = user; email = []; sub = []; perms = perms })
                      (granted-authenticate fails now db hash user scope),
            )
      ]
    ]

owner_may :
    (db : Accounts) (user : ℕ) (scope : List Bytes) (perm : String)
    → has_perm
        (some (record { user_id = user; email = []; sub = []; perms = granted db user scope }))
        perm
      ≡ true
    → has_perm (some (owner db user)) perm ≡ true
unfolding has_perm
owner_may db user scope perm h =
    elim (Bool-cases (any (λ q. str_eq q "*") (granted db user scope))) [
      | inl all ↦ rw (granted-owner (λ q. str_eq q "*") db user scope all) refl
      | inr few ↦ rw (granted-owner (λ q. str_eq q perm) db user scope (rw few at h)) (or_true _)
    ]

-- A token may do nothing that its owner may not at that time, whatever its scope.
pub token_within_owner :
    (sha256 : Bytes → Bytes) (pepper : Bytes) (fails : Faults) (now : ℕ) (db : Accounts)
    (presented : Bytes) (p : Principal) (perm : String)
    → (authenticate_token sha256 pepper fails now db presented).1 ≡ some p
    → has_perm (some p) perm ≡ true
    → has_perm (some (owner db p.user_id)) perm ≡ true
unfolding has_perm
token_within_owner sha256 pepper fails now db presented p perm h allowed =
    let (user, scope, found, e) = authenticate_token_lem sha256 pepper fails now db presented p h in
    rw e (owner_may db user scope perm (rw e at allowed))
