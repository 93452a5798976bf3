-- ===== src/Roles/Admins.antt =====
-- The last admin, in revokeUserRole of services/api/cmd/api/users.go.
use smart_deploy_linux.Prelude.Table.{any, count, delete, count-delete, any-count, count-weaker}
use smart_deploy_linux.Prelude.{
  ℕ, ◌<◌, ◌≡◌, Bool, true, false, Option, none, String, str_eq, eq_iff, List, arith, Bool-cases,
  Option-cases, inl, inr,
}
use smart_deploy_linux.Roles.{
  UserRole, Tables, Faults, is_grant, is_other_admin, revoke_role, delete_role, count_other_admins,
  guard_last_admin, finish_revoke, revoke_user_role,
}

abbrev pub is_admin : UserRole → Bool
is_admin ur = str_eq ur.role "admin"

unfoldable pub has_admin : Tables → Bool
unfolding any
has_admin db = any is_admin db.user_roles

-- A guard that lets an "admin" go on has found another one.
guard_lem :
    (fails : Faults) (db : Tables) (user : ℕ) (role : String)
    → guard_last_admin fails db user role ≡ none
    → str_eq role "admin" ≡ true
    → 0 < count (is_other_admin user) db.user_roles
unfolding guard_last_admin count_other_admins
guard_lem fails db user role h admin = ground arith

not_granted :
    (user : ℕ) (role : String) (ur : UserRole)
    → str_eq role "admin" ≡ false
    → is_admin ur ≡ true
    → is_grant user role ur ≡ false
not_granted user role ur other h = elim (Bool-cases (str_eq ur.role role)) [
  | inr apart ↦ ground arith
  | inl same ↦ let e = (eq_iff ur.role role).0 same in absurd (cc (other, e, h))
]

delete-admin :
    (urs : List UserRole) (user : ℕ) (role : String)
    → any is_admin urs ≡ true
    → (str_eq role "admin" ≡ true → 0 < count (is_other_admin user) urs)
    → any is_admin (delete (is_grant user role) urs) ≡ true
delete-admin urs user role some_admin others = elim (Bool-cases (str_eq role "admin")) [
  | inl admin ↦
      let left = delete (is_grant user role) urs in
      let same =
        count-delete (is_other_admin user) (is_grant user role) urs (λ ur h. ground arith) in
      let more = count-weaker is_admin (is_other_admin user) left (λ ur h. ground arith) in
      (any-count is_admin left).1 (omega (arith, same, more, others admin))
  | inr other ↦
      let same =
        count-delete is_admin (is_grant user role) urs (λ ur h. not_granted user role ur other h) in
      (any-count is_admin _).1 (omega (arith, same, (any-count is_admin urs).0 some_admin))
]

finish-left :
    (fails : Faults) (db : Tables) (user : ℕ) (role : String)
    → (finish_revoke fails db user role).0 ≡ (revoke_role fails db user role).0
unfolding finish_revoke
finish-left fails db user role = ground arith

finish-admin :
    (fails : Faults) (db : Tables) (user : ℕ) (role : String)
    → has_admin db ≡ true
    → (str_eq role "admin" ≡ true → 0 < count (is_other_admin user) db.user_roles)
    → has_admin (finish_revoke fails db user role).0 ≡ true
unfolding revoke_role has_admin
finish-admin fails db user role h others =
    rw (finish-left fails db user role) (elim (Bool-cases (fails delete_role)) [
      | inl broke ↦ rw broke h
      | inr works ↦ rw works (delete-admin db.user_roles user role h others)
    ])

-- While there is an admin, revokeUserRole leaves one, whatever role it takes from whom and whichever
-- statements fail.
pub revoke_keeps_admin :
    (fails : Faults) (db : Tables) (has_perm : Bool) (id : Option ℕ) (role : String)
    → has_admin db ≡ true
    → has_admin (revoke_user_role fails db has_perm id role).0 ≡ true
unfolding revoke_user_role has_admin
revoke_keeps_admin fails db has_perm id role h = elim (Bool-cases has_perm) [
  | inr forbids ↦ rw forbids h
  | inl allows ↦ elim (Option-cases id) [
    | inl bad ↦ rw (allows, bad) h
    | inr (user, parsed) ↦ elim (Option-cases (guard_last_admin fails db user role)) [
      | inr (reply, refused) ↦ rw (allows, parsed, refused, revoke_user_role) h
      | inl passed ↦
          rw (allows, parsed, passed, revoke_user_role)
            (finish-admin fails db user role h (guard_lem fails db user role passed))
    ]
  ]
]
