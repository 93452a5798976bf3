-- ===== src/Menu/Mint.antt =====
-- What MintMenuBootToken of services/api/internal/store/store.go stores.
use smart_deploy_linux.Prelude.Table.{find}
use smart_deploy_linux.Prelude.{
  ℕ, ◌≡◌, ◌⊎◌, inl, inr, refl, not, ◌||◌, Option, none, some, bytes_eq, is_none, Option-cases,
  Bool-cases,
}
use smart_deploy_linux.Schema.{
  Db, select_active_job, insert_menu_code, insert_job, attach_menu_code, insert_token, commit,
  Result, ok,
}
use smart_deploy_linux.Menu.{Request, active_job, add_token, mint_new, mint_menu_boot_token}

-- A transaction that answers with a job or leaves the tables as they were.
abbrev pub IsAtomic : Db → Db × Result ℕ → Type 0
IsAtomic db out = (out.0 ≡ db) ⊎ ((id : ℕ) × (out.1 ≡ ok id))

module _ (r : Request) where
  add_token-IsAtomic :
      (before db : Db) (code id : ℕ) → IsAtomic before (add_token r before db code id)
  unfolding add_token
  add_token-IsAtomic before db code id =
      elim (Bool-cases (
        r.fails insert_token
        || not (is_none (find (λ t. bytes_eq t.token_hash r.token_hash) db.tokens))
        || r.fails commit)) [
          | inl broke ↦ rw broke (inl refl)
          | inr works ↦ rw works (inr (id, refl))
        ]

  new-IsAtomic : (db : Db) (found : Option ℕ) → IsAtomic db (mint_new r db found)
  unfolding mint_new
  new-IsAtomic db found =
      elim (Bool-cases (
        r.fails insert_menu_code
        || not (is_none (find (λ c. bytes_eq c.code_hash r.random_hash) db.codes)))) [
          | inl broke ↦ rw (broke, mint_new) (inl refl)
          | inr works ↦ elim (Option-cases found) [
            | inl missing ↦ elim (Bool-cases (r.fails insert_job)) [
              | inl broke ↦ rw (works, missing, mint_new, broke) (inl refl)
              | inr fine ↦
                  rw (works, missing, mint_new, fine) (add_token-IsAtomic db _ r.code_id r.job_id)
            ]
            | inr (id, there) ↦ elim (Bool-cases (r.fails attach_menu_code)) [
              | inl broke ↦ rw (works, there, mint_new, broke) (inl refl)
              | inr fine ↦ rw (works, there, mint_new, fine) (add_token-IsAtomic db _ r.code_id id)
            ]
          ]
        ]

  -- Whichever statements fail, MintMenuBootToken answers with a job or changes nothing.
  pub mint-IsAtomic : (db : Db) → IsAtomic db (mint_menu_boot_token r db)
  unfolding mint_menu_boot_token
  mint-IsAtomic db = elim (Bool-cases (r.fails select_active_job)) [
    | inl broke ↦ rw (broke, mint_menu_boot_token) (inl refl)
    | inr works ↦ elim (Option-cases (active_job r db)) [
      | inl idle ↦ rw (works, idle, mint_menu_boot_token) (new-IsAtomic db none)
      | inr (j, busy) ↦ elim (Option-cases j.auth_code_id) [
        | inl bare ↦ rw (works, busy, mint_menu_boot_token, bare) (new-IsAtomic db (some j.id))
        | inr (code, has) ↦
            rw (works, busy, mint_menu_boot_token, has) (add_token-IsAtomic db db code j.id)
      ]
    ]
  ]
