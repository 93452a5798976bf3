-- ===== src/Menu/Stored.antt =====
-- The job that MintMenuBootToken of services/api/internal/store/store.go answers with.
use smart_deploy_linux.Prelude.Table.{
  any, find, select, update, any-append, any-update, newest-any, any-selected, All-newest,
  select-holds,
}
use smart_deploy_linux.Prelude.{
  ℕ, ◌≡◌, ◌∙◌, Bool, true, not, ◌&&◌, ◌||◌, Option, none, some, List, [], ◌∷◌, ◌++◌, bytes_eq, ◌==◌,
  ==_refl, is_none, arith, Option-cases, Bool-cases, inl, inr,
}
use smart_deploy_linux.Schema.{
  Job, Db, select_active_job, insert_menu_code, insert_job, attach_menu_code, insert_token, commit,
  Result, ok,
}
use smart_deploy_linux.Jobs.{is_terminal}
use smart_deploy_linux.Menu.{
  Request, active_job, menu_job, with_code, add_token, mint_new, mint_menu_boot_token,
}

module _ (r : Request) where
  -- A job of that id for the machine and the profile of the request.
  abbrev pub is_job : ℕ → Job → Bool
  is_job id j = j.id == id && (j.machine_id == r.machine_id && j.profile_id == r.profile_id)

  -- An answer with a job is one that the tables have.
  abbrev pub Answers : Db × Result ℕ → Type 0
  Answers out = (id : ℕ) → out.1 ≡ ok id → any (is_job id) out.0.jobs ≡ true

  add_token-Answers :
      (before db : Db) (code id : ℕ)
      → any (is_job id) db.jobs ≡ true
      → Answers (add_token r before db code id)
  unfolding add_token
  add_token-Answers before db code id there n e =
      elim (Bool-cases (
        r.fails insert_token
        || not (is_none (find (λ t. bytes_eq t.token_hash r.token_hash) db.tokens))
        || r.fails commit)) [
          | inl broke ↦ absurd (let h = rw broke at e in cc h)
          | inr works ↦
              let same : id ≡ n = let h = rw works at e in cc h in rw (works, ← same) there
        ]

  new_job-there : (jobs : List Job) → any (is_job r.job_id) (jobs ++ menu_job r ∷ []) ≡ true
  unfolding any
  new_job-there jobs =
      any-append (is_job r.job_id) jobs (menu_job r ∷ [])
      ∙ ground (arith, ==_refl r.job_id, ==_refl r.machine_id, ==_refl r.profile_id)

  new-Answers :
      (db : Db) (found : Option ℕ)
      → ((id : ℕ) → found ≡ some id → any (is_job id) db.jobs ≡ true)
      → Answers (mint_new r db found)
  unfolding mint_new
  new-Answers db found there n e =
      elim (Bool-cases (
        r.fails insert_menu_code
        || not (is_none (find (λ c. bytes_eq c.code_hash r.random_hash) db.codes)))) [
          | inl broke ↦ absurd (let h = rw (broke, mint_new) at e in cc h)
          | inr works ↦ elim (Option-cases found) [
            | inl missing ↦ elim (Bool-cases (r.fails insert_job)) [
              | inl broke ↦ absurd (let h = rw (works, missing, mint_new, broke) at e in cc h)
              | inr fine ↦
                  rw (works, missing, mint_new, fine)
                    (add_token-Answers db
                      (record (with_code r db) { jobs = db.jobs ++ menu_job r ∷ [] }) r.code_id
                      r.job_id (new_job-there db.jobs) n (rw (works, missing, mint_new, fine) at e))
            ]
            | inr (id, known) ↦ elim (Bool-cases (r.fails attach_menu_code)) [
              | inl broke ↦ absurd (let h = rw (works, known, mint_new, broke) at e in cc h)
              | inr fine ↦
                  let attached =
                    update (λ j. j.id == id) (λ j. record j { auth_code_id = some r.code_id })
                      db.jobs in
                  let kept =
                    any-update (is_job id) (λ j. j.id == id)
                      (λ j. record j { auth_code_id = some r.code_id }) db.jobs (λ j h. h)
                      (there id known) in
                  rw (works, known, mint_new, fine)
                    (add_token-Answers db (record (with_code r db) { jobs = attached }) r.code_id id
                      kept n (rw (works, known, mint_new, fine) at e))
            ]
          ]
        ]

  active-there : (db : Db) (j : Job) → active_job r db ≡ some j → any (is_job j.id) db.jobs ≡ true
  active-there db j found =
      let fits = λ (k : Job).
        k.machine_id == r.machine_id && k.profile_id == r.profile_id && not (is_terminal k.state) in
      let ours =
        All-newest (λ k. fits k ≡ true) (λ k. k.created_at) (select fits db.jobs)
          (select-holds fits db.jobs) found in
      any-selected (is_job j.id) fits db.jobs (
        newest-any (is_job j.id) (λ k. k.created_at) (select fits db.jobs) found
          (ground (arith, ours, ==_refl j.id)))

  -- A job with which MintMenuBootToken answers is stored, for the machine and the profile asked for.
  pub mint-Answers : (db : Db) → Answers (mint_menu_boot_token r db)
  unfolding mint_menu_boot_token
  mint-Answers db n e = elim (Bool-cases (r.fails select_active_job)) [
    | inl broke ↦ absurd (let h = rw broke at e in cc h)
    | inr works ↦ elim (Option-cases (active_job r db)) [
      | inl idle ↦
          rw (works, idle) (new-Answers db none (λ id h. absurd (cc h)) n (rw (works, idle) at e))
      | inr (j, found) ↦
          let there = active-there db j found in
          elim (Option-cases j.auth_code_id) [
            | inl bare ↦
                rw (works, found, bare)
                  (new-Answers db (some j.id)
                    (λ id h. (let same : j.id ≡ id = cc h in rw (← same) there)) n
                    (rw (works, found, bare) at e))
            | inr (code, coded) ↦
                rw (works, found, coded)
                  (add_token-Answers db db code j.id there n (rw (works, found, coded) at e))
          ]
    ]
  ]
