-- ===== src/Valid.antt =====
-- Well-formedness of the shared tables: the primary keys and UNIQUE columns of
-- services/api/internal/store/migrations/0001_init.sql, and the finishing times of the jobs.
use smart_deploy_linux.Prelude.Table.{update}
use smart_deploy_linux.Prelude.Keys.{HasKeys, HasKeys-update}
use smart_deploy_linux.Prelude.{ℕ, ◌≡◌, refl, arith, Option-cases, Bool-cases, inl, inr, ◌==◌}
use smart_deploy_linux.Schema.{State, Db, Faults, consume_boot_tokens, update_state}
use smart_deploy_linux.Jobs.{
  find_job, mark_boot_tokens_consumed, transition_job, check_transition, write_transition,
  set_state, is_terminal,
}
use smart_deploy_linux.Jobs.Finished.{JobsValid, transition-JobsValid}

pub record DbValid (db : Db) : Type 0 where
  pub code_ids : HasKeys (λ c. c.id) db.codes
  pub code_hashes : HasKeys (λ c. c.code_hash) db.codes
  pub token_hashes : HasKeys (λ t. t.token_hash) db.tokens
  pub jobs_valid : JobsValid db.jobs

codes-mark :
    (fails : Faults) (now : ℕ) (db : Db) (id : ℕ)
    → (mark_boot_tokens_consumed fails now db id).0.codes ≡ db.codes
unfolding mark_boot_tokens_consumed
codes-mark fails now db id = ground arith

hashes-mark :
    (fails : Faults) (now : ℕ) (db : Db) (id : ℕ)
    → HasKeys (λ t. t.token_hash) db.tokens
    → HasKeys (λ t. t.token_hash) (mark_boot_tokens_consumed fails now db id).0.tokens
unfolding mark_boot_tokens_consumed
hashes-mark fails now db id h = elim (Bool-cases (fails consume_boot_tokens)) [
  | inl broke ↦ rw broke h
  | inr works ↦ elim (Option-cases (find_job db id)) [
    | inl missing ↦ rw (works, missing) h
    | inr (j, found) ↦
        rw (works, found) (HasKeys-update (λ t. t.token_hash) _ _ db.tokens (λ t. refl) h)
  ]
]

pub codes-transition :
    (fails : Faults) (now : ℕ) (db : Db) (id : ℕ) (to : State)
    → (transition_job fails now db id to).0.codes ≡ db.codes
unfolding transition_job write_transition
codes-transition fails now db id to = ground (
  arith,
  codes-mark fails now (record db { jobs = update (λ j. j.id == id) (set_state now to) db.jobs })
      id,
)

hashes-transition :
    (fails : Faults) (now : ℕ) (db : Db) (id : ℕ) (to : State)
    → HasKeys (λ t. t.token_hash) db.tokens
    → HasKeys (λ t. t.token_hash) (transition_job fails now db id to).0.tokens
unfolding transition_job write_transition
hashes-transition fails now db id to h = elim (Option-cases (check_transition fails db id to)) [
  | inr (e, refused) ↦ rw (refused, transition_job) h
  | inl passed ↦ elim (Bool-cases (fails update_state)) [
    | inl broke ↦ rw (passed, broke, transition_job) h
    | inr works ↦ elim (Bool-cases (is_terminal to)) [
      | inl ends ↦ rw (passed, works, ends, transition_job) (hashes-mark fails now _ id h)
      | inr goes_on ↦ rw (passed, works, goes_on, transition_job) h
    ]
  ]
]

-- A transition keeps the tables well formed, whichever statements fail.
pub transition-DbValid :
    (fails : Faults) (now : ℕ) (db : Db) (id : ℕ) (to : State)
    → DbValid db
    → DbValid (transition_job fails now db id to).0
transition-DbValid fails now db id to v = record {
  code_ids = rw codes-transition v.code_ids;
  code_hashes = rw codes-transition v.code_hashes;
  token_hashes = hashes-transition fails now db id to v.token_hashes;
  jobs_valid = transition-JobsValid fails now db id to v.jobs_valid;
}
