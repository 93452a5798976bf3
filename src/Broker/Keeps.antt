-- ===== src/Broker/Keeps.antt =====
-- Every query of services/auth-broker/internal/db/db.go keeps the shared tables well formed.
use smart_deploy_linux.Prelude.Table
use smart_deploy_linux.Prelude.Table.{find}
use smart_deploy_linux.Prelude.Keys.{HasKeys-update, HasKeys-append, row}
use smart_deploy_linux.Prelude.{
  ℕ, ◌≡◌, refl, none, arith, Option-cases, Bool-cases, inl, inr, ◌==◌, ==_iff, bytes_eq,
  bytes_eq_iff, Bytes, String, [], ◌∷◌, ◌++◌, not, ◌||◌, is_none, All-append,
}
use smart_deploy_linux.Schema.{
  AuthCode, Token, Db, Faults, record_attempt, increment_attempt, insert_job, insert_token,
  insert_code,
}
use smart_deploy_linux.Jobs.Finished.{IsDated}
use smart_deploy_linux.Valid.{DbValid}
use smart_deploy_linux.Broker.{
  is_redeemable, redeem_now, increment_code_attempt, record_per_ip_attempt, create_one_shot_token,
  create_deployment_job, bootstrapped_job, issue_auth_code, find_code,
}

pub attempt-DbValid :
    (fails : Faults) (now : ℕ) (db : Db) (ip window : ℕ)
    → DbValid db
    → DbValid (record_per_ip_attempt fails now db ip window).0
unfolding record_per_ip_attempt
attempt-DbValid fails now db ip window v = elim (Bool-cases (fails record_attempt)) [
  | inl broke ↦ rw broke v
  | inr works ↦ rw works (record {
    code_ids = v.code_ids;
    code_hashes = v.code_hashes;
    token_hashes = v.token_hashes;
    jobs_valid = v.jobs_valid;
  })
]

pub increment-DbValid :
    (fails : Faults) (now : ℕ) (db : Db) (hash : Bytes) (cap : ℕ)
    → DbValid db
    → DbValid (increment_code_attempt fails now db hash cap)
unfolding increment_code_attempt
increment-DbValid fails now db hash cap v = elim (Bool-cases (fails increment_attempt)) [
  | inl broke ↦ rw broke v
  | inr works ↦ rw works (record {
    code_ids = HasKeys-update (λ c. c.id) _ _ db.codes (λ c. refl) v.code_ids;
    code_hashes = HasKeys-update (λ c. c.code_hash) _ _ db.codes (λ c. refl) v.code_hashes;
    token_hashes = v.token_hashes;
    jobs_valid = v.jobs_valid;
  })
]

-- A code that is marked as redeemed.
pub consumed-DbValid :
    (now : ℕ) (db : Db) (hash : Bytes)
    → DbValid db
    → DbValid
        (record db { codes = Table.update (is_redeemable now hash) (redeem_now now) db.codes })
consumed-DbValid now db hash v = record {
  code_ids = HasKeys-update (λ c. c.id) _ _ db.codes (λ c. refl) v.code_ids;
  code_hashes = HasKeys-update (λ c. c.code_hash) _ _ db.codes (λ c. refl) v.code_hashes;
  token_hashes = v.token_hashes;
  jobs_valid = v.jobs_valid;
}

-- A job in "bootstrapped" under a new id.
pub job-DbValid :
    (now id machine profile : ℕ) (c : AuthCode) (db : Db)
    → row (λ j. j.id) id db.jobs ≡ none
    → DbValid db
    → DbValid (record db { jobs = db.jobs ++ bootstrapped_job now id machine profile c ∷ [] })
job-DbValid now id machine profile c db fresh v = record {
  code_ids = v.code_ids;
  code_hashes = v.code_hashes;
  token_hashes = v.token_hashes;
  jobs_valid = record {
    keyed =
        HasKeys-append (λ j. j.id) (λ j. j.id == id) db.jobs _ (λ z e. (==_iff z.id id).1 e)
          v.jobs_valid.keyed fresh;
    dated = All-append IsDated db.jobs _ v.jobs_valid.dated (refl, tt);
  };
}

-- A token under a new hash.
pub token-DbValid :
    (t : Token) (db : Db)
    → find (λ u. bytes_eq u.token_hash t.token_hash) db.tokens ≡ none
    → DbValid db
    → DbValid (record db { tokens = db.tokens ++ t ∷ [] })
token-DbValid t db fresh v = record {
  code_ids = v.code_ids;
  code_hashes = v.code_hashes;
  token_hashes =
      HasKeys-append (λ u. u.token_hash) (λ u. bytes_eq u.token_hash t.token_hash) db.tokens t
        (λ z e. (bytes_eq_iff z.token_hash t.token_hash).1 e) v.token_hashes fresh;
  jobs_valid = v.jobs_valid;
}

pub create_token-DbValid :
    (fails : Faults) (db : Db) (id code : ℕ) (hash : Bytes) (purpose : String) (expires : ℕ)
    → DbValid db
    → DbValid (create_one_shot_token fails db id code hash purpose expires).0
unfolding create_one_shot_token
create_token-DbValid fails db id code hash purpose expires v =
    elim (Bool-cases
      (fails insert_token || not (is_none (find (λ t. bytes_eq t.token_hash hash) db.tokens)))) [
        | inl broke ↦ rw broke v
        | inr works ↦ rw works (token-DbValid _ db (ground arith) v)
      ]

pub create_job-DbValid :
    (fails : Faults) (now : ℕ) (db : Db) (id machine profile code : ℕ)
    → row (λ j. j.id) id db.jobs ≡ none
    → DbValid db
    → DbValid (create_deployment_job fails now db id machine profile code).0
unfolding create_deployment_job
create_job-DbValid fails now db id machine profile code fresh v =
    elim (Bool-cases (fails insert_job)) [
      | inl broke ↦ rw broke v
      | inr works ↦ elim (Option-cases (find (λ c. c.id == code) db.codes)) [
        | inl gone ↦ rw (works, gone) v
        | inr (c, found) ↦ rw (works, found) (job-DbValid now id machine profile c db fresh v)
      ]
    ]

pub issue-DbValid :
    (fails : Faults) (db : Db) (new : AuthCode)
    → row (λ c. c.id) new.id db.codes ≡ none
    → DbValid db
    → DbValid (issue_auth_code fails db new).0
unfolding issue_auth_code
issue-DbValid fails db new fresh v =
    elim (Bool-cases (fails insert_code || not (is_none (find_code db new.code_hash)))) [
      | inl broke ↦ rw broke v
      | inr works ↦ rw works (record {
        code_ids =
            HasKeys-append (λ c. c.id) (λ c. c.id == new.id) db.codes new
              (λ z e. (==_iff z.id new.id).1 e) v.code_ids fresh;
        code_hashes =
            HasKeys-append (λ c. c.code_hash) (λ c. bytes_eq c.code_hash new.code_hash) db.codes new
              (λ z e. (bytes_eq_iff z.code_hash new.code_hash).1 e) v.code_hashes (ground arith);
        token_hashes = v.token_hashes;
        jobs_valid = v.jobs_valid;
      })
    ]
