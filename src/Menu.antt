-- ===== src/Menu.antt =====
-- MintMenuBootToken of services/api/internal/store/store.go: the boot token of the PXE menu. It runs in
-- one transaction, so that an error leaves the tables as they were.
pub mod Mint
pub mod Stored
use smart_deploy_linux.Prelude.Table.{find, update, select, newest}
use smart_deploy_linux.Prelude.{
  ℕ, ◌+◌, Bool, true, false, not, ◌&&◌, ◌||◌, Option, none, some, List, [], ◌∷◌, ◌++◌, Bytes,
  bytes_eq, ◌==◌, if◌then◌else◌, is_none,
}
use smart_deploy_linux.Schema.{
  State, pending, AuthCode, Token, Job, Db, Faults, select_active_job, insert_menu_code, insert_job,
  attach_menu_code, insert_token, commit, Error, db_error, Result, ok, err,
}
use smart_deploy_linux.Jobs.{is_terminal}

pub record Request : Type 0 where
  pub now : ℕ
  pub fails : Faults
  pub machine_id : ℕ
  pub profile_id : ℕ
  pub token_hash : Bytes
  pub ttl : ℕ
  pub random_hash : Bytes  -- 'pxe-menu:' and the digest of the random text
  pub code_id : ℕ
  pub job_id : ℕ
  pub token_id : ℕ

-- The newest job of the machine and profile that has not ended.
abbrev pub active_job : Request → Db → Option Job
active_job r db =
    newest (λ j. j.created_at)
      (select
        (λ j.
          j.machine_id == r.machine_id && j.profile_id == r.profile_id && not (is_terminal j.state))
        db.jobs)

-- The synthetic code: expired and redeemed from the start; `kind` has its default.
abbrev pub menu_code : Request → AuthCode
menu_code r = record {
  id = r.code_id;
  code_hash = r.random_hash;
  machine_id = r.machine_id;
  profile_id = r.profile_id;
  issued_by = none;
  issued_at = r.now;
  binding = none;
  expires_at = r.now;
  attempts = 0;
  locked_at = none;
  redeemed_at = some r.now;
  kind = "deploy";
  capture_image_id = none;
  capture_version_tag = none;
}

abbrev pub menu_job : Request → Job
menu_job r = record {
  id = r.job_id;
  machine_id = r.machine_id;
  profile_id = r.profile_id;
  auth_code_id = some r.code_id;
  state = pending;
  created_at = r.now;
  started_at = none;
  finished_at = none;
  notified_at = none;
  kind = "deploy";
  capture_image_id = none;
  capture_version_tag = none;
}

abbrev pub menu_token : Request → ℕ → Token
menu_token r code_id = record {
  id = r.token_id;
  auth_code_id = code_id;
  token_hash = r.token_hash;
  purpose = "boot";
  expires_at = r.now + r.ttl;
  consumed_at = none;
}

-- The last statement and the commit; `before` is what a rollback brings back.
unfoldable pub add_token : Request → Db → Db → ℕ → ℕ → Db × Result ℕ
add_token r before db code_id job_id =
    if r.fails insert_token
      || not (is_none (find (λ t. bytes_eq t.token_hash r.token_hash) db.tokens))
      || r.fails commit
    then (before, err db_error)
    else (record db { tokens = db.tokens ++ menu_token r code_id ∷ [] }, ok job_id)

abbrev pub with_code : Request → Db → Db
with_code r db = record db { codes = db.codes ++ menu_code r ∷ [] }

-- No usable job: a new code, and a new job or the job without a code.
unfoldable pub mint_new : Request → Db → Option ℕ → Db × Result ℕ
unfolding add_token
mint_new r db found =
    if r.fails insert_menu_code
      || not (is_none (find (λ c. bytes_eq c.code_hash r.random_hash) db.codes))
    then (db, err db_error)
    else elim found [
      | none ↦
          if r.fails insert_job
          then (db, err db_error)
          else (let coded = with_code r db in
              add_token r db (record coded { jobs = db.jobs ++ menu_job r ∷ [] }) r.code_id
                r.job_id)
      | some id ↦
          if r.fails attach_menu_code
          then (db, err db_error)
          else (let coded = with_code r db in
              let attached =
                update (λ j. j.id == id) (λ j. record j { auth_code_id = some r.code_id })
                  db.jobs in
              add_token r db (record coded { jobs = attached }) r.code_id id)
    ]

unfoldable pub mint_menu_boot_token : Request → Db → Db × Result ℕ
unfolding mint_new add_token
mint_menu_boot_token r db =
    if r.fails select_active_job then (db, err db_error) else elim (active_job r db) [
      | none ↦ mint_new r db none
      | some j ↦ elim j.auth_code_id [
        | none ↦ mint_new r db (some j.id)
        | some code_id ↦ add_token r db db code_id j.id
      ]
    ]
