-- ===== src/Broker.antt =====
-- The auth-broker (services/auth-broker/internal): the queries of db/db.go on the shared tables, and
-- the configuration that the handlers read. The handlers are in Broker/Redeem and Broker/Issue.
pub mod Redeem
pub mod Issue
pub mod Stages
pub mod Keeps
pub mod Valid
pub mod Sound
pub mod Success
pub mod Changes
pub mod Once
pub mod Accepts
pub mod Rate
pub mod Limits
pub mod Checks
pub mod Issued
pub mod Lifetime
pub mod EndToEnd
pub mod Opens
use smart_deploy_linux.Prelude.Table.{find, update, count, select}
use smart_deploy_linux.Prelude.{
  ℕ, suc, ◌+◌, Bool, true, false, not, ◌&&◌, ◌||◌, Option, none, some, String, List, [], ◌∷◌, ◌++◌,
  Bytes, bytes_eq, str_eq, ltb, leb, ◌==◌, if◌then◌else◌, is_none, holds_id,
}
use smart_deploy_linux.Schema.{
  AuthCode, Token, Job, Attempt, Db, bootstrapped, Faults, record_attempt, increment_attempt,
  consume_code, reread_code, insert_job, insert_token, count_issued, insert_code, Error, db_error,
  not_found, code_locked, code_already_consumed, code_expired, consume_unknown, Result, ok, err,
}

pub record Config : Type 0 where
  pub deploy_fqdn : Bytes  -- also the pepper of every hash
  pub default_code_ttl : ℕ
  pub ts_authkey_ttl : ℕ
  pub rate_redeem_per_ip_hour : ℕ
  pub rate_redeem_per_code : ℕ
  pub rate_issue_per_op_hour : ℕ
  pub issue_shared_secret : Bytes

-- The digest functions that the services call.
pub record Hashes : Type 0 where
  pub argon2id : Bytes → Bytes → Bytes  -- of a code and a salt, at the cost that Hash names
  pub sha256 : Bytes → Bytes

abbrev pub find_code : Db → Bytes → Option AuthCode
find_code db hash = find (λ c. bytes_eq c.code_hash hash) db.codes

-- The WHERE clause of ConsumeCode.
abbrev pub is_redeemable : ℕ → Bytes → AuthCode → Bool
is_redeemable now hash c =
    bytes_eq c.code_hash hash
    && is_none c.redeemed_at
    && is_none c.locked_at
    && ltb now c.expires_at

abbrev pub redeem_now : ℕ → AuthCode → AuthCode
redeem_now now c = record c { redeemed_at = some now }

-- Why the UPDATE of ConsumeCode found no row, by reading the code again.
unfoldable pub consume_error : Faults → ℕ → Db → Bytes → Error
consume_error fails now db hash = if fails reread_code then db_error else elim (find_code db hash) [
  | none ↦ not_found
  | some cur ↦
      if not (is_none cur.locked_at)
      then code_locked
      else if not (is_none cur.redeemed_at)
      then code_already_consumed
      else if ltb cur.expires_at now
      then code_expired
      else consume_unknown
]

-- ConsumeCode; the address that it stores is left out, since nothing reads it.
unfoldable pub consume_auth_code : Faults → ℕ → Db → Bytes → Db × Result AuthCode
unfolding consume_error
consume_auth_code fails now db hash =
    if fails consume_code
    then (db, err db_error)
    else elim (find (is_redeemable now hash) db.codes) [
      | none ↦ (db, err (consume_error fails now db hash))
      | some c ↦ (
        record db { codes = update (is_redeemable now hash) (redeem_now now) db.codes },
        ok (redeem_now now c),
      )
    ]

abbrev pub bump : ℕ → ℕ → AuthCode → AuthCode
bump now cap c = record c {
  attempts = c.attempts + 1;
  locked_at = if leb cap (c.attempts + 1) then some now else c.locked_at;
}

-- IncrementAttempt; no caller reads what it returns.
unfoldable pub increment_code_attempt : Faults → ℕ → Db → Bytes → ℕ → Db
increment_code_attempt fails now db hash cap =
    if fails increment_attempt
    then db
    else record db { codes = update (λ c. bytes_eq c.code_hash hash) (bump now cap) db.codes }

-- `at > now() - window`.
abbrev pub within : ℕ → ℕ → ℕ → Bool
within now window at = ltb now (at + window)

abbrev pub is_recent_from : ℕ → ℕ → ℕ → Attempt → Bool
is_recent_from now window ip a = a.source_ip == ip && within now window a.at

-- RecordPerIPAttempt. The parts of a WITH query run on one snapshot, so the count does not see the
-- row that the same statement inserts.
unfoldable pub record_per_ip_attempt : Faults → ℕ → Db → ℕ → ℕ → Db × Result ℕ
record_per_ip_attempt fails now db ip window =
    if fails record_attempt then (db, err db_error) else (
      record db { attempts = db.attempts ++ record { source_ip = ip; at = now } ∷ [] },
      ok (count (is_recent_from now window ip) db.attempts),
    )

-- CreateOneShotToken; `token_hash` is UNIQUE.
unfoldable pub create_one_shot_token : Faults → Db → ℕ → ℕ → Bytes → String → ℕ → Db × Option Error
create_one_shot_token fails db id auth_code_id token_hash purpose expires_at =
    if fails insert_token || not (is_none (find (λ t. bytes_eq t.token_hash token_hash) db.tokens))
    then (db, some db_error)
    else (
      record db {
        tokens =
            db.tokens
            ++ record {
              id = id;
              auth_code_id = auth_code_id;
              token_hash = token_hash;
              purpose = purpose;
              expires_at = expires_at;
              consumed_at = none;
            }
              ∷ [];
      },
      none,
    )

-- The row that CreateDeploymentJob inserts: it copies the kind and the capture target of the code.
abbrev pub bootstrapped_job : ℕ → ℕ → ℕ → ℕ → AuthCode → Job
bootstrapped_job now id machine_id profile_id c = record {
  id = id;
  machine_id = machine_id;
  profile_id = profile_id;
  auth_code_id = some c.id;
  state = bootstrapped;
  created_at = now;
  started_at = some now;
  finished_at = none;
  notified_at = none;
  kind = c.kind;
  capture_image_id = c.capture_image_id;
  capture_version_tag = c.capture_version_tag;
}

-- CreateDeploymentJob: INSERT … SELECT … FROM auth_codes WHERE id = auth_code_id.
unfoldable pub create_deployment_job : Faults → ℕ → Db → ℕ → ℕ → ℕ → ℕ → Db × Option Error
create_deployment_job fails now db id machine_id profile_id auth_code_id =
    if fails insert_job
    then (db, some db_error)
    else elim (find (λ c. c.id == auth_code_id) db.codes) [
      | none ↦ (db, some db_error)
      | some c ↦ (
        record db { jobs = db.jobs ++ bootstrapped_job now id machine_id profile_id c ∷ [] },
        none,
      )
    ]

-- CountIssuedByActorRecently.
unfoldable pub count_issued_by : Faults → ℕ → Db → ℕ → ℕ → Result ℕ
count_issued_by fails now db actor window =
    if fails count_issued
    then err db_error
    else ok (count (λ c. holds_id c.issued_by actor && within now window c.issued_at) db.codes)

-- IssueCode, on the row to insert; `code_hash` is UNIQUE.
unfoldable pub issue_auth_code : Faults → Db → AuthCode → Db × Option Error
issue_auth_code fails db row =
    if fails insert_code || not (is_none (find_code db row.code_hash))
    then (db, some db_error)
    else (record db { codes = db.codes ++ row ∷ [] }, none)
