-- ===== src/Broker/Redeem.antt =====
-- handleRedeem of services/auth-broker/internal/broker/broker.go, stage by stage. The clock, the source
-- address, the decoded body, the random bytes, the new ids and the answer of the overlay network come
-- from outside; so do Argon2 and SHA-256.
use smart_deploy_linux.Prelude.{
  ℕ, ◌+◌, Bool, true, false, not, Option, none, some, List, [], ◌∷◌, ◌++◌, Bytes, codes, ltb,
  if◌then◌else◌, is_none,
}
use smart_deploy_linux.Prelude.Duration.{hour}
use smart_deploy_linux.Schema.{AuthCode, Db, Faults, find_code as find_code_fails, Result, ok, err}
use smart_deploy_linux.Codes.{normalize, hash_code}
use smart_deploy_linux.Tokens.Hash.{hash_boot_token}
use smart_deploy_linux.Tokens.Base64.{base64url}
use smart_deploy_linux.Broker.{
  Config, Hashes, find_code, consume_auth_code, increment_code_attempt, record_per_ip_attempt,
  create_one_shot_token, create_deployment_job,
}

pub record RedeemReq : Type 0 where
  pub code : Bytes
  pub stick_image_sha256 : Bytes
  pub boot_uuid : Bytes

pub record RedeemResp : Type 0 where
  pub auth_key : Bytes
  pub control_url : Bytes
  pub chainload_url : Bytes
  pub machine_id : ℕ
  pub expires_at : ℕ

pub data Reply : Type 0 where
  rate_limited bad_json bad_code_format invalid_code code_gone ip_not_allowed : Reply
  overlay_unavailable server_error : Reply
  redeemed : RedeemResp → Reply

-- The HTTP status of each reply.
unfoldable pub status : Reply → ℕ
status rate_limited = 429
status bad_json = 400
status bad_code_format = 400
status invalid_code = 401
status code_gone = 410
status ip_not_allowed = 401
status overlay_unavailable = 502
status server_error = 500
status (redeemed _) = 200

-- The audit records, with their reasons.
pub data Audit : Type 0 where
  failed_not_found : Audit
  failed_consumed failed_expired failed_binding failed_job : ℕ → Audit
  code_redeemed : ℕ → ℕ → Audit

pub record Request : Type 0 where
  pub now : ℕ
  pub src_ip : ℕ
  pub fails : Faults
  pub body : Option RedeemReq
  pub overlay : Option (Bytes × Bytes)  -- the auth key and the control URL
  pub random : Option Bytes
  pub job_id : ℕ
  pub token_id : ℕ

pub record Outcome : Type 0 where
  pub db : Db
  pub reply : Reply
  pub audits : List Audit

abbrev pub quiet : Db → Reply → Outcome
quiet db r = record { db = db; reply = r; audits = [] }

abbrev pub audited : Db → Reply → Audit → Outcome
audited db r a = record { db = db; reply = r; audits = a ∷ [] }

abbrev pub in_binding : Option (ℕ → Bool) → ℕ → Bool
in_binding none ip = true
in_binding (some contains) ip = contains ip

abbrev pub chain_url : Bytes → Bytes → Bytes
chain_url fqdn token = codes "https://" ++ (fqdn ++ (codes "/boot/" ++ (token ++ codes ".ipxe")))

module _ (k : Hashes) (cfg : Config) where
  -- The boot token, once the code is consumed and its job exists.
  unfoldable pub grant_token : Request → Db → AuthCode → Bytes → Bytes → Outcome
  unfolding create_one_shot_token hash_boot_token base64url
  grant_token r db consumed key url = elim r.random [
    | none ↦ quiet db server_error
    | some bytes ↦
        let token = base64url bytes in
        let (db', failed) =
          create_one_shot_token r.fails db r.token_id consumed.id
            (hash_boot_token k.sha256 token cfg.deploy_fqdn) "boot" (r.now + cfg.ts_authkey_ttl) in
        elim failed [
          | some _ ↦ quiet db' server_error
          | none ↦
              audited db'
                (redeemed (record {
                  auth_key = key;
                  control_url = url;
                  chainload_url = chain_url cfg.deploy_fqdn token;
                  machine_id = consumed.machine_id;
                  expires_at = r.now + cfg.ts_authkey_ttl;
                }))
                (code_redeemed consumed.id r.job_id)
        ]
  ]

  unfoldable pub grant_job : Request → Db → AuthCode → Bytes → Bytes → Outcome
  unfolding create_deployment_job
  grant_job r db consumed key url =
      let (db', failed) =
        create_deployment_job r.fails r.now db r.job_id consumed.machine_id consumed.profile_id
          consumed.id in
      elim failed [
        | some _ ↦ audited db' server_error (failed_job consumed.id)
        | none ↦ grant_token r db' consumed key url
      ]

  -- All gates passed: the key is minted before the code is consumed.
  unfoldable pub grant : Request → Db → Bytes → Outcome
  unfolding consume_auth_code
  grant r db hash = elim r.overlay [
    | none ↦ quiet db overlay_unavailable
    | some (key, url) ↦
        let (db', result) = consume_auth_code r.fails r.now db hash in
        elim result [ err _ ↦ quiet db' code_gone | ok consumed ↦ grant_job r db' consumed key url ]
  ]

  -- The checks of the row: locked, redeemed, expired, bound to other addresses.
  unfoldable pub check_row : Request → Db → Bytes → AuthCode → Outcome
  unfolding increment_code_attempt
  check_row r db hash row =
      if not (is_none row.locked_at)
      then quiet db code_gone
      else if not (is_none row.redeemed_at)
      then audited db code_gone (failed_consumed row.id)
      else if ltb row.expires_at r.now
      then audited db code_gone (failed_expired row.id)
      else if not (in_binding row.binding r.src_ip)
      then audited (increment_code_attempt r.fails r.now db hash cfg.rate_redeem_per_code)
          ip_not_allowed (failed_binding row.id)
      else grant r db hash

  unfoldable pub look_up : Request → Db → Bytes → Outcome
  look_up r db hash =
      if r.fails find_code_fails then quiet db server_error else elim (find_code db hash) [
        | none ↦ audited db invalid_code failed_not_found
        | some row ↦ check_row r db hash row
      ]

  unfoldable pub decode : Request → Db → Outcome
  unfolding hash_code
  decode r db = elim r.body [
    | none ↦ quiet db bad_json
    | some req ↦ elim (normalize req.code) [
      | err _ ↦ quiet db bad_code_format
      | ok normalized ↦ look_up r db (hash_code k.argon2id normalized cfg.deploy_fqdn)
    ]
  ]

  -- An error of the counter is logged, and the request goes on.
  abbrev pub is_over : Result ℕ → Bool
  is_over (err _) = false
  is_over (ok cnt) = ltb cfg.rate_redeem_per_ip_hour cnt

  unfoldable pub handle_redeem : Request → Db → Outcome
  unfolding record_per_ip_attempt
  handle_redeem r db =
      let (db', counted) = record_per_ip_attempt r.fails r.now db r.src_ip hour in
      if is_over counted then quiet db' rate_limited else decode r db'
