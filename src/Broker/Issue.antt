-- ===== src/Broker/Issue.antt =====
-- handleIssueCode of services/auth-broker/internal/broker/broker.go, and requireInternalSecret of
-- middleware.go in front of it. The parsers of UUIDs and of address prefixes come from outside.
use smart_deploy_linux.Prelude.{
  ℕ, ◌*◌, Bool, false, not, ◌&&◌, Option, none, some, String, [], Bytes, bytes_eq, str_eq, ltb, leb,
  if◌then◌else◌,
}
use smart_deploy_linux.Prelude.Duration.{second, hour, day, times, is_negative, add_duration}
use smart_deploy_linux.Schema.{AuthCode, Db, Faults, Result, ok, err}
use smart_deploy_linux.Codes.{generate, hash_code}
use smart_deploy_linux.Broker.{Config, Hashes, count_issued_by, issue_auth_code}

pub record IssueReq : Type 0 where
  pub machine_id : String
  pub profile_id : String
  pub ttl_seconds : ℕ  -- 0 stands for all that is not positive
  pub issued_for : String
  pub binding_cidr : String
  pub issued_by : String
  pub kind : String
  pub capture_image_id : String
  pub capture_version_tag : String

pub data Reply : Type 0 where
  bad_json bad_machine_id bad_profile_id bad_issued_by bad_capture_image_id bad_kind : Reply
  ttl_too_long bad_binding_cidr rate_limited server_error not_found : Reply
  issued : Bytes → ℕ → Reply

pub record Request : Type 0 where
  pub now : ℕ
  pub fails : Faults
  pub secret_header : Bytes
  pub body : Option IssueReq
  pub random : Bytes
  pub code_id : ℕ

-- uuid.Parse and netip.ParsePrefix.
pub record Parsers : Type 0 where
  pub uuid : String → Option ℕ
  pub prefix : String → Option (ℕ → Bool)

-- What the input validation hands on.
pub record Order : Type 0 where
  pub machine_id : ℕ
  pub profile_id : ℕ
  pub issued_by : ℕ
  pub kind : String
  pub capture_image_id : Option ℕ
  pub ttl : ℕ  -- a time.Duration
  pub binding : Option (ℕ → Bool)

pub data Checked {ℓ} (A : Type ℓ) : Type ℓ where
  fine : A → Checked A
  refuse : Reply → Checked A

infixl 5 ◌>>=◌
abbrev pub ◌>>=◌ {ℓ κ} : {A : Type ℓ} {B : Type κ} → Checked A → (A → Checked B) → Checked B
fine a >>= f = f a
refuse r >>= f = refuse r

abbrev pub need {ℓ} : {A : Type ℓ} → Option A → Reply → Checked A
need none r = refuse r
need (some a) r = fine a

abbrev pub week : ℕ
week = 7 * day

-- The switch on the kind: the kind and the capture target.
unfoldable pub check_kind : Parsers → IssueReq → Checked (String × Option ℕ)
check_kind parse req =
    let kind = if str_eq req.kind "" then "deploy" else req.kind in
    if str_eq kind "deploy"
    then fine (kind, none)
    else if str_eq kind "capture"
    then (do u ← need (parse.uuid req.capture_image_id) bad_capture_image_id; fine (kind, some u))
    else refuse bad_kind

unfoldable pub check_ttl : Config → IssueReq → Checked ℕ
unfolding times
check_ttl cfg req =
    let ttl = times req.ttl_seconds second in
    if ltb 0 req.ttl_seconds
    then (if not (is_negative ttl) && ltb week ttl then refuse ttl_too_long else fine ttl)
    else fine cfg.default_code_ttl

unfoldable pub check_binding : Parsers → IssueReq → Checked (Option (ℕ → Bool))
check_binding parse req =
    if str_eq req.binding_cidr ""
    then fine none
    else (do p ← need (parse.prefix req.binding_cidr) bad_binding_cidr; fine (some p))

unfoldable pub check_order : Config → Parsers → IssueReq → Checked Order
unfolding check_kind check_ttl check_binding
check_order cfg parse req = do
  machine_id ← need (parse.uuid req.machine_id) bad_machine_id
  profile_id ← need (parse.uuid req.profile_id) bad_profile_id
  issued_by ← need (parse.uuid req.issued_by) bad_issued_by
  kinds ← check_kind parse req
  ttl ← check_ttl cfg req
  binding ← check_binding parse req
  fine (record {
    machine_id = machine_id;
    profile_id = profile_id;
    issued_by = issued_by;
    kind = kinds.0;
    capture_image_id = kinds.1;
    ttl = ttl;
    binding = binding;
  })

-- An error of the quota's query is logged, and the request goes on.
abbrev pub is_over : Config → Result ℕ → Bool
is_over cfg (err _) = false
is_over cfg (ok cnt) = leb cfg.rate_issue_per_op_hour cnt

-- The row that IssueCode inserts; an empty version tag is stored as NULL.
abbrev pub issued_row : Request → Order → String → Bytes → AuthCode
issued_row r o tag hash = record {
  id = r.code_id;
  code_hash = hash;
  machine_id = o.machine_id;
  profile_id = o.profile_id;
  issued_by = some o.issued_by;
  issued_at = r.now;
  binding = o.binding;
  expires_at = add_duration r.now o.ttl;
  attempts = 0;
  locked_at = none;
  redeemed_at = none;
  kind = o.kind;
  capture_image_id = o.capture_image_id;
  capture_version_tag = if str_eq tag "" then none else some tag;
}

module _ (k : Hashes) (cfg : Config) (parse : Parsers) where
  -- Behind the validation: the quota, the code, the row.
  unfoldable pub issue_order : Request → Db → Order → String → Db × Reply
  unfolding count_issued_by generate hash_code issue_auth_code
  issue_order r db o tag =
      if is_over cfg (count_issued_by r.fails r.now db o.issued_by hour)
      then (db, rate_limited)
      else elim (generate r.random) [
        | err _ ↦ (db, server_error)
        | ok code ↦
            let row = issued_row r o tag (hash_code k.argon2id code cfg.deploy_fqdn) in
            let (db', failed) = issue_auth_code r.fails db row in
            (db', elim failed [ some _ ↦ server_error | none ↦ issued code row.expires_at ])
      ]

  unfoldable pub issue_checked : Request → Db → Checked Order → String → Db × Reply
  unfolding issue_order
  issue_checked r db (refuse reply) tag = (db, reply)
  issue_checked r db (fine o) tag = issue_order r db o tag

  unfoldable pub handle_issue_code : Request → Db → Db × Reply
  unfolding check_order issue_checked
  handle_issue_code r db = elim r.body [
    | none ↦ (db, bad_json)
    | some req ↦ issue_checked r db (check_order cfg parse req) req.capture_version_tag
  ]

  -- Without a secret in the configuration the route is open.
  unfoldable pub require_internal_secret : Request → Db → Db × Reply
  unfolding handle_issue_code
  require_internal_secret r db =
      if bytes_eq cfg.issue_shared_secret []
      then handle_issue_code r db
      else if not (bytes_eq r.secret_header cfg.issue_shared_secret)
      then (db, not_found)
      else handle_issue_code r db
