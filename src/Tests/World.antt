-- ===== src/Tests/World.antt =====
-- A small world for the runs: digests that keep their input, one open code, one job.
use smart_deploy_linux.Prelude.{◌≡◌, refl, ℕ, ◌==◌, none, some, [], ◌∷◌, Bytes, codes}
use smart_deploy_linux.Schema.{State, imaging, failed, AuthCode, Token, Job, Db, no_faults}
use smart_deploy_linux.Prelude.Table.{find}
use smart_deploy_linux.Jobs.{find_job, transition_job, check_transition, write_transition}
use smart_deploy_linux.Valid.{DbValid}
use smart_deploy_linux.Codes.{hash_code}
use smart_deploy_linux.Broker.{Config, Hashes}
use smart_deploy_linux.Broker.Redeem.{Request, RedeemReq}

abbrev pub hashes : Hashes
hashes = record { argon2id = λ code salt. code; sha256 = λ input. [] }

abbrev pub config : Config
config = record {
  deploy_fqdn = codes "d.example";
  default_code_ttl = 900;
  ts_authkey_ttl = 50;
  rate_redeem_per_ip_hour = 2;
  rate_redeem_per_code = 1;
  rate_issue_per_op_hour = 2;
  issue_shared_secret = codes "s3";
}

abbrev pub code_hash : Bytes
unfolding hash_code
code_hash = hash_code hashes.argon2id (codes "ABC-DEF") config.deploy_fqdn

abbrev pub open_code : AuthCode
open_code = record {
  id = 7;
  code_hash = code_hash;
  machine_id = 21;
  profile_id = 31;
  issued_by = some 5;
  issued_at = 10;
  binding = some (λ ip. ip == 9);
  expires_at = 200;
  attempts = 0;
  locked_at = none;
  redeemed_at = none;
  kind = "deploy";
  capture_image_id = none;
  capture_version_tag = none;
}

abbrev pub open_db : Db
open_db = record { codes = open_code ∷ []; tokens = []; jobs = []; events = []; attempts = [] }

pub open_db-DbValid : DbValid open_db
open_db-DbValid = record {
  code_ids = (tt, tt);
  code_hashes = (tt, tt);
  token_hashes = tt;
  jobs_valid = record { keyed = tt; dated = tt };
}

-- A request for the code, in lower case and without its dash.
abbrev pub redeem_req : RedeemReq
redeem_req = record { code = codes " abcdef"; stick_image_sha256 = []; boot_uuid = [] }

abbrev pub redeem_from : ℕ → Request
redeem_from ip = record {
  now = 100;
  src_ip = ip;
  fails = no_faults;
  body = some redeem_req;
  overlay = some (codes "key", codes "url");
  random = some (1 ∷ 2 ∷ 3 ∷ []);
  job_id = 41;
  token_id = 51;
}

-- A job in "bootstrapped" with its boot token.
abbrev pub booted_job : State → Job
booted_job s = record {
  id = 41;
  machine_id = 21;
  profile_id = 31;
  auth_code_id = some 7;
  state = s;
  created_at = 100;
  started_at = some 100;
  finished_at = none;
  notified_at = none;
  kind = "deploy";
  capture_image_id = none;
  capture_version_tag = none;
}

abbrev pub live_token : Token
live_token = record {
  id = 51;
  auth_code_id = 7;
  token_hash = codes "hash";
  purpose = "boot";
  expires_at = 150;
  consumed_at = none;
}

abbrev pub job_db : State → Db
job_db s = record {
  codes = open_code ∷ [];
  tokens = live_token ∷ [];
  jobs = booted_job s ∷ [];
  events = [];
  attempts = [];
}

pub job_found : (s : State) → find_job (job_db s) 41 ≡ some (booted_job s)
unfolding find
job_found s = refl

pub job_db-DbValid : DbValid (job_db imaging)
job_db-DbValid = record {
  code_ids = (tt, tt);
  code_hashes = (tt, tt);
  token_hashes = (tt, tt);
  jobs_valid = record { keyed = (tt, tt); dated = (refl, tt) };
}

pub to_failed : (transition_job no_faults 120 (job_db imaging) 41 failed).1 ≡ none
unfolding transition_job check_transition write_transition find
to_failed = refl
