-- ===== src/Tests/PhoneHome.antt =====
-- Runs of appendDeploymentEvent of services/api/cmd/api/render.go.
use smart_deploy_linux.Prelude.Table.{find}
use smart_deploy_linux.Prelude.{◌≡◌, refl, false, some, [], ◌∷◌, Bytes, codes, bytes_eq}
use smart_deploy_linux.Schema.{bootstrapped, completed, Job, Db, no_faults, ok}
use smart_deploy_linux.Jobs.{find_job}
use smart_deploy_linux.Jobs.Advance.{later}
use smart_deploy_linux.Tokens.{verify_phone_home_token}
use smart_deploy_linux.Tokens.Hash.{hash_boot_token}
use smart_deploy_linux.PhoneHome.{
  AppendEventReq, Request, accepted, invalid_token, refusal, append_deployment_event,
  map_phase_to_state,
}
use smart_deploy_linux.PhoneHome.Progress.{report_advances, completed_is_last}
use smart_deploy_linux.Tests.World.{hashes, config, booted_job, live_token, job_db}

abbrev fqdn : Bytes
fqdn = config.deploy_fqdn

abbrev home_db : Db
home_db = record (job_db bootstrapped) {
  tokens = record live_token { token_hash = hash_boot_token hashes.sha256 (codes "t") fqdn } ∷ [];
}

abbrev req : AppendEventReq
req = record { phase = "completed"; message = "" }

abbrev report : Request
report = record {
  now = 120;
  fails = no_faults;
  advance_fails = λ _. no_faults;
  advance_reading = no_faults;
  job_id = some 41;
  token = codes "t";
  body = some req;
}

allowed_token :
    verify_phone_home_token no_faults 120 home_db
      (hash_boot_token hashes.sha256 (codes "t") fqdn)
      41
    ≡ ok (21, 31)
unfolding verify_phone_home_token find bytes_eq hash_boot_token
allowed_token = refl

job_found : find_job home_db 41 ≡ some (booted_job bootstrapped)
unfolding find
job_found = refl

some_token : bytes_eq (codes "t") [] ≡ false
unfolding bytes_eq
some_token = refl

target : map_phase_to_state "completed" ≡ some completed
unfolding map_phase_to_state
target = refl

report_advances_example :
    let out = append_deployment_event hashes.sha256 fqdn report home_db in
    (out.reply ≡ accepted)
    × ((k : Job) × (find_job out.db 41 ≡ some k) × (k.state ≡ later bootstrapped completed))
report_advances_example =
    report_advances hashes.sha256 fqdn report 41 home_db (booted_job bootstrapped) (21, 31) req
      completed (refl, refl, refl) refl some_token allowed_token job_found refl refl target refl

completed_is_last_example :
    let left = (append_deployment_event hashes.sha256 fqdn report home_db).db in
    append_deployment_event hashes.sha256 fqdn report left ≡ refusal left invalid_token
completed_is_last_example =
    completed_is_last hashes.sha256 fqdn report 41 home_db (booted_job bootstrapped) (21, 31) req
      report (refl, refl, refl) refl some_token allowed_token job_found refl refl refl refl refl
      some_token
