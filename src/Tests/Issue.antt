-- ===== src/Tests/Issue.antt =====
-- Runs of handleIssueCode of services/auth-broker/internal/broker/broker.go.
use smart_deploy_linux.Prelude.Table.{count, find}
use smart_deploy_linux.Prelude.Keys.{row}
use smart_deploy_linux.Prelude.{
  ℕ, ◌≤◌, ◌≡◌, ◌⊎◌, refl, arith, ◌==◌, none, some, [], ◌∷◌, codes, Bytes, bytes_eq, if◌then◌else◌,
  str_eq,
}
use smart_deploy_linux.Prelude.Duration.{hour}
use smart_deploy_linux.Schema.{AuthCode, no_faults}
use smart_deploy_linux.Codes.{generate, normalize, hash_code}
use smart_deploy_linux.Broker.{find_code, is_recent_from}
use smart_deploy_linux.Broker.Issue.{
  IssueReq, Request, issued, Parsers, fine, check_ttl, check_order, issue_order, issue_checked,
  handle_issue_code, require_internal_secret,
}
use smart_deploy_linux.Broker.Lifetime.{IsLifetime, issued-IsLifetime}
use smart_deploy_linux.Broker.Issued.{Issuance, issue_success, issue-IssuesOrKeeps}
use smart_deploy_linux.Broker.EndToEnd.{issue_then_redeem}
use smart_deploy_linux.Broker.Redeem
use smart_deploy_linux.Broker.Accepts.{grant_reply}
use smart_deploy_linux.Broker.Sound.{boot_token}
use smart_deploy_linux.Tests.World.{hashes, config, open_db, open_db-DbValid, redeem_from}

abbrev parsers : Parsers
parsers = record {
  uuid = λ s. if str_eq s "" then none else some 5;
  prefix = λ s. some (λ ip. ip == 9);
}

abbrev req : IssueReq
req = record {
  machine_id = "m";
  profile_id = "p";
  ttl_seconds = 0;
  issued_for = "";
  binding_cidr = "10.0.0.9/32";
  issued_by = "i";
  kind = "";
  capture_image_id = "";
  capture_version_tag = "";
}

abbrev issue_request : Request
issue_request = record {
  now = 60;
  fails = no_faults;
  secret_header = codes "s3";
  body = some req;
  random = 255 ∷ 8 ∷ 9 ∷ 248 ∷ 41 ∷ 0 ∷ 1 ∷ 2 ∷ [];
  code_id = 8;
}

issue_run :
    (require_internal_secret hashes config parsers issue_request open_db).1
    ≡ issued (codes "ABC-234") 960
unfolding require_internal_secret handle_issue_code issue_checked issue_order check_order generate
    find bytes_eq count
issue_run = refl

overflow_passes :
    check_ttl config (record req { ttl_seconds = 10_000_000_000 }) ≡ fine 10_000_000_000_000_000_000
unfolding check_ttl
overflow_passes = refl

-- A request for ten thousand million seconds gets a code that has expired.
abbrev long_request : Request
long_request = record issue_request { body = some (record req { ttl_seconds = 10_000_000_000 }) }

long_run :
    (require_internal_secret hashes config parsers long_request open_db).1
    ≡ issued (codes "ABC-234") 0
unfolding require_internal_secret handle_issue_code issue_checked issue_order check_order generate
    find bytes_eq count
long_run = refl

abbrev hour_request : Request
hour_request = record issue_request { body = some (record req { ttl_seconds = 3600 }) }

hour_run :
    (require_internal_secret hashes config parsers hour_request open_db).1
    ≡ issued (codes "ABC-234") 3_600_000_000_060
unfolding require_internal_secret handle_issue_code issue_checked issue_order check_order generate
    find bytes_eq count
hour_run = refl

issued-IsLifetime_example : IsLifetime config.default_code_ttl 60 3600 3_600_000_000_060
issued-IsLifetime_example =
    issued-IsLifetime hashes config parsers hour_request (record req { ttl_seconds = 3600 }) open_db
      (codes "ABC-234") 3_600_000_000_060 refl hour_run

issue_success_example :
    ((config.issue_shared_secret ≡ []) ⊎ (issue_request.secret_header ≡ config.issue_shared_secret))
    × Issuance hashes config parsers issue_request open_db
        (codes "ABC-234")
        960
        (require_internal_secret hashes config parsers issue_request open_db).0
issue_success_example =
    issue_success hashes config parsers issue_request open_db (codes "ABC-234") 960 issue_run

issue-IssuesOrKeeps_example :
    ((require_internal_secret hashes config parsers issue_request open_db).0 ≡ open_db)
    ⊎ ((code : Bytes) × (until : ℕ) × ((require_internal_secret hashes config parsers issue_request
            open_db).1
          ≡ issued code until))
issue-IssuesOrKeeps_example = issue-IssuesOrKeeps hashes config parsers issue_request open_db

abbrev stored : AuthCode
stored = record {
  id = 8;
  code_hash = hash_code hashes.argon2id (codes "ABC-234") config.deploy_fqdn;
  machine_id = 5;
  profile_id = 5;
  issued_by = some 5;
  issued_at = 60;
  binding = some (λ ip. ip == 9);
  expires_at = 960;
  attempts = 0;
  locked_at = none;
  redeemed_at = none;
  kind = "deploy";
  capture_image_id = none;
  capture_version_tag = none;
}

stored_found :
    find_code
      (require_internal_secret hashes config parsers issue_request open_db).0
      (hash_code hashes.argon2id (codes "ABC-234") config.deploy_fqdn)
    ≡ some stored
unfolding require_internal_secret handle_issue_code issue_checked issue_order check_order generate
    find bytes_eq count hash_code
stored_found = refl

same_spelling : normalize (codes "abc 234") ≡ normalize (codes "ABC-234")
unfolding normalize
same_spelling = refl

abbrev second_req : Redeem.RedeemReq
second_req = record { code = codes "abc 234"; stick_image_sha256 = []; boot_uuid = [] }

abbrev second_request : Redeem.Request
second_request = record (redeem_from 9) { body = some second_req }

few_attempts :
    count
      (is_recent_from 100 hour 9)
      (require_internal_secret hashes config parsers issue_request open_db).0.attempts
    ≤ config.rate_redeem_per_ip_hour
unfolding require_internal_secret handle_issue_code issue_checked issue_order check_order generate
    find bytes_eq count
few_attempts = ground arith

no_token :
    find
      (λ t.
        bytes_eq t.token_hash
          (boot_token hashes config second_request stored (1 ∷ 2 ∷ 3 ∷ [])).token_hash)
      (require_internal_secret hashes config parsers issue_request open_db).0.tokens
    ≡ none
unfolding require_internal_secret handle_issue_code issue_checked issue_order check_order generate
    find bytes_eq count
no_token = refl

fresh_code : row (λ c. c.id) 8 open_db.codes ≡ none
unfolding find
fresh_code = refl

issue_then_redeem_example :
    (Redeem.handle_redeem hashes config second_request
      (require_internal_secret hashes config parsers issue_request open_db).0).reply
    ≡ Redeem.redeemed
        (grant_reply config second_request stored (codes "key") (codes "url") (1 ∷ 2 ∷ 3 ∷ []))
issue_then_redeem_example =
    issue_then_redeem hashes config parsers issue_request open_db (codes "ABC-234") 960 stored
      second_request second_req (codes "key") (codes "url") (1 ∷ 2 ∷ 3 ∷ []) open_db-DbValid
      fresh_code issue_run stored_found (λ s. refl) few_attempts refl same_spelling (ground arith)
      refl refl refl no_token
