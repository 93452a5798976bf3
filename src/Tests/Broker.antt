-- ===== src/Tests/Broker.antt =====
-- Runs of the handlers of services/auth-broker/internal/broker/broker.go.
use smart_deploy_linux.Prelude.Table.{count, find, update}
use smart_deploy_linux.Prelude.{
  bytes_eq, ℕ, ◌≤◌, ◌≡◌, ◌≢◌, refl, arith, none, some, [], ◌∷◌, codes, Bytes,
}
use smart_deploy_linux.Prelude.Duration.{hour}
use smart_deploy_linux.Schema.{no_faults, ok}
use smart_deploy_linux.Jobs.{find_job}
use smart_deploy_linux.Tokens.{verify_one_shot_token_for_job, boot_token_machine}
use smart_deploy_linux.Tokens.Hash.{hash_boot_token}
use smart_deploy_linux.Codes.{normalize, hash_code}
use smart_deploy_linux.Broker.{find_code, is_recent_from}
use smart_deploy_linux.Broker.Redeem.{
  chain_url, Request, RedeemResp, redeemed, code_gone, handle_redeem, decode, look_up, check_row,
  grant, grant_job, grant_token,
}
use smart_deploy_linux.Broker.Success.{Redemption, redeem_success}
use smart_deploy_linux.Broker.Accepts.{grant_reply}
use smart_deploy_linux.Broker.Once.{serve, redeem_once}
use smart_deploy_linux.Broker.Limits.{Mismatch}
use smart_deploy_linux.Broker.Opens.{redeem_opens}
use smart_deploy_linux.Tests.World.{
  hashes, config, open_code, open_db, open_db-DbValid, redeem_req, redeem_from,
}

abbrev random : Bytes
random = 1 ∷ 2 ∷ 3 ∷ []

abbrev granted : RedeemResp
granted = grant_reply config (redeem_from 9) open_code (codes "key") (codes "url") random

abcdef : normalize redeem_req.code ≡ ok (codes "ABC-DEF")
unfolding normalize
abcdef = refl

run : (handle_redeem hashes config (redeem_from 9) open_db).reply ≡ redeemed granted
unfolding handle_redeem decode look_up check_row grant grant_job grant_token normalize count find
    update bytes_eq
run = refl

run_twice :
    (handle_redeem hashes config
      (redeem_from 9)
      (handle_redeem hashes config (redeem_from 9) open_db).db).reply
    ≡ code_gone
unfolding handle_redeem decode look_up check_row grant grant_job grant_token normalize count find
    update bytes_eq
run_twice = refl

redeem_success_example :
    Redemption hashes config
      (redeem_from 9)
      open_db
      granted
      (handle_redeem hashes config (redeem_from 9) open_db).db
redeem_success_example =
    redeem_success hashes config (redeem_from 9) open_db granted open_db-DbValid run

redeem_once_example :
    (handle_redeem hashes config (redeem_from 9) (
      serve hashes config
        (redeem_from 8 ∷ [])
        (handle_redeem hashes config (redeem_from 9) open_db).db)).reply
    ≢ redeemed granted
redeem_once_example =
    redeem_once hashes config (redeem_from 9) (redeem_from 9) (redeem_from 8 ∷ []) open_db granted
      granted redeem_req redeem_req open_db-DbValid run refl refl refl

found :
    find_code open_db (hash_code hashes.argon2id (codes "ABC-DEF") config.deploy_fqdn)
    ≡ some open_code
unfolding find bytes_eq hash_code
found = refl

no_job : find_job open_db 41 ≡ none
unfolding find
no_job = refl

no_attempts :
    (ip : ℕ) → count (is_recent_from 100 hour ip) open_db.attempts ≤ config.rate_redeem_per_ip_hour
unfolding count
no_attempts ip = ground arith

redeem_opens_example :
    let left = (handle_redeem hashes config (redeem_from 9) open_db).db in
    (token : Bytes) × (profile : ℕ) × (granted.chainload_url ≡ chain_url config.deploy_fqdn token)
    × (verify_one_shot_token_for_job no_faults 120 left
          (hash_boot_token hashes.sha256 token config.deploy_fqdn)
          41
        ≡ ok (21, profile))
    × (boot_token_machine no_faults 120 left
          (hash_boot_token hashes.sha256 token config.deploy_fqdn)
        ≡ ok 21)
redeem_opens_example =
    redeem_opens hashes config (redeem_from 9) open_db granted 120 open_db-DbValid no_job run
      (ground arith)

outside : Mismatch hashes config (redeem_from 8) open_db (codes "ABC-DEF") open_code
outside = record {
  fine = λ s. refl;
  rate = no_attempts 8;
  req = redeem_req;
  asked = refl;
  spelt = abcdef;
  found = found;
  unlocked = refl;
  unused = refl;
  live = ground arith;
  outside = refl;
}

abbrev no_overlay : Request
no_overlay = record (redeem_from 8) { overlay = none }
