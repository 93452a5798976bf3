-- ===== src/Tests/Tokens.antt =====
-- Runs of the queries on one_shot_tokens in services/api/internal/store/store.go.
use smart_deploy_linux.Prelude.Table.{find, newest, select}
use smart_deploy_linux.Prelude.{◌≡◌, ◌≢◌, refl, false, codes, bytes_eq}
use smart_deploy_linux.Schema.{imaging, failed, no_faults, ok, err, token_invalid}
use smart_deploy_linux.Jobs.{transition_job}
use smart_deploy_linux.Tokens.{
  verify_one_shot_token_for_job, verify_phone_home_token, verify_one_shot_token, boot_row,
}
use smart_deploy_linux.Tokens.Live.{is_row_of, ended_job_closed}
use smart_deploy_linux.Tests.World.{booted_job, job_db, job_found, to_failed}

opened :
    verify_one_shot_token_for_job no_faults 120 (job_db imaging) (codes "hash") 41 ≡ ok (21, 31)
unfolding verify_one_shot_token_for_job find bytes_eq
opened = refl

home : verify_phone_home_token no_faults 120 (job_db imaging) (codes "hash") 41 ≡ ok (21, 31)
unfolding verify_phone_home_token find bytes_eq
home = refl

used_run : (verify_one_shot_token no_faults 120 (job_db imaging) (codes "hash")).1 ≡ ok 41
unfolding verify_one_shot_token find bytes_eq newest select
used_run = refl

used : (verify_one_shot_token no_faults 120 (job_db imaging) (codes "hash")).1 ≢ err token_invalid
used h = cc (used_run, h)

ended_job_closed_example :
    let db' = (transition_job no_faults 120 (job_db imaging) 41 failed).0 in
    (verify_phone_home_token no_faults 121 db' (codes "hash") 41 ≡ err token_invalid)
    × (verify_one_shot_token_for_job no_faults 121 db' (codes "hash") 41 ≡ err token_invalid)
    × (is_row_of (booted_job imaging) (boot_row 121 db' (codes "hash")) ≡ false)
ended_job_closed_example =
    ended_job_closed 120 (job_db imaging) 41 failed (booted_job imaging) 121 (codes "hash")
      (job_found imaging) to_failed refl
