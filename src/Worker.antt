-- ===== src/Worker.antt =====
-- The worker of services/worker/cmd/worker/main.go: one round of its housekeeping. The webhook is
-- outside: `post` says for which jobs it answers with success.
pub mod Answers
pub mod Keeps
use smart_deploy_linux.Prelude.Duration.{hour, day}
use smart_deploy_linux.Prelude.Table.{any, count, delete, select, update}
use smart_deploy_linux.Prelude.{
  ℕ, ◌+◌, ◌*◌, Bool, true, false, ◌&&◌, ◌||◌, Option, none, some, String, List, map, take, ltb, leb,
  ◌==◌, if◌then◌else◌, is_none, not,
}
use smart_deploy_linux.Schema.{
  State, AuthCode, Token, Attempt, Job, Db, Error, db_error, Result, ok, err,
}
use smart_deploy_linux.Jobs.{is_terminal}
use smart_deploy_linux.Broker.{within}
use smart_deploy_linux.Drivers.Sort.{stable_sort}
use smart_deploy_linux.Wake.{WakeRequest}

pub data Query : Type 0 where
  delete_attempts lock_codes delete_tokens delete_wakes claim_jobs : Query

abbrev pub Faults : Type 0
Faults = Query → Bool

-- at < now() - older.
abbrev pub is_past : ℕ → ℕ → ℕ → Bool
is_past now older at = ltb (at + older) now

abbrev pub is_past_time : ℕ → ℕ → Option ℕ → Bool
is_past_time now older none = false
is_past_time now older (some at) = is_past now older at

abbrev pub is_stale_attempt : ℕ → ℕ → Attempt → Bool
is_stale_attempt now older a = is_past now older a.at

unfoldable pub reap_redeem_attempts : Faults → ℕ → ℕ → Db → Db × Result ℕ
reap_redeem_attempts fails now older db = if fails delete_attempts then (db, err db_error) else (
  record db { attempts = delete (is_stale_attempt now older) db.attempts },
  ok (count (is_stale_attempt now older) db.attempts),
)

abbrev pub is_expired_code : ℕ → AuthCode → Bool
is_expired_code now c = is_none c.redeemed_at && is_none c.locked_at && leb c.expires_at now

abbrev pub lock : ℕ → AuthCode → AuthCode
lock now c = record c { locked_at = some now }

unfoldable pub lock_expired_codes : Faults → ℕ → Db → Db × Result ℕ
lock_expired_codes fails now db = if fails lock_codes then (db, err db_error) else (
  record db { codes = update (is_expired_code now) (lock now) db.codes },
  ok (count (is_expired_code now) db.codes),
)

abbrev pub is_stale_token : ℕ → ℕ → Token → Bool
is_stale_token now older t = is_past_time now older t.consumed_at || is_past now older t.expires_at

unfoldable pub reap_one_shot_tokens : Faults → ℕ → ℕ → Db → Db × Result ℕ
reap_one_shot_tokens fails now older db = if fails delete_tokens then (db, err db_error) else (
  record db { tokens = delete (is_stale_token now older) db.tokens },
  ok (count (is_stale_token now older) db.tokens),
)

abbrev pub is_stale_wake : ℕ → ℕ → WakeRequest → Bool
is_stale_wake now older w = is_past_time now older w.claimed_at

unfoldable pub reap_wake_requests : Faults → ℕ → ℕ → List WakeRequest → List WakeRequest × Result ℕ
reap_wake_requests fails now older wakes =
    if fails delete_wakes
    then (wakes, err db_error)
    else (delete (is_stale_wake now older) wakes, ok (count (is_stale_wake now older) wakes))

abbrev pub is_recent_time : ℕ → Option ℕ → Bool
is_recent_time now none = false
is_recent_time now (some at) = within now hour at

abbrev pub is_unnotified : ℕ → Job → Bool
is_unnotified now j =
    is_terminal j.state && is_none j.notified_at && is_recent_time now j.finished_at

abbrev pub finished_earlier : Job → Job → Bool
finished_earlier a b = elim a.finished_at [
  | none ↦ false
  | some x ↦ elim b.finished_at [ none ↦ true | some y ↦ ltb x y ]
]

-- The subquery `due` of notifyTerminalJobs.
abbrev pub due_jobs : ℕ → List Job → List Job
due_jobs now jobs = take 20 (stable_sort finished_earlier (select (is_unnotified now) jobs))

abbrev pub is_one_of : List Job → Job → Bool
is_one_of js j = any (λ i. i.id == j.id) js

abbrev pub notified : ℕ → Job → Job
notified now j = record j { notified_at = some now }

-- The jobs are marked before they are posted, and a job that the webhook does not take is lost. The
-- answer counts the jobs that it takes.
unfoldable pub notify_terminal_jobs : (Job → Bool) → Faults → ℕ → Db → Db × Result ℕ
notify_terminal_jobs post fails now db =
    let claimed = is_one_of (due_jobs now db.jobs) in
    let jobs' = update claimed (notified now) db.jobs in
    if fails claim_jobs
    then (db, err db_error)
    else (record db { jobs = jobs' }, ok (count post (select claimed jobs')))

pub record Store : Type 0 where
  pub db : Db
  pub wakes : List WakeRequest

-- runOnce logs what fails and goes on. `post` is none where no webhook is set.
unfoldable pub run_once : Option (Job → Bool) → Faults → ℕ → Store → Store
unfolding reap_redeem_attempts lock_expired_codes reap_one_shot_tokens reap_wake_requests
run_once post fails now s =
    let reaped = (reap_redeem_attempts fails now day s.db).0 in
    let locked = (lock_expired_codes fails now reaped).0 in
    let db = (reap_one_shot_tokens fails now day locked).0 in
    let wakes = (reap_wake_requests fails now (7 * day) s.wakes).0 in
    elim post [
      | none ↦ record { db = db; wakes = wakes }
      | some answers ↦ record { db = (notify_terminal_jobs answers fails now db).0; wakes = wakes }
    ]
