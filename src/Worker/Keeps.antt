-- ===== src/Worker/Keeps.antt =====
-- A round of the worker of services/worker/cmd/worker/main.go, and the lookups of the other services.
use smart_deploy_linux.Prelude.Duration.{hour, day}
use smart_deploy_linux.Prelude.Table.{
  delete, select, update, count-delete, find-delete, find-update_apart, find-update_other,
  select-delete,
}
use smart_deploy_linux.Prelude.{
  ℕ, ◌*◌, ◌≤◌, ◌≡◌, refl, ◌∙◌, ap, Bool, true, false, Option, String, List, Bytes, arith,
  Bool-cases, Option-cases, inl, inr, ◌==◌, if◌then◌else◌,
}
use smart_deploy_linux.Schema.{AuthCode, Token, Attempt, Job, Db}
use mathlib.Core.Option
use smart_deploy_linux.Jobs.{find_job}
use smart_deploy_linux.Tokens.{verify_token, opens, is_live}
use smart_deploy_linux.Broker.{record_per_ip_attempt, is_redeemable, is_recent_from}
use smart_deploy_linux.Wake.{WakeRequest, is_due}
use smart_deploy_linux.Worker.{
  Faults, is_stale_attempt, reap_redeem_attempts, is_expired_code, lock, lock_expired_codes,
  is_stale_token, reap_one_shot_tokens, is_stale_wake, reap_wake_requests, is_one_of, due_jobs,
  notified, notify_terminal_jobs, Store, run_once, delete_attempts, lock_codes, delete_tokens,
  delete_wakes, claim_jobs,
}
use smart_deploy_linux.Worker.Answers.{
  AnswersAs, AnswersAs-trans, AnswersAs-if, same_count, same_job, same_none,
}

module _ (fails : Faults) (now : ℕ) where
  reap_attempts-left :
      (db : Db)
      → (reap_redeem_attempts fails now day db).0 ≡ (
          if fails delete_attempts
          then db
          else record db { attempts = delete (is_stale_attempt now day) db.attempts })
  unfolding reap_redeem_attempts
  reap_attempts-left db = ground arith

  lock_codes-left :
      (db : Db)
      → (lock_expired_codes fails now db).0 ≡ (
          if fails lock_codes
          then db
          else record db { codes = update (is_expired_code now) (lock now) db.codes })
  unfolding lock_expired_codes
  lock_codes-left db = ground arith

  reap_tokens-left :
      (db : Db)
      → (reap_one_shot_tokens fails now day db).0 ≡ (
          if fails delete_tokens
          then db
          else record db { tokens = delete (is_stale_token now day) db.tokens })
  unfolding reap_one_shot_tokens
  reap_tokens-left db = ground arith

  notify-left :
      (post : Job → Bool) (db : Db)
      → (notify_terminal_jobs post fails now db).0 ≡ (
          if fails claim_jobs then db else record db {
            jobs = update (is_one_of (due_jobs now db.jobs)) (notified now) db.jobs;
          })
  unfolding notify_terminal_jobs
  notify-left post db = ground arith

module _ (now later : ℕ) (after : now ≤ later) where
  recent_not_stale :
      (ip : ℕ) (a : Attempt)
      → is_recent_from later hour ip a ≡ true
      → is_stale_attempt now day a ≡ false
  recent_not_stale ip a h = ground arith

  expired_not_redeemable :
      (hash : Bytes) (c : AuthCode)
      → is_expired_code now c ≡ true
      → is_redeemable later hash c ≡ false
  expired_not_redeemable hash c h = ground arith

  locked_not_redeemable :
      (hash : Bytes) (c : AuthCode) → is_redeemable later hash (lock now c) ≡ false
  locked_not_redeemable hash c = ground arith

  live_not_stale : (t : Token) → is_live later t ≡ true → is_stale_token now day t ≡ false
  live_not_stale t h = ground arith

  opening_not_stale :
      (hash : Bytes) (j : Job) (t : Token)
      → opens later hash j t ≡ true
      → is_stale_token now day t ≡ false
  opening_not_stale hash j t h = live_not_stale t (ground arith)

  due_not_stale :
      (site : String) (w : WakeRequest)
      → is_due later site w ≡ true
      → is_stale_wake now (7 * day) w ≡ false
  due_not_stale site w h = ground arith

module _ (now later : ℕ) (after : now ≤ later) where
  attempts-AnswersAs :
      (db : Db)
      → AnswersAs later db (record db { attempts = delete (is_stale_attempt now day) db.attempts })
  unfolding record_per_ip_attempt verify_token
  attempts-AnswersAs db = (
    (λ faults ip.
        same_count faults later ip db _
          (count-delete _ _ db.attempts (recent_not_stale now later after ip))),
    (λ hash. refl),
    (λ states faults hash id. refl),
    λ hash. refl,
  )

  codes-AnswersAs :
      (db : Db)
      → AnswersAs later db (record db { codes = update (is_expired_code now) (lock now) db.codes })
  unfolding record_per_ip_attempt verify_token
  codes-AnswersAs db = (
    (λ faults ip. same_count faults later ip db _ refl),
    (λ hash.
        find-update_apart _ _ _ db.codes (expired_not_redeemable now later after hash)
          (λ c h. locked_not_redeemable now later after hash c)),
    (λ states faults hash id. refl),
    λ hash. refl,
  )

  tokens-AnswersAs :
      (db : Db)
      → AnswersAs later db (record db { tokens = delete (is_stale_token now day) db.tokens })
  unfolding record_per_ip_attempt verify_token
  tokens-AnswersAs db = (
    (λ faults ip. same_count faults later ip db _ refl),
    (λ hash. refl),
    (λ states faults hash id. elim (Option-cases (find_job db id)) [
      | inl missing ↦ rw missing refl
      | inr (j, found) ↦
          let same =
            find-delete (opens later hash j) (is_stale_token now day) db.tokens
              (opening_not_stale now later after hash j) in
          rw (found, same) refl
    ]),
    λ hash. find-delete _ _ db.tokens (λ t h. live_not_stale now later after t (ground arith)),
  )

  jobs-AnswersAs :
      (db : Db)
      → AnswersAs later db
          (record db { jobs = update (is_one_of (due_jobs now db.jobs)) (notified now) db.jobs })
  unfolding record_per_ip_attempt verify_token
  jobs-AnswersAs db = (
    (λ faults ip. same_count faults later ip db _ refl),
    (λ hash. refl),
    (λ states faults hash id.
        let claimed = is_one_of (due_jobs now db.jobs) in
        let same = find-update_other (λ j. j.id == id) claimed (notified now) db.jobs (λ j. refl) in
        elim (Option-cases (find_job db id)) [
          | inl missing ↦
              same_none states faults later id hash db _ missing (same ∙ ap (Option.map _) missing)
          | inr (j, found) ↦
              same_job states faults now later id hash db _ j (claimed j) found
                (same ∙ ap (Option.map _) found)
        ]),
    λ hash. refl,
  )

module _ (now later : ℕ) (after : now ≤ later) (fails : Faults) where
  wakes_keep :
      (wakes : List WakeRequest) (site : String)
      → select (is_due later site) (reap_wake_requests fails now (7 * day) wakes).0
        ≡ select (is_due later site) wakes
  unfolding reap_wake_requests
  wakes_keep wakes site = elim (Bool-cases (fails delete_wakes)) [
    | inl broke ↦ rw broke refl
    | inr works ↦ rw works (select-delete _ _ wakes (due_not_stale now later after site))
  ]

-- A round of the worker leaves five lookups of the other services as they are, from its time on: the
-- number of an address's attempts within an hour, the code that a redemption uses up, the checks of a
-- job's tokens, the row that gives out a boot script, and the wake requests that are due at a site. It
-- holds whichever queries of the worker fail, and whether or not it notifies a webhook.
pub run_once_lem :
    (now later : ℕ) (fails : Faults) (post : Option (Job → Bool)) (s : Store)
    → now ≤ later
    → AnswersAs later s.db (run_once post fails now s).db
      × ((site : String)
          → select (is_due later site) (run_once post fails now s).wakes
            ≡ select (is_due later site) s.wakes)
unfolding run_once
run_once_lem now later fails post s after =
    let reaped = (reap_redeem_attempts fails now day s.db).0 in
    let locked = (lock_expired_codes fails now reaped).0 in
    let db = (reap_one_shot_tokens fails now day locked).0 in
    let first : AnswersAs later s.db reaped =
      rw (reap_attempts-left fails now s.db)
        (AnswersAs-if later _ _ _ (attempts-AnswersAs now later after s.db)) in
    let second : AnswersAs later reaped locked =
      rw (lock_codes-left fails now reaped)
        (AnswersAs-if later _ _ _ (codes-AnswersAs now later after reaped)) in
    let third : AnswersAs later locked db =
      rw (reap_tokens-left fails now locked)
        (AnswersAs-if later _ _ _ (tokens-AnswersAs now later after locked)) in
    let three = AnswersAs-trans later _ _ _ first (AnswersAs-trans later _ _ _ second third) in
    let fourth = λ (answers : Job → Bool).
      AnswersAs-if later db _ (fails claim_jobs) (jobs-AnswersAs now later after db) in
    elim (Option-cases post) [
      | inl quiet ↦ rw quiet (three, wakes_keep now later after fails s.wakes)
      | inr (answers, loud) ↦
          rw (loud, notify-left fails now answers db)
            (
              AnswersAs-trans later _ _ _ three (fourth answers),
              wakes_keep now later after fails s.wakes,
            )
    ]
