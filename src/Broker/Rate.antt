-- ===== src/Broker/Rate.antt =====
-- The two limits of handleRedeem in services/auth-broker/internal/broker/broker.go: requests of one
-- address in an hour, and requests for one code from outside of its binding.
use smart_deploy_linux.Prelude.Table.{count}
use smart_deploy_linux.Prelude.{
  ℕ, ◌<◌, ◌≡◌, ◌≢◌, ◌↔◌, ◌∙◌, refl, false, Bytes, arith, Option-cases, inl, inr,
}
use smart_deploy_linux.Prelude.Duration.{hour}
use smart_deploy_linux.Schema.{AuthCode, Db, record_attempt}
use smart_deploy_linux.Broker.{
  Config, Hashes, redeem_now, is_recent_from, create_deployment_job, increment_code_attempt,
}
use smart_deploy_linux.Broker.Redeem.{
  Request, Outcome, rate_limited, grant_token, grant_job, decode, handle_redeem,
}
use smart_deploy_linux.Broker.Stages.{
  with_attempt, consumed, LeavesAlone, grant-split, row-split, decode-split, handle-split,
}

module _ (k : Hashes) (cfg : Config) (r : Request) where
  token-attempts :
      (db : Db) (c : AuthCode) (key url : Bytes)
      → ((grant_token k cfg r db c key url).db.attempts ≡ db.attempts)
        × ((grant_token k cfg r db c key url).reply ≢ rate_limited)
  unfolding grant_token
  token-attempts db c key url = ground arith

  create-attempts :
      (db : Db) (c : AuthCode)
      → (create_deployment_job r.fails r.now db r.job_id c.machine_id c.profile_id c.id).0.attempts
        ≡ db.attempts
  unfolding create_deployment_job
  create-attempts db c = ground arith

  job-attempts :
      (db : Db) (c : AuthCode) (key url : Bytes)
      → ((grant_job k cfg r db c key url).db.attempts ≡ db.attempts)
        × ((grant_job k cfg r db c key url).reply ≢ rate_limited)
  unfolding grant_job
  job-attempts db c key url =
      let (made, failed) =
        create_deployment_job r.fails r.now db r.job_id c.machine_id c.profile_id c.id in
      let kept = create-attempts db c in
      elim (Option-cases failed) [
        | inl fine ↦
            let (same, other) = token-attempts made c key url in
            rw (fine, grant_job) (same ∙ kept, other)
        | inr (e, broke) ↦ rw (broke, grant_job) (kept, (λ z. cc z))
      ]

  increment-attempts :
      (db : Db) (hash : Bytes) (limit : ℕ)
      → (increment_code_attempt r.fails r.now db hash limit).attempts ≡ db.attempts
  unfolding increment_code_attempt
  increment-attempts db hash limit = ground arith

  decode-attempts :
      (db : Db)
      → ((decode k cfg r db).db.attempts ≡ db.attempts) × ((decode k cfg r db).reply ≢ rate_limited)
  decode-attempts db =
      let P = λ (o : Outcome). (o.db.attempts ≡ db.attempts) × (o.reply ≢ rate_limited) in
      let alone : (o : Outcome) → LeavesAlone db o → P o = λ o (kept, other). (rw kept, other) in
      decode-split k cfg r P db alone (λ hash c found.
        row-split k cfg r P db hash c alone
          (increment-attempts db hash cfg.rate_redeem_per_code, (λ z. cc z))
          (grant-split k cfg r P db hash alone
            (λ d key url up ready. job-attempts (consumed r hash db) (redeem_now r.now d) key url)))

  -- Whatever else the request meets, its attempt is the only one that is added.
  pub handle_redeem-attempts :
      (db : Db) → (handle_redeem k cfg r db).db.attempts ≡ (with_attempt r db).attempts
  handle_redeem-attempts db =
      handle-split k cfg r (λ o. o.db.attempts ≡ (with_attempt r db).attempts) db refl
        ((decode-attempts (with_attempt r db)).0)

  -- If the attempt is recorded, the request is answered with 429 exactly if more than the configured
  -- number of attempts of its source address were recorded in the hour before it.
  pub rate_limited_iff :
      (db : Db)
      → r.fails record_attempt ≡ false
      → ((handle_redeem k cfg r db).reply ≡ rate_limited)
        ↔ (cfg.rate_redeem_per_ip_hour < count (is_recent_from r.now hour r.src_ip) db.attempts)
  unfolding handle_redeem
  rate_limited_iff db fine = ground (arith, decode-attempts (with_attempt r db))
