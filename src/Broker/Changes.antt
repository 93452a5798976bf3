-- ===== src/Broker/Changes.antt =====
-- How handleRedeem of services/auth-broker/internal/broker/broker.go changes the table of codes.
use smart_deploy_linux.Prelude.Table.{update}
use smart_deploy_linux.Prelude.{
  ℕ, ◌≡◌, refl, ◌∙◌, List, Bytes, Option-cases, Bool-cases, inl, inr, arith, bytes_eq,
}
use smart_deploy_linux.Schema.{AuthCode, Db, increment_attempt}
use smart_deploy_linux.Broker.{
  Config, Hashes, is_redeemable, redeem_now, bump, create_deployment_job, increment_code_attempt,
}
use smart_deploy_linux.Broker.Redeem.{Request, Outcome, grant_token, grant_job, handle_redeem}
use smart_deploy_linux.Broker.Stages.{
  with_attempt, consumed, LeavesAlone, grant-split, row-split, decode-split, handle-split,
}

-- What one request does to the codes: nothing, a failed attempt on one hash, or a redemption.
pub data CodesStep (before left : List AuthCode) : Type 0 where
  same : left ≡ before → CodesStep before left
  attempted :
      (now cap : ℕ) (hash : Bytes)
      → left ≡ update (λ c. bytes_eq c.code_hash hash) (bump now cap) before
      → CodesStep before left
  used :
      (now : ℕ) (hash : Bytes)
      → left ≡ update (is_redeemable now hash) (redeem_now now) before
      → CodesStep before left

module _ (k : Hashes) (cfg : Config) (r : Request) where
  grant_token-codes :
      (db : Db) (c : AuthCode) (key url : Bytes)
      → (grant_token k cfg r db c key url).db.codes ≡ db.codes
  unfolding grant_token
  grant_token-codes db c key url = ground arith

  job-codes :
      (db : Db) (c : AuthCode)
      → (create_deployment_job r.fails r.now db r.job_id c.machine_id c.profile_id c.id).0.codes
        ≡ db.codes
  unfolding create_deployment_job
  job-codes db c = ground arith

  grant_job-codes :
      (db : Db) (c : AuthCode) (key url : Bytes)
      → (grant_job k cfg r db c key url).db.codes ≡ db.codes
  unfolding grant_job
  grant_job-codes db c key url =
      let (made, failed) =
        create_deployment_job r.fails r.now db r.job_id c.machine_id c.profile_id c.id in
      let kept = job-codes db c in
      elim (Option-cases failed) [
        | inl fine ↦ rw (fine, grant_job) (grant_token-codes made c key url ∙ kept)
        | inr (e, broke) ↦ rw (broke, grant_job) kept
      ]

  alone : (db : Db) (o : Outcome) → LeavesAlone db o → CodesStep db.codes o.db.codes
  alone db o (kept, _) = same (rw kept)

  increment-codes :
      (db : Db) (hash : Bytes) (limit : ℕ)
      → CodesStep db.codes (increment_code_attempt r.fails r.now db hash limit).codes
  unfolding increment_code_attempt
  increment-codes db hash limit = elim (Bool-cases (r.fails increment_attempt)) [
    | inl broke ↦ same (ground arith)
    | inr works ↦ attempted r.now limit hash (ground arith)
  ]

  -- What handleRedeem does to the table of codes.
  pub handle_redeem-codes : (db : Db) → CodesStep db.codes (handle_redeem k cfg r db).db.codes
  handle_redeem-codes db =
      let P = λ (o : Outcome). CodesStep db.codes o.db.codes in
      let db' = with_attempt r db in
      handle-split k cfg r P db (same refl) (
        decode-split k cfg r P db' (alone db') (λ hash c found.
          row-split k cfg r P db' hash c (alone db')
            (increment-codes db' hash cfg.rate_redeem_per_code)
            (grant-split k cfg r P db' hash (alone db') (λ d key url up ready.
              used r.now hash
                (grant_job-codes (consumed r hash db') (redeem_now r.now d) key url)))))
