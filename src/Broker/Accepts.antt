-- ===== src/Broker/Accepts.antt =====
-- When handleRedeem of services/auth-broker/internal/broker/broker.go grants a request.
use smart_deploy_linux.Prelude.Table.{find, update, count}
use smart_deploy_linux.Prelude.Keys.{row-find, HasKeys}
use smart_deploy_linux.Prelude.Table.{find-and, find-ext, find-holds, find-update_other}
use smart_deploy_linux.Prelude.{
  ◌+◌, ◌<◌, ◌≤◌, ◌≡◌, ◌∙◌, refl, true, false, ◌&&◌, none, some, [], ◌∷◌, ◌++◌, Bytes, ltb, is_none,
  arith, ◌==◌, bytes_eq,
}
use smart_deploy_linux.Prelude.Duration.{hour}
use smart_deploy_linux.Schema.{
  AuthCode, Db, Statement, insert_token, insert_job, consume_code, find_code as find_code_fails,
  record_attempt, ok,
}
use smart_deploy_linux.Valid.{DbValid}
use smart_deploy_linux.Codes.{normalize, hash_code}
use smart_deploy_linux.Tokens.Base64.{base64url}
use smart_deploy_linux.Broker.{Config, Hashes, find_code, is_redeemable, redeem_now, is_recent_from}
use smart_deploy_linux.Broker.Redeem.{
  Request, RedeemReq, RedeemResp, redeemed, audited, code_redeemed, in_binding, chain_url,
  grant_token, grant, check_row, look_up, decode, handle_redeem,
}
use smart_deploy_linux.Broker.Sound.{boot_token, grant_job-token}
use smart_deploy_linux.Broker.Stages.{grant-job}
use smart_deploy_linux.Broker.Success.{after}
use smart_deploy_linux.Broker.Stages.{with_attempt}

-- What handleRedeem answers with when it grants a request.
abbrev pub grant_reply : Config → Request → AuthCode → Bytes → Bytes → Bytes → RedeemResp
grant_reply cfg r c key url bytes = record {
  auth_key = key;
  control_url = url;
  chainload_url = chain_url cfg.deploy_fqdn (base64url bytes);
  machine_id = c.machine_id;
  expires_at = r.now + cfg.ts_authkey_ttl;
}

module _ (k : Hashes) (cfg : Config) (r : Request) where
  token_accepts :
      (db : Db) (c : AuthCode) (key url bytes : Bytes)
      → ((s : Statement) → r.fails s ≡ false)
      → r.random ≡ some bytes
      → find (λ t. bytes_eq t.token_hash (boot_token k cfg r c bytes).token_hash) db.tokens ≡ none
      → grant_token k cfg r db c key url
        ≡ audited
            (record db { tokens = db.tokens ++ boot_token k cfg r c bytes ∷ [] })
            (redeemed (grant_reply cfg r c key url bytes))
            (code_redeemed c.id r.job_id)
  unfolding grant_token
  token_accepts db c key url bytes fine drawn fresh = ground (arith, fine insert_token)

  ready_row :
      (db : Db) (hash : Bytes) (c : AuthCode)
      → find_code db hash ≡ some c
      → c.locked_at ≡ none
      → c.redeemed_at ≡ none
      → r.now < c.expires_at
      → find (is_redeemable r.now hash) db.codes ≡ some c
  ready_row db hash c found unlocked unused live =
      let q =
        λ (d : AuthCode). is_none d.redeemed_at && is_none d.locked_at && ltb r.now d.expires_at in
      let split =
        find-ext (is_redeemable r.now hash) (λ d. bytes_eq d.code_hash hash && q d) db.codes
          (λ d. ground arith) in
      let hit = find-and (λ d. bytes_eq d.code_hash hash) q db.codes found (ground arith) in
      cc (split, hit)

  -- The row of the consumed code, found again by its id.
  row_again :
      (db : Db) (hash : Bytes) (c : AuthCode)
      → HasKeys (λ c. c.id) db.codes
      → find (is_redeemable r.now hash) db.codes ≡ some c
      → find (λ d. d.id == c.id) (update (is_redeemable r.now hash) (redeem_now r.now) db.codes)
        ≡ some (redeem_now r.now c)
  row_again db hash c keys ready =
      let here = row-find (λ c. c.id) _ db.codes keys ready in
      let holds = find-holds (is_redeemable r.now hash) db.codes ready in
      let kept =
        find-update_other (λ d. d.id == c.id) (is_redeemable r.now hash) (redeem_now r.now) db.codes
          (λ d. refl) in
      cc (kept, here, holds)

  pub decode_accepts :
      (db : Db) (req : RedeemReq) (canonical : Bytes) (c : AuthCode)
      → ((s : Statement) → r.fails s ≡ false)
      → r.body ≡ some req
      → normalize req.code ≡ ok canonical
      → find_code db (hash_code k.argon2id canonical cfg.deploy_fqdn) ≡ some c
      → decode k cfg r db ≡ check_row k cfg r db (hash_code k.argon2id canonical cfg.deploy_fqdn) c
  unfolding decode look_up
  decode_accepts db req canonical c fine asked spelt found = ground (arith, fine find_code_fails)

  row_accepts :
      (db : Db) (hash : Bytes) (c : AuthCode)
      → c.locked_at ≡ none
      → c.redeemed_at ≡ none
      → r.now < c.expires_at
      → in_binding c.binding r.src_ip ≡ true
      → check_row k cfg r db hash c ≡ grant k cfg r db hash
  unfolding check_row
  row_accepts db hash c unlocked unused live bound = ground arith

  pub rate_accepts :
      (db : Db)
      → r.fails record_attempt ≡ false
      → count (is_recent_from r.now hour r.src_ip) db.attempts ≤ cfg.rate_redeem_per_ip_hour
      → handle_redeem k cfg r db ≡ decode k cfg r (with_attempt r db)
  unfolding handle_redeem
  rate_accepts db fine rate = ground arith

  pub redeem_accepts :
      (db : Db) (req : RedeemReq) (canonical key url bytes : Bytes) (c : AuthCode)
      → DbValid db
      → ((s : Statement) → r.fails s ≡ false)
      → count (is_recent_from r.now hour r.src_ip) db.attempts ≤ cfg.rate_redeem_per_ip_hour
      → r.body ≡ some req
      → normalize req.code ≡ ok canonical
      → find_code db (hash_code k.argon2id canonical cfg.deploy_fqdn) ≡ some c
      → c.locked_at ≡ none
      → c.redeemed_at ≡ none
      → r.now < c.expires_at
      → in_binding c.binding r.src_ip ≡ true
      → r.overlay ≡ some (key, url)
      → r.random ≡ some bytes
      → find (λ t. bytes_eq t.token_hash (boot_token k cfg r c bytes).token_hash) db.tokens ≡ none
      → handle_redeem k cfg r db
        ≡ audited
            (with_attempt r
              (after k cfg r (hash_code k.argon2id canonical cfg.deploy_fqdn) c bytes db))
            (redeemed (grant_reply cfg r c key url bytes))
            (code_redeemed c.id r.job_id)
  redeem_accepts db req canonical key url bytes c v fine rate asked spelt found unlocked unused live
        bound up drawn fresh =
      let db' = with_attempt r db in
      let hash = hash_code k.argon2id canonical cfg.deploy_fqdn in
      let ready = ready_row db' hash c found unlocked unused live in
      let minted = grant-job k cfg r db' hash c key url up (fine consume_code) ready in
      let again = row_again db' hash c v.code_ids ready in
      let made = grant_job-token k cfg r _ (redeem_now r.now c) _ key url (fine insert_job) again in
      let told = token_accepts _ (redeem_now r.now c) key url bytes fine drawn fresh in
      rate_accepts db (fine record_attempt) rate
      ∙ decode_accepts db' req canonical c fine asked spelt found
      ∙ row_accepts db' hash c unlocked unused live bound
      ∙ minted
      ∙ made
      ∙ told
