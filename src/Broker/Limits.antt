-- ===== src/Broker/Limits.antt =====
-- The two limits of handleRedeem in services/auth-broker/internal/broker/broker.go over sequences of
-- requests: the requests of one address in an hour, and those for one code from outside of its binding.
use smart_deploy_linux.Prelude.Table.{count, find-holds, find-update_other}
use smart_deploy_linux.Prelude.{
  ◌+◌, ◌<◌, ◌≤◌, ◌≡◌, ◌≢◌, ◌∙◌, refl, false, none, some, List, Bytes, arith, bytes_eq,
}
use smart_deploy_linux.Prelude.Duration.{hour}
use smart_deploy_linux.Schema.{AuthCode, Db, Statement, record_attempt, increment_attempt, ok}
use smart_deploy_linux.Codes.{normalize, hash_code}
use smart_deploy_linux.Broker.{
  Config, Hashes, find_code, bump, is_recent_from, increment_code_attempt,
}
use smart_deploy_linux.Broker.Redeem.{
  Request, RedeemReq, RedeemResp, redeemed, ip_not_allowed, in_binding, check_row, handle_redeem,
  audited, failed_binding,
}
use smart_deploy_linux.Broker.Stages.{with_attempt}
use smart_deploy_linux.Broker.Accepts.{decode_accepts, rate_accepts}
use smart_deploy_linux.Broker.Once.{serve, is_closed, closed_forever}

-- A request of the burst that ends in `r`.
abbrev pub InBurst : Request → Request → Type 0
InBurst r q = (q.fails record_attempt ≡ false) × (q.src_ip ≡ r.src_ip) × (r.now < q.now + hour)

module _ (k : Hashes) (cfg : Config) where
  -- A request for an open code from an address outside of its binding.
  pub record Mismatch (r : Request) (db : Db) (canonical : Bytes) (c : AuthCode) : Type 0 where
    pub fine : (s : Statement) → r.fails s ≡ false
    pub rate : count (is_recent_from r.now hour r.src_ip) db.attempts ≤ cfg.rate_redeem_per_ip_hour
    pub req : RedeemReq
    pub asked : r.body ≡ some req
    pub spelt : normalize req.code ≡ ok canonical
    pub found : find_code db (hash_code k.argon2id canonical cfg.deploy_fqdn) ≡ some c
    pub unlocked : c.locked_at ≡ none
    pub unused : c.redeemed_at ≡ none
    pub live : r.now ≤ c.expires_at
    pub outside : in_binding c.binding r.src_ip ≡ false

  row_mismatch :
      (r : Request) (db : Db) (hash : Bytes) (c : AuthCode)
      → c.locked_at ≡ none
      → c.redeemed_at ≡ none
      → r.now ≤ c.expires_at
      → in_binding c.binding r.src_ip ≡ false
      → check_row k cfg r db hash c
        ≡ audited
            (increment_code_attempt r.fails r.now db hash cfg.rate_redeem_per_code)
            ip_not_allowed
            (failed_binding c.id)
  unfolding check_row
  row_mismatch r db hash c unlocked unused live outside = ground arith

  bumped :
      (r : Request) (db : Db) (hash : Bytes) (c : AuthCode)
      → r.fails increment_attempt ≡ false
      → find_code db hash ≡ some c
      → find_code (increment_code_attempt r.fails r.now db hash cfg.rate_redeem_per_code) hash
        ≡ some (bump r.now cfg.rate_redeem_per_code c)
  unfolding increment_code_attempt
  bumped r db hash c fine found =
      let hit = find-holds (λ d. bytes_eq d.code_hash hash) db.codes found in
      let moved =
        find-update_other (λ d. bytes_eq d.code_hash hash) (λ d. bytes_eq d.code_hash hash)
          (bump r.now cfg.rate_redeem_per_code) db.codes (λ d. refl) in
      rw fine (cc (moved, found, hit))

  -- A request from outside of the binding of an open code is refused, and it adds one to the attempts
  -- of that code, which is locked when they reach the configured number.
  pub Mismatch-counts :
      (r : Request) (db : Db) (canonical : Bytes) (c : AuthCode)
      → Mismatch r db canonical c
      → ((handle_redeem k cfg r db).reply ≡ ip_not_allowed)
        × (find_code (handle_redeem k cfg r db).db (hash_code k.argon2id canonical cfg.deploy_fqdn)
            ≡ some (bump r.now cfg.rate_redeem_per_code c))
  Mismatch-counts r db canonical c m =
      let hash = hash_code k.argon2id canonical cfg.deploy_fqdn in
      let db' = with_attempt r db in
      let step =
        rate_accepts k cfg r db (m.fine record_attempt) m.rate
        ∙ decode_accepts k cfg r db' m.req canonical c m.fine m.asked m.spelt m.found
        ∙ row_mismatch r db' hash c m.unlocked m.unused m.live m.outside in
      (rw step, rw step (bumped r db' hash c (m.fine increment_attempt) m.found))

  -- The request that brings the attempts on a code to the configured number closes it for good: no
  -- later request for it is granted, from any address and whatever requests come in between.
  pub Mismatch-locks :
      (r again : Request) (rs : List Request) (db : Db) (canonical : Bytes) (c : AuthCode)
      (req : RedeemReq) (resp : RedeemResp)
      → Mismatch r db canonical c
      → cfg.rate_redeem_per_code ≤ c.attempts + 1
      → again.body ≡ some req
      → normalize req.code ≡ ok canonical
      → (handle_redeem k cfg again (serve k cfg rs (handle_redeem k cfg r db).db)).reply
        ≢ redeemed resp
  unfolding is_closed
  Mismatch-locks r again rs db canonical c req resp m reached asked spelt =
      let (_, now_found) = Mismatch-counts r db canonical c m in
      closed_forever k cfg rs again (handle_redeem k cfg r db).db req canonical resp
        (rw now_found (ground arith)) asked spelt
