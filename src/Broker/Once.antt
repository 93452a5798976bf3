-- ===== src/Broker/Once.antt =====
-- A code is redeemed once: handleRedeem of services/auth-broker/internal/broker/broker.go over a
-- sequence of requests.
use smart_deploy_linux.Prelude.Table.{find, update, find-holds, find-update_other}
use smart_deploy_linux.Prelude.{
  ◌≡◌, ◌≢◌, refl, Bool, true, false, not, ◌&&◌, Option, none, some, List, [], ◌∷◌, Bytes, is_none,
  Option-cases, Bool-cases, inl, inr, arith, bytes_eq,
}
use smart_deploy_linux.Schema.{AuthCode, Db, ok}
use smart_deploy_linux.Valid.{DbValid}
use smart_deploy_linux.Codes.{normalize, hash_code}
use smart_deploy_linux.Broker.{Config, Hashes, find_code, is_redeemable, redeem_now, bump}
use smart_deploy_linux.Broker.Redeem.{Request, redeemed, RedeemReq, RedeemResp, handle_redeem}
use smart_deploy_linux.Broker.Sound.{look_up_granted}
use smart_deploy_linux.Broker.Changes.{CodesStep, same, attempted, used, handle_redeem-codes}
use smart_deploy_linux.Broker.Success.{redeem_success, Redemption, handle_granted, decode_granted}
use smart_deploy_linux.Broker.Stages.{with_attempt}

closed : Option AuthCode → Bool
closed none = false
closed (some c) = not (is_none c.redeemed_at && is_none c.locked_at)

-- The row that a hash finds has been redeemed or locked.
unfoldable pub is_closed : Bytes → List AuthCode → Bool
unfolding closed
is_closed hash codes = closed (find (λ c. bytes_eq c.code_hash hash) codes)

closed-update :
    (p : AuthCode → Bool) (f : AuthCode → AuthCode) (hash : Bytes) (codes : List AuthCode)
    → ((c : AuthCode) → (f c).code_hash ≡ c.code_hash)
    → ((c : AuthCode) → closed (some c) ≡ true → closed (some (f c)) ≡ true)
    → is_closed hash codes ≡ true
    → is_closed hash (update p f codes) ≡ true
unfolding is_closed closed
closed-update p f hash codes same_hash kept h =
    let moved = find-update_other (λ c. bytes_eq c.code_hash hash) p f codes (λ c. rw same_hash) in
    elim (Option-cases (find (λ c. bytes_eq c.code_hash hash) codes)) [
      | inl missing ↦ absurd (ground arith)
      | inr (c, found) ↦ elim (Bool-cases (p c)) [
        | inl hit ↦ ground (arith, kept c)
        | inr missed ↦ ground arith
      ]
    ]

step-is_closed :
    (hash : Bytes) (before left : List AuthCode)
    → CodesStep before left
    → is_closed hash before ≡ true
    → is_closed hash left ≡ true
unfolding closed
step-is_closed hash before left (same e) h = rw e h
step-is_closed hash before left (attempted now limit other e) h =
    rw e (closed-update _ (bump now limit) hash before (λ c. refl) (λ c u. ground arith) h)
step-is_closed hash before left (used now other e) h =
    rw e (closed-update _ (redeem_now now) hash before (λ c. refl) (λ c u. ground arith) h)

closed-open :
    (hash : Bytes) (db : Db) (c : AuthCode)
    → is_closed hash db.codes ≡ true
    → find_code db hash ≡ some c
    → c.redeemed_at ≡ none
    → c.locked_at ≢ none
unfolding is_closed closed
closed-open hash db c h found unused unlocked = ground arith

module _ (k : Hashes) (cfg : Config) where
  -- The tables after a sequence of requests.
  unfoldable pub serve : List Request → Db → Db
  unfolding handle_redeem
  serve [] db = db
  serve (r ∷ rs) db = serve rs (handle_redeem k cfg r db).db

  serve-is_closed :
      (rs : List Request) (db : Db) (hash : Bytes)
      → is_closed hash db.codes ≡ true
      → is_closed hash (serve rs db).codes ≡ true
  unfolding serve
  serve-is_closed [] db hash h = h
  serve-is_closed (r ∷ rs) db hash h =
      serve-is_closed rs _ hash (step-is_closed hash db.codes _ (handle_redeem-codes k cfg r db) h)

  closed-refused :
      (r : Request) (db : Db) (req : RedeemReq) (canonical : Bytes) (resp : RedeemResp)
      → r.body ≡ some req
      → normalize req.code ≡ ok canonical
      → is_closed (hash_code k.argon2id canonical cfg.deploy_fqdn) db.codes ≡ true
      → (handle_redeem k cfg r db).reply ≢ redeemed resp
  closed-refused r db req canonical resp asked spelt h granted =
      let passed = handle_granted k cfg r db resp granted in
      let h1 = rw passed at granted in
      let (req', canonical', asked', spelt', step) =
        decode_granted k cfg r (with_attempt r db) resp h1 in
      let hash' = hash_code k.argon2id canonical' cfg.deploy_fqdn in
      let g = look_up_granted k cfg r (with_attempt r db) hash' resp (rw step at h1) in
      let same_req : req ≡ req' = cc (asked, asked') in
      let same_code : canonical ≡ canonical' = cc (same_req, spelt, spelt') in
      closed-open hash' db g.row (rw same_code at h) g.found g.unused g.unlocked

  success-is_closed :
      (r : Request) (db : Db) (resp : RedeemResp) (left : Db)
      → (s : Redemption k cfg r db resp left)
      → is_closed (hash_code k.argon2id s.canonical cfg.deploy_fqdn) left.codes ≡ true
  unfolding is_closed closed
  success-is_closed r db resp left s =
      let hash = hash_code k.argon2id s.canonical cfg.deploy_fqdn in
      let hit = find-holds (λ c. bytes_eq c.code_hash hash) db.codes s.found in
      let moved =
        find-update_other (λ c. bytes_eq c.code_hash hash) (is_redeemable r.now hash)
          (redeem_now r.now) db.codes (λ c. refl) in
      let ready : is_redeemable r.now hash s.code ≡ true =
        ground (arith, s.unlocked, s.unused, s.live) in
      cc (s.leaves, moved, s.found, ready)

  -- A code that is redeemed or locked is never granted again, whatever requests come in between.
  pub closed_forever :
      (rs : List Request) (again : Request) (db : Db) (req : RedeemReq) (canonical : Bytes)
      (resp : RedeemResp)
      → is_closed (hash_code k.argon2id canonical cfg.deploy_fqdn) db.codes ≡ true
      → again.body ≡ some req
      → normalize req.code ≡ ok canonical
      → (handle_redeem k cfg again (serve rs db)).reply ≢ redeemed resp
  closed_forever rs again db req canonical resp h asked spelt =
      closed-refused again (serve rs db) req canonical resp asked spelt (serve-is_closed rs db _ h)

  -- A code is redeemed at most once: after a request that was granted from well-formed tables, and any
  -- further requests, a request whose code normalises to the same one is not granted.
  pub redeem_once :
      (r again : Request) (rs : List Request) (db : Db) (resp resp' : RedeemResp)
      (req req' : RedeemReq)
      → DbValid db
      → (handle_redeem k cfg r db).reply ≡ redeemed resp
      → r.body ≡ some req
      → again.body ≡ some req'
      → normalize req.code ≡ normalize req'.code
      → (handle_redeem k cfg again (serve rs (handle_redeem k cfg r db).db)).reply ≢ redeemed resp'
  redeem_once r again rs db resp resp' req req' v h asked asked' same_spelling =
      let s = redeem_success k cfg r db resp v h in
      let same_req : s.req ≡ req = cc (s.asked, asked) in
      let spelt' : normalize req'.code ≡ ok s.canonical = cc (same_req, same_spelling, s.spelt) in
      closed_forever rs again _ req' s.canonical resp' (success-is_closed r db resp _ s) asked'
        spelt'
