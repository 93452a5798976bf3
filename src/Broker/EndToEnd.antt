-- ===== src/Broker/EndToEnd.antt =====
-- The two handlers of services/auth-broker/internal/broker/broker.go together: a code that is handed
-- out can be redeemed.
use smart_deploy_linux.Prelude.Table.{find, count, find-append_none}
use smart_deploy_linux.Prelude.Keys.{row}
use smart_deploy_linux.Prelude.{
  ℕ, ◌<◌, ◌≤◌, ◌≡◌, sym, ap, ◌∙◌, true, false, none, some, Bytes, bytes_eq, bytes_eq_refl,
}
use smart_deploy_linux.Prelude.Duration.{hour}
use smart_deploy_linux.Schema.{AuthCode, Db, Statement, no_faults, ok}
use smart_deploy_linux.Valid.{DbValid}
use smart_deploy_linux.Codes.{normalize, hash_code}
use smart_deploy_linux.Codes.Generate.{normalize-generate}
use smart_deploy_linux.Broker.{Config, Hashes, find_code, is_recent_from, issue_auth_code}
use smart_deploy_linux.Broker.Issue.{Parsers, issued, require_internal_secret}
use smart_deploy_linux.Broker.Issue
use smart_deploy_linux.Broker.Redeem.{Request, RedeemReq, redeemed, in_binding, handle_redeem}
use smart_deploy_linux.Broker.Redeem
use smart_deploy_linux.Broker.Sound.{boot_token}
use smart_deploy_linux.Broker.Accepts.{redeem_accepts, grant_reply}
use smart_deploy_linux.Broker.Issued.{Issuance, issue_success, row_of}
use smart_deploy_linux.Broker.Keeps.{issue-DbValid}

module _ (k : Hashes) (cfg : Config) (parse : Parsers) (i : Issue.Request) where
  issued_found :
      (db left : Db) (code : Bytes) (until : ℕ)
      → (s : Issuance k cfg parse i db code until left)
      → find_code left (hash_code k.argon2id code cfg.deploy_fqdn)
        ≡ some (row_of k cfg parse i s.order s.req.capture_version_tag code)
  issued_found db left code until s =
      let hash = hash_code k.argon2id code cfg.deploy_fqdn in
      let new = row_of k cfg parse i s.order s.req.capture_version_tag code in
      let hit = find-append_none (λ c. bytes_eq c.code_hash hash) db.codes new s.new_hash in
      cc (s.leaves, hit, bytes_eq_refl hash)

  issued_left :
      (db left : Db) (code : Bytes) (until : ℕ)
      → (s : Issuance k cfg parse i db code until left)
      → (issue_auth_code no_faults db
          (row_of k cfg parse i s.order s.req.capture_version_tag code)).0
        ≡ left
  unfolding issue_auth_code
  issued_left db left code until s = rw s.new_hash (sym s.leaves)

  issued-DbValid :
      (db left : Db) (code : Bytes) (until : ℕ)
      → row (λ c. c.id) i.code_id db.codes ≡ none
      → DbValid db
      → Issuance k cfg parse i db code until left
      → DbValid left
  issued-DbValid db left code until fresh v s =
      let new = row_of k cfg parse i s.order s.req.capture_version_tag code in
      let stored : (issue_auth_code no_faults db new).0 ≡ left = issued_left db left code until s in
      rw stored at (issue-DbValid no_faults db new fresh v)

  -- The code that is handed out from well-formed tables, under a new id, is granted to a request in any
  -- spelling that normalises to it, before it expires and from inside its binding, if no statement
  -- fails, the source is not over the rate limit, the overlay network gives a key and the random bytes
  -- make a new token; `c` is the row that its hash finds.
  pub issue_then_redeem :
      (db : Db) (code : Bytes) (until : ℕ) (c : AuthCode) (r : Redeem.Request) (req : RedeemReq)
      (key url bytes : Bytes)
      → DbValid db
      → row (λ c. c.id) i.code_id db.codes ≡ none
      → (require_internal_secret k cfg parse i db).1 ≡ issued code until
      → let left = (require_internal_secret k cfg parse i db).0 in
        find_code left (hash_code k.argon2id code cfg.deploy_fqdn) ≡ some c
        → ((s : Statement) → r.fails s ≡ false)
        → count (is_recent_from r.now hour r.src_ip) left.attempts ≤ cfg.rate_redeem_per_ip_hour
        → r.body ≡ some req
        → normalize req.code ≡ normalize code
        → r.now < until
        → in_binding c.binding r.src_ip ≡ true
        → r.overlay ≡ some (key, url)
        → r.random ≡ some bytes
        → find (λ t. bytes_eq t.token_hash (boot_token k cfg r c bytes).token_hash) left.tokens
          ≡ none
        → (handle_redeem k cfg r left).reply ≡ redeemed (grant_reply cfg r c key url bytes)
  issue_then_redeem db code until c r req key url bytes v fresh h found fine rate asked spelt live
        bound up drawn new =
      let left = (require_internal_secret k cfg parse i db).0 in
      let s = (issue_success k cfg parse i db code until h).1 in
      let stored = row_of k cfg parse i s.order s.req.capture_version_tag code in
      let c-stored : c ≡ stored = cc (found, issued_found db left code until s) in
      let v' = issued-DbValid db left code until fresh v s in
      let canonical : normalize req.code ≡ ok code =
        spelt ∙ (normalize-generate i.random code s.drawn).1 in
      ap (λ o. o.reply)
        (redeem_accepts k cfg r left req code key url bytes c v' fine rate asked canonical found
          (rw c-stored) (rw c-stored) (rw c-stored (rw s.expiry at live)) bound up drawn new)
