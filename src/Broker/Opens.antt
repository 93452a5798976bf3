-- ===== src/Broker/Opens.antt =====
-- What a redemption of services/auth-broker/internal/broker/broker.go opens in
-- services/api/internal/store/store.go, and what a request leaves that the overlay network fails.
use smart_deploy_linux.Prelude.Table.{find, find-weaker, find-append_none, find-update_other}
use mathlib.Core.Option
use smart_deploy_linux.Prelude.Keys.{row-find}
use smart_deploy_linux.Prelude.{
  ℕ, ◌+◌, ◌<◌, ◌≡◌, ◌⊎◌, ◌∙◌, inl, inr, refl, Bool, true, ◌&&◌, none, some, [], ◌∷◌, ◌++◌, Bytes,
  ap, str_eq, if◌then◌else◌, arith, ◌==◌, ==_refl, bytes_eq, bytes_eq_refl, Bool-cases,
}
use smart_deploy_linux.Schema.{AuthCode, Token, Db, no_faults, ok}
use smart_deploy_linux.Valid.{DbValid}
use smart_deploy_linux.Jobs.{find_job}
use smart_deploy_linux.Tokens.{opens, is_live, boot_token_machine, verify_one_shot_token_for_job}
use smart_deploy_linux.Tokens.Hash.{hash_boot_token}
use smart_deploy_linux.Tokens.Base64.{base64url}
use smart_deploy_linux.Codes.{hash_code}
use smart_deploy_linux.Broker.{
  Config, Hashes, find_code, is_redeemable, redeem_now, bootstrapped_job, increment_code_attempt,
}
use smart_deploy_linux.Broker.Redeem.{
  Request, Outcome, chain_url, RedeemResp, redeemed, handle_redeem,
}
use smart_deploy_linux.Broker.Sound.{boot_token}
use smart_deploy_linux.Broker.Success.{redeem_success, after}
use smart_deploy_linux.Broker.Stages.{
  with_attempt, LeavesAlone, grant-split, row-split, decode-split, handle-split,
}

module _ (k : Hashes) (cfg : Config) (r : Request) where
  opens_job :
      (db : Db) (hash bytes : Bytes) (c : AuthCode) (later : ℕ)
      → find_job db r.job_id ≡ none
      → find (λ t. bytes_eq t.token_hash (boot_token k cfg r c bytes).token_hash) db.tokens ≡ none
      → later < r.now + cfg.ts_authkey_ttl
      → verify_one_shot_token_for_job no_faults later
          (with_attempt r (after k cfg r hash c bytes db))
          (boot_token k cfg r c bytes).token_hash
          r.job_id
        ≡ ok (c.machine_id, c.profile_id)
  unfolding verify_one_shot_token_for_job
  opens_job db hash bytes c later fresh new live =
      let t = boot_token k cfg r c bytes in
      let job = bootstrapped_job r.now r.job_id c.machine_id c.profile_id c in
      let job_found = find-append_none (λ j. j.id == r.job_id) db.jobs job fresh in
      let others =
        find-weaker (λ u. bytes_eq u.token_hash t.token_hash) (opens later t.token_hash job)
          db.tokens (λ u h. ground arith) new in
      let token_found = find-append_none (opens later t.token_hash job) db.tokens t others in
      let job_hit : find (λ j. j.id == r.job_id) (db.jobs ++ job ∷ []) ≡ some job =
        cc (job_found, ==_refl r.job_id) in
      let fits : opens later t.token_hash job t ≡ true =
        ground (arith, bytes_eq_refl t.token_hash, ==_refl c.id) in
      let token_hit : find (opens later t.token_hash job) (db.tokens ++ t ∷ []) ≡ some t =
        cc (token_found, fits) in
      rw (job_hit, verify_one_shot_token_for_job, token_hit)

  boots :
      (db : Db) (hash bytes : Bytes) (c : AuthCode) (later : ℕ)
      → DbValid db
      → find_code db hash ≡ some c
      → find (λ t. bytes_eq t.token_hash (boot_token k cfg r c bytes).token_hash) db.tokens ≡ none
      → later < r.now + cfg.ts_authkey_ttl
      → boot_token_machine no_faults later
          (with_attempt r (after k cfg r hash c bytes db))
          (boot_token k cfg r c bytes).token_hash
        ≡ ok c.machine_id
  unfolding boot_token_machine
  boots db hash bytes c later v found new live =
      let t = boot_token k cfg r c bytes in
      let fits : Token → Bool =
        λ u. bytes_eq u.token_hash t.token_hash && str_eq u.purpose "boot" && is_live later u in
      let others =
        find-weaker (λ u. bytes_eq u.token_hash t.token_hash) fits db.tokens (λ u h. ground arith)
          new in
      let token_found = find-append_none fits db.tokens t others in
      let fit : fits t ≡ true = ground (arith, bytes_eq_refl t.token_hash) in
      let token_hit : find fits (db.tokens ++ t ∷ []) ≡ some t = cc (token_found, fit) in
      let here = row-find (λ c. c.id) _ db.codes v.code_ids found in
      let moved =
        find-update_other (λ d. d.id == c.id) (is_redeemable r.now hash) (redeem_now r.now) db.codes
          (λ d. refl) in
      let code_hit =
        moved
        ∙ ap (Option.map (λ d. if is_redeemable r.now hash d then redeem_now r.now d else d))
            here in
      elim (Bool-cases (is_redeemable r.now hash c)) [
        | inl hit ↦ rw (token_hit, boot_token_machine, code_hit, hit)
        | inr missed ↦ rw (token_hit, boot_token_machine, code_hit, missed)
      ]

  -- If the tables are well formed, the id drawn for the job is new and a request is granted, then its
  -- chain-load URL carries a token that opens the endpoints of the new job for the machine of the answer
  -- and is exchanged for the boot script of that machine: on the tables as the redemption left them,
  -- where no statement of those lookups fails, at every time before the token expires.
  pub redeem_opens :
      (db : Db) (resp : RedeemResp) (later : ℕ)
      → DbValid db
      → find_job db r.job_id ≡ none
      → (handle_redeem k cfg r db).reply ≡ redeemed resp
      → later < r.now + cfg.ts_authkey_ttl
      → let left = (handle_redeem k cfg r db).db in
        (token : Bytes) × (profile : ℕ) × (resp.chainload_url ≡ chain_url cfg.deploy_fqdn token)
        × (verify_one_shot_token_for_job no_faults later left
              (hash_boot_token k.sha256 token cfg.deploy_fqdn)
              r.job_id
            ≡ ok (resp.machine_id, profile))
        × (boot_token_machine no_faults later left (hash_boot_token k.sha256 token cfg.deploy_fqdn)
            ≡ ok resp.machine_id)
  redeem_opens db resp later v fresh h live =
      let s = redeem_success k cfg r db resp v h in
      let hash = hash_code k.argon2id s.canonical cfg.deploy_fqdn in
      let opened = opens_job db hash s.bytes s.code later fresh s.new_token live in
      let booted = boots db hash s.bytes s.code later v s.found s.new_token live in
      (
        base64url s.bytes,
        s.code.profile_id,
        s.url,
        rw (s.leaves, s.machine) opened,
        rw (s.leaves, s.machine) booted,
      )

  -- Where the overlay network gives no key, nothing is used up: besides the recorded attempt, at most
  -- the failed attempts of a code are counted.
  pub overlay_down_keeps :
      (db : Db)
      → r.overlay ≡ none
      → ((handle_redeem k cfg r db).db ≡ with_attempt r db)
        ⊎ ((hash : Bytes) × ((handle_redeem k cfg r db).db
              ≡ increment_code_attempt r.fails r.now
                  (with_attempt r db)
                  hash
                  cfg.rate_redeem_per_code))
  overlay_down_keeps db down =
      let db' = with_attempt r db in
      let P = λ (o : Outcome).
        (o.db ≡ db')
        ⊎ ((hash : Bytes) × (o.db
              ≡ increment_code_attempt r.fails r.now db' hash cfg.rate_redeem_per_code)) in
      let alone : (o : Outcome) → LeavesAlone db' o → P o = λ o (kept, _). inl kept in
      handle-split k cfg r P db (inl refl) (
        decode-split k cfg r P db' alone (λ hash c found.
          row-split k cfg r P db' hash c alone (inr (hash, refl))
            (grant-split k cfg r P db' hash alone (λ d key url up ready. absurd (cc (down, up))))))
