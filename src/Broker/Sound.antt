-- ===== src/Broker/Sound.antt =====
-- What a successful redemption shows of the database, and what it leaves there.
use smart_deploy_linux.Prelude.Table.{find}
use smart_deploy_linux.Prelude.{
  ◌+◌, ◌≡◌, true, false, none, some, [], ◌∷◌, ◌++◌, Bytes, Option-cases, Bool-cases, inl, inr,
  arith, ◌==◌, bytes_eq,
}
use smart_deploy_linux.Schema.{
  AuthCode, Token, Db, insert_job, consume_code, find_code as find_code_fails,
}
use smart_deploy_linux.Tokens.Hash.{hash_boot_token}
use smart_deploy_linux.Tokens.Base64.{base64url}
use smart_deploy_linux.Broker.{
  Config, Hashes, find_code, is_redeemable, redeem_now, bootstrapped_job,
}
use smart_deploy_linux.Broker.Redeem.{
  Request, redeemed, RedeemResp, in_binding, chain_url, grant_token, grant_job, grant, check_row,
  look_up,
}
use smart_deploy_linux.Broker.Stages.{consumed, grant-job}

-- The boot token that a redemption makes of the random bytes.
abbrev pub boot_token : Hashes → Config → Request → AuthCode → Bytes → Token
boot_token k cfg r c bytes = record {
  id = r.token_id;
  auth_code_id = c.id;
  token_hash = hash_boot_token k.sha256 (base64url bytes) cfg.deploy_fqdn;
  purpose = "boot";
  expires_at = r.now + cfg.ts_authkey_ttl;
  consumed_at = none;
}

module _ (k : Hashes) (cfg : Config) (r : Request) where
  pub record TokenGranted (db : Db) (c : AuthCode) (resp : RedeemResp) (left : Db) : Type 0 where
    pub bytes : Bytes
    pub drawn : r.random ≡ some bytes
    pub fresh :
        find (λ t. bytes_eq t.token_hash (boot_token k cfg r c bytes).token_hash) db.tokens ≡ none
    pub leaves : left ≡ record db { tokens = db.tokens ++ boot_token k cfg r c bytes ∷ [] }
    pub url : resp.chainload_url ≡ chain_url cfg.deploy_fqdn (base64url bytes)
    pub machine : resp.machine_id ≡ c.machine_id

  token_granted :
      (db : Db) (c : AuthCode) (key url : Bytes) (resp : RedeemResp)
      → (grant_token k cfg r db c key url).reply ≡ redeemed resp
      → TokenGranted db c resp (grant_token k cfg r db c key url).db
  unfolding grant_token
  token_granted db c key url resp h = elim (Option-cases r.random) [
    | inl dry ↦ absurd (ground arith)
    | inr (bytes, drawn) ↦ record {
      bytes = bytes;
      drawn = drawn;
      fresh = ground arith;
      leaves = ground arith;
      url = ground arith;
      machine = ground arith;
    }
  ]

  -- The job of a redemption is made from the row of the consumed code, found again by its id.
  pub record JobGranted (db : Db) (c : AuthCode) (resp : RedeemResp) (left : Db) : Type 0 where
    pub source : AuthCode
    pub found_again : find (λ d. d.id == c.id) db.codes ≡ some source
    pub token :
        TokenGranted
          (record db {
            jobs = db.jobs ++ bootstrapped_job r.now r.job_id c.machine_id c.profile_id source ∷ [];
          })
          c
          resp
          left

  pub grant_job-token :
      (db : Db) (c source : AuthCode) (key url : Bytes)
      → r.fails insert_job ≡ false
      → find (λ d. d.id == c.id) db.codes ≡ some source
      → grant_job k cfg r db c key url
        ≡ grant_token k cfg r
            (record db {
              jobs =
                  db.jobs ++ bootstrapped_job r.now r.job_id c.machine_id c.profile_id source ∷ [];
            })
            c
            key
            url
  unfolding grant_job
  grant_job-token db c source key url works again = ground arith

  job_granted :
      (db : Db) (c : AuthCode) (key url : Bytes) (resp : RedeemResp)
      → (grant_job k cfg r db c key url).reply ≡ redeemed resp
      → JobGranted db c resp (grant_job k cfg r db c key url).db
  unfolding grant_job
  job_granted db c key url resp h = elim (Bool-cases (r.fails insert_job)) [
    | inl broke ↦ absurd (ground arith)
    | inr works ↦ elim (Option-cases (find (λ d. d.id == c.id) db.codes)) [
      | inl gone ↦ absurd (ground arith)
      | inr (source, again) ↦ record {
        source = source;
        found_again = again;
        token =
            let step = grant_job-token db c source key url works again in
            rw step (token_granted _ c key url resp (rw step at h));
      }
    ]
  ]

  -- The consumption of the code.
  pub record CodeGranted (db : Db) (hash : Bytes) (resp : RedeemResp) (left : Db) : Type 0 where
    pub code : AuthCode
    pub redeemable : find (is_redeemable r.now hash) db.codes ≡ some code
    pub job : JobGranted (consumed r hash db) (redeem_now r.now code) resp left

  code_granted :
      (db : Db) (hash : Bytes) (resp : RedeemResp)
      → (grant k cfg r db hash).reply ≡ redeemed resp
      → CodeGranted db hash resp (grant k cfg r db hash).db
  unfolding grant
  code_granted db hash resp h = elim (Option-cases r.overlay) [
    | inl down ↦ absurd (ground arith)
    | inr ((key, url), up) ↦ elim (Bool-cases (r.fails consume_code)) [
      | inl broke ↦ absurd (ground arith)
      | inr works ↦ elim (Option-cases (find (is_redeemable r.now hash) db.codes)) [
        | inl gone ↦ absurd (ground arith)
        | inr (code, ready) ↦ record {
          code = code;
          redeemable = ready;
          job =
              let step = grant-job k cfg r db hash code key url up works ready in
              rw step (job_granted _ (redeem_now r.now code) key url resp (rw step at h));
        }
      ]
    ]
  ]

  -- The gates in front of it.
  pub record RowGranted (db : Db) (hash : Bytes) (resp : RedeemResp) (left : Db) : Type 0 where
    pub row : AuthCode
    pub found : find_code db hash ≡ some row
    pub unlocked : row.locked_at ≡ none
    pub unused : row.redeemed_at ≡ none
    pub bound : in_binding row.binding r.src_ip ≡ true
    pub code : CodeGranted db hash resp left

  row_granted :
      (db : Db) (hash : Bytes) (row : AuthCode) (resp : RedeemResp)
      → (check_row k cfg r db hash row).reply ≡ redeemed resp
      → (row.locked_at ≡ none)
        × (row.redeemed_at ≡ none)
        × (in_binding row.binding r.src_ip ≡ true)
        × (check_row k cfg r db hash row ≡ grant k cfg r db hash)
  unfolding check_row
  row_granted db hash row resp h = ground arith

  pub look_up_granted :
      (db : Db) (hash : Bytes) (resp : RedeemResp)
      → (look_up k cfg r db hash).reply ≡ redeemed resp
      → RowGranted db hash resp (look_up k cfg r db hash).db
  unfolding look_up
  look_up_granted db hash resp h = elim (Bool-cases (r.fails find_code_fails)) [
    | inl broke ↦ absurd (ground arith)
    | inr works ↦ elim (Option-cases (find_code db hash)) [
      | inl gone ↦ absurd (ground arith)
      | inr (row, found) ↦
          let h' = rw (works, found, look_up) at h in
          let (unlocked, unused, bound, passed) = row_granted db hash row resp h' in
          record {
            row = row;
            found = found;
            unlocked = unlocked;
            unused = unused;
            bound = bound;
            code =
                rw (works, found, look_up)
                  (rw passed (code_granted db hash resp (rw passed at h')));
          }
    ]
  ]
