-- ===== src/Broker/Success.antt =====
-- What a successful handleRedeem of services/auth-broker/internal/broker/broker.go shows of the code,
-- and exactly what it stores.
use smart_deploy_linux.Prelude.Table.{find, update, find-holds, find-update_other, find-ext}
use smart_deploy_linux.Prelude.Keys.{HasKeys, find-and_key, row-find}
use smart_deploy_linux.Prelude.{
  ℕ, ◌<◌, ◌≡◌, refl, true, ◌&&◌, none, some, List, [], ◌∷◌, ◌++◌, Bytes, ltb, is_none, Option-cases,
  inl, inr, arith, ◌==◌, bytes_eq, bytes_eq_iff,
}
use smart_deploy_linux.Schema.{AuthCode, Db, Result-cases, ok}
use smart_deploy_linux.Valid.{DbValid}
use smart_deploy_linux.Codes.{normalize, hash_code}
use smart_deploy_linux.Tokens.Base64.{base64url}
use smart_deploy_linux.Broker.{
  Config, Hashes, find_code, is_redeemable, redeem_now, bootstrapped_job,
}
use smart_deploy_linux.Broker.Redeem.{
  Request, redeemed, RedeemReq, RedeemResp, in_binding, chain_url, look_up, decode, handle_redeem,
}
use smart_deploy_linux.Broker.Sound.{boot_token, RowGranted, look_up_granted}
use smart_deploy_linux.Broker.Stages.{with_attempt, handle-split}

-- The tables after the code is consumed and its job and token exist.
abbrev pub after : Hashes → Config → Request → Bytes → AuthCode → Bytes → Db → Db
after k cfg r hash c bytes db = record db {
  codes = update (is_redeemable r.now hash) (redeem_now r.now) db.codes;
  jobs = db.jobs ++ bootstrapped_job r.now r.job_id c.machine_id c.profile_id c ∷ [];
  tokens = db.tokens ++ boot_token k cfg r c bytes ∷ [];
}

-- A redemption of the code `code` that answers `resp` and leaves the tables `left`.
pub record Redemption (k : Hashes) (cfg : Config) (r : Request) (db : Db) (resp : RedeemResp)
    (left : Db) : Type 0 where
  pub req : RedeemReq
  pub canonical : Bytes
  pub code : AuthCode
  pub bytes : Bytes
  pub asked : r.body ≡ some req
  pub spelt : normalize req.code ≡ ok canonical
  pub found : find_code db (hash_code k.argon2id canonical cfg.deploy_fqdn) ≡ some code
  pub unlocked : code.locked_at ≡ none
  pub unused : code.redeemed_at ≡ none
  pub live : r.now < code.expires_at
  pub bound : in_binding code.binding r.src_ip ≡ true
  pub drawn : r.random ≡ some bytes
  pub new_token :
      find (λ t. bytes_eq t.token_hash (boot_token k cfg r code bytes).token_hash) db.tokens ≡ none
  pub leaves :
      left
      ≡ with_attempt r
          (after k cfg r (hash_code k.argon2id canonical cfg.deploy_fqdn) code bytes db)
  pub url : resp.chainload_url ≡ chain_url cfg.deploy_fqdn (base64url bytes)
  pub machine : resp.machine_id ≡ code.machine_id

find_again :
    (now : ℕ) (hash : Bytes) (codes : List AuthCode) (c s : AuthCode)
    → HasKeys (λ c. c.id) codes
    → find (is_redeemable now hash) codes ≡ some c
    → find (λ d. d.id == c.id) (update (is_redeemable now hash) (redeem_now now) codes) ≡ some s
    → s ≡ redeem_now now c
find_again now hash codes c s keys found again =
    let same = row-find (λ c. c.id) _ codes keys found in
    let holds = find-holds (is_redeemable now hash) codes found in
    let kept =
      find-update_other (λ d. d.id == c.id) (is_redeemable now hash) (redeem_now now) codes
        (λ d. refl) in
    cc (again, kept, same, holds)

-- The first row with the hash is the one that the UPDATE picks, and the one that the job is made from.
same_code :
    (now : ℕ) (hash : Bytes) (codes : List AuthCode) (a b : AuthCode)
    → HasKeys (λ c. c.code_hash) codes
    → find (λ c. bytes_eq c.code_hash hash) codes ≡ some a
    → find (is_redeemable now hash) codes ≡ some b
    → a ≡ b
same_code now hash codes a b keys found ready =
    let q =
      λ (c : AuthCode). is_none c.redeemed_at && is_none c.locked_at && ltb now c.expires_at in
    let split =
      find-ext (is_redeemable now hash) (λ c. bytes_eq c.code_hash hash && q c) codes
        (λ c. ground arith) in
    find-and_key (λ c. c.code_hash) (λ c. bytes_eq c.code_hash hash) q hash codes
      (λ z h. (bytes_eq_iff z.code_hash hash).0 h) keys found (cc (split, ready))

module _ (k : Hashes) (cfg : Config) (r : Request) where
  left_by :
      (db left : Db) (hash bytes : Bytes) (a b source : AuthCode)
      → a ≡ b
      → source ≡ redeem_now r.now b
      → left ≡ record db {
        codes = update (is_redeemable r.now hash) (redeem_now r.now) db.codes;
        jobs = db.jobs ++ bootstrapped_job r.now r.job_id b.machine_id b.profile_id source ∷ [];
        tokens = db.tokens ++ boot_token k cfg r (redeem_now r.now b) bytes ∷ [];
      }
      → left ≡ after k cfg r hash a bytes db
  left_by db left hash bytes a b source a-b made h = rw (a-b, h, made)

  row_leaves :
      (db : Db) (hash : Bytes) (resp : RedeemResp) (left : Db)
      → DbValid db
      → (g : RowGranted k cfg r db hash resp left)
      → (left ≡ after k cfg r hash g.row g.code.job.token.bytes db)
        × (r.now < g.row.expires_at)
        × (resp.machine_id ≡ g.row.machine_id)
  row_leaves db hash resp left v g =
      let c = g.code.code in
      let ready = g.code.redeemable in
      let same = same_code r.now hash db.codes g.row c v.code_hashes g.found ready in
      let made =
        find_again r.now hash db.codes c g.code.job.source v.code_ids ready
          g.code.job.found_again in
      let holds = find-holds (is_redeemable r.now hash) db.codes ready in
      (
        left_by db left hash g.code.job.token.bytes g.row c g.code.job.source same made
            g.code.job.token.leaves,
        rw same (ground arith),
        cc (same, g.code.job.token.machine),
      )

  pub decode_granted :
      (db : Db) (resp : RedeemResp)
      → (decode k cfg r db).reply ≡ redeemed resp
      → (req : RedeemReq) × (canonical : Bytes) × (r.body ≡ some req)
        × (normalize req.code ≡ ok canonical)
        × (decode k cfg r db ≡ look_up k cfg r db (hash_code k.argon2id canonical cfg.deploy_fqdn))
  unfolding decode
  decode_granted db resp h = elim (Option-cases r.body) [
    | inl bad ↦ absurd (ground arith)
    | inr (req, read) ↦ elim (Result-cases (normalize req.code)) [
      | inl (code, fine) ↦ (req, code, read, fine, ground arith)
      | inr (e, bad) ↦ absurd (ground arith)
    ]
  ]

  pub handle_granted :
      (db : Db) (resp : RedeemResp)
      → (handle_redeem k cfg r db).reply ≡ redeemed resp
      → handle_redeem k cfg r db ≡ decode k cfg r (with_attempt r db)
  handle_granted db resp =
      handle-split k cfg r (λ o. o.reply ≡ redeemed resp → o ≡ decode k cfg r (with_attempt r db))
        db (λ limited. absurd (cc limited)) (λ h. refl)

  -- If handleRedeem answers with a grant from well-formed tables, then the code that was sent
  -- normalises, its hash finds a row that is not locked, not redeemed, not expired and not bound to other
  -- addresses, and the tables afterwards are the ones before with exactly these changes: the attempt is
  -- recorded, that row is marked as redeemed, and one job in "bootstrapped" and one boot token are added,
  -- with the chain-load URL of that token in the answer.
  pub redeem_success :
      (db : Db) (resp : RedeemResp)
      → DbValid db
      → (handle_redeem k cfg r db).reply ≡ redeemed resp
      → Redemption k cfg r db resp (handle_redeem k cfg r db).db
  redeem_success db resp v h =
      let passed = handle_granted db resp h in
      let h1 = rw passed at h in
      let (req, canonical, asked, spelt, step) = decode_granted (with_attempt r db) resp h1 in
      let hash = hash_code k.argon2id canonical cfg.deploy_fqdn in
      let v' : DbValid (with_attempt r db) = record {
        code_ids = v.code_ids;
        code_hashes = v.code_hashes;
        token_hashes = v.token_hashes;
        jobs_valid = v.jobs_valid;
      } in
      let g = look_up_granted k cfg r (with_attempt r db) hash resp (rw step at h1) in
      let (leaves, live, machine) = row_leaves (with_attempt r db) hash resp _ v' g in
      record {
        req = req;
        canonical = canonical;
        code = g.row;
        bytes = g.code.job.token.bytes;
        asked = asked;
        spelt = spelt;
        found = g.found;
        unlocked = g.unlocked;
        unused = g.unused;
        live = live;
        bound = g.bound;
        drawn = g.code.job.token.drawn;
        new_token = g.code.job.token.fresh;
        leaves = cc (passed, step, leaves);
        url = g.code.job.token.url;
        machine = machine;
      }
