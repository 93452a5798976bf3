-- ===== src/Broker/Stages.antt =====
-- The ways through the stages of handleRedeem in services/auth-broker/internal/broker/broker.go, as
-- principles: what holds of every way a stage can end holds of the stage.
use smart_deploy_linux.Prelude.Table.{find, update}
use smart_deploy_linux.Prelude.{
  ◌≡◌, ◌≢◌, ◌⊎◌, true, false, none, some, [], ◌∷◌, ◌++◌, Bytes, if◌then◌else◌, Option-cases,
  Bool-cases, inl, inr, arith,
}
use smart_deploy_linux.Prelude.Duration.{hour}
use smart_deploy_linux.Schema.{
  AuthCode, Db, record_attempt, consume_code, find_code as find_code_fails, Result-cases,
}
use smart_deploy_linux.Codes.{normalize, hash_code}
use smart_deploy_linux.Broker.{
  Config, Hashes, find_code, is_redeemable, redeem_now, record_per_ip_attempt,
  increment_code_attempt,
}
use smart_deploy_linux.Broker.Redeem.{
  Request, Outcome, quiet, audited, rate_limited, ip_not_allowed, failed_binding, grant_job, grant,
  check_row, look_up, decode, is_over, handle_redeem,
}

-- The tables after the attempt of the request is recorded.
abbrev pub with_attempt : Request → Db → Db
with_attempt r db = record db {
  attempts =
      if r.fails record_attempt
      then db.attempts
      else db.attempts ++ record { source_ip = r.src_ip; at = r.now } ∷ [];
}

-- The tables after the code is consumed.
abbrev pub consumed : Request → Bytes → Db → Db
consumed r hash db = record db {
  codes = update (is_redeemable r.now hash) (redeem_now r.now) db.codes;
}

-- An answer other than 429 that changes nothing.
abbrev pub LeavesAlone : Db → Outcome → Type 0
LeavesAlone db o = (o.db ≡ db) × (o.reply ≢ rate_limited)

module _ (k : Hashes) (cfg : Config) (r : Request) where
  pub grant-job :
      (db : Db) (hash : Bytes) (code : AuthCode) (key url : Bytes)
      → r.overlay ≡ some (key, url)
      → r.fails consume_code ≡ false
      → find (is_redeemable r.now hash) db.codes ≡ some code
      → grant k cfg r db hash
        ≡ grant_job k cfg r (consumed r hash db) (redeem_now r.now code) key url
  unfolding grant
  grant-job db hash code key url up works ready = ground arith

  not_consumed :
      (db : Db) (hash : Bytes)
      → (r.fails consume_code ≡ true) ⊎ (find (is_redeemable r.now hash) db.codes ≡ none)
      → LeavesAlone db (grant k cfg r db hash)
  unfolding grant
  not_consumed db hash (inl broke) = ground arith
  not_consumed db hash (inr gone) = ground arith

  pub attempt_left :
      (db : Db) → (record_per_ip_attempt r.fails r.now db r.src_ip hour).0 ≡ with_attempt r db
  unfolding record_per_ip_attempt
  attempt_left db = ground arith

  row_outcome :
      (db : Db) (hash : Bytes) (c : AuthCode)
      → LeavesAlone db (check_row k cfg r db hash c)
        ⊎ (check_row k cfg r db hash c
            ≡ audited
                (increment_code_attempt r.fails r.now db hash cfg.rate_redeem_per_code)
                ip_not_allowed
                (failed_binding c.id))
        ⊎ (check_row k cfg r db hash c ≡ grant k cfg r db hash)
  unfolding check_row
  row_outcome db hash c = ground arith

  module _ {ℓ} (P : Outcome → Type ℓ) where
    pub grant-split :
        (db : Db) (hash : Bytes)
        → ((o : Outcome) → LeavesAlone db o → P o)
        → ((c : AuthCode) (key url : Bytes)
            → r.overlay ≡ some (key, url)
            → find (is_redeemable r.now hash) db.codes ≡ some c
            → P (grant_job k cfg r (consumed r hash db) (redeem_now r.now c) key url))
        → P (grant k cfg r db hash)
    unfolding grant
    grant-split db hash alone minted = elim (Option-cases r.overlay) [
      | inl down ↦ alone _ (ground arith)
      | inr ((key, url), up) ↦ elim (Bool-cases (r.fails consume_code)) [
        | inl broke ↦ alone _ (not_consumed db hash (inl broke))
        | inr works ↦ elim (Option-cases (find (is_redeemable r.now hash) db.codes)) [
          | inl gone ↦ alone _ (not_consumed db hash (inr gone))
          | inr (c, ready) ↦
              rw (grant-job db hash c key url up works ready) (minted c key url up ready)
        ]
      ]
    ]

    pub row-split :
        (db : Db) (hash : Bytes) (c : AuthCode)
        → ((o : Outcome) → LeavesAlone db o → P o)
        → P (
            audited
              (increment_code_attempt r.fails r.now db hash cfg.rate_redeem_per_code)
              ip_not_allowed
              (failed_binding c.id))
        → P (grant k cfg r db hash)
        → P (check_row k cfg r db hash c)
    row-split db hash c alone outside passed = elim (row_outcome db hash c) [
      | inl ended ↦ alone _ ended
      | inr (inl bound) ↦ rw bound outside
      | inr (inr open_code) ↦ rw open_code passed
    ]

    pub decode-split :
        (db : Db)
        → ((o : Outcome) → LeavesAlone db o → P o)
        → ((hash : Bytes) (c : AuthCode)
            → find_code db hash ≡ some c
            → P (check_row k cfg r db hash c))
        → P (decode k cfg r db)
    unfolding decode look_up
    decode-split db alone found_row = elim (Option-cases r.body) [
      | inl bad ↦ alone _ (ground arith)
      | inr (req, read) ↦ elim (Result-cases (normalize req.code)) [
        | inr (e, bad) ↦ alone _ (ground arith)
        | inl (code, fine) ↦
            let hash = hash_code k.argon2id code cfg.deploy_fqdn in
            elim (Bool-cases (r.fails find_code_fails)) [
              | inl broke ↦ alone _ (ground arith)
              | inr works ↦ elim (Option-cases (find_code db hash)) [
                | inl gone ↦ alone _ (ground arith)
                | inr (c, found) ↦
                    rw (read, fine, decode, works, look_up, found) (found_row hash c found)
              ]
            ]
      ]
    ]

    pub handle-split :
        (db : Db)
        → P (quiet (with_attempt r db) rate_limited)
        → P (decode k cfg r (with_attempt r db))
        → P (handle_redeem k cfg r db)
    unfolding handle_redeem
    handle-split db limited passed =
        let tried = record_per_ip_attempt r.fails r.now db r.src_ip hour in
        elim (Bool-cases (is_over k cfg tried.1)) [
          | inl over ↦ rw (over, handle_redeem, attempt_left db) limited
          | inr fine ↦ rw (fine, handle_redeem, attempt_left db) passed
        ]
