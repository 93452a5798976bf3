-- ===== src/Broker/Issued.antt =====
-- What handleIssueCode of services/auth-broker/internal/broker/broker.go stores, and that the code it
-- hands out can be redeemed.
use smart_deploy_linux.Prelude.{
  ℕ, ◌≡◌, ◌⊎◌, inl, inr, true, false, not, ◌||◌, none, some, [], ◌∷◌, ◌++◌, Bytes, is_none, arith,
  bytes_eq, bytes_eq_iff, Option-cases, Bool-cases, String,
}
use smart_deploy_linux.Prelude.Duration.{hour}
use smart_deploy_linux.Schema.{AuthCode, Db, insert_code, Result-cases, ok}
use smart_deploy_linux.Codes.{generate, hash_code}
use smart_deploy_linux.Broker.{Config, Hashes, find_code, count_issued_by, issue_auth_code}
use smart_deploy_linux.Broker.Issue.{
  Request, IssueReq, Reply, issued, server_error, Parsers, Order, fine, check_order, is_over,
  issued_row, issue_order, issue_checked, handle_issue_code, require_internal_secret,
}
use smart_deploy_linux.Broker.Checks.{Checked-cases, check_order-IsCheck}

module _ (k : Hashes) (cfg : Config) (parse : Parsers) (r : Request) where
  -- The issue of `code`, which expires at `until` and leaves the tables `left`.
  pub record Issuance (db : Db) (code : Bytes) (until : ℕ) (left : Db) : Type 0 where
    pub req : IssueReq
    pub order : Order
    pub asked : r.body ≡ some req
    pub checked : check_order cfg parse req ≡ fine order
    pub drawn : generate r.random ≡ ok code
    pub quota : is_over cfg (count_issued_by r.fails r.now db order.issued_by hour) ≡ false
    pub new_hash : find_code db (hash_code k.argon2id code cfg.deploy_fqdn) ≡ none
    pub leaves : left ≡ record db {
      codes =
          db.codes
          ++ issued_row r order req.capture_version_tag (hash_code k.argon2id code cfg.deploy_fqdn)
            ∷ [];
    }
    pub expiry :
        until
        ≡ (issued_row r order req.capture_version_tag
            (hash_code k.argon2id code cfg.deploy_fqdn)).expires_at

  abbrev pub row_of : Order → String → Bytes → AuthCode
  row_of o tag code = issued_row r o tag (hash_code k.argon2id code cfg.deploy_fqdn)

  order_stored :
      (db : Db) (o : Order) (tag : String) (code : Bytes)
      → is_over cfg (count_issued_by r.fails r.now db o.issued_by hour) ≡ false
      → generate r.random ≡ ok code
      → (r.fails insert_code || not (is_none (find_code db (row_of o tag code).code_hash))) ≡ false
      → issue_order k cfg parse r db o tag ≡ (
        record db { codes = db.codes ++ row_of o tag code ∷ [] },
        issued code (row_of o tag code).expires_at,
      )
  unfolding issue_order issue_auth_code
  order_stored db o tag code under drawn free = rw (under, drawn, issue_order, free)

  order_refused :
      (db : Db) (o : Order) (tag : String) (code : Bytes)
      → is_over cfg (count_issued_by r.fails r.now db o.issued_by hour) ≡ false
      → generate r.random ≡ ok code
      → (r.fails insert_code || not (is_none (find_code db (row_of o tag code).code_hash))) ≡ true
      → issue_order k cfg parse r db o tag ≡ (db, server_error)
  unfolding issue_order issue_auth_code
  order_refused db o tag code under drawn taken = rw (under, drawn, issue_order, taken)

  order_issued :
      (db : Db) (o : Order) (tag : String) (code : Bytes) (until : ℕ)
      → (issue_order k cfg parse r db o tag).1 ≡ issued code until
      → (generate r.random ≡ ok code)
        × (is_over cfg (count_issued_by r.fails r.now db o.issued_by hour) ≡ false)
        × (find_code db (hash_code k.argon2id code cfg.deploy_fqdn) ≡ none)
        × ((issue_order k cfg parse r db o tag).0 ≡ record db {
          codes = db.codes ++ issued_row r o tag (hash_code k.argon2id code cfg.deploy_fqdn) ∷ [];
        })
        × (until ≡ (issued_row r o tag (hash_code k.argon2id code cfg.deploy_fqdn)).expires_at)
  unfolding issue_order
  order_issued db o tag code until h =
      elim (Bool-cases (is_over cfg (count_issued_by r.fails r.now db o.issued_by hour))) [
        | inl over ↦ absurd (let e = rw (over, issue_order) at h in cc e)
        | inr under ↦ elim (Result-cases (generate r.random)) [
          | inr (e, dry) ↦ absurd (let f = rw (under, dry, issue_order) at h in cc f)
          | inl (c, drawn) ↦
              elim (Bool-cases
                (r.fails insert_code || not (is_none (find_code db (row_of o tag c).code_hash)))) [
                  | inl refused ↦ absurd (cc (h, order_refused db o tag c under drawn refused))
                  | inr free ↦
                      let stored = order_stored db o tag c under drawn free in
                      let same : c ≡ code = cc (h, stored) in
                      let new : find_code db (row_of o tag c).code_hash ≡ none = ground arith in
                      (cc (drawn, same), under, cc (new, same), cc (stored, same), cc (stored, h))
                ]
        ]
      ]

  handled_issue :
      (db : Db) (code : Bytes) (until : ℕ)
      → (handle_issue_code k cfg parse r db).1 ≡ issued code until
      → Issuance db code until (handle_issue_code k cfg parse r db).0
  unfolding handle_issue_code issue_checked
  handled_issue db code until h = elim (Option-cases r.body) [
    | inl bad ↦ absurd (let e = rw (bad, handle_issue_code) at h in cc e)
    | inr (req, read) ↦ elim (Checked-cases (check_order cfg parse req)) [
      | inr (e, bad) ↦ absurd (
          check_order-IsCheck cfg parse req code until
            (let f = rw (read, bad, handle_issue_code) at h in cc (bad, f)))
      | inl (o, checked) ↦
          let h' = rw (read, checked, handle_issue_code) at h in
          let (drawn, under, new, leaves, expiry) =
            order_issued db o req.capture_version_tag code until h' in
          record {
            req = req;
            order = o;
            asked = read;
            checked = checked;
            drawn = drawn;
            quota = under;
            new_hash = new;
            leaves = rw (read, checked, handle_issue_code) leaves;
            expiry = expiry;
          }
    ]
  ]

  secret_passed :
      (db : Db) (code : Bytes) (until : ℕ)
      → (require_internal_secret k cfg parse r db).1 ≡ issued code until
      → ((cfg.issue_shared_secret ≡ []) ⊎ (r.secret_header ≡ cfg.issue_shared_secret))
        × (require_internal_secret k cfg parse r db ≡ handle_issue_code k cfg parse r db)
  unfolding require_internal_secret
  secret_passed db code until h = ground (
    arith,
    bytes_eq_iff cfg.issue_shared_secret [],
    bytes_eq_iff r.secret_header cfg.issue_shared_secret,
  )

  -- If requireInternalSecret and handleIssueCode hand out a code, then the secret was sent, or none is
  -- configured, the input passed the checks, the actor is below the hourly quota (or its query
  -- failed), the code is the one drawn and its hash is new; and the tables change by its row alone.
  pub issue_success :
      (db : Db) (code : Bytes) (until : ℕ)
      → (require_internal_secret k cfg parse r db).1 ≡ issued code until
      → ((cfg.issue_shared_secret ≡ []) ⊎ (r.secret_header ≡ cfg.issue_shared_secret))
        × Issuance db code until (require_internal_secret k cfg parse r db).0
  issue_success db code until h =
      let (sent, passed) = secret_passed db code until h in
      (sent, rw passed (handled_issue db code until (rw passed at h)))

  -- Either a code is handed out or the tables stay as they are.
  abbrev pub IssuesOrKeeps : Db → Db × Reply → Type 0
  IssuesOrKeeps db o = (o.0 ≡ db) ⊎ ((code : Bytes) × (until : ℕ) × (o.1 ≡ issued code until))

  order-IssuesOrKeeps :
      (db : Db) (o : Order) (tag : String) → IssuesOrKeeps db (issue_order k cfg parse r db o tag)
  unfolding issue_order
  order-IssuesOrKeeps db o tag =
      elim (Bool-cases (is_over cfg (count_issued_by r.fails r.now db o.issued_by hour))) [
        | inl over ↦ inl (rw (over, issue_order))
        | inr under ↦ elim (Result-cases (generate r.random)) [
          | inr (e, dry) ↦ inl (rw (under, dry, issue_order))
          | inl (c, drawn) ↦
              elim (Bool-cases
                (r.fails insert_code || not (is_none (find_code db (row_of o tag c).code_hash)))) [
                  | inl refused ↦ inl (rw (order_refused db o tag c under drawn refused))
                  | inr free ↦ inr (
                    c,
                    (row_of o tag c).expires_at,
                    rw (order_stored db o tag c under drawn free),
                  )
                ]
        ]
      ]

  handle-IssuesOrKeeps : (db : Db) → IssuesOrKeeps db (handle_issue_code k cfg parse r db)
  unfolding handle_issue_code issue_checked
  handle-IssuesOrKeeps db = elim (Option-cases r.body) [
    | inl bad ↦ inl (rw (bad, handle_issue_code))
    | inr (req, read) ↦ elim (Checked-cases (check_order cfg parse req)) [
      | inr (e, bad) ↦ inl (rw (read, bad, handle_issue_code))
      | inl (o, checked) ↦
          rw (read, checked, handle_issue_code) (order-IssuesOrKeeps db o req.capture_version_tag)
    ]
  ]

  -- Whatever the request and whichever statements fail, either a code is handed out or the tables stay
  -- as they are.
  pub issue-IssuesOrKeeps : (db : Db) → IssuesOrKeeps db (require_internal_secret k cfg parse r db)
  unfolding require_internal_secret
  issue-IssuesOrKeeps db = elim (Bool-cases (bytes_eq cfg.issue_shared_secret [])) [
    | inl none_set ↦ rw none_set (handle-IssuesOrKeeps db)
    | inr set ↦ elim (Bool-cases (bytes_eq r.secret_header cfg.issue_shared_secret)) [
      | inl sent ↦ rw (set, sent) (handle-IssuesOrKeeps db)
      | inr wrong ↦ inl (rw (set, wrong))
    ]
  ]
