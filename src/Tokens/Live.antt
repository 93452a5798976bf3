-- ===== src/Tokens/Live.antt =====
-- When a token opens a job's endpoints, and when it stops doing so.
use smart_deploy_linux.Prelude.Table.{find, update, find-holds, All-find}
use smart_deploy_linux.Prelude.{
  ℕ, ◌≤◌, ◌≡◌, ◌≢◌, refl, true, false, ◌&&◌, Bool, Option, none, some, List, [], ◌∷◌, arith,
  holds_id, if◌then◌else◌, All, Option-cases, inl, inr, Bytes, bytes_eq, Bool,
}
use smart_deploy_linux.Schema.{
  State, bootstrapped, imaging, Token, Job, Db, Faults, no_faults, token_invalid, ok, err,
}
use smart_deploy_linux.Jobs.{is_terminal, find_job, is_live_boot_of, set_state, transition_job}
use smart_deploy_linux.Jobs.Graph.{transition_outcome}
use smart_deploy_linux.Jobs.Revoke.{transition_revokes}
use smart_deploy_linux.Tokens.{
  is_live, opens, one_of, verify_one_shot_token_for_job, verify_phone_home_token,
  verify_one_shot_token, boot_row,
}

-- What opens the installer's endpoints also lets it phone home, with the same answer, whichever
-- statements fail.
pub phone_home-for_job :
    (fails : Faults) (now : ℕ) (db : Db) (hash : Bytes) (id : ℕ) (answer : ℕ × ℕ)
    → verify_one_shot_token_for_job fails now db hash id ≡ ok answer
    → verify_phone_home_token fails now db hash id ≡ ok answer
unfolding verify_one_shot_token_for_job verify_phone_home_token
phone_home-for_job fails now db hash id answer h = elim (Option-cases (find_job db id)) [
  | inl missing ↦ ground arith
  | inr (j, found) ↦ elim (Option-cases (find (opens now hash j) db.tokens)) [
    | inl closed ↦ ground arith
    | inr (t, open_by) ↦ ground arith
  ]
]

-- The difference between the two checks: where a token lets the installer phone home, it opens the
-- endpoints of the job exactly if the job is in "bootstrapped" or "imaging".
pub for_job-phone_home :
    (now : ℕ) (db : Db) (hash : Bytes) (id : ℕ) (answer : ℕ × ℕ) (j : Job)
    → find_job db id ≡ some j
    → verify_phone_home_token no_faults now db hash id ≡ ok answer
    → verify_one_shot_token_for_job no_faults now db hash id
      ≡ (if one_of j.state (bootstrapped ∷ imaging ∷ []) then ok answer else err token_invalid)
unfolding verify_one_shot_token_for_job verify_phone_home_token
for_job-phone_home now db hash id answer j found h =
    elim (Option-cases (find (opens now hash j) db.tokens)) [
      | inl closed ↦ ground arith
      | inr (t, open_by) ↦ ground arith
    ]

pub closed_by_state :
    (now : ℕ) (db : Db) (hash : Bytes) (id : ℕ) (j : Job)
    → find_job db id ≡ some j
    → is_terminal j.state ≡ true
    → (verify_phone_home_token no_faults now db hash id ≡ err token_invalid)
      × (verify_one_shot_token_for_job no_faults now db hash id ≡ err token_invalid)
unfolding verify_one_shot_token_for_job verify_phone_home_token
closed_by_state now db hash id j found ended =
    elim (Option-cases (find (opens now hash j) db.tokens)) [
      | inl closed ↦ ground arith
      | inr (t, open_by) ↦ ground arith
    ]

-- The token that a boot script would be given out for is one of the job's code.
abbrev pub is_row_of : Job → Option Token → Bool
is_row_of j none = false
is_row_of j (some t) = holds_id j.auth_code_id t.auth_code_id

row_not_of_job :
    (now : ℕ) (db : Db) (hash : Bytes) (j : Job)
    → All (λ u. is_live_boot_of j u ≡ false) db.tokens
    → is_row_of j (boot_row now db hash) ≡ false
row_not_of_job now db hash j revoked = elim (Option-cases (boot_row now db hash)) [
  | inl missing ↦ rw missing
  | inr (t, found) ↦
      let dead = All-find (λ u. is_live_boot_of j u ≡ false) _ db.tokens revoked found in
      let fits = find-holds _ db.tokens found in rw found (ground arith)
]

-- On the tables that a transition to a terminal state left, of which no statement failed, the one that
-- revokes the boot tokens included, no token of any hash lets an installer phone home for the job or
-- opens its endpoints, at any time; and a boot script is given out only for the token of another
-- authorisation code. No statement of these lookups fails.
pub ended_job_closed :
    (now : ℕ) (db : Db) (id : ℕ) (to : State) (j : Job) (later : ℕ) (hash : Bytes)
    → find_job db id ≡ some j
    → (transition_job no_faults now db id to).1 ≡ none
    → is_terminal to ≡ true
    → let db' = (transition_job no_faults now db id to).0 in
      (verify_phone_home_token no_faults later db' hash id ≡ err token_invalid)
      × (verify_one_shot_token_for_job no_faults later db' hash id ≡ err token_invalid)
      × (is_row_of j (boot_row later db' hash) ≡ false)
ended_job_closed now db id to j later hash found h ends =
    elim (transition_outcome no_faults now db id to j found) [
      | inr (broke, _) ↦ absurd (broke h)
      | inl (_, _, row) ↦
          let db' = (transition_job no_faults now db id to).0 in
          let (shut, shut') = closed_by_state later db' hash id (set_state now to j) row ends in
          let revoked = transition_revokes no_faults now db id to j found h ends refl in
          (shut, shut', row_not_of_job later db' hash j revoked)
    ]

no_row :
    (later now : ℕ) (hash : Bytes) (ts : List Token)
    → now ≤ later
    → find
        (λ t. bytes_eq t.token_hash hash && is_live later t)
        (update
          (λ u. bytes_eq u.token_hash hash && is_live now u)
          (λ u. record u { consumed_at = some now })
          ts)
      ≡ none
unfolding find update
no_row later now hash [] h = refl
no_row later now hash (t ∷ ts) h = ground (arith, no_row later now hash ts h)

-- VerifyOneShotToken accepts a hash at most once: after it has given out a job, or has found the token
-- without one, the same hash is refused at every later time.
pub one_shot :
    (now later : ℕ) (db : Db) (hash : Bytes)
    → (verify_one_shot_token no_faults now db hash).1 ≢ err token_invalid
    → now ≤ later
    → (verify_one_shot_token no_faults later (verify_one_shot_token no_faults now db hash).0 hash).1
      ≡ err token_invalid
unfolding verify_one_shot_token
one_shot now later db hash h le =
    elim (Option-cases (find (λ t. bytes_eq t.token_hash hash && is_live now t) db.tokens)) [
      | inl missing ↦ absurd (h (rw (missing, verify_one_shot_token)))
      | inr (t, found) ↦
          rw (found, verify_one_shot_token)
            (rw (no_row later now hash db.tokens le, verify_one_shot_token))
    ]
