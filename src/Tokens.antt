-- ===== src/Tokens.antt =====
-- Tokens of services/api/internal/tokens/tokens.go and the queries on one_shot_tokens in
-- services/api/internal/store/store.go. SHA-256 is a parameter.
pub mod Hash
pub mod Live
pub mod Base64
use smart_deploy_linux.Prelude.Table.{find, update, select, newest}
use smart_deploy_linux.Prelude.{
  ℕ, Bool, true, false, ◌&&◌, ◌||◌, Option, none, some, String, List, [], ◌∷◌, Bytes, bytes_eq,
  str_eq, ltb, ◌==◌, if◌then◌else◌, is_none, holds_id, arith,
}
use smart_deploy_linux.Schema.{
  State, pending, bootstrapped, imaging, post_install, ordinal, state_eq, AuthCode, Token, Job, Db,
  Faults, select_token, Error, db_error, not_found, token_invalid, Result, ok, err,
}
use smart_deploy_linux.Jobs.{find_job, is_terminal}

-- consumed_at IS NULL AND expires_at > now().
abbrev pub is_live : ℕ → Token → Bool
is_live now t = is_none t.consumed_at && ltb now t.expires_at

abbrev pub is_boot_or_phone_home : Token → Bool
is_boot_or_phone_home t = str_eq t.purpose "boot" || str_eq t.purpose "phone-home"

-- The conditions on `t` in the two checks that a job's endpoints make, for the row `j` of the job.
abbrev pub opens : ℕ → Bytes → Job → Token → Bool
opens now hash j t =
    bytes_eq t.token_hash hash
    && is_boot_or_phone_home t
    && is_live now t
    && holds_id j.auth_code_id t.auth_code_id

abbrev pub one_of : State → List State → Bool
one_of s [] = false
one_of s (t ∷ ts) = state_eq s t || one_of s ts

-- The query that VerifyOneShotTokenForJob and VerifyPhoneHomeToken share, for its list of states.
unfoldable pub verify_token : List State → Faults → ℕ → Db → Bytes → ℕ → Result (ℕ × ℕ)
verify_token states fails now db hash job_id =
    if fails select_token then err db_error else elim (find_job db job_id) [
      | none ↦ err token_invalid
      | some j ↦ elim (find (opens now hash j) db.tokens) [
        | none ↦ err token_invalid
        | some t ↦
            if one_of j.state states then ok (j.machine_id, j.profile_id) else err token_invalid
      ]
    ]

unfoldable pub verify_one_shot_token_for_job : Faults → ℕ → Db → Bytes → ℕ → Result (ℕ × ℕ)
unfolding verify_token
verify_one_shot_token_for_job = verify_token (bootstrapped ∷ imaging ∷ [])

unfoldable pub verify_phone_home_token : Faults → ℕ → Db → Bytes → ℕ → Result (ℕ × ℕ)
unfolding verify_token
verify_phone_home_token = verify_token (pending ∷ bootstrapped ∷ imaging ∷ post_install ∷ [])

-- VerifyOneShotToken consumes the token; it tests neither the purpose nor the state of the job. A
-- token whose code has no job gives a NULL, which cannot be read into a UUID.
unfoldable pub verify_one_shot_token : Faults → ℕ → Db → Bytes → Db × Result ℕ
verify_one_shot_token fails now db hash =
    if fails select_token
    then (db, err db_error)
    else elim (find (λ t. bytes_eq t.token_hash hash && is_live now t) db.tokens) [
      | none ↦ (db, err token_invalid)
      | some t ↦
          let consumed =
            update (λ u. bytes_eq u.token_hash hash && is_live now u)
              (λ u. record u { consumed_at = some now }) db.tokens in
          let newest_job =
            newest (λ j. j.created_at)
              (select (λ j. holds_id j.auth_code_id t.auth_code_id) db.jobs) in
          (
            record db { tokens = consumed },
            elim newest_job [ none ↦ err db_error | some j ↦ ok j.id ],
          )
    ]

-- GetJobOneShotToken: the live token of the job's code with that purpose and the largest id.
unfoldable pub get_job_one_shot_token : Faults → ℕ → Db → ℕ → String → Result ℕ
get_job_one_shot_token fails now db job_id purpose =
    if fails select_token then err db_error else elim (find_job db job_id) [
      | none ↦ err not_found
      | some j ↦
          let fits = λ (t : Token).
            holds_id j.auth_code_id t.auth_code_id && str_eq t.purpose purpose && is_live now t in
          elim (newest (λ t. t.id) (select fits db.tokens)) [
            | none ↦ err not_found
            | some t ↦ ok t.id
          ]
    ]

-- The row that the query of LookupRenderBundleByToken finds.
abbrev pub boot_row : ℕ → Db → Bytes → Option Token
boot_row now db hash =
    find (λ t. bytes_eq t.token_hash hash && str_eq t.purpose "boot" && is_live now t) db.tokens

-- The query of LookupRenderBundleByToken: the machine of a live boot token. It does not consume it.
unfoldable pub boot_token_machine : Faults → ℕ → Db → Bytes → Result ℕ
boot_token_machine fails now db hash =
    if fails select_token then err db_error else elim (boot_row now db hash) [
      | none ↦ err token_invalid
      | some t ↦ elim (find (λ c. c.id == t.auth_code_id) db.codes) [
        | none ↦ err db_error
        | some c ↦ ok c.machine_id
      ]
    ]
