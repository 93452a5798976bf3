-- ===== src/Jobs.antt =====
-- The life of a deployment job: TransitionJob, AdvanceJob and MarkBootTokensConsumedForJob of
-- services/api/internal/store/store.go.
pub mod Graph
pub mod Shape
pub mod Advance
pub mod Finished
pub mod Revoke
pub mod Race
use smart_deploy_linux.Prelude.Table.{find, update}
use smart_deploy_linux.Prelude.{
  ℕ, suc, ◌+◌, ◌-◌, Bool, true, false, not, ◌&&◌, ◌||◌, Option, none, some, String, List, [], ◌∷◌,
  str_eq, ltb, leb, ◌==◌, if◌then◌else◌, is_none, holds_id, take, drop,
}
use smart_deploy_linux.Schema.{
  State, pending, bootstrapped, imaging, post_install, completed, failed, cancelled, ordinal,
  state_eq, Token, Job, Db, Faults, select_state, update_state, consume_boot_tokens, Error,
  db_error, not_found, unknown_target, invalid_transition, in_terminal_state,
}

-- The map `allowed` of TransitionJob; a state that is no key has no successor.
abbrev pub allowed : State → List State
allowed pending = bootstrapped ∷ cancelled ∷ []
allowed bootstrapped = imaging ∷ failed ∷ cancelled ∷ []
allowed imaging = post_install ∷ completed ∷ failed ∷ cancelled ∷ []
allowed post_install = completed ∷ failed ∷ []
allowed _ = []

-- The loop over `allowed[cur]`.
abbrev pub is_allowed : State → List State → Bool
is_allowed to [] = false
is_allowed to (v ∷ vs) = state_eq v to || is_allowed to vs

abbrev pub is_terminal : State → Bool
is_terminal to = state_eq to completed || state_eq to failed || state_eq to cancelled

abbrev pub find_job : Db → ℕ → Option Job
find_job db id = find (λ j. j.id == id) db.jobs

-- The WHERE clause of MarkBootTokensConsumedForJob, for the row `j` of the job.
abbrev pub is_live_boot_of : Job → Token → Bool
is_live_boot_of j t =
    holds_id j.auth_code_id t.auth_code_id && str_eq t.purpose "boot" && is_none t.consumed_at

abbrev pub consume : ℕ → Token → Token
consume now t = record t { consumed_at = some now }

unfoldable pub mark_boot_tokens_consumed : Faults → ℕ → Db → ℕ → Db × Option Error
mark_boot_tokens_consumed fails now db job_id =
    if fails consume_boot_tokens then (db, some db_error) else elim (find_job db job_id) [
      | none ↦ (db, none)
      | some j ↦ (record db { tokens = update (is_live_boot_of j) (consume now) db.tokens }, none)
    ]

-- The first half of TransitionJob: it reads the state and tests the transition. `none` lets it go on.
unfoldable pub check_transition : Faults → Db → ℕ → State → Option Error
check_transition fails db job_id to =
    if fails select_state then some db_error else elim (find_job db job_id) [
      | none ↦ some not_found
      | some j ↦
          if is_allowed to (allowed j.state) then none else some (invalid_transition j.state to)
    ]

-- SET state = to, and finished_at = now() if `to` is terminal.
abbrev pub set_state : ℕ → State → Job → Job
set_state now to j = record j {
  state = to;
  finished_at = if is_terminal to then some now else j.finished_at;
}

-- The second half: it writes the state by the id alone, and revokes the boot tokens of a job that
-- has ended. The error of that revocation is dropped.
unfoldable pub write_transition : Faults → ℕ → Db → ℕ → State → Db × Option Error
write_transition fails now db job_id to =
    let written = record db { jobs = update (λ j. j.id == job_id) (set_state now to) db.jobs } in
    let revoked = (mark_boot_tokens_consumed fails now written job_id).0 in
    if fails update_state
    then (db, some db_error)
    else (if is_terminal to then revoked else written, none)

unfoldable pub transition_job : Faults → ℕ → Db → ℕ → State → Db × Option Error
transition_job fails now db job_id to = elim (check_transition fails db job_id to) [
  | some e ↦ (db, some e)
  | none ↦ write_transition fails now db job_id to
]

abbrev pub job_state_path : List State
job_state_path = pending ∷ bootstrapped ∷ imaging ∷ post_install ∷ completed ∷ []

-- The search loops of AdvanceJob; `none` is the index -1.
abbrev pub path_index : ℕ → State → List State → Option ℕ
path_index i st [] = none
path_index i st (s ∷ ss) = if state_eq s st then some i else path_index (suc i) st ss

-- The loop over `jobStatePath[i]`; each transition meets faults of its own.
unfoldable pub advance_steps : (State → Faults) → ℕ → Db → ℕ → List State → Db × Option Error
advance_steps fails now db job_id [] = (db, none)
advance_steps fails now db job_id (st ∷ rest) =
    let (db', err) = transition_job (fails st) now db job_id st in
    elim err [ none ↦ advance_steps fails now db' job_id rest | some e ↦ (db', some e) ]

-- The part of AdvanceJob behind the search for `to`.
unfoldable pub advance_to : (State → Faults) → Faults → ℕ → Db → ℕ → ℕ → Db × Option Error
unfolding advance_steps
advance_to fails reading now db job_id target =
    if reading select_state then (db, some db_error) else elim (find_job db job_id) [
      | none ↦ (db, some not_found)
      | some j ↦ elim (path_index 0 j.state job_state_path) [
        | none ↦ (db, some (in_terminal_state j.state))
        | some cur ↦
            advance_steps fails now db job_id (take (target - cur) (drop (cur + 1) job_state_path))
      ]
    ]

unfoldable pub advance_job : (State → Faults) → Faults → ℕ → Db → ℕ → State → Db × Option Error
unfolding advance_to
advance_job fails reading now db job_id to =
    if state_eq to failed || state_eq to cancelled
    then transition_job (fails to) now db job_id to
    else elim (path_index 0 to job_state_path) [
      | none ↦ (db, some unknown_target)
      | some target ↦ advance_to fails reading now db job_id target
    ]
