-- ===== src/Jobs/Revoke.antt =====
-- A job that ends takes its boot tokens with it: the call of MarkBootTokensConsumedForJob in
-- TransitionJob.
use mathlib.Core.Option
use smart_deploy_linux.Prelude.Table.{find, update, find-update}
use smart_deploy_linux.Prelude.{
  ℕ, ◌≡◌, refl, ◌∙◌, ap, true, false, none, some, List, [], ◌∷◌, arith, ◌==◌, if◌then◌else◌, All,
  Option-cases, inl, inr,
}
use smart_deploy_linux.Schema.{State, Token, Job, Db, Faults, consume_boot_tokens}
use smart_deploy_linux.Jobs.{
  is_terminal, find_job, is_live_boot_of, consume, mark_boot_tokens_consumed, check_transition,
  set_state, write_transition, transition_job,
}

consumed_all :
    (now : ℕ) (j : Job) (ts : List Token)
    → All (λ t. is_live_boot_of j t ≡ false) (update (is_live_boot_of j) (consume now) ts)
unfolding update
consumed_all now j [] = tt
consumed_all now j (t ∷ ts) = (ground arith, consumed_all now j ts)

found_again :
    (now : ℕ) (db : Db) (id : ℕ) (to : State) (j : Job)
    → find_job db id ≡ some j
    → find (λ k. k.id == id) (update (λ k. k.id == id) (set_state now to) db.jobs)
      ≡ some (set_state now to j)
found_again now db id to j found =
    find-update (λ k. k.id == id) (set_state now to) db.jobs (λ k. refl)
    ∙ ap (Option.map (set_state now to)) found

tokens-write :
    (fails : Faults) (now : ℕ) (db : Db) (id : ℕ) (to : State) (j : Job)
    → find_job db id ≡ some j
    → (write_transition fails now db id to).1 ≡ none
    → (write_transition fails now db id to).0.tokens ≡ (
        if is_terminal to
        then (if fails consume_boot_tokens
            then db.tokens
            else update (is_live_boot_of j) (consume now) db.tokens)
        else db.tokens)
unfolding write_transition mark_boot_tokens_consumed
tokens-write fails now db id to j found h = ground (arith, found_again now db id to j found)

-- The tokens after a successful transition of the job `j`: if the job ended and the revocation did not
-- fail, its unconsumed boot tokens are stamped as consumed now; all other tokens are as before. If the
-- revocation failed every token is as before, though the transition succeeded.
pub tokens-transition :
    (fails : Faults) (now : ℕ) (db : Db) (id : ℕ) (to : State) (j : Job)
    → find_job db id ≡ some j
    → (transition_job fails now db id to).1 ≡ none
    → (transition_job fails now db id to).0.tokens ≡ (
        if is_terminal to
        then (if fails consume_boot_tokens
            then db.tokens
            else update (is_live_boot_of j) (consume now) db.tokens)
        else db.tokens)
unfolding transition_job
tokens-transition fails now db id to j found h =
    elim (Option-cases (check_transition fails db id to)) [
      | inr (e, refused) ↦ ground arith
      | inl passed ↦
          rw (passed, transition_job)
            (tokens-write fails now db id to j found (rw (passed, transition_job) at h))
    ]

-- Once a job has ended, and the revocation did not fail, no boot token of its code is unconsumed.
pub transition_revokes :
    (fails : Faults) (now : ℕ) (db : Db) (id : ℕ) (to : State) (j : Job)
    → find_job db id ≡ some j
    → (transition_job fails now db id to).1 ≡ none
    → is_terminal to ≡ true
    → fails consume_boot_tokens ≡ false
    → All (λ t. is_live_boot_of j t ≡ false) (transition_job fails now db id to).0.tokens
transition_revokes fails now db id to j found h ends works =
    rw (tokens-transition fails now db id to j found h, ends, works) (consumed_all now j db.tokens)
