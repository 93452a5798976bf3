-- ===== src/Jobs/Graph.antt =====
-- The transition graph of TransitionJob, and what a transition does to the row of its job.
use mathlib.Core.Option
use smart_deploy_linux.Prelude.Table.{update, find-update}
use smart_deploy_linux.Prelude.{
  ℕ, ◌≡◌, refl, ◌↔◌, true, none, some, arith, ◌==◌, Option-cases, inl, inr, ◌≢◌, ◌⊎◌, ap, ◌∙◌,
}
use smart_deploy_linux.Schema.{
  State, pending, bootstrapped, imaging, post_install, completed, failed, cancelled, Job, Db,
  Faults, no_faults, Error,
}
use smart_deploy_linux.Jobs.{
  allowed, is_allowed, is_terminal, find_job, mark_boot_tokens_consumed, check_transition,
  set_state, write_transition, transition_job,
}

-- The edges of the table in TransitionJob, each by a name.
infix 40 ◌⟶◌
pub data ◌⟶◌ : State → State → Type 0 where
  redeem : pending ⟶ bootstrapped
  begin : bootstrapped ⟶ imaging
  install : imaging ⟶ post_install
  skip_post : imaging ⟶ completed
  finish : post_install ⟶ completed
  boot_fails : bootstrapped ⟶ failed
  imaging_fails : imaging ⟶ failed
  post_fails : post_install ⟶ failed
  cancel_pending : pending ⟶ cancelled
  cancel_bootstrapped : bootstrapped ⟶ cancelled
  cancel_imaging : imaging ⟶ cancelled

ruleset edges = (
  redeem, begin, install, skip_post, finish, boot_fails, imaging_fails, post_fails, cancel_pending,
  cancel_bootstrapped, cancel_imaging,
)

pub allowed_edge : (s t : State) → is_allowed t (allowed s) ≡ true → s ⟶ t
allowed_edge s t h = grind (arith, edges)

pub edge_allowed : {s t : State} → s ⟶ t → is_allowed t (allowed s) ≡ true
edge_allowed redeem = refl
edge_allowed begin = refl
edge_allowed install = refl
edge_allowed skip_post = refl
edge_allowed finish = refl
edge_allowed boot_fails = refl
edge_allowed imaging_fails = refl
edge_allowed post_fails = refl
edge_allowed cancel_pending = refl
edge_allowed cancel_bootstrapped = refl
edge_allowed cancel_imaging = refl

-- The jobs table after a write.
pub jobs-mark :
    (fails : Faults) (now : ℕ) (db : Db) (id : ℕ)
    → (mark_boot_tokens_consumed fails now db id).0.jobs ≡ db.jobs
unfolding mark_boot_tokens_consumed
jobs-mark fails now db id = ground arith

pub jobs-write :
    (fails : Faults) (now : ℕ) (db : Db) (id : ℕ) (to : State)
    → (write_transition fails now db id to).1 ≡ none
    → (write_transition fails now db id to).0.jobs
      ≡ update (λ j. j.id == id) (set_state now to) db.jobs
unfolding write_transition
jobs-write fails now db id to h = ground (
  arith,
  jobs-mark fails now (record db { jobs = update (λ j. j.id == id) (set_state now to) db.jobs }) id,
)

pub find_job-write :
    (fails : Faults) (now : ℕ) (db : Db) (id : ℕ) (to : State)
    → (write_transition fails now db id to).1 ≡ none
    → find_job (write_transition fails now db id to).0 id
      ≡ Option.map (set_state now to) (find_job db id)
find_job-write fails now db id to h =
    rw (jobs-write fails now db id to h)
      (find-update (λ j. j.id == id) (set_state now to) db.jobs (λ j. refl))

pub write-broken :
    (fails : Faults) (now : ℕ) (db : Db) (id : ℕ) (to : State) {e : Error}
    → (write_transition fails now db id to).1 ≡ some e
    → (write_transition fails now db id to).0 ≡ db
unfolding write_transition
write-broken fails now db id to h = ground arith

check-edge :
    (fails : Faults) (db : Db) (id : ℕ) (to : State) (j : Job)
    → find_job db id ≡ some j
    → check_transition fails db id to ≡ none
    → j.state ⟶ to
unfolding check_transition
check-edge fails db id to j found h = allowed_edge j.state to (ground arith)

-- Whatever statements fail, a transition that returns no error was along an edge of the graph, and the
-- job now has that state, a finishing time exactly if it ended, and all its other columns as before.
-- One that returns an error has changed nothing in the database.
pub transition_outcome :
    (fails : Faults) (now : ℕ) (db : Db) (id : ℕ) (to : State) (j : Job)
    → find_job db id ≡ some j
    → ((transition_job fails now db id to).1 ≡ none)
        × (j.state ⟶ to)
        × (find_job (transition_job fails now db id to).0 id ≡ some (set_state now to j))
      ⊎ ((transition_job fails now db id to).1 ≢ none)
        × ((transition_job fails now db id to).0 ≡ db)
unfolding transition_job
transition_outcome fails now db id to j found =
    elim (Option-cases (check_transition fails db id to)) [
      | inr (e, refused) ↦
          inr (rw (refused, transition_job) (λ x. cc), rw (refused, transition_job))
      | inl passed ↦ elim (Option-cases (write_transition fails now db id to).1) [
        | inl wrote ↦
            let edge = check-edge fails db id to j found passed in
            let row = find_job-write fails now db id to wrote in
            inl (
              rw (passed, transition_job) wrote,
              edge,
              rw (passed, transition_job) (row ∙ ap (Option.map (set_state now to)) found),
            )
        | inr (e, broke) ↦ inr (
          rw (passed, transition_job) (rw broke (λ x. cc)),
          rw (passed, transition_job) (write-broken fails now db id to broke),
        )
      ]
    ]

-- With no fault every edge can be taken, and nothing else: the transition of an existing
-- job returns no error exactly if its present state has an edge to the new one.
pub transition_job_iff :
    (now : ℕ) (db : Db) (id : ℕ) (to : State) (j : Job)
    → find_job db id ≡ some j
    → ((transition_job no_faults now db id to).1 ≡ none) ↔ (j.state ⟶ to)
unfolding transition_job check_transition write_transition
transition_job_iff now db id to j found =
    (λ h. allowed_edge j.state to (ground arith), λ edge. ground (arith, edge_allowed edge))

-- A job that has ended stays as it is: every transition of it returns an error and changes nothing in
-- the database, whichever statements fail.
pub transition_terminal :
    (fails : Faults) (now : ℕ) (db : Db) (id : ℕ) (to : State) (j : Job)
    → find_job db id ≡ some j
    → is_terminal j.state ≡ true
    → ((transition_job fails now db id to).1 ≢ none) × ((transition_job fails now db id to).0 ≡ db)
unfolding transition_job check_transition
transition_terminal fails now db id to j found ended = ground arith
