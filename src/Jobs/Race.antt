-- ===== src/Jobs/Race.antt =====
-- TransitionJob reads the state in one statement and writes it in another, which tests the id alone.
-- Two requests may both read before either writes.
use mathlib.Core.Option
use smart_deploy_linux.Prelude.{ℕ, ◌≡◌, refl, ◌∙◌, ap, true, false, none, some, arith}
use smart_deploy_linux.Schema.{State, Job, Db, no_faults}
use smart_deploy_linux.Jobs.{is_terminal, find_job, check_transition, set_state, write_transition}
use smart_deploy_linux.Jobs.Graph.{◌⟶◌, edge_allowed, find_job-write}

passes :
    (db : Db) (id : ℕ) (j : Job) (to : State)
    → find_job db id ≡ some j
    → j.state ⟶ to
    → check_transition no_faults db id to ≡ none
unfolding check_transition
passes db id j to found edge = ground (arith, edge_allowed edge)

writes :
    (now : ℕ) (db : Db) (id : ℕ) (to : State) → (write_transition no_faults now db id to).1 ≡ none
unfolding write_transition
writes now db id to = refl

after :
    (now : ℕ) (db : Db) (id : ℕ) (to : State) (j : Job)
    → find_job db id ≡ some j
    → find_job (write_transition no_faults now db id to).0 id ≡ some (set_state now to j)
after now db id to j found =
    find_job-write no_faults now db id to (writes now db id to)
    ∙ ap (Option.map (set_state now to)) found

-- Let a job's state have an edge to a terminal state `ended` and to a state `next` that is not
-- terminal. If two requests both read it before either writes, both pass their test; when the one to
-- `ended` writes first, the job is left in `next`, with a finishing time.
pub interleaved_transitions :
    (now₁ now₂ : ℕ) (db : Db) (id : ℕ) (j : Job) (ended next : State)
    → find_job db id ≡ some j
    → j.state ⟶ ended
    → j.state ⟶ next
    → is_terminal ended ≡ true
    → is_terminal next ≡ false
    → let db₁ = (write_transition no_faults now₁ db id ended).0 in
      let db₂ = (write_transition no_faults now₂ db₁ id next).0 in
      (check_transition no_faults db id ended ≡ none)
      × (check_transition no_faults db id next ≡ none)
      × (k : Job) × (find_job db₂ id ≡ some k)
      × (k.state ≡ next)
      × (k.finished_at ≡ some now₁)
interleaved_transitions now₁ now₂ db id j ended next found e₁ e₂ yes₁ no₂ = (
  passes db id j ended found e₁,
  passes db id j next found e₂,
  set_state now₂ next (set_state now₁ ended j),
  after now₂ _ id next _ (after now₁ db id ended j found),
  refl,
  ground arith,
)
