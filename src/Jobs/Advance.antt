-- ===== src/Jobs/Advance.antt =====
-- AdvanceJob brings a job forward along `jobStatePath`, and where it does not.
use smart_deploy_linux.Prelude.{
  ℕ, ◌≡◌, ◌≢◌, ◌↔◌, ◌⊎◌, inl, inr, refl, Bool, true, Option, none, some, List, [], ◌∷◌, zero, suc,
  take, drop, ◌+◌, ◌-◌, arith, leb, if◌then◌else◌,
}
use smart_deploy_linux.Schema.{
  State, pending, bootstrapped, imaging, post_install, completed, failed, cancelled, ordinal, Job,
  Db, Faults, no_faults, Error,
}
use smart_deploy_linux.Jobs.{
  find_job, set_state, write_transition, transition_job, check_transition, advance_steps,
  advance_to, advance_job, path_index, job_state_path,
}
use smart_deploy_linux.Jobs.Graph.{
  ◌⟶◌, redeem, begin, install, finish, transition_outcome, transition_job_iff,
}

-- A walk over edges of the graph, and the state where it ends.
abbrev Walk : State → List State → Type 0
Walk s [] = Unit
Walk s (t ∷ ts) = (s ⟶ t) × Walk t ts

abbrev last : State → List State → State
last s [] = s
last s (t ∷ ts) = last t ts

-- What a call leaves: no error, and the job in state `s`.
abbrev pub Reaches : Db × Option Error → ℕ → State → Type 0
Reaches r id s = (r.1 ≡ none) × (j : Job) × (find_job r.0 id ≡ some j) × (j.state ≡ s)

steps-Walk :
    (now : ℕ) (db : Db) (id : ℕ) (path : List State) (j : Job) (s : State)
    → find_job db id ≡ some j
    → j.state ≡ s
    → Walk s path
    → Reaches (advance_steps (λ _. no_faults) now db id path) id (last s path)
unfolding advance_steps
steps-Walk now db id [] j s found at walk = (refl, j, found, at)
steps-Walk now db id (t ∷ ts) j s found at walk =
    elim (transition_outcome no_faults now db id t j found) [
      | inr (broke, same) ↦
          absurd (broke ((transition_job_iff now db id t j found).1 (rw at walk.0)))
      | inl (done, edge, row) ↦
          rw (done, advance_steps)
            (steps-Walk now (transition_job no_faults now db id t).0 id ts (set_state now t j) t row
              refl walk.1)
    ]

abbrev pub on_path : State → Bool
on_path s = leb (ordinal s) 4

-- The later of two states of the path.
abbrev pub later : State → State → State
later s t = if leb (ordinal t) (ordinal s) then s else t

Walk-take : (n : ℕ) (s : State) (path : List State) → Walk s path → Walk s (take n path)
Walk-take zero s path w = tt
Walk-take (suc n) s [] w = tt
Walk-take (suc n) s (t ∷ ts) w = (w.0, Walk-take n t ts w.1)

-- Every part of the happy path is a walk.
Walk-from :
    (s : State) → on_path s ≡ true → (n : ℕ) → Walk s (take n (drop (ordinal s + 1) job_state_path))
Walk-from pending h n = Walk-take n pending _ (redeem, (begin, (install, (finish, tt))))
Walk-from bootstrapped h n = Walk-take n bootstrapped _ (begin, (install, (finish, tt)))
Walk-from imaging h n = Walk-take n imaging _ (install, (finish, tt))
Walk-from post_install h n = Walk-take n post_install _ (finish, tt)
Walk-from completed h n = Walk-take n completed [] tt
Walk-from failed h n = cc
Walk-from cancelled h n = cc

to_steps :
    (now : ℕ) (db : Db) (id target cur : ℕ) (j : Job)
    → find_job db id ≡ some j
    → path_index 0 j.state job_state_path ≡ some cur
    → advance_to (λ _. no_faults) no_faults now db id target
      ≡ advance_steps
          (λ _. no_faults)
          now
          db
          id
          (take (target - cur) (drop (cur + 1) job_state_path))
unfolding advance_to
to_steps now db id target cur j found at = rw (found, at)

Walk-on :
    (now : ℕ) (db : Db) (id target cur : ℕ) (j : Job) (s : State)
    → find_job db id ≡ some j
    → j.state ≡ s
    → path_index 0 s job_state_path ≡ some cur
    → Walk s (take (target - cur) (drop (cur + 1) job_state_path))
    → Reaches
        (advance_to (λ _. no_faults) no_faults now db id target)
        id
        (last s (take (target - cur) (drop (cur + 1) job_state_path)))
Walk-on now db id target cur j s found at index walk =
    rw (to_steps now db id target cur j found (rw at index))
      (steps-Walk now db id _ j s found at walk)

forward :
    (now : ℕ) (db : Db) (id : ℕ) (j : Job) (s to : State)
    → find_job db id ≡ some j
    → j.state ≡ s
    → on_path s ≡ true
    → on_path to ≡ true
    → Reaches (advance_job (λ _. no_faults) no_faults now db id to) id (later s to)
unfolding advance_job
forward now db id j pending failed found at h k = cc
forward now db id j pending cancelled found at h k = cc
forward now db id j pending to found at h k =
    Walk-on now db id (ordinal to) 0 j pending found at refl
      (Walk-from pending refl (ordinal to - 0))
forward now db id j bootstrapped failed found at h k = cc
forward now db id j bootstrapped cancelled found at h k = cc
forward now db id j bootstrapped to found at h k =
    Walk-on now db id (ordinal to) 1 j bootstrapped found at refl
      (Walk-from bootstrapped refl (ordinal to - 1))
forward now db id j imaging failed found at h k = cc
forward now db id j imaging cancelled found at h k = cc
forward now db id j imaging to found at h k =
    Walk-on now db id (ordinal to) 2 j imaging found at refl
      (Walk-from imaging refl (ordinal to - 2))
forward now db id j post_install failed found at h k = cc
forward now db id j post_install cancelled found at h k = cc
forward now db id j post_install to found at h k =
    Walk-on now db id (ordinal to) 3 j post_install found at refl
      (Walk-from post_install refl (ordinal to - 3))
forward now db id j completed failed found at h k = cc
forward now db id j completed cancelled found at h k = cc
forward now db id j completed to found at h k =
    Walk-on now db id (ordinal to) 4 j completed found at refl
      (Walk-from completed refl (ordinal to - 4))
forward now db id j failed to found at h k = cc
forward now db id j cancelled to found at h k = cc

-- With no fault, AdvanceJob brings a job that is on the happy path to the later of its own state and
-- the target, along every state between, and returns no error; so it never moves a job back.
pub advance_forward :
    (now : ℕ) (db : Db) (id : ℕ) (j : Job) (to : State)
    → find_job db id ≡ some j
    → on_path j.state ≡ true
    → on_path to ≡ true
    → Reaches (advance_job (λ _. no_faults) no_faults now db id to) id (later j.state to)
advance_forward now db id j to found h k = forward now db id j j.state to found refl h k

-- Of a job that exists, AdvanceJob to "failed" succeeds exactly from bootstrapped, imaging and
-- post_install, and AdvanceJob to "cancelled" exactly from pending, bootstrapped and imaging, where no
-- statement fails.
pub advance_ends_iff :
    (now : ℕ) (db : Db) (id : ℕ) (j : Job)
    → find_job db id ≡ some j
    → (((advance_job (λ _. no_faults) no_faults now db id failed).1 ≡ none)
        ↔ (j.state ≡ bootstrapped) ⊎ (j.state ≡ imaging) ⊎ (j.state ≡ post_install))
      × (((advance_job (λ _. no_faults) no_faults now db id cancelled).1 ≡ none)
          ↔ (j.state ≡ pending) ⊎ (j.state ≡ bootstrapped) ⊎ (j.state ≡ imaging))
unfolding advance_job transition_job check_transition write_transition
advance_ends_iff now db id j found = ground arith

-- A job in "pending" cannot be reported as failed, and one in "post_install" cannot be cancelled:
-- whatever statements fail, AdvanceJob returns an error and changes nothing in the database.
pub advance_ends_refused :
    (fails : State → Faults) (reading : Faults) (now : ℕ) (db : Db) (id : ℕ) (j : Job) (to : State)
    → find_job db id ≡ some j
    → (j.state ≡ pending) × (to ≡ failed) ⊎ (j.state ≡ post_install) × (to ≡ cancelled)
    → ((advance_job fails reading now db id to).1 ≢ none)
      × ((advance_job fails reading now db id to).0 ≡ db)
unfolding advance_job transition_job check_transition
advance_ends_refused fails reading now db id j failed found h = ground arith
advance_ends_refused fails reading now db id j cancelled found h = ground arith
advance_ends_refused fails reading now db id j _ found h = ground arith

-- AdvanceJob of a failed or cancelled job to a state of the happy path returns an error and changes
-- nothing in the database, whichever statements fail.
pub advance_ended :
    (fails : State → Faults) (reading : Faults) (now : ℕ) (db : Db) (id : ℕ) (j : Job) (to : State)
    → find_job db id ≡ some j
    → (j.state ≡ failed) ⊎ (j.state ≡ cancelled)
    → on_path to ≡ true
    → ((advance_job fails reading now db id to).1 ≢ none)
      × ((advance_job fails reading now db id to).0 ≡ db)
unfolding advance_job advance_to
advance_ended fails reading now db id j to found ended h = ground arith
