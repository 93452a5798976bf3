-- ===== src/Jobs/Finished.antt =====
-- `finished_at` is set exactly on the jobs that have ended, through every operation of
-- services/api/internal/store/store.go on a job's state.
use smart_deploy_linux.Prelude.Table.{All-find}
use smart_deploy_linux.Prelude.Keys.{HasKeys, HasKeys-update, All-update_row}
use smart_deploy_linux.Prelude.{
  ℕ, ◌≡◌, refl, true, not, none, some, List, [], ◌∷◌, arith, ◌==◌, is_none, All, Option-cases,
  Bool-cases, inl, inr,
}
use smart_deploy_linux.Schema.{
  State, Job, Db, Faults, select_state, pending, bootstrapped, imaging, post_install, completed,
  failed, cancelled,
}
use smart_deploy_linux.Jobs.{
  allowed, is_allowed, is_terminal, find_job, check_transition, set_state, write_transition,
  transition_job, advance_steps, advance_to, advance_job, path_index, job_state_path,
}
use smart_deploy_linux.Jobs.Graph.{jobs-write, write-broken}

-- A job has a finishing time exactly if its state is terminal.
abbrev pub IsDated : Job → Type 0
IsDated j = is_none j.finished_at ≡ not (is_terminal j.state)

pub record JobsValid (jobs : List Job) : Type 0 where
  pub keyed : HasKeys (λ j. j.id) jobs
  pub dated : All IsDated jobs

set_state-IsDated :
    (now : ℕ) (to : State) (j : Job)
    → is_allowed to (allowed j.state) ≡ true
    → IsDated j
    → IsDated (set_state now to j)
set_state-IsDated now to j edge h = ground arith

check-found :
    (fails : Faults) (db : Db) (id : ℕ) (to : State)
    → check_transition fails db id to ≡ none
    → (j : Job) × (find_job db id ≡ some j) × (is_allowed to (allowed j.state) ≡ true)
unfolding check_transition
check-found fails db id to h = ground arith

write-JobsValid :
    (fails : Faults) (now : ℕ) (db : Db) (id : ℕ) (to : State)
    → check_transition fails db id to ≡ none
    → JobsValid db.jobs
    → JobsValid (write_transition fails now db id to).0.jobs
write-JobsValid fails now db id to passed v =
    elim (Option-cases (write_transition fails now db id to).1) [
      | inr (e, broke) ↦ rw (write-broken fails now db id to broke) v
      | inl wrote ↦
          let (j, found, edge) = check-found fails db id to passed in
          let dated = All-find-dated j found in
          rw (jobs-write fails now db id to wrote) (record {
            keyed = HasKeys-update (λ k. k.id) _ _ db.jobs (λ k. refl) v.keyed;
            dated =
                All-update_row (λ k. k.id) IsDated (set_state now to) id db.jobs v.keyed found
                  (set_state-IsDated now to j edge dated) v.dated;
          })
    ]
  where
    All-find-dated : (j : Job) → find_job db id ≡ some j → IsDated j
    All-find-dated j found = All-find IsDated (λ k. k.id == id) db.jobs v.dated found

pub transition-JobsValid :
    (fails : Faults) (now : ℕ) (db : Db) (id : ℕ) (to : State)
    → JobsValid db.jobs
    → JobsValid (transition_job fails now db id to).0.jobs
unfolding transition_job
transition-JobsValid fails now db id to v = elim (Option-cases (check_transition fails db id to)) [
  | inr (e, refused) ↦ rw (refused, transition_job) v
  | inl passed ↦ rw (passed, transition_job) (write-JobsValid fails now db id to passed v)
]

steps-JobsValid :
    (fails : State → Faults) (now : ℕ) (db : Db) (id : ℕ) (path : List State)
    → JobsValid db.jobs
    → JobsValid (advance_steps fails now db id path).0.jobs
unfolding advance_steps
steps-JobsValid fails now db id [] v = v
steps-JobsValid fails now db id (st ∷ rest) v =
    elim (Option-cases (transition_job (fails st) now db id st).1) [
      | inl done ↦
          rw (done, advance_steps)
            (steps-JobsValid fails now (transition_job (fails st) now db id st).0 id rest
              (transition-JobsValid (fails st) now db id st v))
      | inr (e, stopped) ↦
          rw (stopped, advance_steps) (transition-JobsValid (fails st) now db id st v)
    ]

to-JobsValid :
    (fails : State → Faults) (reading : Faults) (now : ℕ) (db : Db) (id target : ℕ)
    → JobsValid db.jobs
    → JobsValid (advance_to fails reading now db id target).0.jobs
unfolding advance_to
to-JobsValid fails reading now db id target v = elim (Bool-cases (reading select_state)) [
  | inl broke ↦ rw (broke, advance_to) v
  | inr read ↦ elim (Option-cases (find_job db id)) [
    | inl missing ↦ rw (read, missing, advance_to) v
    | inr (j, found) ↦ elim (Option-cases (path_index 0 j.state job_state_path)) [
      | inl ended ↦ rw (read, found, ended, advance_to) v
      | inr (cur, at) ↦ rw (read, found, at, advance_to) (steps-JobsValid fails now db id _ v)
    ]
  ]
]

-- Whatever statements fail, AdvanceJob keeps the job ids distinct and a finishing time on exactly the
-- jobs that have ended.
pub advance-JobsValid :
    (fails : State → Faults) (reading : Faults) (now : ℕ) (db : Db) (id : ℕ) (to : State)
    → JobsValid db.jobs
    → JobsValid (advance_job fails reading now db id to).0.jobs
unfolding advance_job
advance-JobsValid fails reading now db id failed v =
    transition-JobsValid (fails failed) now db id failed v
advance-JobsValid fails reading now db id cancelled v =
    transition-JobsValid (fails cancelled) now db id cancelled v
advance-JobsValid fails reading now db id pending v = to-JobsValid fails reading now db id 0 v
advance-JobsValid fails reading now db id bootstrapped v = to-JobsValid fails reading now db id 1 v
advance-JobsValid fails reading now db id imaging v = to-JobsValid fails reading now db id 2 v
advance-JobsValid fails reading now db id post_install v = to-JobsValid fails reading now db id 3 v
advance-JobsValid fails reading now db id completed v = to-JobsValid fails reading now db id 4 v
