-- ===== src/PhoneHome/Progress.antt =====
-- What a report of an installer does to its job, through appendDeploymentEvent of
-- services/api/cmd/api/render.go.
use smart_deploy_linux.Prelude.{
  ℕ, ◌≡◌, refl, true, false, none, some, [], ◌∷◌, ◌++◌, Bytes, bytes_eq, arith,
}
use smart_deploy_linux.Schema.{
  State, completed, Job, Db, no_faults, insert_event, token_invalid, ok, err,
}
use smart_deploy_linux.Jobs.{is_terminal, find_job, advance_job}
use smart_deploy_linux.Jobs.Advance.{on_path, later, advance_forward}
use smart_deploy_linux.Tokens.{verify_phone_home_token}
use smart_deploy_linux.Tokens.Live.{closed_by_state}
use smart_deploy_linux.Tokens.Hash.{hash_boot_token}
use smart_deploy_linux.PhoneHome.{
  AppendEventReq, Request, accepted, invalid_token, refusal, map_phase_to_state, append_event,
  report, check_token, append_deployment_event,
}

-- The tables with the event of a report.
abbrev pub with_event : ℕ → ℕ → AppendEventReq → Db → Db
with_event now job_id req db = record db {
  events =
      db.events
      ++ record { job_id = job_id; phase = req.phase; message = req.message; at = now } ∷ [];
}

later_completed : (s : State) → on_path s ≡ true → is_terminal (later s completed) ≡ true
later_completed s h = ground arith

module _ (sha256 : Bytes → Bytes) (fqdn : Bytes) (r : Request) (id : ℕ) where
  -- No statement of the request fails.
  abbrev pub IsFaultless : Type 0
  IsFaultless =
      (r.fails ≡ no_faults) × (r.advance_fails ≡ (λ _. no_faults)) × (r.advance_reading ≡ no_faults)

  passed :
      (db : Db) (answer : ℕ × ℕ)
      → r.job_id ≡ some id
      → bytes_eq r.token [] ≡ false
      → verify_phone_home_token r.fails r.now db (hash_boot_token sha256 r.token fqdn) id
        ≡ ok answer
      → append_deployment_event sha256 fqdn r db ≡ report sha256 fqdn r db id
  unfolding append_deployment_event check_token
  passed db answer here some_token verified = rw (here, some_token) (rw (verified, check_token))

  appended :
      (req : AppendEventReq) (db : Db)
      → r.fails insert_event ≡ false
      → append_event r.fails r.now db id req ≡ (with_event r.now id req db, none)
  unfolding append_event
  appended req db fine = rw fine

  reported :
      (db : Db) (req : AppendEventReq) (to : State)
      → r.fails insert_event ≡ false
      → r.body ≡ some req
      → map_phase_to_state req.phase ≡ some to
      → ((report sha256 fqdn r db id).reply ≡ accepted)
        × ((report sha256 fqdn r db id).db
            ≡ (advance_job r.advance_fails r.advance_reading r.now
                (with_event r.now id req db)
                id
                to).0)
  unfolding report
  reported db req to fine asked target =
      let stored = appended req db fine in rw (asked, stored, report, target) (refl, cc stored)

  -- If no statement fails, a report of "imaging", "post_install" or "completed" that its token allows,
  -- for a job on the happy path, is accepted, its event is stored, and the job is then in the later of
  -- its own state and the reported one.
  pub report_advances :
      (db : Db) (j : Job) (answer : ℕ × ℕ) (req : AppendEventReq) (to : State)
      → IsFaultless
      → r.job_id ≡ some id
      → bytes_eq r.token [] ≡ false
      → verify_phone_home_token r.fails r.now db (hash_boot_token sha256 r.token fqdn) id
        ≡ ok answer
      → find_job db id ≡ some j
      → on_path j.state ≡ true
      → r.body ≡ some req
      → map_phase_to_state req.phase ≡ some to
      → on_path to ≡ true
      → let out = append_deployment_event sha256 fqdn r db in
        (out.reply ≡ accepted)
        × ((k : Job) × (find_job out.db id ≡ some k) × (k.state ≡ later j.state to))
  report_advances db j answer req to (fine, steps, reading) here some_token verified found path
        asked target forward =
      let through = passed db answer here some_token verified in
      let (told, left) = reported db req to (rw fine) asked target in
      let (_, k, row, state) =
        advance_forward r.now (with_event r.now id req db) id j to found path forward in
      (cc (through, told), (k, cc (through, left, steps, reading, row), state))

  -- If no statement fails, then on the tables that such a report of "completed" left, a report with a
  -- token for the same job is refused and changes nothing, at any time and whatever its token and body,
  -- if no statement of it fails.
  pub completed_is_last :
      (db : Db) (j : Job) (answer : ℕ × ℕ) (req : AppendEventReq) (again : Request)
      → IsFaultless
      → r.job_id ≡ some id
      → bytes_eq r.token [] ≡ false
      → verify_phone_home_token r.fails r.now db (hash_boot_token sha256 r.token fqdn) id
        ≡ ok answer
      → find_job db id ≡ some j
      → on_path j.state ≡ true
      → r.body ≡ some req
      → req.phase ≡ "completed"
      → again.fails ≡ no_faults
      → again.job_id ≡ some id
      → bytes_eq again.token [] ≡ false
      → let left = (append_deployment_event sha256 fqdn r db).db in
        append_deployment_event sha256 fqdn again left ≡ refusal left invalid_token
  unfolding append_deployment_event check_token map_phase_to_state
  completed_is_last db j answer req again calm here some_token verified found path asked done fine
        there token =
      let left = (append_deployment_event sha256 fqdn r db).db in
      let target : map_phase_to_state req.phase ≡ some completed = rw done in
      let (_, (k, row, state)) =
        report_advances db j answer req completed calm here some_token verified found path asked
          target refl in
      let ended : is_terminal k.state ≡ true = rw state (later_completed j.state path) in
      let (shut, _) =
        closed_by_state again.now left (hash_boot_token sha256 again.token fqdn) id k row ended in
      let shut' : verify_phone_home_token again.fails again.now left
            (hash_boot_token sha256 again.token fqdn) id
          ≡ err token_invalid =
        rw fine shut in
      rw (there, token) (rw (shut', check_token))
