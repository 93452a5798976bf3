-- ===== src/PhoneHome.antt =====
-- appendDeploymentEvent and cancelJob: the handlers of services/api/cmd/api by which an installer
-- reports its progress and an operator stops a job. The parsed id, the token of the header, the decoded
-- body and the permission come from outside.
pub mod Progress
use smart_deploy_linux.Prelude.{
  ℕ, Bool, true, false, not, Option, none, some, String, str_eq, List, [], ◌∷◌, ◌++◌, Bytes,
  bytes_eq, if◌then◌else◌,
}
use smart_deploy_linux.Schema.{
  State, imaging, post_install, completed, failed, cancelled, JobEvent, Db, Faults, insert_event,
  Error, db_error, token_invalid, not_found, Result, ok, err,
}
use smart_deploy_linux.Jobs.{transition_job, advance_job}
use smart_deploy_linux.Tokens.{verify_phone_home_token}
use smart_deploy_linux.Tokens.Hash.{hash_boot_token}

pub record AppendEventReq : Type 0 where
  pub phase : String
  pub message : String

pub record Request : Type 0 where
  pub now : ℕ
  pub fails : Faults
  pub advance_fails : State → Faults
  pub advance_reading : Faults
  pub job_id : Option ℕ
  pub token : Bytes  -- empty if the header has none
  pub body : Option AppendEventReq

pub data Reply : Type 0 where
  bad_id missing_token invalid_token internal bad_json store_error accepted : Reply

-- The event on the bus.
pub record Published : Type 0 where
  pub job_id : ℕ
  pub phase : String
  pub message : String
  pub state : Option State

pub record Outcome : Type 0 where
  pub db : Db
  pub reply : Reply
  pub published : Option Published

abbrev pub refusal : Db → Reply → Outcome
refusal db r = record { db = db; reply = r; published = none }

unfoldable pub map_phase_to_state : String → Option State
map_phase_to_state phase =
    if str_eq phase "imaging"
    then some imaging
    else if str_eq phase "post_install"
    then some post_install
    else if str_eq phase "completed"
    then some completed
    else if str_eq phase "failed"
    then some failed
    else none

-- AppendDeploymentEvent of the store.
unfoldable pub append_event : Faults → ℕ → Db → ℕ → AppendEventReq → Db × Option Error
append_event fails now db job_id req = if fails insert_event then (db, some db_error) else (
  record db {
    events =
        db.events
        ++ record { job_id = job_id; phase = req.phase; message = req.message; at = now } ∷ [];
  },
  none,
)

module _ (sha256 : Bytes → Bytes) (deploy_fqdn : Bytes) where
  -- Behind the token: the event, the state, the subscribers. The error of AdvanceJob is dropped.
  unfoldable pub report : Request → Db → ℕ → Outcome
  unfolding append_event map_phase_to_state
  report r db job_id = elim r.body [
    | none ↦ refusal db bad_json
    | some req ↦
        let (db', error) = append_event r.fails r.now db job_id req in
        let target = map_phase_to_state req.phase in
        elim error [
          | some _ ↦ refusal db' store_error
          | none ↦ record {
            db = elim target [
              | none ↦ db'
              | some to ↦ (advance_job r.advance_fails r.advance_reading r.now db' job_id to).0
            ];
            reply = accepted;
            published = some (record {
              job_id = job_id;
              phase = req.phase;
              message = req.message;
              state = target;
            });
          }
        ]
  ]

  unfoldable pub check_token : Request → Db → ℕ → Outcome
  unfolding report verify_phone_home_token hash_boot_token
  check_token r db job_id =
      elim (verify_phone_home_token r.fails r.now db (hash_boot_token sha256 r.token deploy_fqdn)
        job_id) [
          | err token_invalid ↦ refusal db invalid_token
          | err _ ↦ refusal db internal
          | ok _ ↦ report r db job_id
        ]

  unfoldable pub append_deployment_event : Request → Db → Outcome
  unfolding check_token bytes_eq
  append_deployment_event r db = elim r.job_id [
    | none ↦ refusal db bad_id
    | some job_id ↦
        if bytes_eq r.token [] then refusal db missing_token else check_token r db job_id
  ]

pub data CancelReply : Type 0 where
  forbidden bad_job_id job_not_found conflict no_content : CancelReply

unfoldable pub cancel_job : Faults → ℕ → Bool → Option ℕ → Db → Db × CancelReply
unfolding transition_job
cancel_job fails now has_perm id db = if not has_perm then (db, forbidden) else elim id [
  | none ↦ (db, bad_job_id)
  | some job_id ↦
      let (db', error) = transition_job fails now db job_id cancelled in
      elim error [
        | none ↦ (db', no_content)
        | some not_found ↦ (db', job_not_found)
        | some _ ↦ (db', conflict)
      ]
]
