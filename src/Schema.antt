-- ===== src/Schema.antt =====
-- The rows of the PostgreSQL tables that the services share, as the Go code reads them:
-- services/auth-broker/internal/db/db.go and services/api/internal/store/store.go, with the columns
-- of services/api/internal/store/migrations. A UUID is a number, a time is in nanoseconds, an IP
-- address is a number, and NULL is `none`.
use smart_deploy_linux.Prelude.{
  ℕ, ◌≡◌, ◌↔◌, ◌⊎◌, inl, inr, refl, Bool, true, false, Option, String, List, arith, Bytes, ◌==◌,
}

-- The enum `deployment_state`.
pub data State : Type 0 where
  pending bootstrapped imaging post_install completed failed cancelled : State

-- The place of a state in the enum.
abbrev pub ordinal : State → ℕ
ordinal pending = 0
ordinal bootstrapped = 1
ordinal imaging = 2
ordinal post_install = 3
ordinal completed = 4
ordinal failed = 5
ordinal cancelled = 6

abbrev pub state_eq : State → State → Bool
state_eq s t = ordinal s == ordinal t

pub state_eq_iff : (s t : State) → (state_eq s t ≡ true) ↔ (s ≡ t)
state_eq_iff s t = ground arith

pub record AuthCode : Type 0 where
  pub id : ℕ
  pub code_hash : Bytes
  pub machine_id : ℕ
  pub profile_id : ℕ
  pub issued_by : Option ℕ
  pub issued_at : ℕ
  pub binding : Option (ℕ → Bool)  -- binding_cidr, by the addresses that it contains
  pub expires_at : ℕ
  pub attempts : ℕ
  pub locked_at : Option ℕ
  pub redeemed_at : Option ℕ
  pub kind : String
  pub capture_image_id : Option ℕ
  pub capture_version_tag : Option String

pub record Token : Type 0 where
  pub id : ℕ
  pub auth_code_id : ℕ
  pub token_hash : Bytes
  pub purpose : String
  pub expires_at : ℕ
  pub consumed_at : Option ℕ

pub record Job : Type 0 where
  pub id : ℕ
  pub machine_id : ℕ
  pub profile_id : ℕ
  pub auth_code_id : Option ℕ
  pub state : State
  pub created_at : ℕ
  pub started_at : Option ℕ
  pub finished_at : Option ℕ
  pub notified_at : Option ℕ
  pub kind : String
  pub capture_image_id : Option ℕ
  pub capture_version_tag : Option String

pub record JobEvent : Type 0 where
  pub job_id : ℕ
  pub phase : String
  pub message : String
  pub at : ℕ

pub record Attempt : Type 0 where
  pub source_ip : ℕ
  pub at : ℕ

pub record Db : Type 0 where
  pub codes : List AuthCode
  pub tokens : List Token
  pub jobs : List Job
  pub events : List JobEvent
  pub attempts : List Attempt

-- The statements of the modelled code. A call of the database can fail for reasons of its own; which
-- calls do is an argument of each operation, and a failed statement changes nothing.
pub data Statement : Type 0 where
  select_state update_state consume_boot_tokens insert_event : Statement
  record_attempt find_code increment_attempt consume_code reread_code : Statement
  insert_job insert_token count_issued insert_code select_token : Statement
  select_active_job insert_menu_code attach_menu_code commit : Statement

abbrev pub Faults : Type 0
Faults = Statement → Bool

abbrev pub no_faults : Faults
no_faults _ = false

pub data Error : Type 0 where
  db_error not_found token_invalid unknown_target : Error
  invalid_transition : State → State → Error
  in_terminal_state : State → Error
  wrong_length bad_character : ℕ → Error
  random_failed : Error
  code_locked code_already_consumed code_expired consume_unknown : Error
  fields_required unknown_kind no_active_profile : Error
  in_use : ℕ → Error

-- What a Go function with an error result returns.
pub data Result {ℓ} (A : Type ℓ) : Type ℓ where
  ok : A → Result A
  err : Error → Result A

pub Result-cases {ℓ} :
    {A : Type ℓ} (r : Result A) → ((a : A) × (r ≡ ok a)) ⊎ ((e : Error) × (r ≡ err e))
Result-cases (ok a) = inl (a, refl)
Result-cases (err e) = inr (e, refl)
