-- ===== src/Tests/Operations.antt =====
-- Runs of the menu tokens, the roles, the wake queue and the event bus.
use smart_deploy_linux.Prelude.Table.{any, count, delete, find, newest, select, update}
use smart_deploy_linux.Prelude.{
  ◌≡◌, ◌==◌, refl, arith, ℕ, true, false, none, some, List, [], ◌∷◌, bytes_eq, codes, String,
}
use smart_deploy_linux.Schema.{imaging, Db, no_faults, ok}
use smart_deploy_linux.Menu.{Request, mint_menu_boot_token}
use smart_deploy_linux.Roles.{Tables, revoke_user_role, last_admin, no_content}
use smart_deploy_linux.Roles.Admins.{has_admin, revoke_keeps_admin}
use smart_deploy_linux.Wake.{WakeRequest, is_due, claim_due_wake_requests}
use smart_deploy_linux.Wake.Claims.{IsDisjoint, claims-IsDisjoint}
use smart_deploy_linux.Worker.{Store, run_once}
use smart_deploy_linux.Worker.Answers.{AnswersAs}
use smart_deploy_linux.Worker.Keeps.{run_once_lem}
use smart_deploy_linux.Tests.World.{job_db}
use smart_deploy_linux.Bus.{Event, Bus, new, subscribe, publish, cancel, cancelled, panic}
use smart_deploy_linux.Bus.Delivery.{
  IsSafe, stay, step, subscribes, publishes, cancels, reachable-IsSafe,
}

abbrev menu_request : Request
menu_request = record {
  now = 50;
  fails = no_faults;
  machine_id = 21;
  profile_id = 31;
  token_hash = codes "menu";
  ttl = 900;
  random_hash = codes "pxe-menu:1";
  code_id = 8;
  job_id = 42;
  token_id = 9;
}

abbrev no_rows : Db
no_rows = record { codes = []; tokens = []; jobs = []; events = []; attempts = [] }

minted : (mint_menu_boot_token menu_request no_rows).1 ≡ ok 42
unfolding mint_menu_boot_token newest select find bytes_eq
minted = refl

-- Two admins, one of them an operator too.
abbrev tables : Tables
tables = record {
  roles = "admin" ∷ "operator" ∷ [];
  user_roles =
      record { user_id = 1; role = "admin" }
      ∷ record { user_id = 2; role = "admin" }
      ∷ record { user_id = 2; role = "operator" }
      ∷ [];
}

tables_have_admin : has_admin tables ≡ true
unfolding has_admin
tables_have_admin = refl

-- The other admin may go, the last one may not.
revokes_one : (revoke_user_role (λ _. false) tables true (some 2) "admin").1 ≡ no_content
unfolding revoke_user_role count
revokes_one = refl

keeps_last :
    let left = (revoke_user_role (λ _. false) tables true (some 2) "admin").0 in
    (revoke_user_role (λ _. false) left true (some 1) "admin").1 ≡ last_admin
unfolding revoke_user_role count delete select
keeps_last = refl

revoke_keeps_admin_example :
    has_admin (revoke_user_role (λ _. false) tables true (some 2) "admin").0 ≡ true
revoke_keeps_admin_example =
    revoke_keeps_admin (λ _. false) tables true (some 2) "admin" tables_have_admin

abbrev wake_row : ℕ → ℕ → WakeRequest
wake_row id at = record {
  id = id;
  machine_id = 21;
  mac = "02:00:00:00:00:01";
  site = "default";
  scheduled_at = at;
  requested_by = none;
  claimed_at = none;
  claimed_by = none;
  created_at = 5;
}

abbrev queue : List WakeRequest
queue = wake_row 1 30 ∷ wake_row 2 10 ∷ wake_row 3 20 ∷ []

abbrev taken : ℕ → String → WakeRequest → WakeRequest
taken now agent w = record w { claimed_at = some now; claimed_by = some agent }

-- The two oldest go to the first agent, the rest to the second.
first_claim :
    (claim_due_wake_requests false 40 queue "" "a" 2).1
    ≡ ok (taken 40 "a" (wake_row 2 10) ∷ taken 40 "a" (wake_row 3 20) ∷ [])
unfolding claim_due_wake_requests
first_claim = refl

second_claim :
    (claim_due_wake_requests false 41
      (claim_due_wake_requests false 40 queue "" "a" 2).0
      ""
      "b"
      0).1
    ≡ ok (taken 41 "b" (wake_row 1 30) ∷ [])
unfolding claim_due_wake_requests
second_claim = refl

claims-IsDisjoint_example :
    IsDisjoint
      (taken 40 "a" (wake_row 2 10) ∷ taken 40 "a" (wake_row 3 20) ∷ [])
      (taken 41 "b" (wake_row 1 30) ∷ [])
claims-IsDisjoint_example =
    claims-IsDisjoint 40 41 2 0 "" "a" "b" queue
      (taken 40 "a" (wake_row 2 10) ∷ taken 40 "a" (wake_row 3 20) ∷ [])
      (taken 41 "b" (wake_row 1 30) ∷ []) first_claim second_claim

abbrev event : Event
event = record { job_id = 41; phase = "imaging"; message = ""; state = "imaging"; at = 60 }

abbrev served : Bus
served = publish event (subscribe 1 41 new)

abbrev left : Bus
left = record { subs = []; closed = 1 ∷ [] }

cancel_once : cancel 1 served ≡ cancelled left
unfolding cancel publish subscribe delete select update
cancel_once = refl

cancel_twice : cancel 1 left ≡ panic
unfolding cancel
cancel_twice = refl

fresh : any (λ c. c == 1) new.closed ≡ false
unfolding any
fresh = refl

reachable-IsSafe_example : IsSafe left
reachable-IsSafe_example =
    reachable-IsSafe left (
      step (subscribes 1 41 fresh)
        (step (publishes event) (step (cancels 1 left cancel_once) stay)))

-- A worker that notifies of every job, a little before the token expires.
abbrev store : Store
store = record { db = job_db imaging; wakes = queue }

run_once_lem_example :
    let left' = run_once (some (λ j. true)) (λ _. false) 120 store in
    AnswersAs 130 store.db left'.db
    × ((site : String)
        → select (is_due 130 site) left'.wakes ≡ select (is_due 130 site) store.wakes)
run_once_lem_example = run_once_lem 120 130 (λ _. false) (some (λ j. true)) store (omega arith)
