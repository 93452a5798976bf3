-- ===== src/Fetch.antt =====
-- The queue of vendor downloads: the functions on vendor_fetch_jobs of
-- services/api/internal/store/store.go. Children: the vendor's catalog, the handlers, the runner.
pub mod Vendor
pub mod Handlers
pub mod Runner
pub mod Claimed
pub mod Verified
pub mod Lost
use smart_deploy_linux.Prelude.Duration.{second}
use smart_deploy_linux.Prelude.Table.{find, update}
use smart_deploy_linux.Prelude.{
  ℕ, ◌*◌, ◌+◌, Bool, true, false, ◌&&◌, ◌||◌, Option, none, some, List, [], ◌∷◌, ◌++◌, take, Bytes,
  ltb, leb, ◌==◌, if◌then◌else◌,
}
use smart_deploy_linux.Schema.{db_error, Error, Result, ok, err}
use smart_deploy_linux.Drivers.Sort.{stable_sort}

pub data FetchState : Type 0 where
  queued running completed failed : FetchState

abbrev pub state_number : FetchState → ℕ
state_number queued = 0
state_number running = 1
state_number completed = 2
state_number failed = 3

abbrev pub is_state : FetchState → FetchState → Bool
is_state s t = state_number s == state_number t

-- Where a download failed: the first part of the text in the column `error`.
pub data Stage : Type 0 where
  config request download presign upload_request upload verify blob pack_version : Stage

pub record VendorFetchJob : Type 0 where
  pub id : ℕ
  pub vendor : Bytes
  pub model : Bytes
  pub mtypes : List Bytes
  pub os_family : Bytes
  pub os_version : Bytes
  pub url : Bytes
  pub expected_sha : Bytes
  pub state : FetchState
  pub error : Option Stage
  pub pack_version_id : Option ℕ
  pub size_bytes : Option ℕ
  pub requested_by : Option ℕ
  pub created_at : ℕ
  pub started_at : Option ℕ
  pub heartbeat_at : Option ℕ
  pub finished_at : Option ℕ

-- Which of the statements fail.
pub data Query : Type 0 where
  insert_job claim_job heartbeat complete fail list_jobs : Query

abbrev pub Faults : Type 0
Faults = Query → Bool

pub record FetchInput : Type 0 where
  pub vendor : Bytes
  pub model : Bytes
  pub mtypes : List Bytes
  pub os_family : Bytes
  pub os_version : Bytes
  pub url : Bytes
  pub expected_sha : Bytes

abbrev pub new_job : ℕ → ℕ → FetchInput → ℕ → VendorFetchJob
new_job now id j by = record {
  id = id;
  vendor = j.vendor;
  model = j.model;
  mtypes = j.mtypes;
  os_family = j.os_family;
  os_version = j.os_version;
  url = j.url;
  expected_sha = j.expected_sha;
  state = queued;
  error = none;
  pack_version_id = none;
  size_bytes = none;
  requested_by = if by == 0 then none else some by;
  created_at = now;
  started_at = none;
  heartbeat_at = none;
  finished_at = none;
}

unfoldable pub create_vendor_fetch_job :
    Faults → ℕ → ℕ → List VendorFetchJob → FetchInput → ℕ → List VendorFetchJob × Result ℕ
create_vendor_fetch_job fails now id jobs j by =
    if fails insert_job then (jobs, err db_error) else (jobs ++ new_job now id j by ∷ [], ok id)

abbrev pub ten_minutes : ℕ
ten_minutes = 600 * second

abbrev pub is_silent : ℕ → Option ℕ → Bool
is_silent now none = false
is_silent now (some at) = ltb (at + ten_minutes) now

abbrev pub is_runnable : ℕ → VendorFetchJob → Bool
is_runnable now j =
    is_state j.state queued || is_state j.state running && is_silent now j.heartbeat_at

abbrev pub is_older : VendorFetchJob → VendorFetchJob → Bool
is_older i j = ltb i.created_at j.created_at

-- The subquery: the oldest job that can run.
abbrev pub next_job : ℕ → List VendorFetchJob → Option VendorFetchJob
next_job now jobs = find (is_runnable now) (stable_sort is_older jobs)

abbrev pub start : ℕ → VendorFetchJob → VendorFetchJob
start now j = record j {
  state = running;
  started_at = some now;
  heartbeat_at = some now;
  error = none;
}

unfoldable pub claim_vendor_fetch_job :
    Faults → ℕ → List VendorFetchJob → List VendorFetchJob × Result (Option VendorFetchJob)
claim_vendor_fetch_job fails now jobs =
    if fails claim_job then (jobs, err db_error) else elim (next_job now jobs) [
      | none ↦ (jobs, ok none)
      | some j ↦ (update (λ i. i.id == j.id) (start now) jobs, ok (some (start now j)))
    ]

unfoldable pub heartbeat_vendor_fetch_job :
    Faults → ℕ → List VendorFetchJob → ℕ → List VendorFetchJob × Option Error
heartbeat_vendor_fetch_job fails now jobs id =
    if fails heartbeat
    then (jobs, some db_error)
    else (update (λ j. j.id == id) (λ j. record j { heartbeat_at = some now }) jobs, none)

abbrev pub completed_job : ℕ → ℕ → ℕ → VendorFetchJob → VendorFetchJob
completed_job now version size j = record j {
  state = completed;
  pack_version_id = some version;
  size_bytes = some size;
  finished_at = some now;
}

unfoldable pub complete_vendor_fetch_job :
    Faults → ℕ → List VendorFetchJob → ℕ → ℕ → ℕ → List VendorFetchJob × Option Error
complete_vendor_fetch_job fails now jobs id version size =
    if fails complete
    then (jobs, some db_error)
    else (update (λ j. j.id == id) (completed_job now version size) jobs, none)

abbrev pub failed_job : ℕ → Stage → VendorFetchJob → VendorFetchJob
failed_job now reason j = record j { state = failed; error = some reason; finished_at = some now }

unfoldable pub fail_vendor_fetch_job :
    Faults → ℕ → List VendorFetchJob → ℕ → Stage → List VendorFetchJob × Option Error
fail_vendor_fetch_job fails now jobs id reason =
    if fails fail
    then (jobs, some db_error)
    else (update (λ j. j.id == id) (failed_job now reason) jobs, none)

abbrev pub is_newer : VendorFetchJob → VendorFetchJob → Bool
is_newer i j = ltb j.created_at i.created_at

unfoldable pub list_vendor_fetch_jobs :
    Faults → List VendorFetchJob → ℕ → Result (List VendorFetchJob)
unfolding stable_sort
list_vendor_fetch_jobs fails jobs limit =
    if fails list_jobs
    then err db_error
    else ok (take (if limit == 0 || ltb 200 limit then 50 else limit) (stable_sort is_newer jobs))
