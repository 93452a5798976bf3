-- ===== src/Tests/Fetch.antt =====
-- Runs of the vendor downloads.
use smart_deploy_linux.Prelude.Table.{any, find, select, update}
use smart_deploy_linux.Prelude.{
  ℕ, ◌≡◌, ◌≢◌, refl, ◌==◌, true, false, some, none, List, [], ◌∷◌, Bytes, codes, bytes_eq, length,
  arith,
}
use smart_deploy_linux.Schema.{ok}
use smart_deploy_linux.Tokens.Hash.{hex}
use smart_deploy_linux.Drivers.Sort.{stable_sort}
use smart_deploy_linux.Packs.{Blob, create_blob, create_driver_pack_version}
use smart_deploy_linux.Fetch.{VendorFetchJob, queued, running, claim_vendor_fetch_job}
use smart_deploy_linux.Fetch.Claimed.{claimed_once}
use smart_deploy_linux.Fetch.Runner.{
  World, Run, answers, is_at, fetch_key, run_vendor_fetch, on_answer, upload_body, verify_upload,
  after_blob, after_version,
}
use smart_deploy_linux.Fetch.Verified.{VerifiesWhatItAdds, fetched_verified}
use smart_deploy_linux.Fetch.Lost.{mismatch_loses}
use smart_deploy_linux.Tests.Catalog.{catalog, catalog-IsStored, plain}

abbrev fetch_job : ℕ → VendorFetchJob
fetch_job id = record {
  id = id;
  vendor = codes "Lenovo";
  model = codes "T14";
  mtypes = codes "21hd" ∷ [];
  os_family = codes "windows";
  os_version = codes "11";
  url = codes "https://v/p.exe";
  expected_sha = codes "ab";
  state = queued;
  error = none;
  pack_version_id = none;
  size_bytes = none;
  requested_by = none;
  created_at = id;
  started_at = none;
  heartbeat_at = none;
  finished_at = none;
}

abbrev started : ℕ → ℕ → VendorFetchJob
started id now = record (fetch_job id) {
  state = running;
  started_at = some now;
  heartbeat_at = some now;
}

abbrev two_jobs : List VendorFetchJob
two_jobs = fetch_job 1 ∷ fetch_job 2 ∷ []

first_claim : (claim_vendor_fetch_job (λ _. false) 100 two_jobs).1 ≡ ok (some (started 1 100))
unfolding claim_vendor_fetch_job find stable_sort
first_claim = refl

second_claim :
    (claim_vendor_fetch_job (λ _. false) 200 (claim_vendor_fetch_job (λ _. false) 100 two_jobs).0).1
    ≡ ok (some (started 2 200))
unfolding claim_vendor_fetch_job find update stable_sort
second_claim = refl

claimed_once_example : (started 2 200).id ≢ (started 1 100).id
claimed_once_example =
    claimed_once (λ _. false) 100 200 two_jobs (started 1 100) (started 2 200) (omega arith)
      first_claim second_claim

abbrev world : World
world = record { jobs = fetch_job 1 ∷ []; catalog = catalog; objects = [] }

abbrev run : Run
run = record {
  now = 300;
  fails = λ _. false;
  pack_fails = λ _. false;
  has_signer = true;
  can_request = true;
  answer = answers 200 (some 4) (codes "data");
  can_presign = true;
  can_upload = true;
  put = some 200;
  deletes = true;
  bucket = codes "drivers";
  blob_id = 21;
  pack_id = 22;
  version_id = 23;
}

-- A digest that agrees with the job's, and one that does not.
abbrev digest : ℕ → Bytes → Bytes
digest n _ = n ∷ []

new_blob_id : find (λ (b : Blob). b.id == 21) world.catalog.blobs ≡ none
unfolding find
new_blob_id = refl

fetched_verified_example :
    VerifiesWhatItAdds plain
      (digest 171)
      run
      (fetch_job 1)
      world.catalog
      (run_vendor_fetch plain (digest 171) run (fetch_job 1) world)
fetched_verified_example =
    fetched_verified plain (digest 171) run (fetch_job 1) world catalog-IsStored new_blob_id

-- The run that verifies adds a version.
adds_version :
    length (run_vendor_fetch plain (digest 171) run (fetch_job 1) world).catalog.versions ≡ 2
unfolding run_vendor_fetch hex bytes_eq find any update select on_answer upload_body verify_upload
    after_blob create_blob after_version create_driver_pack_version
adds_version = refl

digests_differ : bytes_eq (hex (digest 1 (codes "data"))) (fetch_job 1).expected_sha ≡ false
unfolding hex bytes_eq
digests_differ = refl

mismatch_loses_example :
    let w' = run_vendor_fetch plain (digest 1) run (fetch_job 1) world in
    let key = fetch_key plain (digest 1) run (fetch_job 1) in
    (w'.catalog ≡ world.catalog) × (find (is_at (codes "drivers") key) w'.objects ≡ none)
mismatch_loses_example =
    mismatch_loses plain (digest 1) run (fetch_job 1) world 4 (codes "data") refl refl refl refl
      refl refl digests_differ
