-- ===== src/Fetch/Handlers.antt =====
-- The handlers of services/api/cmd/api/vendorpacks.go. Parsed queries, decoded bodies and the answer of
-- the vendor's server come from outside.
use smart_deploy_linux.Prelude.Table.{find}
use smart_deploy_linux.Prelude.{
  ℕ, Bool, not, Option, none, some, List, take, Bytes, bytes_eq, if◌then◌else◌,
}
use smart_deploy_linux.Schema.{Result, ok, err}
use smart_deploy_linux.Access.{Principal, user_id}
use smart_deploy_linux.Access.Handlers.{may}
use smart_deploy_linux.Drivers.{Unicode}
use smart_deploy_linux.Fetch.{
  VendorFetchJob, FetchInput, Faults, create_vendor_fetch_job, list_vendor_fetch_jobs,
}
use smart_deploy_linux.Fetch.Vendor.{Entry, search}

pub data SearchReply : Type 0 where
  forbidden catalog_error : SearchReply
  found : List Entry → SearchReply

-- searchVendorPacks, on what Entries answers.
unfoldable pub search_vendor_packs :
    Unicode → Option Principal → Option (List Entry) → Bytes → SearchReply
unfolding search
search_vendor_packs u p catalog q =
    if not (may p "driverpack.read") then forbidden else elim catalog [
      | none ↦ catalog_error
      | some entries ↦ found (take 100 (search u entries q))
    ]

pub data FetchReply : Type 0 where
  forbidden not_configured bad_json catalog_error unknown_url queue_error : FetchReply
  accepted : ℕ → FetchReply

abbrev pub has_url : Bytes → Entry → Bool
has_url url e = bytes_eq e.url url

abbrev pub input_of : Entry → FetchInput
input_of e = record {
  vendor = e.vendor;
  model = e.model;
  mtypes = e.types;
  os_family = e.os_family;
  os_version = e.os_version;
  url = e.url;
  expected_sha = e.sha256;
}

abbrev pub fetch_reply : List VendorFetchJob × Result ℕ → List VendorFetchJob × FetchReply
fetch_reply (jobs, err _) = (jobs, queue_error)
fetch_reply (jobs, ok id) = (jobs, accepted id)

-- fetchVendorPack; `body` is the URL of a body that decodes.
unfoldable pub fetch_vendor_pack :
    Faults
    → ℕ
    → ℕ
    → Option Principal
    → Bool
    → Option Bytes
    → Option (List Entry)
    → List VendorFetchJob
    → List VendorFetchJob × FetchReply
fetch_vendor_pack fails now id p has_signer body catalog jobs =
    if not (may p "driverpack.write")
    then (jobs, forbidden)
    else if not has_signer
    then (jobs, not_configured)
    else elim body [
      | none ↦ (jobs, bad_json)
      | some url ↦ elim catalog [
        | none ↦ (jobs, catalog_error)
        | some entries ↦ elim (find (has_url url) entries) [
          | none ↦ (jobs, unknown_url)
          | some e ↦
              fetch_reply (create_vendor_fetch_job fails now id jobs (input_of e) (user_id p))
        ]
      ]
    ]

pub data ListReply : Type 0 where
  forbidden list_error : ListReply
  listed : List VendorFetchJob → ListReply

unfoldable pub list_fetch_jobs : Faults → Option Principal → List VendorFetchJob → ℕ → ListReply
unfolding list_vendor_fetch_jobs
list_fetch_jobs fails p jobs limit =
    if not (may p "driverpack.read")
    then forbidden
    else elim (list_vendor_fetch_jobs fails jobs limit) [ err _ ↦ list_error | ok js ↦ listed js ]
