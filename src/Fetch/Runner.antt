-- ===== src/Fetch/Runner.antt =====
-- runVendorFetch of services/api/cmd/api/vendorpacks.go: a download from the vendor goes to the object
-- store, is verified, and becomes a driver pack. The answers of the two servers come from outside. The
-- heartbeats are calls of their own.
use smart_deploy_linux.Prelude.Table.{delete}
use smart_deploy_linux.Prelude.{
  ℕ, Bool, not, ◌&&◌, Option, none, some, List, [], ◌∷◌, ◌++◌, map, Bytes, bytes_eq, codes, ◌==◌,
  if◌then◌else◌,
}
use smart_deploy_linux.Schema.{Result, ok, err}
use smart_deploy_linux.Tokens.Hash.{hex}
use smart_deploy_linux.Drivers.{Unicode, Rule, lower_text}
use smart_deploy_linux.Packs
use smart_deploy_linux.Packs.{Blob, Catalog, PackInput, create_blob, create_driver_pack_version}
use smart_deploy_linux.Packs.Ingest.{base}
use smart_deploy_linux.Fetch.{
  VendorFetchJob, Faults, Stage, config, request, download, presign, upload_request, upload, verify,
  blob, pack_version, fail_vendor_fetch_job, complete_vendor_fetch_job,
}

pub record Object : Type 0 where
  pub bucket : Bytes
  pub key : Bytes
  pub content : Bytes

pub record World : Type 0 where
  pub jobs : List VendorFetchJob
  pub catalog : Catalog
  pub objects : List Object

abbrev pub is_at : Bytes → Bytes → Object → Bool
is_at bucket key o = bytes_eq o.bucket bucket && bytes_eq o.key key

-- A PUT replaces what the key held; a DELETE removes it.
abbrev pub put_object : Bytes → Bytes → Bytes → List Object → List Object
put_object bucket key content objects =
    delete (is_at bucket key) objects
    ++ record { bucket = bucket; key = key; content = content } ∷ []

abbrev pub delete_object : Bytes → Bytes → List Object → List Object
delete_object bucket key = delete (is_at bucket key)

-- The vendor's answer: `length` is none where it is not positive.
pub data Answer : Type 0 where
  no_answer : Answer
  answers : (status : ℕ) (length : Option ℕ) (body : Bytes) → Answer

-- What a run meets: whether the signer is configured, the requests can be made and the keys signed, the
-- answers of the servers (`put` is none for an error of transport), and whether the DELETE after a
-- mismatch gets through.
pub record Run : Type 0 where
  pub now : ℕ
  pub fails : Faults
  pub pack_fails : Packs.Faults
  pub has_signer : Bool
  pub can_request : Bool
  pub answer : Answer
  pub can_presign : Bool
  pub can_upload : Bool
  pub put : Option ℕ
  pub deletes : Bool
  pub bucket : Bytes
  pub blob_id : ℕ
  pub pack_id : ℕ
  pub version_id : ℕ

-- The rules of a pack: its machine types, or its model.
abbrev pub rules_for : VendorFetchJob → List Rule
rules_for j = elim j.mtypes [
  | [] ↦ record { type = "dmi-product"; value = j.model } ∷ []
  | t ∷ ts ↦ map (λ m. record { type = "dmi-product-prefix"; value = m }) (t ∷ ts)
]

abbrev pub pack_of : VendorFetchJob → ℕ → PackInput
pack_of j blob_id = record {
  vendor = j.vendor;
  model = j.model;
  os_family = j.os_family;
  os_version = j.os_version;
  version_tag = j.os_version;
  blob_id = blob_id;
  rules = rules_for j;
}

module _ (u : Unicode) (sha256 : Bytes → Bytes) (r : Run) (j : VendorFetchJob) where
  abbrev pub fetch_key : Bytes
  fetch_key = codes "vendor/" ++ (lower_text u j.vendor ++ (b'/' ∷ base j.url))

  -- The closure `fail`.
  unfoldable pub fail_at : Stage → World → World
  unfolding fail_vendor_fetch_job
  fail_at stage w = record w { jobs = (fail_vendor_fetch_job r.fails r.now w.jobs j.id stage).0 }

  unfoldable pub after_version : ℕ → World → Catalog × Result ℕ → World
  unfolding fail_at complete_vendor_fetch_job
  after_version size w (cat, err _) = fail_at pack_version (record w { catalog = cat })
  after_version size w (cat, ok version) = record w {
    catalog = cat;
    jobs = (complete_vendor_fetch_job r.fails r.now w.jobs j.id version size).0;
  }

  unfoldable pub after_blob : ℕ → World → Catalog × Result Blob → World
  unfolding fail_at
  after_blob size w (cat, err _) = fail_at blob (record w { catalog = cat })
  after_blob size w (cat, ok b) =
      after_version size (record w { catalog = cat })
        (create_driver_pack_version r.pack_fails r.now r.pack_id r.version_id cat (pack_of j b.id))

  -- The comparison of the digests, and what follows it.
  unfoldable pub verify_upload : ℕ → Bytes → World → World
  unfolding fail_at bytes_eq
  verify_upload size body w =
      let got = hex (sha256 body) in
      let left = if r.deletes then delete_object r.bucket fetch_key w.objects else w.objects in
      if not (bytes_eq got j.expected_sha)
      then fail_at verify (record w { objects = left })
      else after_blob size w
          (create_blob r.pack_fails r.now r.blob_id w.catalog got size r.bucket fetch_key)

  unfoldable pub upload_body : ℕ → Bytes → World → World
  unfolding fail_at
  upload_body size body w =
      if not r.can_presign
      then fail_at presign w
      else if not r.can_upload
      then fail_at upload_request w
      else elim r.put [
        | none ↦ fail_at upload w
        | some status ↦
            if status == 200
            then verify_upload size body
                (record w { objects = put_object r.bucket fetch_key body w.objects })
            else fail_at upload w
      ]

  unfoldable pub on_answer : Answer → World → World
  unfolding fail_at
  on_answer no_answer w = fail_at download w
  on_answer (answers status length body) w =
      if not (status == 200)
      then fail_at download w
      else elim length [ none ↦ fail_at download w | some size ↦ upload_body size body w ]

  unfoldable pub run_vendor_fetch : World → World
  unfolding fail_at
  run_vendor_fetch w =
      if not r.has_signer
      then fail_at config w
      else if not r.can_request
      then fail_at request w
      else on_answer r.answer w
