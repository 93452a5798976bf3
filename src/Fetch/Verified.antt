-- ===== src/Fetch/Verified.antt =====
-- What runVendorFetch of services/api/cmd/api/vendorpacks.go puts into the catalog of driver packs.
use smart_deploy_linux.Prelude.Table.{find}
use smart_deploy_linux.Prelude.{
  ℕ, ◌≡◌, ◌⊎◌, inl, inr, refl, ap, ◌∙◌, none, some, [], ◌∷◌, ◌++◌, Bytes, bytes_eq, bytes_eq_iff,
  ◌==◌, ==_iff, Bool-cases, Option-cases,
}
use smart_deploy_linux.Schema.{Result, ok, err}
use smart_deploy_linux.Tokens.Hash.{hex}
use smart_deploy_linux.Drivers.{Unicode}
use smart_deploy_linux.Packs.Stored
use smart_deploy_linux.Packs.{Blob, Version, Catalog, create_blob, create_driver_pack_version}
use smart_deploy_linux.Fetch.{VendorFetchJob}
use smart_deploy_linux.Fetch.Runner.{
  World, Run, Answer, no_answer, answers, pack_of, fetch_key, after_version, after_blob,
  verify_upload, upload_body, on_answer, run_vendor_fetch, fail_at,
}
use smart_deploy_linux.Packs.Registers.{blob_stored, create_blob-versions, version_stored}

-- A version that is new in the second catalog, with its blob.
abbrev pub AddsVersion : Bytes → Catalog → Catalog → Type 0
AddsVersion sha cat cat' =
    (v : Version) × (b : Blob) × (cat'.versions ≡ cat.versions ++ v ∷ [])
    × (find (λ (c : Blob). c.id == v.blob_id) cat'.blobs ≡ some b)
    × (b.sha256 ≡ sha)

module _ (u : Unicode) (sha256 : Bytes → Bytes) (r : Run) (j : VendorFetchJob) where
  -- The catalog's tables of versions and packs, after a stage that may add a version to them.
  abbrev Outcome : Catalog → World → Type 0
  Outcome cat w = (w.catalog.versions ≡ cat.versions) ⊎ AddsVersion j.expected_sha cat w.catalog

  after_version-catalog :
      (size : ℕ) (w : World) (made : Catalog × Result ℕ)
      → (after_version u sha256 r j size w made).catalog ≡ made.0
  unfolding after_version
  after_version-catalog size w (cat, err e) = refl
  after_version-catalog size w (cat, ok version) = refl

  after_blob-Outcome :
      (size : ℕ) (w : World) (cat : Catalog) (b : Blob)
      → b.sha256 ≡ j.expected_sha
      → find (λ (c : Blob). c.id == b.id) cat.blobs ≡ some b
      → Outcome cat (after_blob u sha256 r j size w (cat, ok b))
  unfolding after_blob
  after_blob-Outcome size w cat b same found =
      let out =
        create_driver_pack_version r.pack_fails r.now r.pack_id r.version_id cat (pack_of j b.id) in
      let left = after_version-catalog size (record w { catalog = cat }) out in
      elim (version_stored r.pack_fails r.now r.pack_id r.version_id cat (pack_of j b.id)) [
        | inl as_it_was ↦ inl (ap (λ (c : Catalog). c.versions) (left ∙ as_it_was))
        | inr (versions, blobs) ↦ inr (
          _,
          b,
          ap (λ (c : Catalog). c.versions) left ∙ versions,
          ap (λ (c : Catalog). find (λ (d : Blob). d.id == b.id) c.blobs) left
              ∙ ap (find _) blobs
              ∙ found,
          same,
        )
      ]

  -- The vendor's answer has the digest that the job names.
  abbrev pub IsVerified : Type 0
  IsVerified =
      (size : ℕ) × (body : Bytes) × (r.answer ≡ answers 200 (some size) body)
      × (hex (sha256 body) ≡ j.expected_sha)

  abbrev pub VerifiesWhatItAdds : Catalog → World → Type 0
  VerifiesWhatItAdds cat w =
      (w.catalog.versions ≡ cat.versions) ⊎ (AddsVersion j.expected_sha cat w.catalog × IsVerified)

  moved-Outcome :
      (cat cat' : Catalog) (w : World)
      → cat'.versions ≡ cat.versions
      → Outcome cat' w
      → Outcome cat w
  moved-Outcome cat cat' w same (inl as_it_was) = inl (as_it_was ∙ same)
  moved-Outcome cat cat' w same (inr (v, b, versions, found, sha)) =
      inr (v, b, versions ∙ ap (λ vs. vs ++ v ∷ []) same, found, sha)

  registered :
      (size : ℕ) (w : World) (made : Catalog × Result Blob)
      → made.0.versions ≡ w.catalog.versions
      → ((b : Blob)
          → made.1 ≡ ok b
          → (b.sha256 ≡ j.expected_sha) × (find (λ (c : Blob). c.id == b.id) made.0.blobs ≡ some b))
      → Outcome w.catalog (after_blob u sha256 r j size w made)
  unfolding after_blob fail_at
  registered size w (cat, err e) same blob = inl same
  registered size w (cat, ok b) same blob =
      moved-Outcome w.catalog cat (after_blob u sha256 r j size w (cat, ok b)) same
        (after_blob-Outcome size w cat b (blob b refl).0 (blob b refl).1)

  registered-Outcome :
      (size : ℕ) (w : World) (sha : Bytes)
      → Stored.IsStored w.catalog
      → find (λ (b : Blob). b.id == r.blob_id) w.catalog.blobs ≡ none
      → sha ≡ j.expected_sha
      → let key = fetch_key u sha256 r j in
        Outcome w.catalog (
          after_blob u sha256 r j size w
            (create_blob r.pack_fails r.now r.blob_id w.catalog sha size r.bucket key))
  registered-Outcome size w sha s fresh same =
      let key = fetch_key u sha256 r j in
      registered size w (create_blob r.pack_fails r.now r.blob_id w.catalog sha size r.bucket key)
        (create_blob-versions r.pack_fails r.now r.blob_id w.catalog sha size r.bucket key)
        (λ b made.
          let stored =
            blob_stored r.pack_fails r.now r.blob_id w.catalog sha size r.bucket key b s fresh
              made in
          (stored.0 ∙ same, stored.1))

  verify_upload-VerifiesWhatItAdds :
      (size : ℕ) (body : Bytes) (w : World)
      → Stored.IsStored w.catalog
      → find (λ (b : Blob). b.id == r.blob_id) w.catalog.blobs ≡ none
      → r.answer ≡ answers 200 (some size) body
      → VerifiesWhatItAdds w.catalog (verify_upload u sha256 r j size body w)
  unfolding verify_upload fail_at
  verify_upload-VerifiesWhatItAdds size body w s fresh answered =
      elim (Bool-cases (bytes_eq (hex (sha256 body)) j.expected_sha)) [
        | inr differs ↦ rw differs (inl refl)
        | inl same ↦
            let equal = (bytes_eq_iff (hex (sha256 body)) j.expected_sha).0 same in
            elim (registered-Outcome size w (hex (sha256 body)) s fresh equal) [
              | inl as_it_was ↦ rw same (inl as_it_was)
              | inr adds ↦ rw same (inr (adds, (size, body, answered, equal)))
            ]
      ]

  upload_body-VerifiesWhatItAdds :
      (size : ℕ) (body : Bytes) (w : World)
      → Stored.IsStored w.catalog
      → find (λ (b : Blob). b.id == r.blob_id) w.catalog.blobs ≡ none
      → r.answer ≡ answers 200 (some size) body
      → VerifiesWhatItAdds w.catalog (upload_body u sha256 r j size body w)
  unfolding upload_body fail_at
  upload_body-VerifiesWhatItAdds size body w s fresh answered = elim (Bool-cases r.can_presign) [
    | inr no_key ↦ rw no_key (inl refl)
    | inl presigns ↦ elim (Bool-cases r.can_upload) [
      | inr no_request ↦ rw (presigns, no_request) (inl refl)
      | inl uploads ↦ elim (Option-cases r.put) [
        | inl no_status ↦ rw (presigns, uploads, no_status) (inl refl)
        | inr (status, put) ↦ elim (Bool-cases (status == 200)) [
          | inr refused ↦ rw (presigns, uploads, put, refused) (inl refl)
          | inl stored ↦
              rw (presigns, uploads, put, stored)
                (verify_upload-VerifiesWhatItAdds size body _ s fresh answered)
        ]
      ]
    ]
  ]

  on_answer-VerifiesWhatItAdds :
      (w : World)
      → Stored.IsStored w.catalog
      → find (λ (b : Blob). b.id == r.blob_id) w.catalog.blobs ≡ none
      → (a : Answer) → r.answer ≡ a
      → VerifiesWhatItAdds w.catalog (on_answer u sha256 r j a w)
  unfolding on_answer fail_at
  on_answer-VerifiesWhatItAdds w s fresh no_answer e = inl refl
  on_answer-VerifiesWhatItAdds w s fresh (answers status none body) e =
      elim (Bool-cases (status == 200)) [
        | inl found ↦ rw found (inl refl)
        | inr lost ↦ rw lost (inl refl)
      ]
  on_answer-VerifiesWhatItAdds w s fresh (answers status (some size) body) e =
      elim (Bool-cases (status == 200)) [
        | inr lost ↦ rw lost (inl refl)
        | inl found ↦ rw found (
            upload_body-VerifiesWhatItAdds size body w s fresh
              (e ∙ ap (λ n. answers n (some size) body) ((==_iff status 200).0 found)))
      ]

  -- A download leaves the versions as they are, or adds one, and then what the vendor answered has the
  -- digest that the catalog's entry gave, and the blob of the new version is stored under that digest:
  -- where the catalog is well formed and the new blob's id is not yet taken.
  pub fetched_verified :
      (w : World)
      → Stored.IsStored w.catalog
      → find (λ (b : Blob). b.id == r.blob_id) w.catalog.blobs ≡ none
      → VerifiesWhatItAdds w.catalog (run_vendor_fetch u sha256 r j w)
  unfolding run_vendor_fetch fail_at on_answer upload_body verify_upload after_blob after_version
  fetched_verified w s fresh = elim (Bool-cases r.has_signer) [
    | inr unsigned ↦ rw unsigned (inl refl)
    | inl signs ↦ elim (Bool-cases r.can_request) [
      | inr no_request ↦ rw (signs, no_request) (inl refl)
      | inl requests ↦ rw (signs, requests) (on_answer-VerifiesWhatItAdds w s fresh r.answer refl)
    ]
  ]
