-- ===== src/Fetch/Lost.antt =====
-- What becomes of the object under a key when a download does not verify.
use smart_deploy_linux.Prelude.Table.{find, delete, select, find-append_none}
use smart_deploy_linux.Prelude.{
  ℕ, ◌≡◌, refl, ◌∙◌, Bool, true, false, none, some, List, [], ◌∷◌, Bytes, bytes_eq, bytes_eq_refl,
  if◌then◌else◌, Bool-cases, inl, inr,
}
use smart_deploy_linux.Tokens.Hash.{hex}
use smart_deploy_linux.Drivers.{Unicode}
use smart_deploy_linux.Fetch.{VendorFetchJob}
use smart_deploy_linux.Fetch.Runner.{
  Object, World, Run, answers, is_at, put_object, delete_object, fetch_key, verify_upload,
  upload_body, on_answer, run_vendor_fetch, fail_at,
}

deleted_gone : (p : Object → Bool) (objects : List Object) → find p (delete p objects) ≡ none
unfolding find delete select
deleted_gone p [] = refl
deleted_gone p (o ∷ objects) = elim (Bool-cases (p o)) [
  | inl gone ↦ rw gone (deleted_gone p objects)
  | inr kept ↦ rw (kept, kept) (deleted_gone p objects)
]

put_there :
    (bucket key content : Bytes) (objects : List Object)
    → find (is_at bucket key) (put_object bucket key content objects)
      ≡ some (record { bucket = bucket; key = key; content = content })
put_there bucket key content objects =
    find-append_none (is_at bucket key) _ (record { bucket = bucket; key = key; content = content })
      (deleted_gone (is_at bucket key) objects)
    ∙ rw (bytes_eq_refl bucket, bytes_eq_refl key) refl

-- A run whose requests get through comes to the comparison of the digests.
pub run-verifies :
    (u : Unicode) (sha256 : Bytes → Bytes) (r : Run) (j : VendorFetchJob) (w : World) (size : ℕ)
    (body : Bytes)
    → r.has_signer ≡ true
    → r.can_request ≡ true
    → r.answer ≡ answers 200 (some size) body
    → r.can_presign ≡ true
    → r.can_upload ≡ true
    → r.put ≡ some 200
    → run_vendor_fetch u sha256 r j w
      ≡ verify_upload u sha256 r j size body
          (record w { objects = put_object r.bucket (fetch_key u sha256 r j) body w.objects })
unfolding run_vendor_fetch on_answer upload_body verify_upload
    smart_deploy_linux.Fetch.Runner.after_blob smart_deploy_linux.Fetch.Runner.after_version
run-verifies u sha256 r j w size body signs requests answered presigns uploads stored =
    rw
      (
        signs, requests, answered, on_answer, run_vendor_fetch, presigns, upload_body, uploads,
        stored,
      )
      refl

-- Where every request of a run gets through with status 200 and a length, a download whose digest
-- is not that of the job leaves the blobs and packs as they are. But the object under its key,
-- which an earlier blob may stand for, is then gone, or holds what was downloaded.
pub mismatch_loses :
    (u : Unicode) (sha256 : Bytes → Bytes) (r : Run) (j : VendorFetchJob) (w : World) (size : ℕ)
    (body : Bytes)
    → r.has_signer ≡ true
    → r.can_request ≡ true
    → r.answer ≡ answers 200 (some size) body
    → r.can_presign ≡ true
    → r.can_upload ≡ true
    → r.put ≡ some 200
    → bytes_eq (hex (sha256 body)) j.expected_sha ≡ false
    → let w' = run_vendor_fetch u sha256 r j w in
      let key = fetch_key u sha256 r j in
      (w'.catalog ≡ w.catalog)
      × (find (is_at r.bucket key) w'.objects ≡ (
          if r.deletes
          then none
          else some (record { bucket = r.bucket; key = key; content = body })))
unfolding verify_upload fail_at
mismatch_loses u sha256 r j w size body signs requests answered presigns uploads stored differs =
    let key = fetch_key u sha256 r j in
    rw
      (
        run-verifies u sha256 r j w size body signs requests answered presigns uploads stored,
        verify_upload,
        differs,
      )
      (
        refl,
        elim (Bool-cases r.deletes) [
          | inl deletes ↦
              rw deletes
                (deleted_gone (is_at r.bucket key) (put_object r.bucket key body w.objects))
          | inr stays ↦ rw stays (put_there r.bucket key body w.objects)
        ],
      )
