-- ===== src/Packs/Registers.antt =====
-- What CreateBlob and CreateDriverPackVersion of services/api/internal/store/store.go leave.
use smart_deploy_linux.Prelude.Table.{find, find-append_none, find-holds}
use smart_deploy_linux.Prelude.Keys.{row-find}
use smart_deploy_linux.Prelude.{
  ℕ, ◌≡◌, ◌⊎◌, inl, inr, refl, ◌∙◌, not, ◌&&◌, ◌||◌, none, some, [], ◌∷◌, ◌++◌, Bytes, bytes_eq_iff,
  ◌==◌, ==_refl, Bool-cases, Option-cases,
}
use smart_deploy_linux.Schema.{ok}
use smart_deploy_linux.Packs
use smart_deploy_linux.Packs.Stored
use smart_deploy_linux.Packs.{
  Blob, Version, Catalog, PackInput, has_sha, new_blob, create_blob, create_driver_pack_version,
  new_version, upsert, is_refused, is_nil, upsert_blob, begin, upsert_pack, insert_version,
  insert_rule, commit,
}

-- Registering a blob leaves one of that digest, which its id finds.
pub blob_stored :
    (fails : Packs.Faults) (now id : ℕ) (cat : Catalog) (sha : Bytes) (size : ℕ)
    (bucket key : Bytes) (b : Blob)
    → Stored.IsStored cat
    → find (λ (c : Blob). c.id == id) cat.blobs ≡ none
    → (create_blob fails now id cat sha size bucket key).1 ≡ ok b
    → let cat' = (create_blob fails now id cat sha size bucket key).0 in
      (b.sha256 ≡ sha)
      × (find (λ (c : Blob). c.id == b.id) cat'.blobs ≡ some b)
      × (cat'.versions ≡ cat.versions)
      × (cat'.packs ≡ cat.packs)
unfolding create_blob
blob_stored fails now id cat sha size bucket key b s fresh made =
    elim (Bool-cases (fails upsert_blob)) [
      | inl broke ↦ absurd (let e = rw broke at made in cc e)
      | inr works ↦ elim (Option-cases (find (has_sha sha) cat.blobs)) [
        | inr (old, known) ↦
            let old-b : old ≡ b = let e = rw (works, known) at made in cc e in
            let same = (bytes_eq_iff old.sha256 sha).0 (find-holds (has_sha sha) cat.blobs known) in
            rw (works, known)
              (rw (← old-b) (
                same,
                row-find (λ (c : Blob). c.id) (has_sha sha) cat.blobs s.blob_ids known,
                refl,
                refl,
              ))
        | inl new ↦
            let new-b : new_blob now id sha size bucket key ≡ b =
              let e = rw (works, new) at made in cc e in
            rw (works, new)
              (rw (← new-b) (
                refl,
                find-append_none _ cat.blobs (new_blob now id sha size bucket key) fresh
                    ∙ rw (==_refl id) refl,
                refl,
                refl,
              ))
      ]
    ]

pub create_blob-versions :
    (fails : Packs.Faults) (now id : ℕ) (cat : Catalog) (sha : Bytes) (size : ℕ)
    (bucket key : Bytes)
    → (create_blob fails now id cat sha size bucket key).0.versions ≡ cat.versions
unfolding create_blob
create_blob-versions fails now id cat sha size bucket key = elim (Bool-cases (fails upsert_blob)) [
  | inl broke ↦ rw broke refl
  | inr works ↦ elim (Option-cases (find (has_sha sha) cat.blobs)) [
    | inl new ↦ rw (works, new) refl
    | inr (old, known) ↦ rw (works, known) refl
  ]
]

-- A new version, or the catalog as it was.
pub version_stored :
    (fails : Packs.Faults) (now new_pack_id id : ℕ) (cat : Catalog) (input : PackInput)
    → let out = create_driver_pack_version fails now new_pack_id id cat input in
      (out.0 ≡ cat)
      ⊎ ((out.0.versions
            ≡ cat.versions ++ new_version now id (upsert new_pack_id input cat.packs).1 input ∷ [])
          × (out.0.blobs ≡ cat.blobs))
unfolding create_driver_pack_version
version_stored fails now new_pack_id id cat input =
    let out = upsert new_pack_id input cat.packs in
    elim (Bool-cases (fails begin || fails upsert_pack)) [
      | inl broke ↦ rw broke (inl refl)
      | inr works ↦ elim (Bool-cases (fails insert_version || is_refused out.1 input cat)) [
        | inl broke ↦ rw (works, broke) (inl refl)
        | inr fits ↦
            elim (Bool-cases ((fails insert_rule && not (is_nil input.rules)) || fails commit)) [
              | inl broke ↦ rw (works, fits, broke) (inl refl)
              | inr commits ↦ rw (works, fits, commits) (inr (refl, refl))
            ]
      ]
    ]
