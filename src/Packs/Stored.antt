-- ===== src/Packs/Stored.antt =====
-- The keys and references of the tables of blobs and driver packs.
use smart_deploy_linux.Prelude.Table.{find, select, any, delete, any-append, any-delete, All-select}
use smart_deploy_linux.Prelude.Keys.{HasKeys, HasKeys-append, HasKeys-select, any-own}
use smart_deploy_linux.Prelude.{
  ℕ, ◌≡◌, ◌∙◌, Bool, true, false, not, ◌&&◌, ◌||◌, none, List, [], ◌∷◌, ◌++◌, map, Bytes,
  bytes_eq_iff, ◌==◌, ==_iff, ==_refl, arith, All, All-append, All-weaker, Bool-cases, Option-cases,
  inl, inr,
}
use smart_deploy_linux.Drivers.{Rule}
use smart_deploy_linux.Packs.{
  Blob, Pack, Version, VersionRule, Catalog, Faults, PackInput, has_sha, new_blob, create_blob,
  upsert, is_pack, new_pack, is_refused, new_version, new_rules, create_driver_pack_version,
  delete_driver_pack_version, is_nil, upsert_blob, begin, upsert_pack, insert_version, insert_rule,
  commit, delete_version,
}

abbrev pub Refers : List Pack → List Blob → Version → Type 0
Refers packs blobs v =
    (any (λ (p : Pack). p.id == v.pack_id) packs ≡ true)
    × (any (λ (b : Blob). b.id == v.blob_id) blobs ≡ true)

abbrev pub Belongs : List Version → VersionRule → Type 0
Belongs versions r = any (λ (v : Version). v.id == r.version_id) versions ≡ true

-- Primary keys, the UNIQUE digests, and the foreign keys.
pub record IsStored (cat : Catalog) : Type 0 where
  pub blob_ids : HasKeys (λ (b : Blob). b.id) cat.blobs
  pub blob_shas : HasKeys (λ (b : Blob). b.sha256) cat.blobs
  pub pack_ids : HasKeys (λ (p : Pack). p.id) cat.packs
  pub version_ids : HasKeys (λ (v : Version). v.id) cat.versions
  pub versions_refer : All (Refers cat.packs cat.blobs) cat.versions
  pub rules_belong : All (Belongs cat.versions) cat.rules

or_left : (a b : Bool) → a ≡ true → (a || b) ≡ true
or_left a b h = ground arith

or_right : (a b : Bool) → b ≡ true → (a || b) ≡ true
or_right a b h = ground arith

more_packs :
    (packs : List Pack) (p : Pack) (blobs : List Blob) (v : Version)
    → Refers packs blobs v
    → Refers (packs ++ p ∷ []) blobs v
more_packs packs p blobs v (h, k) = (any-append _ packs (p ∷ []) ∙ or_left _ _ h, k)

more_blobs :
    (packs : List Pack) (b : Blob) (blobs : List Blob) (v : Version)
    → Refers packs blobs v
    → Refers packs (blobs ++ b ∷ []) v
more_blobs packs b blobs v (h, k) = (h, any-append _ blobs (b ∷ []) ∙ or_left _ _ k)

more_versions :
    (vs : List Version) (v : Version) (r : VersionRule) → Belongs vs r → Belongs (vs ++ v ∷ []) r
more_versions vs v r h = any-append _ vs (v ∷ []) ∙ or_left _ _ h

-- CreateBlob keeps the tables sound.
pub create_blob-IsStored :
    (fails : Faults) (now id : ℕ) (cat : Catalog) (sha : Bytes) (size : ℕ) (bucket key : Bytes)
    → find (λ (b : Blob). b.id == id) cat.blobs ≡ none
    → IsStored cat
    → IsStored (create_blob fails now id cat sha size bucket key).0
unfolding create_blob
create_blob-IsStored fails now id cat sha size bucket key fresh s =
    elim (Bool-cases (fails upsert_blob)) [
      | inl broke ↦ rw broke s
      | inr works ↦ elim (Option-cases (find (has_sha sha) cat.blobs)) [
        | inr (old, known) ↦ rw (works, known) s
        | inl new ↦
            let b = new_blob now id sha size bucket key in
            rw (works, new)
              (record {
                blob_ids =
                    HasKeys-append (λ (c : Blob). c.id) (λ c. c.id == id) cat.blobs b
                      (λ c e. (==_iff _ _).1 e) s.blob_ids fresh;
                blob_shas =
                    HasKeys-append (λ (c : Blob). c.sha256) (has_sha sha) cat.blobs b
                      (λ c e. (bytes_eq_iff _ _).1 e) s.blob_shas new;
                pack_ids = s.pack_ids;
                version_ids = s.version_ids;
                versions_refer =
                    All-weaker _ _ cat.versions (λ v. more_blobs cat.packs b cat.blobs v)
                      s.versions_refer;
                rules_belong = s.rules_belong;
              })
      ]
    ]

any_last :
    (vs : List Version) (v : Version) → any (λ (w : Version). w.id == v.id) (vs ++ v ∷ []) ≡ true
unfolding any
any_last vs v =
    any-append _ vs (v ∷ [])
    ∙ or_right (any (λ w. w.id == v.id) vs) _ (ground (arith, ==_refl v.id))

last_pack : (p : Pack) → any (λ (q : Pack). q.id == p.id) (p ∷ []) ≡ true
unfolding any
last_pack p = ground (arith, ==_refl p.id)

new_rules-Belongs :
    (vs : List Version) (v : Version) (rs : List Rule)
    → All (Belongs (vs ++ v ∷ [])) (map (λ r. record { version_id = v.id; rule = r }) rs)
new_rules-Belongs vs v [] = tt
new_rules-Belongs vs v (r ∷ rs) = (any_last vs v, new_rules-Belongs vs v rs)

-- What the upsert leaves: the packs are sound, and the id is that of one of them.
record IsUpserted (packs : List Pack) (blobs : List Blob) (out : List Pack × ℕ) : Type 0 where
  pub keyed : HasKeys (λ (p : Pack). p.id) out.0
  pub present : any (λ (p : Pack). p.id == out.1) out.0 ≡ true
  pub kept : (v : Version) → Refers packs blobs v → Refers out.0 blobs v

upsert_lem :
    (id : ℕ) (input : PackInput) (packs : List Pack) (blobs : List Blob)
    → HasKeys (λ (p : Pack). p.id) packs
    → find (λ (p : Pack). p.id == id) packs ≡ none
    → IsUpserted packs blobs (upsert id input packs)
unfolding upsert
upsert_lem id input packs blobs keyed fresh = elim (Option-cases (find (is_pack input) packs)) [
  | inr (p, found) ↦
      rw (upsert, found)
        (record {
          keyed = keyed;
          present = any-own (λ (q : Pack). q.id) (is_pack input) packs found;
          kept = λ v h. h;
        })
  | inl new ↦
      let p = new_pack id input in
      rw (upsert, new)
        (record {
          keyed =
              HasKeys-append (λ (q : Pack). q.id) (λ q. q.id == id) packs p
                (λ q e. (==_iff _ _).1 e) keyed fresh;
          present = any-append _ packs (p ∷ []) ∙ or_right _ _ (last_pack p);
          kept = λ v. more_packs packs p blobs v;
        })
]

-- CreateDriverPackVersion keeps the tables sound, whichever statements fail.
pub create_version-IsStored :
    (fails : Faults) (now new_pack_id id : ℕ) (cat : Catalog) (input : PackInput)
    → find (λ (p : Pack). p.id == new_pack_id) cat.packs ≡ none
    → find (λ (v : Version). v.id == id) cat.versions ≡ none
    → IsStored cat
    → IsStored (create_driver_pack_version fails now new_pack_id id cat input).0
unfolding create_driver_pack_version
create_version-IsStored fails now new_pack_id id cat input fresh_pack fresh s =
    let out = upsert new_pack_id input cat.packs in
    let u = upsert_lem new_pack_id input cat.packs cat.blobs s.pack_ids fresh_pack in
    elim (Bool-cases (fails begin || fails upsert_pack)) [
      | inl broke ↦ rw broke s
      | inr works ↦ elim (Bool-cases (fails insert_version || is_refused out.1 input cat)) [
        | inl broke ↦ rw (works, broke) s
        | inr fits ↦
            elim (Bool-cases ((fails insert_rule && not (is_nil input.rules)) || fails commit)) [
              | inl broke ↦ rw (works, fits, broke) s
              | inr commits ↦
                  let v = new_version now id out.1 input in
                  let blob : any (λ (b : Blob). b.id == input.blob_id) cat.blobs ≡ true =
                    ground arith in
                  let older = All-weaker _ _ cat.versions (λ w. u.kept w) s.versions_refer in
                  rw (works, fits, commits)
                    (record {
                      blob_ids = s.blob_ids;
                      blob_shas = s.blob_shas;
                      pack_ids = u.keyed;
                      version_ids =
                          HasKeys-append (λ (w : Version). w.id) (λ w. w.id == id) cat.versions v
                            (λ w e. (==_iff _ _).1 e) s.version_ids fresh;
                      versions_refer =
                          All-append (Refers out.0 cat.blobs) cat.versions (v ∷ []) older
                            ((u.present, blob), tt);
                      rules_belong =
                          All-append _ cat.rules (new_rules id input)
                            (All-weaker _ _ cat.rules (λ r. more_versions cat.versions v r)
                              s.rules_belong)
                            (new_rules-Belongs cat.versions v input.rules);
                    })
            ]
      ]
    ]

other_id : (id n m : ℕ) → (n == id) ≡ false → (m == n) ≡ true → (m == id) ≡ false
other_id id n m h k = ground arith

other_rules :
    (id : ℕ) (vs : List Version) (rs : List VersionRule)
    → All (Belongs vs) rs
    → All (Belongs (delete (λ v. v.id == id) vs)) (delete (λ r. r.version_id == id) rs)
unfolding delete select
other_rules id vs [] h = tt
other_rules id vs (r ∷ rs) h = elim (Bool-cases (r.version_id == id)) [
  | inl gone ↦ rw gone (other_rules id vs rs h.1)
  | inr kept ↦ rw kept (
    any-delete _ _ vs (λ v same. other_id id r.version_id v.id kept same) ∙ h.0,
    other_rules id vs rs h.1,
  )
]

-- DeleteDriverPackVersion keeps the tables sound: its rules go with the version.
pub delete_version-IsStored :
    (fails : Faults) (cat : Catalog) (id : ℕ)
    → IsStored cat
    → IsStored (delete_driver_pack_version fails cat id).0
unfolding delete_driver_pack_version delete
delete_version-IsStored fails cat id s = elim (Bool-cases (fails delete_version)) [
  | inl broke ↦ rw broke s
  | inr works ↦ elim (Bool-cases (any (λ (v : Version). v.id == id) cat.versions)) [
    | inr missing ↦ rw (works, missing) s
    | inl there ↦
        rw (works, there)
          (record {
            blob_ids = s.blob_ids;
            blob_shas = s.blob_shas;
            pack_ids = s.pack_ids;
            version_ids = HasKeys-select (λ (v : Version). v.id) _ cat.versions s.version_ids;
            versions_refer = All-select _ _ cat.versions s.versions_refer;
            rules_belong = other_rules id cat.versions cat.rules s.rules_belong;
          })
  ]
]
