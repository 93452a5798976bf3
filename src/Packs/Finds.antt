-- ===== src/Packs/Finds.antt =====
-- MatchDriverPacks of services/api/internal/store/store.go on stored versions.
use smart_deploy_linux.Prelude.Table.{
  find, select, any, any-append, any-count, any-found, All-select,
}
use smart_deploy_linux.Prelude.Keys.{HasKeys}
use smart_deploy_linux.Prelude.{
  ℕ, ◌≡◌, refl, sym, ◌∙◌, Bool, true, false, ◌&&◌, some, List, [], ◌∷◌, map, ◌==◌, ==_iff, ==_refl,
  arith, All, All-append, All-weaker, Bool-cases, Option-cases, inl, inr,
}
use smart_deploy_linux.Schema.{ok}
use smart_deploy_linux.Drivers.{Unicode, Fingerprint, os_compatible}
use smart_deploy_linux.Drivers.Sort.{stable_sort, count-stable_sort, All-stable_sort}
use smart_deploy_linux.Packs.{Blob, Pack, Version, VersionRule, Catalog, Faults, match_packs}
use smart_deploy_linux.Packs.Match.{
  Row, no_rule, with_rules, rows_of, joined, new_candidate, has_lower_id, suits, candidates,
  MatchedDriverPack, match_driver_packs,
}
use smart_deploy_linux.Packs.Grouped.{or_left, or_right, hits, is_hit_row, RowSuits, group_selects}

-- What the join knows of a version besides its rules.
abbrev pub bare_row : Version → Pack → Blob → Row
bare_row v p b = record { version = v; pack = p; blob = b; rule = no_rule }

any-select {ℓ} :
    {A : Type ℓ} (p q : A → Bool) (xs : List A)
    → any (λ x. p x && q x) xs ≡ true
    → any q (select p xs) ≡ true
unfolding any select
any-select p q [] h = h
any-select p q (x ∷ xs) h = ground (arith, any-select p q xs)

clash : (n id : ℕ) → (n == id) ≡ false → (n == id) ≡ true → true ≡ false
clash n id h k = cc

-- A row whose version has another id says nothing of this one.
others-map :
    (u : Unicode) (fp : Fingerprint) (id : ℕ) (w : Version) (p : Pack) (b : Blob)
    (rs : List VersionRule)
    → (w.id == id) ≡ false
    → All
        (RowSuits u fp id)
        (map (λ (s : VersionRule). record { version = w; pack = p; blob = b; rule = s.rule }) rs)
others-map u fp id w p b [] apart = tt
others-map u fp id w p b (s ∷ rs) apart =
    ((λ same. cc (clash w.id id apart same)), others-map u fp id w p b rs apart)

others-rules :
    (u : Unicode) (fp : Fingerprint) (id : ℕ) (w : Version) (p : Pack) (b : Blob)
    (rs : List VersionRule)
    → (w.id == id) ≡ false
    → All (RowSuits u fp id) (with_rules w p b rs)
others-rules u fp id w p b [] apart = ((λ same. cc (clash w.id id apart same)), tt)
others-rules u fp id w p b (s ∷ rs) apart = others-map u fp id w p b (s ∷ rs) apart

-- The rows of a version with another id say nothing of this one.
other-Suits :
    (u : Unicode) (fp : Fingerprint) (id : ℕ) (cat : Catalog) (w : Version)
    → (w.id == id) ≡ false
    → All (RowSuits u fp id) (rows_of cat w)
unfolding rows_of
other-Suits u fp id cat w apart =
    elim (Option-cases (find (λ (p : Pack). p.id == w.pack_id) cat.packs)) [
      | inl missing ↦ rw (rows_of, missing) tt
      | inr (p, found) ↦ elim (Option-cases (find (λ (b : Blob). b.id == w.blob_id) cat.blobs)) [
        | inl missing ↦ rw (rows_of, found, missing) tt
        | inr (b, found') ↦ rw (rows_of, found, found') (others-rules u fp id w p b _ apart)
      ]
    ]

module _ (u : Unicode) (fp : Fingerprint) (cat : Catalog) (v : Version) (p : Pack) (b : Blob)
    (packed : find (λ (q : Pack). q.id == v.pack_id) cat.packs ≡ some p)
    (stored : find (λ (c : Blob). c.id == v.blob_id) cat.blobs ≡ some b) where
  abbrev hit : Row → Bool
  hit r = suits u fp r && is_hit_row u fp v.id r

  abbrev with_rule : VersionRule → Row
  with_rule s = record { version = v; pack = p; blob = b; rule = s.rule }

  map-hit :
      (rs : List VersionRule)
      → suits u fp (bare_row v p b) ≡ true
      → any (λ s. hits u fp v.id s.rule) rs ≡ true
      → any hit (map with_rule rs) ≡ true
  unfolding any
  map-hit [] suit h = h
  map-hit (s ∷ rs) suit h = ground (arith, map-hit rs suit, ==_refl v.id)

  with_rules-hit :
      (rs : List VersionRule)
      → suits u fp (bare_row v p b) ≡ true
      → any (λ s. hits u fp v.id s.rule) rs ≡ true
      → any hit (with_rules v p b rs) ≡ true
  unfolding any
  with_rules-hit [] suit h = cc
  with_rules-hit (s ∷ rs) suit h = map-hit (s ∷ rs) suit h

  map-Suits :
      (rs : List VersionRule)
      → os_compatible u (new_candidate (bare_row v p b)).version fp ≡ true
      → All (RowSuits u fp v.id) (map with_rule rs)
  map-Suits [] good = tt
  map-Suits (s ∷ rs) good = ((λ _. good), map-Suits rs good)

  with_rules-Suits :
      (rs : List VersionRule)
      → os_compatible u (new_candidate (bare_row v p b)).version fp ≡ true
      → All (RowSuits u fp v.id) (with_rules v p b rs)
  with_rules-Suits [] good = ((λ _. good), tt)
  with_rules-Suits (s ∷ rs) good = map-Suits (s ∷ rs) good

  rows-hit :
      suits u fp (bare_row v p b) ≡ true
      → any (λ (s : VersionRule). s.version_id == v.id && hits u fp v.id s.rule) cat.rules ≡ true
      → any hit (rows_of cat v) ≡ true
  unfolding rows_of
  rows-hit suit h =
      rw (packed, rows_of, stored)
        (with_rules-hit (select (λ r. r.version_id == v.id) cat.rules) suit
          (any-select _ _ cat.rules h))

  rows-Suits :
      os_compatible u (new_candidate (bare_row v p b)).version fp ≡ true
      → All (RowSuits u fp v.id) (rows_of cat v)
  unfolding rows_of
  rows-Suits good =
      rw (packed, rows_of, stored)
        (with_rules-Suits (select (λ r. r.version_id == v.id) cat.rules) good)

  -- The whole join: the version is among those joined, and it is the only one of its id.
  join-hit :
      (vs : List Version)
      → suits u fp (bare_row v p b) ≡ true
      → any (λ (s : VersionRule). s.version_id == v.id && hits u fp v.id s.rule) cat.rules ≡ true
      → any (λ (w : Version). w.id == v.id) vs ≡ true
      → All (λ (w : Version). (w.id == v.id) ≡ true → w ≡ v) vs
      → any hit (joined cat vs) ≡ true
  unfolding joined any
  join-hit [] suit h there only = cc
  join-hit (w ∷ vs) suit h there only = elim (Bool-cases (w.id == v.id)) [
    | inl same ↦
        any-append hit (rows_of cat w) (joined cat vs)
        ∙ or_left (any hit (rows_of cat w)) _ (rw (only.0 same) (rows-hit suit h))
    | inr other ↦
        any-append hit (rows_of cat w) (joined cat vs)
        ∙ or_right (any hit (rows_of cat w)) _ (join-hit vs suit h (rw other at there) only.1)
  ]

  join-Suits :
      (vs : List Version)
      → os_compatible u (new_candidate (bare_row v p b)).version fp ≡ true
      → All (λ (w : Version). (w.id == v.id) ≡ true → w ≡ v) vs
      → All (RowSuits u fp v.id) (joined cat vs)
  unfolding joined
  join-Suits [] good only = tt
  join-Suits (w ∷ vs) good only = elim (Bool-cases (w.id == v.id)) [
    | inl same ↦
        All-append _ (rows_of cat w) (joined cat vs) (rw (only.0 same) (rows-Suits good))
          (join-Suits vs good only.1)
    | inr other ↦
        All-append _ (rows_of cat w) (joined cat vs) (other-Suits u fp v.id cat w other)
          (join-Suits vs good only.1)
  ]

only_one :
    (v : Version) (vs : List Version)
    → HasKeys (λ (w : Version). w.id) vs
    → find (λ (w : Version). w.id == v.id) vs ≡ some v
    → All (λ (w : Version). (w.id == v.id) ≡ true → w ≡ v) vs
unfolding find
only_one v [] keys found = tt
only_one v (w ∷ vs) keys found = elim (Bool-cases (w.id == v.id)) [
  | inl here ↦
      let w-v : w ≡ v = let e = rw here at found in cc e in
      (
        (λ _. w-v),
        All-weaker _ _ vs
            (λ x apart same.
              absurd (apart ((==_iff x.id v.id).0 same ∙ sym ((==_iff w.id v.id).0 here))))
            keys.0,
      )
  | inr other ↦
      ((λ same. absurd (cc (clash w.id v.id other same))), only_one v vs keys.1 (rw other at found))
]

-- If the query does not fail and the ids of the versions are distinct, a stored version whose pack
-- and blob are there is among those that MatchDriverPacks returns, if its pack suits the operating
-- system of the fingerprint and some rule of it holds.
pub match_finds :
    (u : Unicode) (fails : Faults) (cat : Catalog) (fp : Fingerprint) (v : Version) (p : Pack)
    (b : Blob)
    → fails match_packs ≡ false
    → HasKeys (λ (w : Version). w.id) cat.versions
    → find (λ (w : Version). w.id == v.id) cat.versions ≡ some v
    → find (λ (q : Pack). q.id == v.pack_id) cat.packs ≡ some p
    → find (λ (c : Blob). c.id == v.blob_id) cat.blobs ≡ some b
    → suits u fp (bare_row v p b) ≡ true
    → os_compatible u (new_candidate (bare_row v p b)).version fp ≡ true
    → any (λ (s : VersionRule). s.version_id == v.id && hits u fp v.id s.rule) cat.rules ≡ true
    → (ms : List MatchedDriverPack) × (match_driver_packs u fails cat fp ≡ ok ms)
      × (any (λ m. m.version_id == v.id) ms ≡ true)
unfolding match_driver_packs candidates
match_finds u fails cat fp v p b works keys found packed stored suit good rules =
    let vs = stable_sort has_lower_id cat.versions in
    let only = All-stable_sort has_lower_id _ cat.versions (only_one v cat.versions keys found) in
    let there : any (λ (w : Version). w.id == v.id) vs ≡ true = (any-count _ vs).1 (
      omega (
        arith,
        count-stable_sort has_lower_id (λ w. w.id == v.id) cat.versions,
        (any-count _ cat.versions).0 (any-found _ cat.versions found),
      )) in
    let hit = join-hit u fp cat v p b packed stored vs suit rules there only in
    let all_suit = join-Suits u fp cat v p b packed stored vs good only in
    let rows = select (suits u fp) (joined cat vs) in
    (
      _,
      rw works refl,
      group_selects u fp v.id rows (any-select _ _ (joined cat vs) hit)
          (All-select _ _ (joined cat vs) all_suit),
    )
