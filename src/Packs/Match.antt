-- ===== src/Packs/Match.antt =====
-- MatchDriverPacks and ListDriverPacks of services/api/internal/store/store.go: the join, and the loop
-- that groups its rows by version.
use smart_deploy_linux.Prelude.Table.{find, select, any, update}
use smart_deploy_linux.Prelude.{
  ℕ, Bool, none, some, str_eq, List, [], ◌∷◌, ◌++◌, map, Bytes, bytes_eq, ltb, ◌==◌, if◌then◌else◌,
}
use smart_deploy_linux.Schema.{db_error, Result, ok, err}
use smart_deploy_linux.Drivers.{Unicode, Fingerprint, Rule, PackVersion, lower_text, select_packs}
use smart_deploy_linux.Drivers.Sort.{stable_sort}
use smart_deploy_linux.Packs.{
  Blob, Pack, Version, VersionRule, Catalog, Faults, match_packs, list_packs,
}

-- A row of the join. A version without rules has one row, whose rule has an empty type and value.
pub record Row : Type 0 where
  pub version : Version
  pub pack : Pack
  pub blob : Blob
  pub rule : Rule

abbrev pub no_rule : Rule
no_rule = record { type = ""; value = [] }

abbrev pub with_rules : Version → Pack → Blob → List VersionRule → List Row
with_rules v p b [] = record { version = v; pack = p; blob = b; rule = no_rule } ∷ []
with_rules v p b (r ∷ rs) =
    map (λ (s : VersionRule). record { version = v; pack = p; blob = b; rule = s.rule }) (r ∷ rs)

unfoldable pub rows_of : Catalog → Version → List Row
rows_of cat v = elim (find (λ (p : Pack). p.id == v.pack_id) cat.packs) [
  | none ↦ []
  | some p ↦ elim (find (λ (b : Blob). b.id == v.blob_id) cat.blobs) [
    | none ↦ []
    | some b ↦ with_rules v p b (select (λ r. r.version_id == v.id) cat.rules)
  ]
]

unfoldable pub joined : Catalog → List Version → List Row
unfolding rows_of
joined cat [] = []
joined cat (v ∷ vs) = rows_of cat v ++ joined cat vs

-- What the loop keeps of a version: `cand` of MatchDriverPacks.
pub record Candidate : Type 0 where
  pub version : PackVersion
  pub blob_key : Bytes

abbrev pub new_candidate : Row → Candidate
new_candidate row = record {
  version = record {
    id = row.version.id;
    pack_id = row.version.pack_id;
    vendor = row.pack.vendor;
    model = row.pack.model;
    os_family = row.pack.os_family;
    os_version = row.pack.os_version;
    version_tag = row.version.version_tag;
    rules = [];
  };
  blob_key = row.blob.s3_key;
}

abbrev pub add_rule : Rule → Candidate → Candidate
add_rule r c =
    if str_eq r.type ""
    then c
    else record c { version = record c.version { rules = c.version.rules ++ r ∷ [] } }

abbrev pub is_candidate : ℕ → Candidate → Bool
is_candidate id c = c.version.id == id

-- One turn of the loop: `byID` and `order` are the list of candidates in the order of their first rows.
unfoldable pub add_row : List Candidate → Row → List Candidate
unfolding any update
add_row cs row =
    let known = if any (is_candidate row.version.id) cs then cs else cs ++ new_candidate row ∷ [] in
    update (is_candidate row.version.id) (add_rule row.rule) known

unfoldable pub group : List Candidate → List Row → List Candidate
unfolding add_row
group cs [] = cs
group cs (row ∷ rows) = group (add_row cs row) rows

pub record MatchedDriverPack : Type 0 where
  pub version_id : ℕ
  pub vendor : Bytes
  pub model : Bytes
  pub version_tag : Bytes
  pub blob_key : Bytes

abbrev pub key_of : List Candidate → ℕ → Bytes
key_of cs id = elim (find (is_candidate id) cs) [ none ↦ [] | some c ↦ c.blob_key ]

abbrev pub matched : List Candidate → PackVersion → MatchedDriverPack
matched cs pv = record {
  version_id = pv.id;
  vendor = pv.vendor;
  model = pv.model;
  version_tag = pv.version_tag;
  blob_key = key_of cs pv.id;
}

abbrev pub has_lower_id : Version → Version → Bool
has_lower_id v w = ltb v.id w.id

module _ (u : Unicode) where
  -- The WHERE clause, for the pack that a version belongs to.
  abbrev pub suits : Fingerprint → Row → Bool
  suits fp row = bytes_eq (lower_text u row.pack.os_family) (lower_text u fp.os_family)

  unfoldable pub candidates : Catalog → Fingerprint → List Candidate
  unfolding joined group stable_sort
  candidates cat fp =
      group [] (select (suits fp) (joined cat (stable_sort has_lower_id cat.versions)))

  unfoldable pub match_driver_packs :
      Faults → Catalog → Fingerprint → Result (List MatchedDriverPack)
  unfolding candidates
  match_driver_packs fails cat fp =
      let cs = candidates cat fp in
      if fails match_packs
      then err db_error
      else ok (map (matched cs) (select_packs u fp (map (λ c. c.version) cs)))

pub record DriverPackRow : Type 0 where
  pub pack : Pack
  pub version : Version
  pub blob_sha256 : Bytes
  pub size_bytes : ℕ
  pub rules : List Rule

abbrev pub new_row : Row → DriverPackRow
new_row row = record {
  pack = row.pack;
  version = row.version;
  blob_sha256 = row.blob.sha256;
  size_bytes = row.blob.size_bytes;
  rules = [];
}

abbrev pub is_row : ℕ → DriverPackRow → Bool
is_row id d = d.version.id == id

abbrev pub row_rule : Rule → DriverPackRow → DriverPackRow
row_rule r d = if str_eq r.type "" then d else record d { rules = d.rules ++ r ∷ [] }

unfoldable pub list_rows : List DriverPackRow → List Row → List DriverPackRow
unfolding any update
list_rows ds [] = ds
list_rows ds (row ∷ rows) =
    let known = if any (is_row row.version.id) ds then ds else ds ++ new_row row ∷ [] in
    list_rows (update (is_row row.version.id) (row_rule row.rule) known) rows

-- ORDER BY pv.created_at DESC, pv.id
abbrev pub is_newer : Version → Version → Bool
is_newer v w = if v.created_at == w.created_at then ltb v.id w.id else ltb w.created_at v.created_at

unfoldable pub list_driver_packs : Faults → Catalog → Result (List DriverPackRow)
unfolding joined list_rows stable_sort
list_driver_packs fails cat =
    if fails list_packs
    then err db_error
    else ok (list_rows [] (joined cat (stable_sort is_newer cat.versions)))
