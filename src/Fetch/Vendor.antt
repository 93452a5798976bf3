-- ===== src/Fetch/Vendor.antt =====
-- The catalog of the vendor: parseLenovo, Entries and Search of
-- services/api/internal/vendorcatalog/vendorcatalog.go. The XML decoder and the case tables of Unicode
-- come from outside.
use smart_deploy_linux.Prelude.Duration.{day}
use smart_deploy_linux.Prelude.{
  ℕ, ◌-◌, Bool, false, not, ◌&&◌, ◌||◌, Option, none, some, List, [], ◌∷◌, ◌++◌, Bytes, bytes_eq,
  codes, ltb, if◌then◌else◌, lex_ltb, has_prefix,
}
use smart_deploy_linux.Codes.{trim_space}
use smart_deploy_linux.Drivers.{Unicode, lower_text}
use smart_deploy_linux.Drivers.Sort.{stable_sort}

pub record Entry : Type 0 where
  pub vendor : Bytes
  pub model : Bytes
  pub types : List Bytes
  pub os_family : Bytes
  pub os_version : Bytes
  pub url : Bytes
  pub sha256 : Bytes
  pub date : Bytes

-- lenovoSCCM and lenovoModel, as the decoder fills them.
pub record LenovoSccm : Type 0 where
  pub os : Bytes
  pub version : Bytes
  pub date : Bytes
  pub crc : Bytes
  pub url : Bytes

pub record LenovoModel : Type 0 where
  pub name : Bytes
  pub types : List Bytes
  pub sccm : List LenovoSccm

unfoldable pub os_number : Bytes → Option Bytes
unfolding bytes_eq
os_number os =
    if bytes_eq os (codes "win10")
    then some (codes "10")
    else if bytes_eq os (codes "win11")
    then some (codes "11")
    else none

unfoldable pub with_version : Bytes → Bytes → Bytes
unfolding bytes_eq
with_version number version =
    if not (bytes_eq version []) && not (bytes_eq version (codes "*"))
    then number ++ (b' ' ∷ version)
    else number

-- The text s contains q.
unfoldable pub contains : Bytes → Bytes → Bool
unfolding has_prefix
contains [] q = has_prefix q []
contains (c ∷ s) q = has_prefix q (c ∷ s) || contains s q

module _ (u : Unicode) where
  abbrev pub entry_of : LenovoModel → LenovoSccm → Bytes → Entry
  entry_of m p number = record {
    vendor = codes "Lenovo";
    model = m.name;
    types = m.types;
    os_family = codes "windows";
    os_version = with_version number p.version;
    url = trim_space p.url;
    sha256 = lower_text u (trim_space p.crc);
    date = p.date;
  }

  unfoldable pub parse_packs : LenovoModel → List LenovoSccm → List Entry
  unfolding os_number with_version trim_space lower_text
  parse_packs m [] = []
  parse_packs m (p ∷ ps) =
      let rest = parse_packs m ps in
      elim (os_number p.os) [ none ↦ rest | some number ↦ entry_of m p number ∷ rest ]

  -- parseLenovo, on a document that decodes.
  unfoldable pub parse_lenovo : List LenovoModel → List Entry
  unfolding parse_packs
  parse_lenovo [] = []
  parse_lenovo (m ∷ ms) = parse_packs m m.sccm ++ parse_lenovo ms

  -- A type of the machine is part of the query, or the query of it.
  unfoldable pub any_type : Bytes → List Bytes → Bool
  unfolding contains has_prefix lower_text
  any_type q [] = false
  any_type q (t ∷ ts) =
      contains (lower_text u t) q || has_prefix (lower_text u t) q || any_type q ts

  abbrev pub is_wanted : Bytes → Entry → Bool
  is_wanted q e = contains (lower_text u e.model) q || any_type q e.types

  unfoldable pub keep : Bytes → List Entry → List Entry
  unfolding any_type contains lower_text
  keep q [] = []
  keep q (e ∷ es) = let rest = keep q es in if is_wanted q e then e ∷ rest else rest

  -- By model, and the newer operating system first.
  unfoldable pub comes_first : Entry → Entry → Bool
  unfolding bytes_eq lex_ltb
  comes_first a b =
      if not (bytes_eq a.model b.model)
      then lex_ltb a.model b.model
      else lex_ltb b.os_version a.os_version

  unfoldable pub search : List Entry → Bytes → List Entry
  unfolding keep comes_first stable_sort trim_space lower_text bytes_eq
  search entries query =
      let q = lower_text u (trim_space query) in
      if bytes_eq q [] then [] else stable_sort comes_first (keep q entries)

  -- The cache of Client: entries and when they came; `ttl` is 0 for the default.
  pub record Client : Type 0 where
    pub ttl : ℕ
    pub cached : Option (List Entry × ℕ)

  abbrev pub lifetime : ℕ → ℕ
  lifetime ttl = if ltb 0 ttl then ttl else day

  abbrev pub is_fresh : ℕ → ℕ → ℕ → Bool
  is_fresh now ttl fetched = ltb (now - fetched) (lifetime ttl)

  -- An empty catalog is nil, which counts as nothing cached.
  abbrev pub kept : ℕ → List Entry → Option (List Entry × ℕ)
  kept now [] = none
  kept now (e ∷ es) = some (e ∷ es, now)

  -- What a download of the catalog gives: the models, or `none` for any failure of it.
  abbrev pub refresh : ℕ → Client → Option (List LenovoModel) → Client × Option (List Entry)
  refresh now c (some models) =
      (record c { cached = kept now (parse_lenovo models) }, some (parse_lenovo models))
  refresh now c none = (c, elim c.cached [ none ↦ none | some (entries, _) ↦ some entries ])

  -- Entries: fresh entries are answered from the cache, stale ones if the download fails.
  unfoldable pub entries : ℕ → Client → Option (List LenovoModel) → Client × Option (List Entry)
  unfolding parse_lenovo
  entries now c downloaded = elim c.cached [
    | none ↦ refresh now c downloaded
    | some (old, fetched) ↦
        if is_fresh now c.ttl fetched then (c, some old) else refresh now c downloaded
  ]
