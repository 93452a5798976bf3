-- ===== src/Drivers.antt =====
-- The choice of driver packs: services/api/internal/driverpack/match.go. A string is the list of its
-- code points, which are ordered as their bytes are; the case tables of Unicode are a parameter.
pub mod Sort
pub mod Order
pub mod Select
pub mod Applies
use smart_deploy_linux.Drivers.Sort.{stable_sort}
use smart_deploy_linux.Prelude.Table.{any, select}
use smart_deploy_linux.Prelude.{
  ℕ, Bool, true, false, not, ◌&&◌, ◌||◌, String, str_eq, List, [], ◌∷◌, ◌++◌, map, Bytes, codes,
  bytes_eq, ltb, ◌==◌, if◌then◌else◌, lex_ltb, has_prefix,
}
use smart_deploy_linux.Codes.{trim_space}

pub record PciId : Type 0 where
  pub vid : Bytes
  pub did : Bytes

pub record Fingerprint : Type 0 where
  pub dmi_vendor : Bytes
  pub dmi_product : Bytes
  pub dmi_baseboard : Bytes
  pub pci_devices : List PciId
  pub os_family : Bytes
  pub os_version : Bytes

pub record Rule : Type 0 where
  pub type : String
  pub value : Bytes

pub record PackVersion : Type 0 where
  pub id : ℕ
  pub pack_id : ℕ
  pub vendor : Bytes
  pub model : Bytes
  pub os_family : Bytes
  pub os_version : Bytes
  pub version_tag : Bytes
  pub rules : List Rule

-- unicode.ToLower, and a representative of the case folding of strings.EqualFold.
pub record Unicode : Type 0 where
  pub lower : ℕ → ℕ
  pub fold : ℕ → ℕ

abbrev pub tier_pci : ℕ
tier_pci = 1

abbrev pub tier_dmi_product : ℕ
tier_dmi_product = 2

abbrev pub tier_dmi_board : ℕ
tier_dmi_board = 3

abbrev pub tier_dmi_vendor_os : ℕ
tier_dmi_vendor_os = 4

abbrev pub tier_dmi_vendor : ℕ
tier_dmi_vendor = 5

abbrev pub tier_no_match : ℕ
tier_no_match = 99

abbrev pub is_empty : Bytes → Bool
is_empty s = bytes_eq s []

pub record Match : Type 0 where
  pub version : PackVersion
  pub tier : ℕ

-- The order that the sort is given.
unfoldable pub less : Match → Match → Bool
unfolding lex_ltb bytes_eq
less a b =
    if not (a.tier == b.tier)
    then ltb a.tier b.tier
    else if not (bytes_eq a.version.vendor b.version.vendor)
    then lex_ltb a.version.vendor b.version.vendor
    else if not (bytes_eq a.version.model b.version.model)
    then lex_ltb a.version.model b.version.model
    else lex_ltb a.version.version_tag b.version.version_tag

module _ (u : Unicode) where
  unfoldable pub lower_text : Bytes → Bytes
  lower_text s = map u.lower s

  unfoldable pub normalize : Bytes → Bytes
  unfolding trim_space lower_text
  normalize s = lower_text (trim_space s)

  unfoldable pub equal_fold : Bytes → Bytes → Bool
  unfolding bytes_eq
  equal_fold s t = bytes_eq (map u.fold s) (map u.fold t)

  unfoldable pub os_compatible : PackVersion → Fingerprint → Bool
  unfolding equal_fold has_prefix bytes_eq
  os_compatible pv fp =
      if not (equal_fold pv.os_family fp.os_family)
      then false
      else if is_empty pv.os_version || bytes_eq pv.os_version (codes "any")
      then true
      else has_prefix pv.os_version fp.os_version

  -- The keys of the set of PCI devices.
  abbrev pub pci_key : PciId → Bytes
  pci_key p = lower_text (p.vid ++ (b':' ∷ p.did))

  -- What evalRule makes of one rule: the tier, where the rule's test holds.
  unfoldable pub eval_rule : Fingerprint → Rule → ℕ
  unfolding normalize lower_text any bytes_eq has_prefix
  eval_rule fp r =
      let vendor = normalize fp.dmi_vendor in
      let product = normalize fp.dmi_product in
      let board = normalize fp.dmi_baseboard in
      let hit = λ (b : Bool) (tier : ℕ). if b then tier else tier_no_match in
      if str_eq r.type "pci-vid-did"
      then hit (any (λ p. bytes_eq (pci_key p) (lower_text r.value)) fp.pci_devices) tier_pci
      else if str_eq r.type "dmi-product"
      then hit (not (is_empty product) && bytes_eq (normalize r.value) product) tier_dmi_product
      else if str_eq r.type "dmi-product-prefix"
      then hit
          (not (is_empty product)
            && not (is_empty r.value)
            && has_prefix (normalize r.value) product)
          tier_dmi_product
      else if str_eq r.type "dmi-baseboard"
      then hit (not (is_empty board) && bytes_eq (normalize r.value) board) tier_dmi_board
      else if str_eq r.type "dmi-vendor"
      then hit (not (is_empty vendor) && bytes_eq (normalize r.value) vendor) tier_dmi_vendor
      else if str_eq r.type "os-version"
      then hit (not (is_empty fp.os_version) && has_prefix r.value fp.os_version) tier_dmi_vendor_os
      else tier_no_match

  -- The loop over the rules of one version.
  unfoldable pub best_from : Fingerprint → ℕ → List Rule → ℕ
  unfolding eval_rule
  best_from fp best [] = best
  best_from fp best (r ∷ rs) =
      best_from fp (if ltb (eval_rule fp r) best then eval_rule fp r else best) rs

  abbrev pub best_tier : Fingerprint → PackVersion → ℕ
  best_tier fp pv = best_from fp tier_no_match pv.rules

  -- The loop over the candidates.
  unfoldable pub results : Fingerprint → List PackVersion → List Match
  unfolding os_compatible best_from
  results fp [] = []
  results fp (pv ∷ pvs) =
      let rest = results fp pvs in
      if not (os_compatible pv fp)
      then rest
      else if not (best_tier fp pv == tier_no_match)
      then record { version = pv; tier = best_tier fp pv } ∷ rest
      else rest

  unfoldable pub select_packs : Fingerprint → List PackVersion → List PackVersion
  unfolding results stable_sort less
  select_packs fp candidates = map (λ m. m.version) (stable_sort less (results fp candidates))
