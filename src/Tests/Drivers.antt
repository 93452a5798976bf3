-- ===== src/Tests/Drivers.antt =====
-- Runs of Select of services/api/internal/driverpack/match.go.
use smart_deploy_linux.Prelude.Table.{count, any}
use smart_deploy_linux.Prelude.{
  ℕ, Bool, ◌≡◌, refl, String, List, [], ◌∷◌, Bytes, codes, bytes_eq, has_prefix,
}
use smart_deploy_linux.Codes.{trim_space}
use smart_deploy_linux.Drivers.{
  Unicode, Fingerprint, Rule, PackVersion, select_packs, eval_rule, results, os_compatible,
  best_from, less, normalize, lower_text, equal_fold,
}
use smart_deploy_linux.Drivers.Sort.{stable_sort}
use smart_deploy_linux.Drivers.Applies.{Kept, Applies, select_packs-Kept}

abbrev plain : Unicode
plain = record { lower = λ c. c; fold = λ c. c }

abbrev machine : Fingerprint
machine = record {
  dmi_vendor = codes "dell inc.";
  dmi_product = codes "latitude 7440";
  dmi_baseboard = [];
  pci_devices = record { vid = codes "8086"; did = codes "1521" } ∷ [];
  os_family = codes "windows";
  os_version = codes "11";
}

abbrev rule : String → Bytes → Rule
rule type value = record { type = type; value = value }

abbrev pack : ℕ → List Rule → PackVersion
pack id rules = record {
  id = id;
  pack_id = id;
  vendor = codes "dell";
  model = codes "m";
  os_family = codes "windows";
  os_version = codes "any";
  version_tag = codes "1";
  rules = rules;
}

abbrev vendor_pack : PackVersion
vendor_pack = pack 1 (rule "dmi-vendor" (codes " dell inc.") ∷ [])

abbrev pci_pack : PackVersion
pci_pack =
    pack 2 (rule "dmi-vendor" (codes "dell inc.") ∷ rule "pci-vid-did" (codes "8086:1521") ∷ [])

abbrev other_pack : PackVersion
other_pack = pack 3 (rule "dmi-vendor" (codes "hp") ∷ [])

-- The version with the better tier comes first; the one without a match is left out.
selected :
    select_packs plain machine (vendor_pack ∷ other_pack ∷ pci_pack ∷ [])
    ≡ pci_pack ∷ vendor_pack ∷ []
unfolding select_packs results stable_sort os_compatible best_from less eval_rule normalize
    trim_space lower_text equal_fold any bytes_eq has_prefix
selected = refl

select_packs-Kept_example :
    (pvs : List PackVersion) × Kept
      (Applies plain machine)
      (vendor_pack ∷ other_pack ∷ pci_pack ∷ [])
      pvs
    × ((p : PackVersion → Bool)
        → count p (select_packs plain machine (vendor_pack ∷ other_pack ∷ pci_pack ∷ []))
          ≡ count p pvs)
select_packs-Kept_example =
    select_packs-Kept plain machine (vendor_pack ∷ other_pack ∷ pci_pack ∷ [])
