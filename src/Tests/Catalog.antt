-- ===== src/Tests/Catalog.antt =====
-- Runs of the blobs and the driver packs.
use smart_deploy_linux.Prelude.Table.{any, find}
use smart_deploy_linux.Prelude.{
  ◌≡◌, refl, ◌==◌, true, false, ◌&&◌, some, none, List, [], ◌∷◌, Bytes, codes, bytes_eq,
}
use smart_deploy_linux.Schema.{ok}
use smart_deploy_linux.Codes.{trim_space}
use smart_deploy_linux.Edge.{key_sha}
use smart_deploy_linux.Drivers.{
  Unicode, Fingerprint, os_compatible, eval_rule, normalize, lower_text, equal_fold,
}
use smart_deploy_linux.Packs.{
  Blob, Pack, Version, VersionRule, Catalog, PackInput, create_driver_pack_version,
}
use smart_deploy_linux.Packs.Match.{MatchedDriverPack, match_driver_packs, suits}
use smart_deploy_linux.Packs.Grouped.{hits}
use smart_deploy_linux.Packs.Finds.{bare_row, match_finds}
use smart_deploy_linux.Packs.Ingest.{all_hex, is_sha256, blob_key}
use smart_deploy_linux.Packs.Address.{key_sha-blob_key}
use smart_deploy_linux.Packs.Stored.{IsStored, create_version-IsStored}

abbrev pub plain : Unicode
plain = record { lower = λ c. c; fold = λ c. c }

abbrev pack : Pack
pack = record {
  id = 1;
  vendor = codes "dell";
  model = codes "m";
  os_family = codes "windows";
  os_version = codes "any";
}

abbrev version : Version
version = record { id = 2; pack_id = 1; version_tag = codes "v1"; blob_id = 3; created_at = 10 }

abbrev stored_blob : Blob
stored_blob = record {
  id = 3;
  sha256 = codes "cd";
  size_bytes = 7;
  s3_bucket = codes "drivers";
  s3_key = codes "k";
  created_at = 5;
}

abbrev vendor_rule : VersionRule
vendor_rule = record {
  version_id = 2;
  rule = record { type = "dmi-vendor"; value = codes "dell inc." };
}

abbrev pub catalog : Catalog
catalog = record {
  blobs = stored_blob ∷ [];
  packs = pack ∷ [];
  versions = version ∷ [];
  rules = vendor_rule ∷ [];
}

abbrev machine : Fingerprint
machine = record {
  dmi_vendor = codes "dell inc.";
  dmi_product = codes "m";
  dmi_baseboard = [];
  pci_devices = [];
  os_family = codes "windows";
  os_version = codes "11";
}

version_there : find (λ (w : Version). w.id == 2) catalog.versions ≡ some version
unfolding find
version_there = refl

pack_there : find (λ (p : Pack). p.id == 1) catalog.packs ≡ some pack
unfolding find
pack_there = refl

blob_there : find (λ (b : Blob). b.id == 3) catalog.blobs ≡ some stored_blob
unfolding find
blob_there = refl

family_suits : suits plain machine (bare_row version pack stored_blob) ≡ true
unfolding lower_text bytes_eq
family_suits = refl

any_version :
    os_compatible plain
      (record {
        id = 2;
        pack_id = 1;
        vendor = codes "dell";
        model = codes "m";
        os_family = codes "windows";
        os_version = codes "any";
        version_tag = codes "v1";
        rules = [];
      })
      machine
    ≡ true
unfolding os_compatible equal_fold bytes_eq
any_version = refl

rule_holds :
    any (λ (s : VersionRule). s.version_id == 2 && hits plain machine 2 s.rule) catalog.rules ≡ true
unfolding any eval_rule normalize trim_space lower_text bytes_eq
rule_holds = refl

match_finds_example :
    (ms : List MatchedDriverPack) × (match_driver_packs plain (λ _. false) catalog machine ≡ ok ms)
    × (any (λ m. m.version_id == 2) ms ≡ true)
match_finds_example =
    match_finds plain (λ _. false) catalog machine version pack stored_blob refl (tt, tt)
      version_there pack_there blob_there family_suits any_version rule_holds

pub catalog-IsStored : IsStored catalog
unfolding any
catalog-IsStored = record {
  blob_ids = (tt, tt);
  blob_shas = (tt, tt);
  pack_ids = (tt, tt);
  version_ids = (tt, tt);
  versions_refer = ((refl, refl), tt);
  rules_belong = (refl, tt);
}

abbrev next_input : PackInput
next_input = record {
  vendor = codes "hp";
  model = codes "x";
  os_family = codes "windows";
  os_version = codes "11";
  version_tag = codes "v1";
  blob_id = 3;
  rules = vendor_rule.rule ∷ [];
}

new_pack_id : find (λ (p : Pack). p.id == 11) catalog.packs ≡ none
unfolding find
new_pack_id = refl

new_version_id : find (λ (v : Version). v.id == 12) catalog.versions ≡ none
unfolding find
new_version_id = refl

create_version-IsStored_example :
    IsStored (create_driver_pack_version (λ _. false) 20 11 12 catalog next_input).0
create_version-IsStored_example =
    create_version-IsStored (λ _. false) 20 11 12 catalog next_input new_pack_id new_version_id
      catalog-IsStored

abbrev sha_text : Bytes
sha_text = codes "0123456789abcdef0123456789abcdef0123456789abcdef0123456789abcdef"

sha_is_sha256 : is_sha256 sha_text ≡ true
unfolding all_hex
sha_is_sha256 = refl

key_sha-blob_key_example : key_sha (blob_key sha_text (codes "dir/x.wim")) ≡ some sha_text
key_sha-blob_key_example = key_sha-blob_key sha_text (codes "dir/x.wim") sha_is_sha256
