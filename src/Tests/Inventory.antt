-- ===== src/Tests/Inventory.antt =====
-- Runs of the calls on machines, images and profiles.
use smart_deploy_linux.Prelude.Table.{any, count, find}
use smart_deploy_linux.Prelude.{
  ℕ, ◌≡◌, ◌↔◌, ◌⊎◌, ◌≢◌, refl, true, false, Option, some, none, [], ◌∷◌, ◌++◌, Bytes, codes,
  bytes_eq, if◌then◌else◌,
}
use smart_deploy_linux.Schema.{Db, Job, completed, db_error, in_use, ok}
use smart_deploy_linux.Inventory.{Machine, Inventory, has_machine, has_profile}
use smart_deploy_linux.Drivers.{Unicode, lower_text}
use smart_deploy_linux.Render.{
  RestoreVars, IsSetting, is_safe, all_safe, restore_layout_env, restore_layout_env_lem,
}
use smart_deploy_linux.Menu.{mint_menu_boot_token}
use smart_deploy_linux.Tokens.Base64.{base64url}
use smart_deploy_linux.Inventory.Profiles.{create_profile}
use smart_deploy_linux.Inventory.Bundle.{lookup_render_bundle, bundle_of}
use smart_deploy_linux.Inventory.MenuDeploy.{
  MenuCall, chain, assigned_profile, render_menu_deploy, chosen, deploy_target,
}
use smart_deploy_linux.Inventory.MenuDeploy.Locked.{is_deployment, menu_deploys_assigned}
use smart_deploy_linux.Inventory.Machines.{
  get_machine, create_machine, get_machine_by_mac, CreateMachineInput, delete_machine_row,
  holds_machine,
}
use smart_deploy_linux.Inventory.Images.{CreateImageInput, create_image}
use smart_deploy_linux.Inventory.Profiles.{
  delete_profile_row, delete_unused_profile, holds_profile, is_running_with, is_default,
}
use smart_deploy_linux.Inventory.Deletable.{no_faults, machine_deleted_iff, profile_deleted_iff}

abbrev empty_db : Db
empty_db = record { codes = []; tokens = []; jobs = []; events = []; attempts = [] }

abbrev empty : Inventory
empty = record {
  machines = [];
  images = [];
  versions = [];
  profiles = [];
  templates = [];
  blobs = [];
  wakes = [];
  db = empty_db;
}

abbrev ubuntu : CreateImageInput
ubuntu = record {
  name = codes "ubuntu";
  os_family = codes "linux";
  os_version = codes "24.04";
  arch = codes "amd64";
  description = none;
  media = [];
}

abbrev laptop : CreateMachineInput
laptop = record {
  asset_tag = some (codes "A1");
  mac_primary = some (codes "02:00:00:00:00:01");
  uuid_smbios = none;
  vendor = none;
  model = none;
  default_profile_id = some 2;
  attributes = none;
}

abbrev old_job : Job
old_job = record {
  id = 41;
  machine_id = 3;
  profile_id = 2;
  auth_code_id = none;
  state = completed;
  created_at = 1;
  started_at = none;
  finished_at = some 2;
  notified_at = none;
  kind = "deploy";
  capture_image_id = none;
  capture_version_tag = none;
}

abbrev deployed : Inventory
deployed = record empty {
  machines =
      record {
        id = 3;
        asset_tag = none;
        mac_primary = none;
        uuid_smbios = none;
        vendor = none;
        model = none;
        default_profile_id = none;
        attributes = codes "{}";
        created_at = 0;
      }
      ∷ [];
  db = record empty_db { jobs = old_job ∷ [] };
}

-- A machine whose only job has ended is not deleted: the DELETE breaks a foreign key.
ended_job_holds : (delete_machine_row no_faults deployed 3).1 ≡ some db_error
unfolding delete_machine_row count any
ended_job_holds = refl

machine_deleted_iff_example :
    ((delete_machine_row no_faults deployed 3).1 ≡ none)
    ↔ ((has_machine deployed.machines 3 ≡ true) × (holds_machine deployed.db 3 ≡ false))
machine_deleted_iff_example = machine_deleted_iff deployed 3

-- A machine with a default profile, in the locked mode.
abbrev profiled : Inventory
profiled =
    (create_profile no_faults 11 2 (create_image no_faults 10 1 empty ubuntu).0
      (record { name = codes "p"; image_id = 1; answer_file_vars = [] })).0

abbrev stocked : Inventory
stocked = (create_machine (λ text. some text) no_faults 12 3 profiled laptop).0

-- The default profile of a machine is in use.
default_in_use : (delete_profile_row no_faults stocked 2).1 ≡ some (in_use 1)
unfolding delete_profile_row delete_unused_profile create_profile create_image create_machine count
    any
default_in_use = refl

profile_deleted_iff_example :
    let out = delete_profile_row no_faults stocked 2 in
    ((out.1 ≡ none) ↔ ((has_profile stocked.profiles 2 ≡ true) × (holds_profile stocked 2 ≡ false)))
    × (((n : ℕ) × (out.1 ≡ some (in_use n))) ↔ (
        (any (is_running_with 2) stocked.db.jobs ≡ true)
        ⊎ (any (is_default 2) stocked.machines ≡ true)))
profile_deleted_iff_example = profile_deleted_iff stocked 2

abbrev menu_call : MenuCall
menu_call = record {
  now = 20;
  fails = no_faults;
  mint_fails = λ _. false;
  is_open = false;
  random = some (0 ∷ 0 ∷ 0 ∷ []);
  random_hash = codes "pxe-menu:1";
  code_id = 7;
  job_id = 8;
  token_id = 9;
}

abbrev plain : Unicode
plain = record { lower = λ c. c; fold = λ c. c }

abbrev parse : Bytes → Option ℕ
parse text = if bytes_eq text (codes "two") then some 2 else none

menu_chains :
    (render_menu_deploy plain
      (λ _. 171 ∷ [])
      (codes "d")
      parse
      (λ text. some text)
      menu_call
      (codes "02:00:00:00:00:01")
      (codes "assigned")
      stocked).1
    ≡ chain 8 (codes "AAAA")
unfolding render_menu_deploy find bytes_eq get_machine_by_mac create_machine any create_profile
    create_image chosen lookup_render_bundle get_machine bundle_of deploy_target
    mint_menu_boot_token base64url
menu_chains = refl

menu_deploys_assigned_example :
    let mac = codes "02:00:00:00:00:01" in
    let out =
      render_menu_deploy plain
        (λ _. 171 ∷ [])
        (codes "d")
        parse
        (λ text. some text)
        menu_call
        mac
        (codes "assigned")
        stocked in
    (m : Machine) × (get_machine_by_mac (λ text. some text) no_faults stocked (lower_text plain mac)
      ≡ ok m)
    × (any
          (is_deployment 8 m.id (assigned_profile (lookup_render_bundle no_faults stocked m.id)))
          out.0.db.jobs
        ≡ true)
menu_deploys_assigned_example =
    menu_deploys_assigned plain (λ _. 171 ∷ []) (codes "d") parse (λ text. some text) menu_call 8
      (codes "AAAA") (codes "02:00:00:00:00:01") (codes "assigned") stocked refl menu_chains

-- The text of the volume group would end the assignment: it is left out.
restore_layout_env_run :
    restore_layout_env (record { layout = codes "lvm"; vg = codes "a;b"; swap = codes "8G" })
    ≡ codes "export DEPLOY_LAYOUT=lvm DEPLOY_SWAP=8G"
unfolding restore_layout_env is_safe all_safe bytes_eq
restore_layout_env_run = refl

restore_layout_env_lem_example :
    let vars : RestoreVars = record { layout = codes "lvm"; vg = codes "a;b"; swap = codes "8G" } in
    ((vars.layout ≡ codes "lvm")
      × ((vg : Bytes) × (swap : Bytes) × IsSetting (codes " DEPLOY_VG=") vars.vg vg
          × IsSetting (codes " DEPLOY_SWAP=") vars.swap swap
          × (restore_layout_env vars ≡ codes "export DEPLOY_LAYOUT=lvm" ++ (vg ++ swap))))
    ⊎ ((vars.layout ≢ codes "lvm") × (restore_layout_env vars ≡ codes "export DEPLOY_LAYOUT=plain"))
restore_layout_env_lem_example =
    restore_layout_env_lem (record { layout = codes "lvm"; vg = codes "a;b"; swap = codes "8G" })
