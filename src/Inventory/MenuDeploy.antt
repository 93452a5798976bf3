-- ===== src/Inventory/MenuDeploy.antt =====
-- renderMenuDeploy of services/api/cmd/api/menu.go: a choice in the boot menu becomes a deployment.
pub mod Locked
use smart_deploy_linux.Prelude.Duration.{hour}
use smart_deploy_linux.Prelude.{
  ℕ, Bool, true, false, not, ◌&&◌, ◌||◌, Option, none, some, List, Bytes, bytes_eq, codes, ◌==◌,
  if◌then◌else◌,
}
use smart_deploy_linux.Schema
use smart_deploy_linux.Schema.{Statement, insert_menu_code, insert_job, Db, Result, ok, err}
use smart_deploy_linux.Tokens.Hash.{hash_boot_token}
use smart_deploy_linux.Tokens.Base64.{base64url}
use smart_deploy_linux.Drivers.{Unicode, lower_text}
use smart_deploy_linux.Menu.{Request, mint_menu_boot_token}
use smart_deploy_linux.Inventory.{Machine, Inventory, Faults, has_profile}
use smart_deploy_linux.Inventory.Machines.{get_machine_by_mac}
use smart_deploy_linux.Inventory.Bundle.{RenderBundle, lookup_render_bundle}

pub data MenuReply : Type 0 where
  not_registered no_profile bad_profile_id locked generation_failed no_deployment : MenuReply
  chain : (job_id : ℕ) → (token : Bytes) → MenuReply

-- uuid.Nil is 0: no profile, or an error of the lookup.
abbrev pub assigned_profile : Result RenderBundle → ℕ
assigned_profile (err _) = 0
assigned_profile (ok b) = b.profile.id

-- What a call meets. `random` is what rand.Read gives.
pub record MenuCall : Type 0 where
  pub now : ℕ
  pub fails : Faults
  pub mint_fails : Schema.Faults
  pub is_open : Bool
  pub random : Option Bytes
  pub random_hash : Bytes
  pub code_id : ℕ
  pub job_id : ℕ
  pub token_id : ℕ

-- The INSERTs of a code and of a job are refused for a profile that is not there.
abbrev pub refused_too : Schema.Faults → Bool → Schema.Faults
refused_too fails there insert_menu_code = fails insert_menu_code || not there
refused_too fails there insert_job = fails insert_job || not there
refused_too fails there s = fails s

-- `parse_uuid` is uuid.Parse and `to_mac` the cast to macaddr.
module _ (u : Unicode) (sha256 : Bytes → Bytes) (fqdn : Bytes) (parse_uuid : Bytes → Option ℕ)
    (to_mac : Bytes → Option Bytes) where
  abbrev pub mint_request : MenuCall → Inventory → ℕ → ℕ → Bytes → Request
  mint_request c inv machine_id target token = record {
    now = c.now;
    fails = refused_too c.mint_fails (has_profile inv.profiles target);
    machine_id = machine_id;
    profile_id = target;
    token_hash = hash_boot_token sha256 token fqdn;
    ttl = hour;
    random_hash = c.random_hash;
    code_id = c.code_id;
    job_id = c.job_id;
    token_id = c.token_id;
  }

  abbrev pub minted_reply : Inventory → Bytes → Db × Result ℕ → Inventory × MenuReply
  minted_reply inv token (db, err _) = (record inv { db = db }, no_deployment)
  minted_reply inv token (db, ok job_id) = (record inv { db = db }, chain job_id token)

  unfoldable pub deploy_target : MenuCall → Inventory → ℕ → ℕ → Inventory × MenuReply
  deploy_target c inv machine_id target = elim c.random [
    | none ↦ (inv, generation_failed)
    | some raw ↦
        let token = base64url raw in
        minted_reply inv token
          (mint_menu_boot_token (mint_request c inv machine_id target token) inv.db)
  ]

  -- The switch over the argument, with the assigned profile.
  unfoldable pub chosen : MenuCall → Bytes → ℕ → Inventory → ℕ → Inventory × MenuReply
  unfolding bytes_eq
  chosen c arg assigned inv machine_id =
      if bytes_eq arg (codes "assigned")
      then if assigned == 0 then (inv, no_profile) else deploy_target c inv machine_id assigned
      else elim (parse_uuid arg) [
        | none ↦ (inv, bad_profile_id)
        | some p ↦
            if not c.is_open && not (p == assigned)
            then (inv, locked)
            else deploy_target c inv machine_id p
      ]

  unfoldable pub render_menu_deploy : MenuCall → Bytes → Bytes → Inventory → Inventory × MenuReply
  unfolding lower_text
  render_menu_deploy c mac arg inv =
      elim (get_machine_by_mac to_mac c.fails inv (lower_text u mac)) [
        | err _ ↦ (inv, not_registered)
        | ok m ↦ chosen c arg (assigned_profile (lookup_render_bundle c.fails inv m.id)) inv m.id
      ]
