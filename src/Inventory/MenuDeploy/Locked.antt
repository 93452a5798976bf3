-- ===== src/Inventory/MenuDeploy/Locked.antt =====
-- What the boot menu can deploy in its locked mode: renderMenuDeploy of services/api/cmd/api/menu.go.
use smart_deploy_linux.Prelude.Table.{any}
use smart_deploy_linux.Prelude.{
  ℕ, ◌≡◌, refl, Bool, true, false, ◌&&◌, Option, Bytes, bytes_eq, codes, ◌==◌, ==_iff, Option-cases,
  Bool-cases, inl, inr,
}
use smart_deploy_linux.Schema.{Job, Db, Result, Result-cases, ok, err}
use smart_deploy_linux.Tokens.Base64.{base64url}
use smart_deploy_linux.Drivers.{Unicode, lower_text}
use smart_deploy_linux.Menu.{Request, mint_menu_boot_token}
use smart_deploy_linux.Menu.Stored.{Answers, mint-Answers}
use smart_deploy_linux.Inventory.{Machine, Inventory}
use smart_deploy_linux.Inventory.Machines.{get_machine_by_mac}
use smart_deploy_linux.Inventory.Bundle.{lookup_render_bundle}
use smart_deploy_linux.Inventory.MenuDeploy.{
  MenuCall, MenuReply, chain, assigned_profile, mint_request, minted_reply, deploy_target, chosen,
  render_menu_deploy,
}

abbrev pub is_deployment : ℕ → ℕ → ℕ → Job → Bool
is_deployment id machine_id profile_id j =
    j.id == id && (j.machine_id == machine_id && j.profile_id == profile_id)

module _ (u : Unicode) (sha256 : Bytes → Bytes) (fqdn : Bytes) (parse_uuid : Bytes → Option ℕ)
    (to_mac : Bytes → Option Bytes) (c : MenuCall) (job : ℕ) (token : Bytes) where
  -- An answer that chains to a deployment of that machine and profile, which is stored.
  abbrev Deploys : ℕ → ℕ → Inventory × MenuReply → Type 0
  Deploys machine_id profile_id out =
      out.1 ≡ chain job token → any (is_deployment job machine_id profile_id) out.0.db.jobs ≡ true

  minted-Deploys :
      (inv : Inventory) (r : Request) (text : Bytes) (out : Db × Result ℕ)
      → Answers r out
      → Deploys r.machine_id r.profile_id
          (minted_reply u sha256 fqdn parse_uuid to_mac inv text out)
  minted-Deploys inv r text (db, err _) answers e = absurd (cc e)
  minted-Deploys inv r text (db, ok id) answers e =
      let same : id ≡ job = cc e in rw (← same) (answers id refl)

  target-Deploys :
      (inv : Inventory) (machine_id target : ℕ)
      → Deploys machine_id target
          (deploy_target u sha256 fqdn parse_uuid to_mac c inv machine_id target)
  unfolding deploy_target
  target-Deploys inv machine_id target e = elim (Option-cases c.random) [
    | inl broke ↦ absurd (let h = rw (broke, deploy_target) at e in cc h)
    | inr (raw, drawn) ↦
        let r =
          mint_request u sha256 fqdn parse_uuid to_mac c inv machine_id target (base64url raw) in
        rw (drawn, deploy_target)
          (minted-Deploys inv r (base64url raw) (mint_menu_boot_token r inv.db)
            (mint-Answers r inv.db) (rw (drawn, deploy_target) at e))
  ]

  chosen-Deploys :
      (arg : Bytes) (assigned : ℕ) (inv : Inventory) (machine_id : ℕ)
      → c.is_open ≡ false
      → Deploys machine_id assigned
          (chosen u sha256 fqdn parse_uuid to_mac c arg assigned inv machine_id)
  unfolding chosen deploy_target
  chosen-Deploys arg assigned inv machine_id closed e =
      elim (Bool-cases (bytes_eq arg (codes "assigned"))) [
        | inl named ↦ elim (Bool-cases (assigned == 0)) [
          | inl nothing ↦ absurd (let h = rw (named, nothing) at e in cc h)
          | inr known ↦
              rw (named, known) (target-Deploys inv machine_id assigned (rw (named, known) at e))
        ]
        | inr other ↦ elim (Option-cases (parse_uuid arg)) [
          | inl bad ↦ absurd (let h = rw (other, bad) at e in cc h)
          | inr (p, parsed) ↦ elim (Bool-cases (p == assigned)) [
            | inr apart ↦ absurd (let h = rw (other, parsed, closed, apart) at e in cc h)
            | inl same ↦
                let equal = (==_iff p assigned).0 same in
                rw (other, parsed, closed, same)
                  (rw equal (
                    target-Deploys inv machine_id assigned
                      (rw equal at (rw (other, parsed, closed, same) at e))))
          ]
        ]
      ]

  -- In the locked mode, an answer that chains to a deployment is for a registered machine of that MAC
  -- address, and the deployment is stored with that machine and with its assigned profile: that of its
  -- newest job to install, else its default (the nil profile where the lookup finds neither).
  pub menu_deploys_assigned :
      (mac arg : Bytes) (inv : Inventory)
      → c.is_open ≡ false
      → (render_menu_deploy u sha256 fqdn parse_uuid to_mac c mac arg inv).1 ≡ chain job token
      → (m : Machine) × (get_machine_by_mac to_mac c.fails inv (lower_text u mac) ≡ ok m)
        × (any
              (is_deployment job m.id (assigned_profile (lookup_render_bundle c.fails inv m.id)))
              (render_menu_deploy u sha256 fqdn parse_uuid to_mac c mac arg inv).0.db.jobs
            ≡ true)
  unfolding render_menu_deploy
  menu_deploys_assigned mac arg inv closed e =
      elim (Result-cases (get_machine_by_mac to_mac c.fails inv (lower_text u mac))) [
        | inr (why, broke) ↦ absurd (let h = rw (broke, render_menu_deploy) at e in cc h)
        | inl (m, found) ↦ (
          m,
          found,
          rw (found, render_menu_deploy)
              (chosen-Deploys arg (assigned_profile (lookup_render_bundle c.fails inv m.id)) inv
                m.id closed (rw (found, render_menu_deploy) at e)),
        )
      ]
