-- ===== src/Inventory/Deletable.antt =====
-- When machines and profiles can be deleted: DeleteMachine and DeleteProfile of
-- services/api/internal/store/store.go.
use smart_deploy_linux.Prelude.Table.{count, any, any-count, any-weaker}
use smart_deploy_linux.Prelude.{
  ℕ, ◌≡◌, ◌↔◌, ◌⊎◌, refl, true, false, none, some, ◌==◌, ltb, arith, Bool-cases, inl, inr,
}
use smart_deploy_linux.Schema.{Job, Db, in_use}
use smart_deploy_linux.Inventory.{Inventory, Faults, has_machine, has_profile}
use smart_deploy_linux.Inventory.Profiles.{
  holds_profile, is_running_with, is_default, delete_profile_row, delete_unused_profile,
}
use smart_deploy_linux.Inventory.Machines.{holds_machine, is_running_on, delete_machine_row}

abbrev pub no_faults : Faults
no_faults _ = false

-- A machine without a job of any state has no job that runs.
idle_without_jobs :
    (db : Db) (id : ℕ)
    → holds_machine db id ≡ false
    → ltb 0 (count (is_running_on id) db.jobs) ≡ false
idle_without_jobs db id free = elim (Bool-cases (ltb 0 (count (is_running_on id) db.jobs))) [
  | inr idle ↦ idle
  | inl running ↦
      let some_running = (any-count (is_running_on id) db.jobs).1 (ground arith) in
      let some_job =
        any-weaker (is_running_on id) (λ (j : Job). j.machine_id == id) db.jobs
          (λ j h. ground arith) some_running in
      absurd (ground arith)
]

-- Where no statement fails, a machine is deleted exactly if it exists and no code and no job names it, a
-- job that has ended and a code that has expired included.
pub machine_deleted_iff :
    (inv : Inventory) (id : ℕ)
    → ((delete_machine_row no_faults inv id).1 ≡ none)
      ↔ ((has_machine inv.machines id ≡ true) × (holds_machine inv.db id ≡ false))
unfolding delete_machine_row
machine_deleted_iff inv id = elim (Bool-cases (holds_machine inv.db id)) [
  | inr free ↦ elim (Bool-cases (has_machine inv.machines id)) [
    | inr missing ↦
        rw (idle_without_jobs inv.db id free, missing)
          ((λ e. absurd (cc e)), (λ e. absurd (cc (e.0))))
    | inl there ↦
        rw (idle_without_jobs inv.db id free, there, free) ((λ _. (refl, refl)), (λ _. refl))
  ]
  | inl held ↦ elim (Bool-cases (ltb 0 (count (is_running_on id) inv.db.jobs))) [
    | inl running ↦ rw (running, held) ((λ e. absurd (cc e)), (λ e. absurd (cc (e.1))))
    | inr idle ↦ elim (Bool-cases (has_machine inv.machines id)) [
      | inr missing ↦ rw (idle, missing) ((λ e. absurd (cc e)), (λ e. absurd (cc (e.0))))
      | inl there ↦ rw (idle, there, held) ((λ e. absurd (cc e)), (λ e. absurd (cc (e.1))))
    ]
  ]
]

running_names : (id : ℕ) (j : Job) → is_running_with id j ≡ true → (j.profile_id == id) ≡ true
running_names id j h = ground arith

-- Where no statement fails, DeleteProfile deletes exactly if the profile exists and no code, no job and
-- no machine names it; and it refuses the profile as being in use, with a number, exactly if a job that
-- has not ended names it or it is the default of a machine.
pub profile_deleted_iff :
    (inv : Inventory) (id : ℕ)
    → let out = delete_profile_row no_faults inv id in
      ((out.1 ≡ none) ↔ ((has_profile inv.profiles id ≡ true) × (holds_profile inv id ≡ false)))
      × (((n : ℕ) × (out.1 ≡ some (in_use n))) ↔ (
          (any (is_running_with id) inv.db.jobs ≡ true)
          ⊎ (any (is_default id) inv.machines ≡ true)))
unfolding delete_profile_row delete_unused_profile
profile_deleted_iff inv id =
    let running = any-count (is_running_with id) inv.db.jobs in
    let defaults = any-count (is_default id) inv.machines in
    let names =
      any-weaker (is_running_with id) (λ (j : Job). j.profile_id == id) inv.db.jobs
        (running_names id) in
    (
      ground arith,
      (
        λ h. ground (arith, h.1),
        λ h. elim (Bool-cases (ltb 0 (count (is_running_with id) inv.db.jobs))) [
          | inl some_job ↦ (count (is_running_with id) inv.db.jobs, ground arith)
          | inr no_job ↦ (count (is_default id) inv.machines, ground arith)
        ],
      ),
    )
