-- ===== src/Inventory/Bundle.antt =====
-- LookupRenderBundle and LookupRenderBundleByToken of services/api/internal/store/store.go: what a machine
-- is to install.
use smart_deploy_linux.Prelude.Table.{find, select, newest}
use smart_deploy_linux.Prelude.{ℕ, Bool, ◌&&◌, ◌||◌, Option, none, some, Bytes, ◌==◌, if◌then◌else◌}
use smart_deploy_linux.Schema
use smart_deploy_linux.Schema.{
  pending, bootstrapped, imaging, state_eq, Job, db_error, no_active_profile, Result, ok, err,
}
use smart_deploy_linux.Tokens.{boot_token_machine}
use smart_deploy_linux.Packs.{Blob}
use smart_deploy_linux.Inventory.{
  Machine, Image, ImageVersion, Profile, Inventory, Faults, select_active_job, select_bundle,
  select_newest_blob,
}
use smart_deploy_linux.Inventory.Machines.{get_machine}
use smart_deploy_linux.Inventory.Images.{VersionInfo, join_blobs}

-- `blob` is none where its three fields are empty.
pub record RenderBundle : Type 0 where
  pub machine : Machine
  pub profile : Profile
  pub image : Image
  pub blob : Option Blob
  pub job_id : Option ℕ

-- state IN ('pending','bootstrapped','imaging')
abbrev pub is_to_install : ℕ → Job → Bool
is_to_install machine_id j =
    j.machine_id == machine_id
    && (state_eq j.state pending || state_eq j.state bootstrapped || state_eq j.state imaging)

abbrev pub job_to_install : Inventory → ℕ → Option Job
job_to_install inv machine_id =
    newest (λ (j : Job). j.created_at) (select (is_to_install machine_id) inv.db.jobs)

-- The newest version of the image that has its blob; an error of the query counts as none.
unfoldable pub newest_blob : Faults → Inventory → Image → Option Blob
unfolding newest select join_blobs
newest_blob fails inv i =
    if fails select_newest_blob
    then none
    else elim (newest (λ (v : VersionInfo). v.version.created_at)
        (join_blobs inv.blobs (select (λ (v : ImageVersion). v.image_id == i.id) inv.versions))) [
          | none ↦ none
          | some v ↦ some v.blob
        ]

-- The second query: a profile that is not there is an error that the callers do not tell apart.
unfoldable pub bundle_of : Faults → Inventory → Machine → ℕ → Option ℕ → Result RenderBundle
unfolding newest_blob
bundle_of fails inv m profile_id job_id =
    if fails select_bundle
    then err db_error
    else elim (find (λ (p : Profile). p.id == profile_id) inv.profiles) [
      | none ↦ err db_error
      | some p ↦ elim (find (λ (i : Image). i.id == p.image_id) inv.images) [
        | none ↦ err db_error
        | some i ↦ ok (record {
          machine = m;
          profile = p;
          image = i;
          blob = newest_blob fails inv i;
          job_id = job_id;
        })
      ]
    ]

unfoldable pub lookup_render_bundle : Faults → Inventory → ℕ → Result RenderBundle
unfolding newest select
lookup_render_bundle fails inv machine_id = elim (get_machine fails inv machine_id) [
  | err e ↦ err e
  | ok m ↦ if fails select_active_job then err db_error else elim (job_to_install inv machine_id) [
    | some j ↦ bundle_of fails inv m j.profile_id (some j.id)
    | none ↦ elim m.default_profile_id [
      | none ↦ err no_active_profile
      | some profile_id ↦ bundle_of fails inv m profile_id none
    ]
  ]
]

unfoldable pub lookup_render_bundle_by_token :
    Schema.Faults → Faults → ℕ → Inventory → Bytes → Result RenderBundle
lookup_render_bundle_by_token db_fails fails now inv hash =
    elim (boot_token_machine db_fails now inv.db hash) [
      | err e ↦ err e
      | ok machine_id ↦ lookup_render_bundle fails inv machine_id
    ]
