-- ===== src/Jobs/Shape.antt =====
-- The shape of the state graph of TransitionJob in services/api/internal/store/store.go, apart from its
-- table of edges.
use smart_deploy_linux.Prelude.{ℕ, ◌+◌, ◌≤◌, ◌≡◌, ◌⊎◌}
use smart_deploy_linux.Schema.{
  State, pending, bootstrapped, imaging, post_install, completed, failed, cancelled,
}
use smart_deploy_linux.Jobs.Graph.{
  redeem, begin, install, skip_post, finish, boot_fails, imaging_fails, post_fails, cancel_pending,
  cancel_bootstrapped, cancel_imaging,
}

-- How far a state is on the way to a finished deployment; the two other ends come after it.
abbrev pub stage : State → ℕ
stage pending = 0
stage bootstrapped = 1
stage imaging = 2
stage post_install = 3
stage completed = 4
stage failed = 6
stage cancelled = 7

-- A job that has not ended goes on by one stage, or from imaging to its end; it fails once it has
-- booted, and is cancelled until the image is written.
abbrev pub IsStep : State → State → Type 0
IsStep s t =
    (stage s ≤ 3)
    × ((stage t ≡ stage s + 1)
        ⊎ (((s ≡ imaging) × (t ≡ completed))
            ⊎ (((t ≡ failed) × (1 ≤ stage s)) ⊎ ((t ≡ cancelled) × (stage s ≤ 2)))))

ruleset steps = (
  redeem, begin, install, skip_post, finish, boot_fails, imaging_fails, post_fails, cancel_pending,
  cancel_bootstrapped, cancel_imaging,
)
