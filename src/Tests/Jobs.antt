-- ===== src/Tests/Jobs.antt =====
-- Runs of TransitionJob and AdvanceJob of services/api/internal/store/store.go.
use smart_deploy_linux.Prelude.{◌≡◌, ◌≢◌, inl, refl, none, some}
use smart_deploy_linux.Schema.{
  pending, bootstrapped, imaging, post_install, completed, failed, cancelled, Job, no_faults,
}
use smart_deploy_linux.Jobs.{find_job, check_transition, write_transition, advance_job}
use smart_deploy_linux.Jobs.Graph.{cancel_imaging, install}
use smart_deploy_linux.Jobs.Advance.{Reaches, advance_forward, advance_ends_refused}
use smart_deploy_linux.Jobs.Race.{interleaved_transitions}
use smart_deploy_linux.Tests.World.{booted_job, job_db, job_found}

advance_forward_example :
    Reaches
      (advance_job (λ _. no_faults) no_faults 120 (job_db bootstrapped) 41 completed)
      41
      completed
advance_forward_example =
    advance_forward 120 (job_db bootstrapped) 41 (booted_job bootstrapped) completed
      (job_found bootstrapped) refl refl

advance_ends_refused_example :
    ((advance_job (λ _. no_faults) no_faults 120 (job_db pending) 41 failed).1 ≢ none)
    × ((advance_job (λ _. no_faults) no_faults 120 (job_db pending) 41 failed).0 ≡ job_db pending)
advance_ends_refused_example =
    advance_ends_refused (λ _. no_faults) no_faults 120 (job_db pending) 41 (booted_job pending)
      failed (job_found pending) (inl (refl, refl))

interleaved_transitions_example :
    let db₁ = (write_transition no_faults 120 (job_db imaging) 41 cancelled).0 in
    let db₂ = (write_transition no_faults 121 db₁ 41 post_install).0 in
    (check_transition no_faults (job_db imaging) 41 cancelled ≡ none)
    × (check_transition no_faults (job_db imaging) 41 post_install ≡ none)
    × (k : Job) × (find_job db₂ 41 ≡ some k)
    × (k.state ≡ post_install)
    × (k.finished_at ≡ some 120)
interleaved_transitions_example =
    interleaved_transitions 120 121 (job_db imaging) 41 (booted_job imaging) cancelled post_install
      (job_found imaging) cancel_imaging install refl refl
