-- ===== src/Server/Builds/Tests.antt =====
-- A running job beside two that have ended, and a log of 40 bytes.
use roodox_sever_win.Base.{
  ◌≢◌, bytes_eq_iff, ℕ, ◌≡◌, refl, ◌++◌, some, [], ◌∷◌, false, Bytes, bytes_eq, codes, pos,
}
use roodox_sever_win.Base.Dict.{Dict, get, bytes_in}
use roodox_sever_win.Server.Builds.{BuildJob, Retention, cleanup_jobs, append_log_with_limit}
use roodox_sever_win.Server.Builds.Retained.{cleanup_jobs_kept}
use roodox_sever_win.Server.Builds.Logs.{KeepsEnd, append_log_with_limit_lem}

abbrev job : Bytes → ℕ → BuildJob
job status finished_at = record {
  status = status;
  created_at = 1;
  finished_at = finished_at;
  work_dir = [];
}

abbrev jobs : Dict BuildJob
jobs =
    (codes "a", job (codes "success") 10)
    ∷ (codes "b", job (codes "running") 0)
    ∷ (codes "c", job (codes "failed") 90)
    ∷ []

abbrev retention : Retention
retention = record { job_ttl = pos 50; max_retained_jobs = pos 1; max_retained_bytes = pos 5 }

job_found : get jobs (codes "b") ≡ some (job (codes "running") 0)
unfolding get bytes_eq
job_found = refl

statuses :
    (bytes_eq (codes "running") (codes "success") ≡ false)
    × (bytes_eq (codes "running") (codes "failed") ≡ false)
unfolding bytes_eq
statuses = (refl, refl)

no_success : codes "running" ≢ codes "success"
no_success e = cc (statuses.0, (bytes_eq_iff (codes "running") (codes "success")).1 e)

no_failure : codes "running" ≢ codes "failed"
no_failure e = cc (statuses.1, (bytes_eq_iff (codes "running") (codes "failed")).1 e)

distinct :
    (bytes_in
        (codes "a")
        ((codes "b", job (codes "running") 0) ∷ (codes "c", job (codes "failed") 90) ∷ [])
      ≡ false)
    × (bytes_in (codes "b") ((codes "c", job (codes "failed") 90) ∷ []) ≡ false)
    × (bytes_in {V = BuildJob} (codes "c") [] ≡ false)
unfolding bytes_in bytes_eq
distinct = (refl, refl, refl)

cleanup_jobs_kept_example :
    get (cleanup_jobs retention (λ p. 9) 100 jobs).1 (codes "b") ≡ some (job (codes "running") 0)
cleanup_jobs_kept_example =
    cleanup_jobs_kept retention (λ p. 9) 100 jobs (codes "b") (job (codes "running") 0)
      (distinct.0, (distinct.1, (distinct.2, tt))) job_found no_success no_failure

append_log_with_limit_lem_example :
    KeepsEnd 33
      (codes "start build: unit=app " ++ codes "configure compile")
      (append_log_with_limit (codes "start build: unit=app ") (codes "configure compile") (pos 33))
append_log_with_limit_lem_example =
    append_log_with_limit_lem (codes "start build: unit=app ") (codes "configure compile") 32
