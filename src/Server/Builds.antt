-- ===== src/Server/Builds.antt =====
-- The retention of build jobs and of their logs in internal/server/build_service.go: cleanupJobs and
-- appendLogWithLimit. The jobs are a map from their ids; a time of 0 is the zero time. A job that
-- has ended does not change any more, so the two sections of cleanupJobs under its mutex are one
-- step. `size_of` says what buildPathSize finds in a directory. Jobs of one time, which sort.Slice
-- puts in any order, keep the order of the list.
pub mod Retained
pub mod Logs
mod Tests
use roodox_sever_win.Base.{
  ℕ, zero, suc, ◌+◌, ◌-◌, Bool, true, false, not, ◌&&◌, ◌||◌, List, [], ◌∷◌, ◌++◌, Bytes, bytes_eq,
  codes, keep_if, take, drop, length, ℤ, pos_part, non_positive, ltz, ltb, leb, if◌then◌else◌, ◌==◌,
}
use roodox_sever_win.Base.Dict.{Dict, remove, bytes_in}
use roodox_sever_win.Base.Time.{elapsed}

pub record BuildJob : Type 0 where
  pub status : Bytes
  pub created_at : ℕ
  pub finished_at : ℕ
  pub work_dir : Bytes

-- The settings of BuildService that cleanupJobs reads.
pub record Retention : Type 0 where
  pub job_ttl : ℤ
  pub max_retained_jobs : ℤ
  pub max_retained_bytes : ℤ

unfoldable pub is_terminal_build_status : Bytes → Bool
is_terminal_build_status status =
    bytes_eq status (codes "success") || bytes_eq status (codes "failed")

abbrev pub is_expired_job : Retention → ℕ → BuildJob → Bool
is_expired_job r now j =
    not (non_positive r.job_ttl)
    && (not (j.finished_at == 0) && ltz r.job_ttl (elapsed now j.finished_at))

-- By the end, and by the creation among those of one end.
abbrev pub ends_before : Bytes × BuildJob → Bytes × BuildJob → Bool
ends_before (i, a) (k, b) =
    if a.finished_at == b.finished_at
    then ltb a.created_at b.created_at
    else ltb a.finished_at b.finished_at

unfoldable pub insert_job : Bytes × BuildJob → Dict BuildJob → Dict BuildJob
insert_job e [] = e ∷ []
insert_job e (c ∷ cs) =
    let rest = insert_job e cs in if ends_before c e then c ∷ rest else e ∷ c ∷ cs

unfoldable pub sort_jobs : Dict BuildJob → Dict BuildJob
unfolding insert_job
sort_jobs [] = []
sort_jobs (e ∷ es) = insert_job e (sort_jobs es)

unfoldable pub total_size : (Bytes → ℕ) → Dict BuildJob → ℕ
total_size size_of [] = 0
total_size size_of (e ∷ es) = size_of e.1.work_dir + total_size size_of es

-- The first jobs, until the rest stays within the limit.
unfoldable pub over_limit : (Bytes → ℕ) → ℕ → ℕ → Dict BuildJob → Dict BuildJob
over_limit size_of total max [] = []
over_limit size_of total max (e ∷ es) =
    let rest = over_limit size_of (total - size_of e.1.work_dir) max es in
    if leb total max then [] else e ∷ rest

-- buildRemovalsForByteLimit
unfoldable pub build_removals_for_byte_limit : (Bytes → ℕ) → ℤ → Dict BuildJob → Dict BuildJob
unfolding over_limit sort_jobs total_size
build_removals_for_byte_limit size_of max es =
    if non_positive max
    then []
    else over_limit size_of (total_size size_of es) (pos_part max) (sort_jobs es)

unfoldable pub due_of_jobs : ℕ → ℤ → Dict BuildJob → ℕ
due_of_jobs next ttl [] = next
due_of_jobs next ttl ((i, j) ∷ es) =
    let at = j.finished_at + pos_part ttl in
    due_of_jobs (if j.finished_at == 0 then next else if next == 0 || ltb at next then at else next)
      ttl es

-- nextBuildCleanupDue
unfoldable pub next_build_cleanup_due : ℤ → Dict BuildJob → ℕ
unfolding due_of_jobs
next_build_cleanup_due ttl es = if non_positive ttl then 0 else due_of_jobs 0 ttl es

-- delete(s.jobs, id) for each of the removals.
unfoldable pub remove_jobs : Dict BuildJob → Dict BuildJob → Dict BuildJob
remove_jobs [] jobs = jobs
remove_jobs (e ∷ es) jobs = remove_jobs es (remove jobs e.0)

-- The jobs that have ended, those whose time is over and the others.
abbrev pub expired_jobs : Retention → ℕ → Dict BuildJob → Dict BuildJob
expired_jobs r now = keep_if (λ e. is_terminal_build_status e.1.status && is_expired_job r now e.1)

abbrev pub terminal_jobs : Retention → ℕ → Dict BuildJob → Dict BuildJob
terminal_jobs r now =
    keep_if (λ e. is_terminal_build_status e.1.status && not (is_expired_job r now e.1))

-- How many jobs there are too many.
abbrev pub extra_jobs : Retention → ℕ → ℕ
extra_jobs r remaining =
    if non_positive r.max_retained_jobs then 0 else remaining - pos_part r.max_retained_jobs

-- The jobs that the count removes, and those that it leaves.
abbrev pub by_count : ℕ → Dict BuildJob → Dict BuildJob
by_count extra es = take extra (sort_jobs es)

abbrev pub after_count : ℕ → Dict BuildJob → Dict BuildJob
after_count extra es = if extra == 0 then es else drop extra (sort_jobs es)

-- cleanupJobs: when it is due again, and the jobs that stay.
unfoldable pub cleanup_jobs : Retention → (Bytes → ℕ) → ℕ → Dict BuildJob → ℕ × Dict BuildJob
unfolding build_removals_for_byte_limit next_build_cleanup_due remove_jobs sort_jobs
cleanup_jobs r size_of now jobs =
    let expired = expired_jobs r now jobs in
    let terminal = terminal_jobs r now jobs in
    let extra = extra_jobs r (length jobs - length expired) in
    let candidates = after_count extra terminal in
    let large = build_removals_for_byte_limit size_of r.max_retained_bytes candidates in
    (
      next_build_cleanup_due r.job_ttl (keep_if (λ e. not (bytes_in e.0 large)) candidates),
      remove_jobs large (remove_jobs (by_count extra terminal) (remove_jobs expired jobs)),
    )

abbrev pub log_truncation_marker : Bytes
log_truncation_marker = codes "[... build log truncated ...]" ++ (10 ∷ [])

-- appendLogWithLimit
unfoldable pub append_log_with_limit : Bytes → Bytes → ℤ → Bytes
append_log_with_limit existing entry limit =
    let buf = existing ++ entry in
    let n = pos_part limit in
    let marker = length log_truncation_marker in
    if non_positive limit
    then buf
    else if leb (length buf) n
    then buf
    else if leb n marker
    then drop (length buf - n) buf
    else log_truncation_marker ++ drop (length buf - (n - marker)) buf
