-- ===== src/Server/Sync.antt =====
-- internal/server/sync_service.go: WriteFile, with the path's lock held for the whole call.
pub mod Accepted
pub mod Stale
pub mod Kept
pub mod Versions
pub mod Retry
mod Tests
use roodox_sever_win.Base.{
  ℕ, zero, suc, Option, none, some, Bool, true, false, not, ◌&&◌, List, [], ◌∷◌, ◌++◌, Bytes,
  bytes_eq, codes, if◌then◌else◌, ◌==◌,
}
use roodox_sever_win.Errors.{Result, Code, ok, err, Err, grpc, to_grpc_error, ◌>>=◌}
use roodox_sever_win.Fs.Root.{normalize_project_path}
use roodox_sever_win.Fs.Disk.{Disk, File, WriteFault, stat, write_file}
use roodox_sever_win.Db.Tables.{Tables}
use roodox_sever_win.Server.Mutations.{
  Store, HeadFaults, FileHeadState, resolve_file_head, mutation_save, bytes_of,
}
use roodox_sever_win.Server.Copies.{
  ConflictCleanupPolicy, Sweep, cleanup_conflict_copies_for_path,
  maybe_cleanup_expired_conflict_files,
}
use roodox_sever_win.Server.Conflicts.{Attempts, write_conflict_file}

-- What a call is given: the root, the hash function and the cleanup policy of the service, and
-- what the clock, the disk and the database report to this call. `write_time` is the time that
-- the written file gets.
pub record Env : Type 0 where
  pub root : Bytes
  pub compute_hash : Bytes → Bytes
  pub policy : ConflictCleanupPolicy
  pub write_time : ℕ
  pub save_time : ℕ
  pub cleanup_time : ℕ
  pub head : HeadFaults
  pub again : Option Err
  pub copies : Attempts
  pub sweep : Sweep
  pub walk : Sweep
  pub write : WriteFault
  pub save : ℕ → Option Err

pub record WriteFileResponse : Type 0 where
  pub conflicted : Bool
  pub conflict_path : Bytes
  pub new_version : ℕ

abbrev pub written : ℕ → WriteFileResponse
written v = record { conflicted = false; conflict_path = []; new_version = v }

-- `baseVersion != 0 && head.Version != 0 && baseVersion != head.Version`
abbrev pub is_stale : ℕ → ℕ → Bool
is_stale base current = not (base == 0) && (not (current == 0) && not (base == current))

-- The cleanups that follow a new copy.
unfoldable pub cleanup_after_copy : Env → Bytes → Disk → Store → Store
cleanup_after_copy env p d s =
    let (last, d') = maybe_cleanup_expired_conflict_files env.policy env.walk env.cleanup_time (
      s.last_cleanup,
      cleanup_conflict_copies_for_path env.policy env.sweep env.cleanup_time p d,
    ) in
    record s { disk = d'; last_cleanup = last }

unfoldable pub answer_conflict :
    Env → Bytes → ℕ → Store → Result Err Bytes × Disk → Result Code WriteFileResponse × Store
unfolding cleanup_after_copy
answer_conflict env p current s (ok copy, d) = (
  ok (record { conflicted = true; conflict_path = copy; new_version = current }),
  cleanup_after_copy env p d s,
)
answer_conflict env p current s (err e, d) = (err (to_grpc_error e), record s { disk = d })

abbrev pub answer_saved :
    Store → Disk → Result Err ℕ × Tables → Result Code WriteFileResponse × Store
answer_saved s d (r, t) = (grpc (r >>= λ v. ok (written v)), record s { disk = d; tables = t })

-- The bytes are on the disk, or not; then the version is saved.
unfoldable pub save_written :
    Env
    → Bytes
    → Bool
    → Option Bytes
    → Store
    → Result Err (Unit {0}) × Disk
    → Result Code WriteFileResponse × Store
save_written env p existed bytes s (ok _, d) =
    answer_saved s d
      (mutation_save env.compute_hash env.save env.save_time p existed bytes s.tables)
save_written env p existed bytes s (err e, d) = (err (to_grpc_error e), record s { disk = d })

abbrev pub is_ok : {E A : Type 0} → Result E A → Bool
is_ok (ok a) = true
is_ok (err e) = false

-- The content is the current version's already, and the disk has a file at the path.
unfoldable pub is_unchanged : Env → Store → Bytes → FileHeadState → Option Bytes → Bool
is_unchanged env s p head bytes =
    (head.exists
      && (not (head.version == 0) && bytes_eq (env.compute_hash (bytes_of bytes)) head.hash))
    && is_ok (stat env.again s.disk p)

unfoldable pub write_at_head :
    Env → Store → Bytes → Option Bytes → ℕ → FileHeadState → Result Code WriteFileResponse × Store
unfolding answer_conflict save_written is_unchanged
write_at_head env s p bytes base head =
    if is_stale base head.version
    then answer_conflict env p head.version s
        (write_conflict_file env.copies env.write_time s.disk p (bytes_of bytes))
    else if is_unchanged env s p head bytes
    then (ok (written head.version), s)
    else save_written env p head.exists bytes s
        (write_file env.write env.write_time s.disk p (bytes_of bytes))

unfoldable pub write_known :
    Env
    → Store
    → Bytes
    → Option Bytes
    → ℕ
    → Result Err FileHeadState
    → Result Code WriteFileResponse × Store
unfolding write_at_head
write_known env s p bytes base (ok head) = write_at_head env s p bytes base head
write_known env s p bytes base (err e) = (err (to_grpc_error e), s)

unfoldable pub write_path :
    Env → Store → Option Bytes → ℕ → Result Err Bytes → Result Code WriteFileResponse × Store
unfolding write_known
write_path env s bytes base (ok p) = write_known env s p bytes base (resolve_file_head env.head s p)
write_path env s bytes base (err e) = (err (to_grpc_error e), s)

-- doWriteFile
unfoldable pub do_write_file :
    Env → Store → Bytes → Option Bytes → ℕ → Result Code WriteFileResponse × Store
unfolding write_path
do_write_file env s path bytes base =
    write_path env s bytes base (normalize_project_path env.root path)
