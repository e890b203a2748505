-- ===== src/Server/Core.antt =====
-- internal/server/core_service.go: the handlers that change files, with the paths' locks held for
-- the whole call.
pub mod Kept
pub mod Accepted
pub mod Stale
mod Tests
use roodox_sever_win.Base.{
  ℕ, Option, none, some, Bool, true, false, not, ◌&&◌, ◌||◌, List, [], ◌∷◌, Bytes, bytes_eq, ℤ, pos,
  pos_part, is_negative, if◌then◌else◌, ◌==◌,
}
use roodox_sever_win.Errors.{
  Result, Code, invalid_argument, unavailable, ok, err, Err, grpc, to_grpc_error, is_not_exist,
  ◌>>=◌,
}
use roodox_sever_win.Fs.Root.{normalize_project_path}
use roodox_sever_win.Fs.Disk.{
  Disk, File, WriteFault, stat, read_file, write_at, set_file_size, remove_path, rename_path,
}
use roodox_sever_win.Db.Tables.{Tables, Meta}
use roodox_sever_win.Server.Mutations.{
  Store, HeadFaults, SnapshotFaults, FileHeadState, resolve_file_head, mutation_save,
  load_version_snapshot,
}
use roodox_sever_win.Server.Conflicts.{Attempts, write_conflict_file}
use roodox_sever_win.Server.Ranges.{
  Built, built, refused, panics, apply_range_mutation, resize_file_data,
}
use roodox_sever_win.Server.Sync.{is_stale, is_ok}

-- What a call is given: the most bytes that make can give; the root and the hash function of the service, and what the clock, the
-- disk and the database report to this call. `is_dir` says that an empty directory stands at the
-- path.
pub record Env : Type 0 where
  pub root : Bytes
  pub compute_hash : Bytes → Bytes
  pub write_time : ℕ
  pub save_time : ℕ
  pub head : HeadFaults
  pub again : Option Err
  pub snapshot : SnapshotFaults
  pub max_alloc : ℕ
  pub copies : Attempts
  pub write : WriteFault
  pub read : Option Err
  pub save : ℕ → Option Err
  pub is_dir : Bool
  pub change : Option Err
  pub revert : Option Err
  pub set : Option Err

-- WriteFileRangeResponse; SetFileSizeResponse has no count of bytes.
pub record RangeResponse : Type 0 where
  pub bytes_written : ℕ
  pub file_size : ℕ
  pub new_version : ℕ
  pub conflicted : Bool
  pub conflict_path : Bytes

abbrev pub conflict_response : FileHeadState → Bytes → RangeResponse
conflict_response head copy = record {
  bytes_written = 0;
  file_size = head.size;
  new_version = head.version;
  conflicted = true;
  conflict_path = copy;
}

abbrev pub copy_answer :
    FileHeadState → Store → Result Err Bytes × Disk → Result Code RangeResponse × Store
copy_answer head s (ok copy, d) = (ok (conflict_response head copy), record s { disk = d })
copy_answer head s (err e, d) = (ok (conflict_response head []), record s { disk = d })

-- The answer to a stale change: a conflict even when no copy could be made. The panic of make ends
-- the process before anything is written.
unfoldable pub answer_stale :
    Env → Bytes → FileHeadState → Store → Built → Result Code RangeResponse × Store
answer_stale env p head s (built content) =
    copy_answer head s (write_conflict_file env.copies env.write_time s.disk p content)
answer_stale env p head s (refused e) = (ok (conflict_response head []), s)
answer_stale env p head s panics = (err unavailable, s)

abbrev pub saved_answer :
    ℕ → ℕ → Store → Disk → Result Err ℕ × Tables → Result Code RangeResponse × Store
saved_answer n size s d (r, t) = (
  grpc (
      r >>= λ v. ok (record {
        bytes_written = n;
        file_size = size;
        new_version = v;
        conflicted = false;
        conflict_path = [];
      })),
  record s { disk = d; tables = t },
)

-- The file as it is read back is the content of the new version.
unfoldable pub save_read :
    Env → Bytes → Bool → ℕ → ℕ → Store → Disk → Result Err Bytes → Result Code RangeResponse × Store
save_read env p existed n size s d (ok full) =
    saved_answer n size s d
      (mutation_save env.compute_hash env.save env.save_time p existed (some full) s.tables)
save_read env p existed n size s d (err e) = (err (to_grpc_error e), record s { disk = d })

unfoldable pub save_range :
    Env → Bytes → Bool → Store → Result Err (ℕ × ℕ) × Disk → Result Code RangeResponse × Store
unfolding save_read
save_range env p existed s (ok (n, size), d) =
    save_read env p existed n size s d (read_file env.read d p)
save_range env p existed s (err e, d) = (err (to_grpc_error e), record s { disk = d })

abbrev pub build_from : Result Err Bytes → (Bytes → Built) → Built
build_from (ok content) f = f content
build_from (err e) f = refused e

abbrev pub build_range_conflict_data : Env → Tables → Bytes → ℕ → ℕ → Bytes → Built
build_range_conflict_data env t p base offset bytes =
    build_from (load_version_snapshot env.snapshot t p base)
      (λ content. apply_range_mutation env.max_alloc content (pos offset) bytes)

abbrev pub build_set_file_size_conflict_data : Env → Tables → Bytes → ℕ → ℕ → Built
build_set_file_size_conflict_data env t p base size =
    build_from (load_version_snapshot env.snapshot t p base)
      (λ content. resize_file_data env.max_alloc content (pos size))

unfoldable pub range_at_head :
    Env → Store → Bytes → ℕ → Bytes → ℕ → FileHeadState → Result Code RangeResponse × Store
unfolding answer_stale save_range
range_at_head env s p offset bytes base head =
    if is_stale base head.version
    then answer_stale env p head s (build_range_conflict_data env s.tables p base offset bytes)
    else save_range env p head.exists s (write_at env.write env.write_time s.disk p offset bytes)

-- A handler behind the two calls that begin it.
abbrev pub with_head :
    {A : Type 0}
    → Store
    → (FileHeadState → Result Code A × Store)
    → Result Err FileHeadState
    → Result Code A × Store
with_head s handler (ok head) = handler head
with_head s handler (err e) = (err (to_grpc_error e), s)

abbrev pub with_path :
    {A : Type 0}
    → Store
    → (Bytes → Result Code A × Store)
    → Result Err Bytes
    → Result Code A × Store
with_path s handler (ok p) = handler p
with_path s handler (err e) = (err (to_grpc_error e), s)

abbrev pub at_head :
    {A : Type 0}
    → Env
    → Store
    → Bytes
    → (Bytes → FileHeadState → Result Code A × Store)
    → Result Code A × Store
at_head env s path handler =
    with_path s (λ p. with_head s (handler p) (resolve_file_head env.head s p))
      (normalize_project_path env.root path)

-- WriteFileRange
unfoldable pub write_file_range :
    Env → Store → Bytes → ℤ → Bytes → ℕ → Result Code RangeResponse × Store
write_file_range env s path offset bytes base =
    if is_negative offset
    then (err invalid_argument, s)
    else at_head env s path (λ p head. range_at_head env s p (pos_part offset) bytes base head)

abbrev pub sized : Result Err ℕ × Disk → Result Err (ℕ × ℕ) × Disk
sized (ok size, d) = (ok (0, size), d)
sized (err e, d) = (err e, d)

-- The file has the size already.
unfoldable pub has_size : Env → Store → Bytes → FileHeadState → ℕ → Bool
has_size env s p head size = (head.exists && head.size == size) && is_ok (stat env.again s.disk p)

unfoldable pub size_at_head :
    Env → Store → Bytes → ℕ → ℕ → FileHeadState → Result Code RangeResponse × Store
unfolding answer_stale save_range has_size
size_at_head env s p size base head =
    if is_stale base head.version
    then answer_stale env p head s (build_set_file_size_conflict_data env s.tables p base size)
    else if has_size env s p head size
    then (
      ok (record {
        bytes_written = 0;
        file_size = head.size;
        new_version = head.version;
        conflicted = false;
        conflict_path = [];
      }),
      s,
    )
    else save_range env p head.exists s
        (sized (set_file_size env.write env.write_time s.disk p size))

-- SetFileSize
unfoldable pub set_size : Env → Store → Bytes → ℤ → ℕ → Result Code RangeResponse × Store
set_size env s path size base =
    if is_negative size
    then (err invalid_argument, s)
    else at_head env s path (λ p head. size_at_head env s p (pos_part size) base head)
