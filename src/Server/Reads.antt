-- ===== src/Server/Reads.antt =====
-- The handlers that only read, and the streamed write: ReadFile and ReadFileRange of
-- internal/server/core_service.go, GetFileMeta, ListChangedFiles and WriteFileStream of
-- internal/server/sync_service.go.
pub mod Written
mod Tests
use roodox_sever_win.Base.{
  ℕ, Option, none, some, Bool, true, false, not, ◌&&◌, List, [], ◌∷◌, ◌++◌, Bytes, ℤ, pos, negsuc,
  ltz, length, map, if◌then◌else◌, ◌==◌,
}
use roodox_sever_win.Base.Time.{unix}
use roodox_sever_win.Errors.{
  Result, Code, invalid_argument, ok, err, Err, grpc, to_grpc_error, is_not_exist, ◌>>=◌,
}
use roodox_sever_win.Fs.Root.{normalize_project_path}
use roodox_sever_win.Fs.Disk.{Disk, File, stat, read_file, read_at}
use roodox_sever_win.Db.Tables.{Tables, Meta}
use roodox_sever_win.Db.Metas.{get_meta, all_metas}
use roodox_sever_win.Server.Mutations.{Store, query}
use roodox_sever_win.Server.Sync.{Env, WriteFileResponse, do_write_file}

-- ReadFile
unfoldable pub read_project_file : Bytes → Option Err → Store → Bytes → Result Code Bytes
read_project_file root fault s path =
    grpc (do p ← normalize_project_path root path; read_file fault s.disk p)

-- ReadFileRange: the bytes, and the size of the file.
unfoldable pub read_file_range :
    Bytes → Option Err → Store → Bytes → ℤ → ℤ → Result Code (Bytes × ℕ)
read_file_range root fault s path offset len =
    grpc (do p ← normalize_project_path root path; read_at fault s.disk p offset len)

pub record FileMeta : Type 0 where
  pub path : Bytes
  pub version : ℕ
  pub mtime_unix : ℤ
  pub hash : Bytes
  pub size : ℕ

abbrev pub meta_of_row : Meta → FileMeta
meta_of_row m = record {
  path = m.path;
  version = m.version;
  mtime_unix = m.mtime_unix;
  hash = m.hash;
  size = m.size;
}

abbrev pub meta_of_path : Bytes → ℤ → ℕ → FileMeta
meta_of_path p mtime_unix size = record {
  path = p;
  version = 0;
  mtime_unix = mtime_unix;
  hash = [];
  size = size;
}

-- A file that no row knows has version 0, and one that is not there the path alone.
abbrev pub meta_of_stat : Bytes → Result Err File → Result Err FileMeta
meta_of_stat p (ok f) = ok (meta_of_path p (unix f.mtime) (length f.content))
meta_of_stat p (err e) = if is_not_exist e then ok (meta_of_path p (pos 0) 0) else err e

abbrev pub meta_or_stat : Bytes → Result Err Meta → Result Err File → Result Err FileMeta
meta_or_stat p (ok m) on_disk = ok (meta_of_row m)
meta_or_stat p (err e) on_disk = if is_not_exist e then meta_of_stat p on_disk else err e

-- GetFileMeta
unfoldable pub get_file_meta :
    Bytes → Option Err → Option Err → Store → Bytes → Result Code FileMeta
get_file_meta root row_fault stat_fault s path = grpc (do
  p ← normalize_project_path root path
  meta_or_stat p (get_meta row_fault s.tables p) (stat stat_fault s.disk p))

abbrev pub is_zero : ℤ → Bool
is_zero (pos n) = n == 0
is_zero (negsuc n) = false

unfoldable pub changed_since : ℤ → List Meta → List FileMeta
changed_since since [] = []
changed_since since (m ∷ ms) =
    let rest = changed_since since ms in
    if not (is_zero since) && not (ltz since m.mtime_unix) then rest else meta_of_row m ∷ rest

-- ListChangedFiles
unfoldable pub list_changed_files : Option Err → Store → ℕ → ℤ → Result Code (List FileMeta)
unfolding changed_since
list_changed_files fault s since_version since_mtime_unix =
    if since_version == 0
    then grpc (all_metas fault s.tables >>= λ ms. ok (changed_since since_mtime_unix ms))
    else err invalid_argument

-- A chunk of a stream, and how the stream ends: with EOF, or with the status of Recv.
pub record Chunk : Type 0 where
  pub path : Bytes
  pub base_version : ℕ
  pub bytes : Bytes

unfoldable pub buffered : List Chunk → Bytes
buffered [] = []
buffered (c ∷ cs) = c.bytes ++ buffered cs

-- bytes.Buffer.Bytes: nil when nothing but empty slices has been written.
abbrev pub buffer_bytes : Bytes → Option Bytes
buffer_bytes [] = none
buffer_bytes (b ∷ bs) = some (b ∷ bs)

-- WriteFileStream: the first chunk names the path and the base version.
unfoldable pub write_file_stream :
    Env → Store → List Chunk → Option Code → Result Code WriteFileResponse × Store
unfolding buffered
write_file_stream env s chunks (some c) = (err c, s)
write_file_stream env s [] none = (err invalid_argument, s)
write_file_stream env s (c ∷ cs) none =
    do_write_file env s c.path (buffer_bytes (buffered (c ∷ cs))) c.base_version
