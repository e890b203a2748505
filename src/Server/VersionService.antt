-- ===== src/Server/VersionService.antt =====
-- internal/server/version_service.go: the history of a path, and the content of a version.
pub mod Restores
mod Tests
use roodox_sever_win.Base.{ℕ, Option, Bool, true, false, List, [], Bytes, bytes_eq, if◌then◌else◌}
use roodox_sever_win.Errors.{Result, Code, ok, err, Err, grpc, ◌>>=◌}
use roodox_sever_win.Fs.RelPath.{normalize_relative_path}
use roodox_sever_win.Db.Tables.{Tables, VersionRecord}
use roodox_sever_win.Db.Versions.{get_history, get_record, get_version_data, change_delete}
use roodox_sever_win.Server.Mutations.{SnapshotFaults, query}

-- GetHistory of VersionService, with the error that the database reports, if any; a response has
-- the fields of each record.
unfoldable pub history_of_path : Option Err → Tables → Bytes → Result Code (List VersionRecord)
history_of_path fault t path =
    grpc (do p ← normalize_relative_path path; query fault (ok (get_history t p)))

-- The content of a record's version: none of a deletion.
abbrev pub content_of : SnapshotFaults → Tables → Bytes → ℕ → VersionRecord → Result Err Bytes
content_of f t p version rec =
    if bytes_eq rec.change_type change_delete
    then ok []
    else query f.content (get_version_data t p version)

-- GetVersion
unfoldable pub get_version : SnapshotFaults → Tables → Bytes → ℕ → Result Code Bytes
get_version f t path version = grpc (do
  p ← normalize_relative_path path
  rec ← query f.find (get_record t p version)
  content_of f t p version rec)
