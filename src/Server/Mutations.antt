-- ===== src/Server/Mutations.antt =====
-- internal/server/file_mutation_support.go: what the services know of a file before they change
-- it, and the version that they save after.
pub mod Heads
use roodox_sever_win.Base.{
  ℕ, Option, none, some, Bool, true, false, Bytes, bytes_eq, ℤ, codes, length, pos, if◌then◌else◌,
  ◌==◌, [],
}
use roodox_sever_win.Base.Time.{unix}
use roodox_sever_win.Errors.{Result, ok, err, Err, is_not_exist, ◌>>=◌}
use roodox_sever_win.Fs.Disk.{Disk, File, stat}
use roodox_sever_win.Db.Tables.{Tables, Meta, VersionRecord}
use roodox_sever_win.Db.Metas.{get_meta}
use roodox_sever_win.Db.Versions.{
  get_latest_record, get_record, get_version_data, save_file_snapshot, change_delete,
}

pub record FileHeadState : Type 0 where
  pub exists : Bool
  pub deleted : Bool
  pub version : ℕ
  pub size : ℕ
  pub mtime_unix : ℤ
  pub hash : Bytes

abbrev pub no_head : FileHeadState
no_head = record {
  exists = false;
  deleted = false;
  version = 0;
  size = 0;
  mtime_unix = pos 0;
  hash = [];
}

-- The files, the database, and lastConflictCleanup of SyncService.
pub record Store : Type 0 where
  pub disk : Disk
  pub tables : Tables
  pub last_cleanup : ℕ

-- The errors that the disk and the database report to ResolveFileHead.
pub record HeadFaults : Type 0 where
  pub latest : Option Err
  pub meta : Option Err
  pub stat : Option Err

-- A query that the engine may refuse.
abbrev pub query {ℓ} : {A : Type ℓ} → Option Err → Result Err A → Result Err A
query none r = r
query (some e) r = err e

unfoldable pub head_of_record : Result Err VersionRecord → Result Err FileHeadState
head_of_record (ok rec) =
    let gone = bytes_eq rec.change_type change_delete in
    ok (record {
      exists = false;
      deleted = gone;
      version = rec.version;
      size = if gone then 0 else rec.size;
      mtime_unix = rec.mtime_unix;
      hash = rec.hash;
    })
head_of_record (err e) = if is_not_exist e then ok no_head else err e

-- The head without a meta row: of a deleted path it is the record's, else the disk is asked.
unfoldable pub head_of_stat : FileHeadState → Result Err File → Result Err FileHeadState
head_of_stat head (ok f) =
    ok (record head { exists = true; size = length f.content; mtime_unix = unix f.mtime })
head_of_stat head (err e) = if is_not_exist e then ok head else err e

abbrev pub known_head : Meta → FileHeadState
known_head m = record {
  exists = true;
  deleted = false;
  version = m.version;
  size = m.size;
  mtime_unix = m.mtime_unix;
  hash = m.hash;
}

unfoldable pub head_of_meta :
    FileHeadState → Result Err Meta → Result Err File → Result Err FileHeadState
unfolding head_of_stat
head_of_meta head (ok m) on_disk = ok (known_head m)
head_of_meta head (err e) on_disk =
    if is_not_exist e then (if head.deleted then ok head else head_of_stat head on_disk) else err e

unfoldable pub resolve_file_head : HeadFaults → Store → Bytes → Result Err FileHeadState
unfolding head_of_record head_of_meta
resolve_file_head f s p = do
  head ← head_of_record (query f.latest (get_latest_record s.tables p))
  head_of_meta head (get_meta f.meta s.tables p) (stat f.stat s.disk p)

-- A Go slice: nil or bytes.
abbrev pub bytes_of : Option Bytes → Bytes
bytes_of none = []
bytes_of (some bytes) = bytes

abbrev pub snapshot_meta : (Bytes → Bytes) → ℤ → Bytes → Option Bytes → Meta
snapshot_meta compute_hash now p bytes = record {
  path = p;
  is_dir = false;
  size = length (bytes_of bytes);
  mtime_unix = now;
  hash = compute_hash (bytes_of bytes);
  version = 0;
}

abbrev pub change_type_of : Bool → Bytes
change_type_of existed = if existed then codes "modify" else codes "create"

-- SaveFileSnapshot; the cleanup hook that it triggers runs apart.
unfoldable pub mutation_save :
    (Bytes → Bytes)
    → (ℕ → Option Err)
    → ℕ
    → Bytes
    → Bool
    → Option Bytes
    → Tables
    → Result Err ℕ × Tables
mutation_save compute_hash faults now p existed bytes t =
    save_file_snapshot faults (snapshot_meta compute_hash (unix now) p bytes) []
      (change_type_of existed) bytes t

-- The errors that the database reports to loadVersionSnapshot.
pub record SnapshotFaults : Type 0 where
  pub find : Option Err
  pub content : Option Err

-- The content of a version: empty before the first one, and of a deletion.
unfoldable pub load_version_snapshot : SnapshotFaults → Tables → Bytes → ℕ → Result Err Bytes
load_version_snapshot f t p version =
    if version == 0
    then ok []
    else query f.find (get_record t p version) >>= λ rec.
        if bytes_eq rec.change_type change_delete
        then ok []
        else query f.content (get_version_data t p version)
