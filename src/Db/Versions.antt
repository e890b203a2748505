-- ===== src/Db/Versions.antt =====
-- internal/db/version.go: the version store, except RenamePathTree.
pub mod Bounds
pub mod Numbers
pub mod History
pub mod Writes
pub mod Kept
mod Tests
use roodox_sever_win.Base.{
  ℕ, suc, Bool, true, false, Option, none, some, [], ◌∷◌, List, Bytes, bytes_eq, codes, ℤ, max, ltb,
  if◌then◌else◌,
}
use roodox_sever_win.Base.Dict.{Dict, get, put, remove}
use roodox_sever_win.Errors.{Result, ok, err, Err, os_not_exist, other}
use roodox_sever_win.Db.Tables.{
  Tables, Meta, VersionRecord, VersionRow, BlobRow, max_version, find_version, latest_version,
  history_of, find_blob, meta_version,
}
use roodox_sever_win.Db.Tx.{Tx, ◌>>=◌, ◌>>◌, with_write_tx}

abbrev pub change_delete : Bytes
change_delete = codes "delete"

-- The number that ensureFileHeadTx finds for a path: its head, or what the other tables know.
unfoldable pub current_version : Tables → Bytes → ℕ
current_version t p = elim (get t.file_head p) [
  | none ↦ max (max_version p t.version) (meta_version t p)
  | some h ↦ h
]

-- ensureFileHeadTx
pub ensure_file_head : Bytes → Tx (Unit {0})
ensure_file_head p t = elim (get t.file_head p) [
  | none ↦ ok (tt, record t { file_head = put t.file_head p (current_version t p) })
  | some _ ↦ ok (tt, t)
]

-- nextVersionTx, its UPDATE and its SELECT.
pub bump_head : Bytes → Tx ℕ
bump_head p t = elim (get t.file_head p) [
  | none ↦ err other
  | some h ↦ ok (suc h, record t { file_head = put t.file_head p (suc h) })
]

pub next_version : Bytes → Tx ℕ
next_version p = do ensure_file_head p; bump_head p

-- setCurrentVersionIfGreaterTx
pub raise_head : Bytes → ℕ → Tx (Unit {0})
raise_head p v t = elim (get t.file_head p) [
  | none ↦ ok (tt, t)
  | some h ↦ ok (tt, record t { file_head = put t.file_head p (if ltb h v then v else h) })
]

pub upsert_meta : Meta → Tx (Unit {0})
upsert_meta m t = ok (tt, record t { meta = put t.meta m.path m })

pub delete_meta : Bytes → Tx (Unit {0})
delete_meta p t = ok (tt, record t { meta = remove t.meta p })

-- The INSERTs of insertSnapshotTx fail on a row with the same key.
pub insert_version : Bytes → VersionRecord → Tx (Unit {0})
insert_version p rec t = elim (find_version p rec.version t.version) [
  | none ↦ ok (tt, record t { version = record { path = p; rec = rec } ∷ t.version })
  | some _ ↦ err other
]

pub insert_blob : Bytes → ℕ → Bytes → Tx (Unit {0})
insert_blob p v content t = elim (find_blob p v t.version_blob) [
  | none ↦ ok (
    tt,
    record t {
      version_blob = record { path = p; version = v; content = content } ∷ t.version_blob;
    },
  )
  | some _ ↦ err other
]

-- `if data == nil { return nil }`
pub insert_content : Bytes → ℕ → Option Bytes → Tx (Unit {0})
insert_content p v none t = ok (tt, t)
insert_content p v (some content) t = insert_blob p v content t

pub insert_snapshot : Bytes → VersionRecord → Option Bytes → Tx (Unit {0})
insert_snapshot p rec content = do insert_version p rec; insert_content p rec.version content

pub append_snapshot_tx : Bytes → VersionRecord → Option Bytes → Tx (Unit {0})
unfolding ensure_file_head raise_head insert_snapshot insert_version insert_content insert_blob
append_snapshot_tx p rec content = do
  ensure_file_head p
  raise_head p rec.version
  insert_snapshot p rec content

pub save_file_snapshot_tx : Meta → Bytes → Bytes → Option Bytes → Tx ℕ
save_file_snapshot_tx m client_id change_type content = do
  v ← next_version m.path
  upsert_meta (record m { version = v })
  insert_snapshot m.path
      (record {
        version = v;
        mtime_unix = m.mtime_unix;
        hash = m.hash;
        size = m.size;
        client_id = client_id;
        change_type = change_type;
      })
      content
  (λ t. ok (v, t))

pub append_delete_snapshot_tx : Bytes → ℕ → ℤ → Bytes → Tx ℕ
append_delete_snapshot_tx p size mtime_unix client_id = do
  v ← next_version p
  delete_meta p
  insert_snapshot p
      (record {
        version = v;
        mtime_unix = mtime_unix;
        hash = [];
        size = size;
        client_id = client_id;
        change_type = change_delete;
      })
      none
  (λ t. ok (v, t))

-- AppendSnapshot, SaveFileSnapshot and AppendDeleteSnapshot, each in a write transaction.
pub append_snapshot :
    (ℕ → Option Err)
    → Bytes
    → VersionRecord
    → Option Bytes
    → Tables
    → Result Err (Unit {0}) × Tables
append_snapshot faults p rec content = with_write_tx faults (append_snapshot_tx p rec content)

unfoldable pub save_file_snapshot :
    (ℕ → Option Err) → Meta → Bytes → Bytes → Option Bytes → Tables → Result Err ℕ × Tables
save_file_snapshot faults m client_id change_type content =
    with_write_tx faults (save_file_snapshot_tx m client_id change_type content)

pub append_delete_snapshot :
    (ℕ → Option Err) → Bytes → ℕ → ℤ → Bytes → Tables → Result Err ℕ × Tables
append_delete_snapshot faults p size mtime_unix client_id =
    with_write_tx faults (append_delete_snapshot_tx p size mtime_unix client_id)

-- GetHistory, GetRecord, GetLatestRecord and GetVersionData: a missing row is os.ErrNotExist.
unfoldable pub get_history : Tables → Bytes → List VersionRecord
get_history t p = history_of p t.version

abbrev pub or_not_exist : {A : Type 0} → Option A → Result Err A
or_not_exist none = err os_not_exist
or_not_exist (some a) = ok a

unfoldable pub get_record : Tables → Bytes → ℕ → Result Err VersionRecord
get_record t p v = or_not_exist (find_version p v t.version)

unfoldable pub get_latest_record : Tables → Bytes → Result Err VersionRecord
get_latest_record t p = or_not_exist (latest_version p t.version)

unfoldable pub get_version_data : Tables → Bytes → ℕ → Result Err Bytes
get_version_data t p v = or_not_exist (find_blob p v t.version_blob)
