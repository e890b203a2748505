-- ===== src/Db/Tables.antt =====
-- The tables of schema version 1 (internal/db/migrations.go) and the statements that version.go
-- and meta.go send to them. A table with a primary key on the path is a map; one with a key on
-- the path and the version is a list of rows, newest first. A blob that Go has as nil is `none`.
use roodox_sever_win.Base.{
  ℕ, Bool, ◌&&◌, Option, none, some, List, [], ◌∷◌, Bytes, bytes_eq, ◌==◌, ltb, ℤ, max,
  if◌then◌else◌,
}
use roodox_sever_win.Base.Dict.{Dict, get}

-- fs.Meta
pub record Meta : Type 0 where
  pub path : Bytes
  pub is_dir : Bool
  pub size : ℕ
  pub mtime_unix : ℤ
  pub hash : Bytes
  pub version : ℕ

-- fs.VersionRecord
pub record VersionRecord : Type 0 where
  pub version : ℕ
  pub mtime_unix : ℤ
  pub hash : Bytes
  pub size : ℕ
  pub client_id : Bytes
  pub change_type : Bytes

pub record VersionRow : Type 0 where
  pub path : Bytes
  pub rec : VersionRecord

pub record BlobRow : Type 0 where
  pub path : Bytes
  pub version : ℕ
  pub content : Bytes

pub record Tables : Type 0 where
  pub meta : Dict Meta
  pub file_head : Dict ℕ
  pub version : List VersionRow
  pub version_blob : List BlobRow

-- SELECT COALESCE(MAX(version), 0) FROM version WHERE path = ?
unfoldable pub max_version : Bytes → List VersionRow → ℕ
max_version p [] = 0
max_version p (r ∷ rs) =
    let rest = max_version p rs in if bytes_eq r.path p then max r.rec.version rest else rest

-- SELECT … FROM version WHERE path = ? AND version = ?
unfoldable pub find_version : Bytes → ℕ → List VersionRow → Option VersionRecord
find_version p v [] = none
find_version p v (r ∷ rs) =
    if bytes_eq r.path p && r.rec.version == v then some r.rec else find_version p v rs

abbrev pub newer : VersionRecord → Option VersionRecord → VersionRecord
newer r none = r
newer r (some best) = if ltb r.version best.version then best else r

-- SELECT … FROM version WHERE path = ? ORDER BY version DESC LIMIT 1
unfoldable pub latest_version : Bytes → List VersionRow → Option VersionRecord
latest_version p [] = none
latest_version p (r ∷ rs) =
    let rest = latest_version p rs in if bytes_eq r.path p then some (newer r.rec rest) else rest

unfoldable pub insert_by_version : VersionRecord → List VersionRecord → List VersionRecord
insert_by_version r [] = r ∷ []
insert_by_version r (s ∷ ss) =
    let rest = insert_by_version r ss in if ltb s.version r.version then s ∷ rest else r ∷ s ∷ ss

-- SELECT … FROM version WHERE path = ? ORDER BY version ASC
unfoldable pub history_of : Bytes → List VersionRow → List VersionRecord
unfolding insert_by_version
history_of p [] = []
history_of p (r ∷ rs) =
    let rest = history_of p rs in if bytes_eq r.path p then insert_by_version r.rec rest else rest

-- SELECT data FROM version_blob WHERE path = ? AND version = ?
unfoldable pub find_blob : Bytes → ℕ → List BlobRow → Option Bytes
find_blob p v [] = none
find_blob p v (b ∷ bs) =
    if bytes_eq b.path p && b.version == v then some b.content else find_blob p v bs

-- The version in the path's row of `meta`, 0 without one.
abbrev pub meta_version : Tables → Bytes → ℕ
meta_version t p = elim (get t.meta p) [ none ↦ 0 | some m ↦ m.version ]
