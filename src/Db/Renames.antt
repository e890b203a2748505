-- ===== src/Db/Renames.antt =====
-- RenamePathTree of internal/db/version.go: one UPDATE for each of the four tables. LIKE compares
-- ASCII letters without their case. A table refuses an updated row whose key another row has.
pub mod Rows
pub mod Lookups
pub mod Places
pub mod Statements
pub mod Moved
use roodox_sever_win.Base.{
  ℕ, Bool, true, false, ◌||◌, ◌&&◌, Option, none, some, List, [], ◌∷◌, ◌++◌, Bytes, bytes_eq, ◌==◌,
  drop, length, if◌then◌else◌,
}
use roodox_sever_win.Base.Dict.{Dict}
use roodox_sever_win.Errors.{Result, ok, err, Err, other}
use roodox_sever_win.Fs.RelPath.{slash, has_prefix}
use roodox_sever_win.Fs.Ignore.{to_lower}
use roodox_sever_win.Db.Tables.{Tables, Meta, VersionRow, BlobRow}
use roodox_sever_win.Db.Tx.{Tx, ◌>>=◌, ◌>>◌, with_write_tx}

-- What a statement reads and sets of a row: its key is the path, and a number where the table
-- has one.
pub record Columns (R : Type 0) : Type 0 where
  pub path : R → Bytes
  pub number : R → ℕ
  pub set_path : Bytes → R → R

-- WHERE path = ? OR path LIKE ? ESCAPE '\'
unfoldable pub in_tree : Bytes → Bytes → Bool
in_tree old p = bytes_eq p old || has_prefix (to_lower p) (to_lower (old ++ (slash ∷ [])))

-- SET path = CASE WHEN path = ? THEN ? ELSE ? || substr(path, ?) END
unfoldable pub new_path : Bytes → Bytes → Bytes → Bytes
new_path old new p = if bytes_eq p old then new else new ++ drop (length old) p

unfoldable pub moved_path : Bytes → Bytes → Bytes → Bytes
moved_path old new p = if in_tree old p then new_path old new p else p

module _ {R : Type 0} (c : Columns R) where
  -- A row with this key.
  unfoldable pub has_row : Bytes → ℕ → List R → Bool
  has_row p v [] = false
  has_row p v (r ∷ rs) =
      let rest = has_row p v rs in if bytes_eq (c.path r) p && c.number r == v then true else rest

  abbrev pub cons_row : R → Result Err (List R) → Result Err (List R)
  cons_row r (ok rs) = ok (r ∷ rs)
  cons_row r (err e) = err e

  -- The rows that the statement has passed, and those to come.
  unfoldable pub rename_rows : Bytes → Bytes → List R → List R → Result Err (List R)
  rename_rows old new done [] = ok []
  rename_rows old new done (r ∷ rs) =
      let q = new_path old new (c.path r) in
      let moved = cons_row (c.set_path q r) (rename_rows old new (c.set_path q r ∷ done) rs) in
      let same = cons_row r (rename_rows old new (r ∷ done) rs) in
      if in_tree old (c.path r)
      then (if has_row q (c.number r) done || has_row q (c.number r) rs then err other else moved)
      else same

abbrev pub meta_columns : Columns (Bytes × Meta)
meta_columns = record {
  path = λ e. e.0;
  number = λ e. 0;
  set_path = λ q e. (q, record (e.1) { path = q });
}

abbrev pub head_columns : Columns (Bytes × ℕ)
head_columns = record { path = λ e. e.0; number = λ e. 0; set_path = λ q e. (q, e.1) }

abbrev pub version_columns : Columns VersionRow
version_columns = record {
  path = λ r. r.path;
  number = λ r. r.rec.version;
  set_path = λ q r. record r { path = q };
}

abbrev pub blob_columns : Columns BlobRow
blob_columns = record {
  path = λ r. r.path;
  number = λ r. r.version;
  set_path = λ q r. record r { path = q };
}

abbrev pub set_rows :
    {R : Type 0} → (List R → Tables) → Result Err (List R) → Result Err (Unit {0} × Tables)
set_rows f (ok rs) = ok (tt, f rs)
set_rows f (err e) = err e

pub rename_meta : Bytes → Bytes → Tx (Unit {0})
rename_meta old new t =
    set_rows (λ rs. record t { meta = rs }) (rename_rows meta_columns old new [] t.meta)

pub rename_head : Bytes → Bytes → Tx (Unit {0})
rename_head old new t =
    set_rows (λ rs. record t { file_head = rs }) (rename_rows head_columns old new [] t.file_head)

pub rename_version : Bytes → Bytes → Tx (Unit {0})
rename_version old new t =
    set_rows (λ rs. record t { version = rs }) (rename_rows version_columns old new [] t.version)

pub rename_blob : Bytes → Bytes → Tx (Unit {0})
rename_blob old new t =
    set_rows (λ rs. record t { version_blob = rs })
      (rename_rows blob_columns old new [] t.version_blob)

pub rename_path_tree_tx : Bytes → Bytes → Tx (Unit {0})
unfolding rename_meta rename_head rename_version rename_blob
rename_path_tree_tx old new = do
  rename_meta old new
  rename_head old new
  rename_version old new
  rename_blob old new

unfoldable pub rename_path_tree :
    (ℕ → Option Err) → Bytes → Bytes → Tables → Result Err (Unit {0}) × Tables
rename_path_tree faults old new t =
    if bytes_eq old new then (ok tt, t) else with_write_tx faults (rename_path_tree_tx old new) t
