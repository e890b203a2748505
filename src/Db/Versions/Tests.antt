-- ===== src/Db/Versions/Tests.antt =====
-- The version store at concrete inputs.
use roodox_sever_win.Base.{
  ℕ, suc, ◌≡◌, refl, ltb, false, Option, none, some, List, [], ◌∷◌, Bytes, codes, pos, arith,
  if◌then◌else◌,
}
use roodox_sever_win.Errors.{Err, ok, busy, other}
use roodox_sever_win.Db.Tables.{Tables, Meta}
use roodox_sever_win.Db.Tx.{Tx, with_write_tx}
use roodox_sever_win.Db.Tx.Retries.{Decides, with_write_tx-Decides}
use roodox_sever_win.Db.Versions.{
  current_version, save_file_snapshot, save_file_snapshot_tx, append_delete_snapshot,
}
use roodox_sever_win.Db.Versions.Numbers.{saved_record, delete_record}
use roodox_sever_win.Db.Versions.Writes.{
  Write, saves, deletes, makes_dir, writes, empty, Writes, save_file_snapshot-Writes,
  append_delete_snapshot-Writes, save_file_snapshot_succeeds, writes-IsBounded,
}

-- The engine is busy twice, and then reports no error.
abbrev busy_twice : ℕ → Option Err
busy_twice k = if ltb k 2 then some busy else none

abbrev fine : ℕ → Option Err
fine k = none

abbrev file : Meta
file = record {
  path = codes "a/f";
  is_dir = false;
  size = 2;
  mtime_unix = pos 7;
  hash = codes "h";
  version = 0;
}

abbrev client : Bytes
client = codes "c1"

abbrev some_writes : List Write
some_writes =
    makes_dir none (codes "a")
    ∷ saves busy_twice file client (codes "create") (some (codes "hi"))
    ∷ deletes (λ k. some other) (codes "a/f") 2 (pos 8) client
    ∷ []

abbrev tables : Tables
tables = writes empty some_writes

abbrev save_fn : Tx ℕ
save_fn = save_file_snapshot_tx file client (codes "modify") (some (codes "ho"))

with_write_tx-Decides_example :
    Decides busy_twice save_fn tables (with_write_tx busy_twice save_fn tables)
with_write_tx-Decides_example = with_write_tx-Decides busy_twice save_fn tables

save_file_snapshot-Writes_example :
    Writes
      (codes "a/f")
      (saved_record file client (codes "modify") (suc (current_version tables (codes "a/f"))))
      (some (codes "ho"))
      tables
      (save_file_snapshot busy_twice file client (codes "modify") (some (codes "ho")) tables)
save_file_snapshot-Writes_example =
    save_file_snapshot-Writes busy_twice file client (codes "modify") (some (codes "ho")) tables
      (writes-IsBounded some_writes)

append_delete_snapshot-Writes_example :
    Writes
      (codes "a/f")
      (delete_record 2 (pos 9) client (suc (current_version tables (codes "a/f"))))
      none
      tables
      (append_delete_snapshot fine (codes "a/f") 2 (pos 9) client tables)
append_delete_snapshot-Writes_example =
    append_delete_snapshot-Writes fine (codes "a/f") 2 (pos 9) client tables
      (writes-IsBounded some_writes)

save_file_snapshot_succeeds_example :
    (save_file_snapshot busy_twice file client (codes "modify") (some (codes "ho")) tables).0
    ≡ ok (suc (current_version tables (codes "a/f")))
save_file_snapshot_succeeds_example =
    save_file_snapshot_succeeds busy_twice file client (codes "modify") (some (codes "ho")) tables 2
      (writes-IsBounded some_writes) (omega arith) (λ j h. ground arith) refl
