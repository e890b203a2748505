-- ===== src/Server/Tree.antt =====
-- internal/server/core_service.go: Delete, Rename and Mkdir, with the paths' locks held for the
-- whole call, and what a call is given as in Core.
pub mod Survives
pub mod Lost
pub mod Deleted
mod Tests
use roodox_sever_win.Base.{
  ℕ, Option, none, some, Bool, true, false, [], Bytes, bytes_eq, if◌then◌else◌,
}
use roodox_sever_win.Base.Time.{unix}
use roodox_sever_win.Errors.{Result, Code, ok, err, Err, grpc, to_grpc_error, is_not_exist, ◌>>=◌}
use roodox_sever_win.Fs.Root.{normalize_project_path}
use roodox_sever_win.Fs.Disk.{Disk, remove_path, rename_path}
use roodox_sever_win.Db.Tables.{Tables, Meta}
use roodox_sever_win.Db.Metas.{get_meta, set_meta}
use roodox_sever_win.Db.Versions.{append_delete_snapshot}
use roodox_sever_win.Db.Versions.Writes.{dir_meta}
use roodox_sever_win.Db.Renames.{rename_path_tree}
use roodox_sever_win.Server.Mutations.{Store}
use roodox_sever_win.Server.Core.{Env, with_path}

-- A response without fields.
abbrev pub Done : Type 0
Done = Result Code (Unit {0}) × Store

abbrev pub done : {A : Type 0} → Result Err A → Result Code (Unit {0})
done r = grpc (r >>= λ _. ok tt)

-- The size in the meta row, 0 without one.
unfoldable pub size_of_meta : Result Err Meta → Result Err ℕ
size_of_meta (ok m) = ok m.size
size_of_meta (err e) = if is_not_exist e then ok 0 else err e

abbrev pub deleted : Store → Disk → Result Err ℕ × Tables → Done
deleted s d (r, t) = (done r, record s { disk = d; tables = t })

unfoldable pub delete_removed : Env → Bytes → ℕ → Store → Result Err (Unit {0}) × Disk → Done
delete_removed env p size s (ok _, d) =
    deleted s d (append_delete_snapshot env.save p size (unix env.save_time) [] s.tables)
delete_removed env p size s (err e, d) = (err (to_grpc_error e), record s { disk = d })

unfoldable pub delete_sized : Env → Bytes → Store → Result Err ℕ → Done
unfolding delete_removed
delete_sized env p s (ok size) =
    delete_removed env p size s (remove_path env.change env.is_dir s.disk p)
delete_sized env p s (err e) = (err (to_grpc_error e), s)

-- A handler behind the call that begins it.
abbrev pub at_path : Env → Store → Bytes → (Bytes → Done) → Done
at_path env s path handler = with_path s handler (normalize_project_path env.root path)

-- Delete
unfoldable pub delete : Env → Store → Bytes → Done
unfolding delete_sized size_of_meta
delete env s path =
    at_path env s path
      (λ p. delete_sized env p s (size_of_meta (get_meta env.head.meta s.tables p)))

-- The database has failed: the files are moved back, and an error of that is only logged.
abbrev pub renamed : Env → Bytes → Bytes → Store → Disk → Result Err (Unit {0}) × Tables → Done
renamed env old new s d (ok _, t) = (ok tt, record s { disk = d; tables = t })
renamed env old new s d (err e, t) = (
  err (to_grpc_error e),
  record s { disk = (rename_path env.revert env.is_dir d new old).1; tables = t },
)

unfoldable pub rename_moved : Env → Bytes → Bytes → Store → Result Err (Unit {0}) × Disk → Done
rename_moved env old new s (ok _, d) =
    renamed env old new s d (rename_path_tree env.save old new s.tables)
rename_moved env old new s (err e, d) = (err (to_grpc_error e), record s { disk = d })

unfoldable pub rename_paths : Env → Store → Bytes → Bytes → Done
unfolding rename_moved
rename_paths env s old new =
    if bytes_eq old new
    then (ok tt, s)
    else rename_moved env old new s (rename_path env.change env.is_dir s.disk old new)

-- Rename
unfoldable pub rename : Env → Store → Bytes → Bytes → Done
rename env s old_path new_path =
    at_path env s old_path (λ old. at_path env s new_path (λ new. rename_paths env s old new))

abbrev pub dir_set : Store → Result Err (Unit {0}) × Tables → Done
dir_set s (r, t) = (done r, record s { tables = t })

unfoldable pub make_dir : Env → Store → Bytes → Option Err → Done
make_dir env s p none = dir_set s (set_meta env.set s.tables (dir_meta p))
make_dir env s p (some e) = (err (to_grpc_error e), s)

-- Mkdir
unfoldable pub mkdir : Env → Store → Bytes → Done
unfolding make_dir
mkdir env s path = at_path env s path (λ p. make_dir env s p env.change)
