-- ===== src/Server/Tree/Tests.antt =====
-- Deletes and renames on a root with one or two files.
use roodox_sever_win.Base.{
  ◌≡◌, ◌≢◌, refl, none, some, [], ◌∷◌, false, codes, pos, bytes_eq, bytes_eq_iff, ◌⊎◌, List,
}
use roodox_sever_win.Base.Dict.{get}
use roodox_sever_win.Errors.{ok, err, Err}
use roodox_sever_win.Fs.RelPath.{normalize_relative_path, check_clean, clean, has_prefix}
use roodox_sever_win.Fs.Ignore.{to_lower}
use roodox_sever_win.Fs.Root.{normalize_project_path}
use roodox_sever_win.Fs.Root.Requests.{normalize_project_path_lem}
use roodox_sever_win.Fs.Disk.{any_below}
use roodox_sever_win.Db.Metas.{get_meta}
use roodox_sever_win.Db.Tables.{Tables}
use roodox_sever_win.Db.Renames.{in_tree, rename_path_tree}
use roodox_sever_win.Db.Renames.Moved.{Moves, rename_path_tree-Moves}
use roodox_sever_win.Server.Mutations.{Store}
use roodox_sever_win.Server.Examples.{
  core_env, file, tables, store, tables-IsBounded, file_path, root_rooted,
}
use roodox_sever_win.Server.Core.{Env}
use roodox_sever_win.Server.Tree.{delete, size_of_meta, rename}
use roodox_sever_win.Server.Tree.Deleted.{Deletes, delete-Deletes}
use roodox_sever_win.Server.Tree.Lost.{OverwrittenByRename, rename_onto_known}
use roodox_sever_win.Server.Tree.Survives.{
  Request, writes_range, deletes, renames, makes_dir, serves, moved_by_all, Survives,
  serves-Survives,
}

abbrev env : Env
env = core_env

size_known : size_of_meta (get_meta env.head.meta store.tables file) ≡ ok 3
unfolding size_of_meta get_meta get bytes_eq
size_known = refl

delete-Deletes_example : Deletes env store file 3 (delete env store file)
delete-Deletes_example =
    delete-Deletes env store file file 3 tables-IsBounded file_path size_known refl

abbrev requests : List Request
requests =
    makes_dir env (codes "b")
    ∷ writes_range env file (pos 1) (codes "xy") 3
    ∷ renames env (codes "a") (codes "b/a")
    ∷ deletes env (codes "b/a/f")
    ∷ []

serves-Survives_example :
    Survives (moved_by_all store requests) store.tables (serves store requests).tables
serves-Survives_example = serves-Survives store requests

-- Another file, which the database knows too.
abbrev two_files : Store
two_files = record store {
  disk =
      (file, record { content = codes "old"; mtime = 7 })
      ∷ (codes "b/g", record { content = codes "mine"; mtime = 7 })
      ∷ [];
  tables = record tables { file_head = (file, 3) ∷ (codes "b/g", 1) ∷ [] };
}

other_normal : normalize_relative_path (codes "b/g") ≡ ok (codes "b/g")
unfolding normalize_relative_path check_clean clean bytes_eq
other_normal = refl

other_path : normalize_project_path (codes "/srv") (codes "b/g") ≡ ok (codes "b/g")
other_path = rw (normalize_project_path_lem (codes "/srv") (codes "b/g") root_rooted) other_normal

outside : in_tree file (codes "b/g") ≡ false
unfolding in_tree bytes_eq has_prefix to_lower
outside = refl

heads :
    (get two_files.tables.file_head file ≡ some 3)
    × (get two_files.tables.file_head (codes "b/g") ≡ some 1)
unfolding get bytes_eq
heads = (refl, refl)

on_disk : get two_files.disk file ≡ some (record { content = codes "old"; mtime = 7 })
unfolding get bytes_eq
on_disk = refl

no_dirs : (any_below file two_files.disk ≡ false) × (any_below (codes "b/g") two_files.disk ≡ false)
unfolding any_below has_prefix
no_dirs = (refl, refl)

rename_onto_known_example :
    OverwrittenByRename two_files file
      (codes "b/g")
      (record { content = codes "old"; mtime = 7 })
      (rename env two_files file (codes "b/g"))
rename_onto_known_example =
    rename_onto_known env two_files file (codes "b/g") file (codes "b/g")
      (record { content = codes "old"; mtime = 7 }) 3 1 file_path other_path outside heads.0 heads.1
      on_disk no_dirs.0 no_dirs.1 refl refl

file_is_other : bytes_eq file (codes "b/g") ≡ false
unfolding bytes_eq
file_is_other = refl

not_other : file ≢ codes "b/g"
not_other e = cc (file_is_other, (bytes_eq_iff file (codes "b/g")).1 e)

rename_path_tree-Moves_example :
    ((e : Err) × (rename_path_tree (λ k. none) file (codes "b/g") tables ≡ (err e, tables)))
    ⊎ ((t' : Tables) × (rename_path_tree (λ k. none) file (codes "b/g") tables ≡ (ok tt, t'))
        × Moves file (codes "b/g") tables t')
rename_path_tree-Moves_example =
    rename_path_tree-Moves (λ k. none) file (codes "b/g") tables not_other
