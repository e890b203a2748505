-- ===== src/Server/Tree/Survives.antt =====
-- What any sequence of the requests that change files leaves of the version store.
use roodox_sever_win.Base.{
  ℕ, ◌≡◌, ◌≢◌, ◌⊎◌, refl, sym, inl, inr, Option, none, some, Bytes, Bool-cases, bytes_eq,
  bytes_eq_iff, List, [], ◌∷◌, ℤ, if◌then◌else◌, arith,
}
use roodox_sever_win.Base.Time.{unix}
use roodox_sever_win.Errors.{Result, ok, err, Err}
use roodox_sever_win.Fs.Root.{normalize_project_path}
use roodox_sever_win.Fs.Disk.{Disk, remove_path, rename_path}
use roodox_sever_win.Db.Tables.{Tables, Meta, VersionRecord}
use roodox_sever_win.Db.Metas.{get_meta, set_meta}
use roodox_sever_win.Db.Versions.{get_record, get_version_data}
use roodox_sever_win.Db.Versions.Writes.{Keeps, Keeps-refl, dir_meta}
use roodox_sever_win.Db.Versions.Kept.{append_delete_snapshot-Keeps}
use roodox_sever_win.Db.Renames.{moved_path}
use roodox_sever_win.Db.Renames.Moved.{MovesByPath, rename_path_tree-MovesByPath}
use roodox_sever_win.Server.Mutations.{Store}
use roodox_sever_win.Server.Sync
use roodox_sever_win.Server.Sync.{do_write_file, is_ok}
use roodox_sever_win.Server.Sync.Versions.{do_write_file-KeepsVersions}
use roodox_sever_win.Server.Core.{Env, with_path, write_file_range, set_size}
use roodox_sever_win.Server.Core.Kept.{
  KeepsVersions, with_path-Keeps, write_file_range-Keeps, set_size-Keeps,
}
use roodox_sever_win.Server.Tree.{
  size_of_meta, renamed, delete_removed, delete_sized, delete, at_path, rename_moved, rename_paths,
  rename, make_dir, mkdir,
}

-- The requests that change files, each with what is reported to it.
pub data Request : Type 0 where
  writes : Sync.Env → Bytes → Option Bytes → ℕ → Request
  writes_range : Env → Bytes → ℤ → Bytes → ℕ → Request
  sets_size : Env → Bytes → ℤ → ℕ → Request
  deletes : Env → Bytes → Request
  renames : Env → Bytes → Bytes → Request
  makes_dir : Env → Bytes → Request

unfoldable pub serve : Store → Request → Store
serve s (writes env path bytes base) = (do_write_file env s path bytes base).1
serve s (writes_range env path offset bytes base) =
    (write_file_range env s path offset bytes base).1
serve s (sets_size env path size base) = (set_size env s path size base).1
serve s (deletes env path) = (delete env s path).1
serve s (renames env old_path new_path) = (rename env s old_path new_path).1
serve s (makes_dir env path) = (mkdir env s path).1

unfoldable pub serves : Store → List Request → Store
serves s [] = s
serves s (r ∷ rs) = serves (serve s r) rs

-- Where a rename moves a path, of normal paths.
unfoldable pub moved_between : Env → Store → Bytes → Bytes → Bytes → Bytes
moved_between env s old new q =
    if bytes_eq old new
    then q
    else if is_ok (rename_paths env s old new).0
    then moved_path old new q
    else q

unfoldable pub moved_to : Env → Store → Bytes → Bytes → Result Err Bytes → Bytes
unfolding moved_between
moved_to env s q old (ok new) = moved_between env s old new q
moved_to env s q old (err e) = q

unfoldable pub moved_from : Env → Store → Bytes → Bytes → Result Err Bytes → Bytes
unfolding moved_to
moved_from env s new_path q (ok old) =
    moved_to env s q old (normalize_project_path env.root new_path)
moved_from env s new_path q (err e) = q

-- Where a path is after a request: a rename of one path to another that succeeds moves it.
unfoldable pub moved_by : Store → Request → Bytes → Bytes
unfolding moved_from
moved_by s (renames env old_path new_path) q =
    moved_from env s new_path q (normalize_project_path env.root old_path)
moved_by s (writes env path bytes base) q = q
moved_by s (writes_range env path offset bytes base) q = q
moved_by s (sets_size env path size base) q = q
moved_by s (deletes env path) q = q
moved_by s (makes_dir env path) q = q

unfoldable pub moved_by_all : Store → List Request → Bytes → Bytes
moved_by_all s [] q = q
moved_by_all s (r ∷ rs) q = moved_by_all (serve s r) rs (moved_by s r q)

-- Every version reads at the moved path as it did.
pub record Survives (move : Bytes → Bytes) (t t' : Tables) : Type 0 where
  pub records :
      (p : Bytes) (v : ℕ) (r : VersionRecord)
      → get_record t p v ≡ ok r
      → get_record t' (move p) v ≡ ok r
  pub contents :
      (p : Bytes) (v : ℕ) (d : Bytes)
      → get_version_data t p v ≡ ok d
      → get_version_data t' (move p) v ≡ ok d

MovesByPath-Survives :
    (old new : Bytes) (t t' : Tables)
    → MovesByPath old new t t'
    → Survives (moved_path old new) t t'
MovesByPath-Survives old new t t' m = record { records = m.records; contents = m.contents }

Keeps-Survives : (t t' : Tables) → Keeps t t' → Survives (λ q. q) t t'
Keeps-Survives t t' k = record { records = k.records; contents = k.contents }

Survives-trans :
    (f g : Bytes → Bytes) (t u v : Tables)
    → Survives f t u
    → Survives g u v
    → Survives (λ q. g (f q)) t v
Survives-trans f g t u v a b = record {
  records = λ p n r h. b.records (f p) n r (a.records p n r h);
  contents = λ p n d h. b.contents (f p) n d (a.contents p n d h);
}

delete_removed-Keeps :
    (env : Env) (p : Bytes) (size : ℕ) (s : Store) (r : Result Err (Unit {0}) × Disk)
    → KeepsVersions s (delete_removed env p size s r).1
unfolding delete_removed
delete_removed-Keeps env p size s (ok u, d) =
    append_delete_snapshot-Keeps env.save p size (unix env.save_time) [] s.tables
delete_removed-Keeps env p size s (err e, d) = Keeps-refl s.tables

delete_sized-Keeps :
    (env : Env) (p : Bytes) (s : Store) (size : Result Err ℕ)
    → KeepsVersions s (delete_sized env p s size).1
unfolding delete_sized
delete_sized-Keeps env p s (ok size) =
    delete_removed-Keeps env p size s (remove_path env.change env.is_dir s.disk p)
delete_sized-Keeps env p s (err e) = Keeps-refl s.tables

delete-Keeps : (env : Env) (s : Store) (path : Bytes) → KeepsVersions s (delete env s path).1
unfolding delete
delete-Keeps env s path =
    with_path-Keeps s _ (normalize_project_path env.root path)
      (λ p. delete_sized-Keeps env p s (size_of_meta (get_meta env.head.meta s.tables p)))

set_meta-Keeps : (fault : Option Err) (t : Tables) (m : Meta) → Keeps t (set_meta fault t m).1
unfolding set_meta get_record get_version_data
set_meta-Keeps none t m = record { records = λ p v r h. h; contents = λ p v d h. h }
set_meta-Keeps (some e) t m = Keeps-refl t

make_dir-Keeps :
    (env : Env) (s : Store) (p : Bytes) (fault : Option Err)
    → KeepsVersions s (make_dir env s p fault).1
unfolding make_dir
make_dir-Keeps env s p none = set_meta-Keeps env.set s.tables (dir_meta p)
make_dir-Keeps env s p (some e) = Keeps-refl s.tables

mkdir-Keeps : (env : Env) (s : Store) (path : Bytes) → KeepsVersions s (mkdir env s path).1
unfolding mkdir
mkdir-Keeps env s path =
    with_path-Keeps s _ (normalize_project_path env.root path)
      (λ p. make_dir-Keeps env s p env.change)

Survives-ext :
    (f g : Bytes → Bytes) (t t' : Tables)
    → ((q : Bytes) → f q ≡ g q)
    → Survives f t t'
    → Survives g t t'
Survives-ext f g t t' e a = record {
  records = λ p v r h. rw (sym (e p)) (a.records p v r h);
  contents = λ p v d h. rw (sym (e p)) (a.contents p v d h);
}

-- Of a rename that has moved the files, to another path.
renamed-Survives :
    (env : Env) (old new : Bytes) (s : Store) (d : Disk) (r : Result Err (Unit {0}) × Tables)
    → ((e : Err) × (r ≡ (err e, s.tables)))
      ⊎ ((t' : Tables) × (r ≡ (ok tt, t')) × MovesByPath old new s.tables t')
    → Survives
        (λ q. if is_ok (renamed env old new s d r).0 then moved_path old new q else q)
        s.tables
        (renamed env old new s d r).1.tables
renamed-Survives env old new s d r (inl (e, h)) =
    rw h (Keeps-Survives s.tables s.tables (Keeps-refl s.tables))
renamed-Survives env old new s d r (inr (t', h, m)) =
    rw h (MovesByPath-Survives old new s.tables t' m)

rename_moved-Survives :
    (env : Env) (old new : Bytes) (s : Store) (r : Result Err (Unit {0}) × Disk)
    → old ≢ new
    → Survives
        (λ q. if is_ok (rename_moved env old new s r).0 then moved_path old new q else q)
        s.tables
        (rename_moved env old new s r).1.tables
unfolding rename_moved
rename_moved-Survives env old new s (ok u, d) n =
    renamed-Survives env old new s d _ (rename_path_tree-MovesByPath env.save old new s.tables n)
rename_moved-Survives env old new s (err e, d) n =
    Keeps-Survives s.tables s.tables (Keeps-refl s.tables)

rename_paths-Survives :
    (env : Env) (s : Store) (old new : Bytes)
    → Survives (moved_between env s old new) s.tables (rename_paths env s old new).1.tables
unfolding rename_paths moved_between
rename_paths-Survives env s old new = elim (Bool-cases (bytes_eq old new)) [
  | inl e ↦
      Survives-ext (λ q. q) _ s.tables _ (λ q. rw e refl)
        (rw e (Keeps-Survives s.tables s.tables (Keeps-refl s.tables)))
  | inr e ↦
      Survives-ext
        (λ q.
          if is_ok (rename_moved env old new s (rename_path env.change env.is_dir s.disk old new)).0
          then moved_path old new q
          else q)
        _ s.tables _ (λ q. rw e refl)
        (rw e (rename_moved-Survives env old new s _ (ground (arith, e, bytes_eq_iff old new))))
]

to-Survives :
    (env : Env) (s : Store) (old : Bytes) (new : Result Err Bytes)
    → Survives
        (λ q. moved_to env s q old new)
        s.tables
        (with_path s (rename_paths env s old) new).1.tables
unfolding moved_to
to-Survives env s old (ok new) = rename_paths-Survives env s old new
to-Survives env s old (err e) = Keeps-Survives s.tables s.tables (Keeps-refl s.tables)

from-Survives :
    (env : Env) (s : Store) (new_path : Bytes) (old : Result Err Bytes)
    → Survives
        (λ q. moved_from env s new_path q old)
        s.tables
        (with_path s (λ o. at_path env s new_path (rename_paths env s o)) old).1.tables
unfolding moved_from
from-Survives env s new_path (ok old) =
    to-Survives env s old (normalize_project_path env.root new_path)
from-Survives env s new_path (err e) = Keeps-Survives s.tables s.tables (Keeps-refl s.tables)

serve-Survives : (s : Store) (r : Request) → Survives (moved_by s r) s.tables (serve s r).tables
unfolding serve moved_by rename
serve-Survives s (writes env path bytes base) =
    Keeps-Survives s.tables _ (do_write_file-KeepsVersions env s path bytes base)
serve-Survives s (writes_range env path offset bytes base) =
    Keeps-Survives s.tables _ (write_file_range-Keeps env s path offset bytes base)
serve-Survives s (sets_size env path size base) =
    Keeps-Survives s.tables _ (set_size-Keeps env s path size base)
serve-Survives s (deletes env path) = Keeps-Survives s.tables _ (delete-Keeps env s path)
serve-Survives s (renames env old_path new_path) =
    from-Survives env s new_path (normalize_project_path env.root old_path)
serve-Survives s (makes_dir env path) = Keeps-Survives s.tables _ (mkdir-Keeps env s path)

-- No version is lost: after any sequence of WriteFile, WriteFileRange, SetFileSize, Delete,
-- Rename and Mkdir requests, on any tables and whatever is reported to them, every record and
-- every content reads as before, under the path to which the renames that succeeded have moved
-- its own.
pub serves-Survives :
    (s : Store) (rs : List Request) → Survives (moved_by_all s rs) s.tables (serves s rs).tables
unfolding serves moved_by_all
serves-Survives s [] = Keeps-Survives s.tables s.tables (Keeps-refl s.tables)
serves-Survives s (r ∷ rs) =
    Survives-trans (moved_by s r) (moved_by_all (serve s r) rs) s.tables (serve s r).tables
      (serves (serve s r) rs).tables (serve-Survives s r) (serves-Survives (serve s r) rs)
