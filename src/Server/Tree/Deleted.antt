-- ===== src/Server/Tree/Deleted.antt =====
-- Delete of a file, on all of its branches.
use roodox_sever_win.Base.{
  ℕ, suc, ◌≡◌, ◌≢◌, refl, inl, inr, Option, none, some, Bool, true, false, Bytes, bytes_eq_iff,
  arith, [],
}
use roodox_sever_win.Base.Dict.{get, remove, get-remove}
use roodox_sever_win.Base.Time.{unix}
use roodox_sever_win.Errors.{Result, ok, err, Err, Code, os_not_exist, to_grpc_error}
use roodox_sever_win.Fs.Root.{normalize_project_path}
use roodox_sever_win.Fs.Disk.{File, removed, remove_path}
use roodox_sever_win.Db.Tables.{Tables}
use roodox_sever_win.Db.Metas.{get_meta}
use roodox_sever_win.Db.Versions.{current_version}
use roodox_sever_win.Db.Versions.Bounds.{IsBounded}
use roodox_sever_win.Db.Versions.Numbers.{delete_record}
use roodox_sever_win.Db.Versions.History.{Extends}
use roodox_sever_win.Db.Versions.Writes.{Writes, append_delete_snapshot-Writes}
use roodox_sever_win.Server.Mutations.{Store}
use roodox_sever_win.Server.Core.{Env}
use roodox_sever_win.Server.Tree.{Done, deleted, size_of_meta, delete_removed, delete_sized, delete}

-- The file is gone, and every other file is as it was.
pub record Removes (s : Store) (p : Bytes) (s' : Store) : Type 0 where
  pub gone : get s'.disk p ≡ none
  pub elsewhere : (k : Bytes) → k ≢ p → get s'.disk k ≡ get s.disk k

-- Nothing has changed; or the file is gone, and the database has failed; or the deletion is the
-- path's newest version.
pub data Deletes (env : Env) (s : Store) (p : Bytes) (size : ℕ) : Done → Type 0 where
  fails : (c : Code) → Deletes env s p size (err c, s)
  unrecorded :
      (c : Code) (s' : Store)
      → Removes s p s'
      → s'.tables ≡ s.tables
      → Deletes env s p size (err c, s')
  recorded :
      (s' : Store)
      → Removes s p s'
      → Extends p
          (delete_record size (unix env.save_time) [] (suc (current_version s.tables p)))
          none
          s.tables
          s'.tables
      → IsBounded s'.tables
      → Deletes env s p size (ok tt, s')

remove-Removes :
    (s : Store) (p : Bytes) (t : Tables)
    → Removes s p (record s { disk = remove s.disk p; tables = t })
remove-Removes s p t = record {
  gone = ground (arith, get-remove s.disk p p, bytes_eq_iff p p);
  elsewhere = λ k n. ground (arith, get-remove s.disk p k, bytes_eq_iff p k);
}

deleted-Deletes :
    (env : Env) (s : Store) (p : Bytes) (size : ℕ) (r : Result Err ℕ × Tables)
    → Writes p
        (delete_record size (unix env.save_time) [] (suc (current_version s.tables p)))
        none
        s.tables
        r
    → Deletes env s p size (deleted s (remove s.disk p) r)
deleted-Deletes env s p size r (inl (e, h)) =
    rw h (unrecorded (to_grpc_error e) _ (remove-Removes s p s.tables) refl)
deleted-Deletes env s p size r (inr (t', h, x, b)) = rw h (recorded _ (remove-Removes s p t') x b)

found-Deletes :
    (env : Env) (s : Store) (p : Bytes) (size : ℕ) (o : Option File)
    → IsBounded s.tables
    → Deletes env s p size (delete_removed env p size s (removed s.disk p o))
unfolding delete_removed
found-Deletes env s p size none b = fails (to_grpc_error os_not_exist)
found-Deletes env s p size (some f) b =
    deleted-Deletes env s p size _
      (append_delete_snapshot-Writes env.save p size (unix env.save_time) [] s.tables b)

removed-Deletes :
    (env : Env) (s : Store) (p : Bytes) (size : ℕ) (fault : Option Err) (is_dir : Bool)
    → IsBounded s.tables
    → is_dir ≡ false
    → Deletes env s p size (delete_removed env p size s (remove_path fault is_dir s.disk p))
unfolding delete_removed remove_path
removed-Deletes env s p size (some e) is_dir b h = fails (to_grpc_error e)
removed-Deletes env s p size none true b h = absurd (cc h)
removed-Deletes env s p size none false b h = found-Deletes env s p size (get s.disk p) b

-- Delete on bounded tables when the path normalises to p, the size in its meta row is found (0
-- without a row), and no directory stands at p. Either it fails and nothing has changed; or the
-- file is gone and every other file is as it was, and then either it fails and the tables are as
-- they were, or it succeeds and the version store is extended by a deletion of p with that size,
-- which is numbered after the current version and has no content.
pub delete-Deletes :
    (env : Env) (s : Store) (path p : Bytes) (size : ℕ)
    → IsBounded s.tables
    → normalize_project_path env.root path ≡ ok p
    → size_of_meta (get_meta env.head.meta s.tables p) ≡ ok size
    → env.is_dir ≡ false
    → Deletes env s p size (delete env s path)
unfolding delete delete_sized
delete-Deletes env s path p size b e m d =
    rw (e, m) (removed-Deletes env s p size env.change env.is_dir b d)
