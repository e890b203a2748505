-- ===== src/Server/Tree/Lost.antt =====
-- Rename onto another file that the database knows.
use roodox_sever_win.Base.{
  ℕ, ◌≡◌, refl, ap, ◌∙◌, none, some, Bool, true, false, [], ◌∷◌, ◌++◌, Bytes, bytes_eq,
  bytes_eq_iff, arith,
}
use roodox_sever_win.Base.Dict.{get, put, remove, get-put, get-remove}
use roodox_sever_win.Errors.{Result, ok, err, Err, to_grpc_error}
use roodox_sever_win.Fs.RelPath.{slash, has_prefix}
use roodox_sever_win.Fs.Ignore.{to_lower}
use roodox_sever_win.Fs.Root.{normalize_project_path}
use roodox_sever_win.Fs.Disk.{Disk, File, any_below, rename_path}
use roodox_sever_win.Db.Renames.{in_tree, rename_path_tree}
use roodox_sever_win.Db.Renames.Moved.{rename_path_tree_taken}
use roodox_sever_win.Server.Mutations.{Store}
use roodox_sever_win.Server.Core.{Env}
use roodox_sever_win.Server.Tree.{Done, rename_moved, rename_paths, rename}

has_prefix-lower :
    (p q : Bytes) → has_prefix p q ≡ true → has_prefix (to_lower p) (to_lower q) ≡ true
unfolding has_prefix to_lower
has_prefix-lower p [] h = refl
has_prefix-lower [] (y ∷ q) h = cc h
has_prefix-lower (x ∷ p) (y ∷ q) h = ground (arith, has_prefix-lower p q)

outside_below :
    (old new : Bytes) → in_tree old new ≡ false → has_prefix new (old ++ (slash ∷ [])) ≡ false
unfolding in_tree
outside_below old new h = ground (arith, has_prefix-lower new (old ++ (slash ∷ [])))

not_below :
    (p : Bytes) (d : Disk) (k : Bytes) (f : File)
    → any_below p d ≡ false
    → get d k ≡ some f
    → has_prefix k (p ++ (slash ∷ [])) ≡ false
unfolding any_below get
not_below p [] k f h e = cc e
not_below p ((q, g) ∷ d) k f h e =
    ground (arith, not_below p d k f, bytes_eq_iff q k, bytes_eq_iff k q)

any_below-remove :
    (p : Bytes) (d : Disk) (k : Bytes) → any_below p d ≡ false → any_below p (remove d k) ≡ false
unfolding any_below remove
any_below-remove p [] k h = refl
any_below-remove p ((q, f) ∷ d) k h = ground (arith, any_below-remove p d k)

any_below-put :
    (p : Bytes) (d : Disk) (k : Bytes) (f : File)
    → any_below p d ≡ false
    → has_prefix k (p ++ (slash ∷ [])) ≡ false
    → any_below p (put d k f) ≡ false
unfolding any_below put
any_below-put p d k f h n = ground (arith, any_below-remove p d k)

-- The file of the other path is gone, the renamed one is back, and the tables are as they were.
pub record OverwrittenByRename (s : Store) (old new : Bytes) (f : File) (r : Done) : Type 0 where
  pub fails : (e : Err) × (r.0 ≡ err (to_grpc_error e))
  pub same_tables : r.1.tables ≡ s.tables
  pub lost : get r.1.disk new ≡ none
  pub back : get r.1.disk old ≡ some f

rename_file :
    (d : Disk) (is_dir : Bool) (old new : Bytes) (f : File)
    → get d old ≡ some f
    → any_below new d ≡ false
    → has_prefix new (old ++ (slash ∷ [])) ≡ false
    → rename_path none is_dir d old new ≡ (ok tt, put (remove d old) new f)
unfolding rename_path
rename_file d is_dir old new f a b c = rw (c, a, b) refl

put_here : (d : Disk) (p : Bytes) (f : File) → get (put d p f) p ≡ some f
put_here d p f = ground (arith, get-put d p p f, bytes_eq_iff p p)

-- The disk after the rename and its reversal.
abbrev there_and_back : Disk → Bytes → Bytes → File → Disk
there_and_back d old new f = put (remove (put (remove d old) new f) new) old f

gone :
    (d : Disk) (old new : Bytes) (f : File)
    → bytes_eq old new ≡ false
    → get (there_and_back d old new f) new ≡ none
gone d old new f n = ground (
  arith,
  get-put (remove (put (remove d old) new f) new) old new f,
  get-remove (put (remove d old) new f) new new,
  bytes_eq_iff new new,
)

overwritten :
    (env : Env) (s : Store) (old new : Bytes) (f : File)
    → bytes_eq old new ≡ false
    → env.revert ≡ none
    → any_below old (put (remove s.disk old) new f) ≡ false
    → has_prefix old (new ++ (slash ∷ [])) ≡ false
    → (r : Result Err (Unit {0}) × Disk) → r ≡ (ok tt, put (remove s.disk old) new f)
    → ((e : Err) × (rename_path_tree env.save old new s.tables ≡ (err e, s.tables)))
    → OverwrittenByRename s old new f (rename_moved env old new s r)
unfolding rename_moved
overwritten env s old new f n rev b c r h (e, k) =
    let m : rename_path env.revert env.is_dir (put (remove s.disk old) new f) new old
        ≡ (ok tt, there_and_back s.disk old new f) =
      rw rev (
        rename_file (put (remove s.disk old) new f) env.is_dir new old f
          (put_here (remove s.disk old) new f) b c) in
    rw (h, k)
      (record {
        fails = (e, refl);
        same_tables = refl;
        lost = ap (λ x. get x.1 new) m ∙ gone s.disk old new f n;
        back =
            ap (λ x. get x.1 old) m ∙ put_here (remove (put (remove s.disk old) new f) new) old f;
      })

rename_at :
    (env : Env) (s : Store) (old_path new_path old new : Bytes)
    → normalize_project_path env.root old_path ≡ ok old
    → normalize_project_path env.root new_path ≡ ok new
    → rename env s old_path new_path ≡ rename_paths env s old new
unfolding rename
rename_at env s old_path new_path old new a b = rw (a, b) refl

old_is_other : (old new : Bytes) → in_tree old new ≡ false → bytes_eq old new ≡ false
unfolding in_tree
old_is_other old new h = ground (arith, bytes_eq_iff old new, bytes_eq_iff new old)

-- Rename of a file to the path of another one, outside the tree below its own path, when both
-- paths have a file_head row and no call of the disk fails: it fails and leaves the tables as
-- they were, but the other file is gone from the disk, and the renamed file is back at its own
-- path.
pub rename_onto_known :
    (env : Env) (s : Store) (old_path new_path old new : Bytes) (f : File) (h k : ℕ)
    → normalize_project_path env.root old_path ≡ ok old
    → normalize_project_path env.root new_path ≡ ok new
    → in_tree old new ≡ false
    → get s.tables.file_head old ≡ some h
    → get s.tables.file_head new ≡ some k
    → get s.disk old ≡ some f
    → any_below old s.disk ≡ false
    → any_below new s.disk ≡ false
    → env.change ≡ none
    → env.revert ≡ none
    → OverwrittenByRename s old new f (rename env s old_path new_path)
unfolding rename_paths
rename_onto_known env s old_path new_path old new f h k a b out x y z u v c rev =
    let n = old_is_other old new out in
    rw (rename_at env s old_path new_path old new a b, n)
      (overwritten env s old new f n rev
        (any_below-put old (remove s.disk old) new f (any_below-remove old s.disk old u)
          (outside_below old new out))
        (not_below new s.disk old f v z) (rename_path env.change env.is_dir s.disk old new)
        (rw c (rename_file s.disk env.is_dir old new f z v (outside_below old new out)))
        (rename_path_tree_taken env.save old new s.tables h k out x y))
