-- ===== src/Server/Sync/Retry.antt =====
-- A write that reached the disk and not the database, and the answer to the next one.
use roodox_sever_win.Base.{
  ℕ, ◌≡◌, ◌≢◌, refl, inl, inr, ◌∙◌, Option, none, some, true, false, Bytes, bytes_eq_iff, arith, [],
}
use roodox_sever_win.Base.Dict.{get, put}
use roodox_sever_win.Base.Time.{unix}
use roodox_sever_win.Errors.{Result, ok, err, Err, to_grpc_error}
use roodox_sever_win.Fs.Root.{normalize_project_path}
use roodox_sever_win.Fs.Disk.{File, stat, write_file, no_fault}
use roodox_sever_win.Db.Tables.{Tables, Meta}
use roodox_sever_win.Db.Versions.Bounds.{IsBounded}
use roodox_sever_win.Db.Versions.Writes.{Writes, save_file_snapshot-Writes}
use roodox_sever_win.Server.Mutations.{
  Store, FileHeadState, known_head, bytes_of, mutation_save, snapshot_meta, change_type_of,
}
use roodox_sever_win.Server.Mutations.Heads.{resolve_file_head_known}
use roodox_sever_win.Server.Sync.{
  Env, written, is_stale, is_unchanged, write_at_head, do_write_file, save_written, answer_saved,
}
use roodox_sever_win.Server.Sync.Stale.{do_write_file_at}
use roodox_sever_win.Server.Sync.Accepted.{new_record, put_here}

-- The bytes on the disk, and the tables as before.
abbrev pub with_bytes : Env → Store → Bytes → Option Bytes → Store
with_bytes env s p bytes = record s {
  disk = put s.disk p (record { content = bytes_of bytes; mtime = env.write_time });
}

err_inj : {a b : Err} → ◌≡◌ {A = Result Err ℕ} (err a) (err b) → a ≡ b
err_inj h = cc h

answer_saved_failed :
    (env : Env) (s : Store) (p : Bytes) (bytes : Option Bytes) (head : FileHeadState) (e : Err)
    (r : Result Err ℕ × Tables)
    → Writes p (new_record env s p bytes head) bytes s.tables r
    → r.0 ≡ err e
    → answer_saved s (with_bytes env s p bytes).disk r
      ≡ (err (to_grpc_error e), with_bytes env s p bytes)
answer_saved_failed env s p bytes head e r (inl (e', h)) f = rw h (rw (err_inj (rw h at f)) refl)
answer_saved_failed env s p bytes head e r (inr (t', h, x, b)) f =
    absurd (let k = rw h at f in cc k)

hash_differs :
    (env : Env) (s : Store) (p : Bytes) (bytes : Option Bytes) (head : FileHeadState)
    → env.compute_hash (bytes_of bytes) ≢ head.hash
    → is_unchanged env s p head bytes ≡ false
unfolding is_unchanged
hash_differs env s p bytes head n =
    ground (arith, bytes_eq_iff (env.compute_hash (bytes_of bytes)) head.hash, n)

at_save :
    (env : Env) (s : Store) (p : Bytes) (bytes : Option Bytes) (base : ℕ) (head : FileHeadState)
    → is_stale base head.version ≡ false
    → env.compute_hash (bytes_of bytes) ≢ head.hash
    → env.write ≡ no_fault
    → write_at_head env s p bytes base head
      ≡ answer_saved s
          (with_bytes env s p bytes).disk
          (mutation_save env.compute_hash env.save env.save_time p head.exists bytes s.tables)
unfolding write_at_head write_file save_written
at_save env s p bytes base head t n w = rw (t, hash_differs env s p bytes head n, w) refl

saved_fails :
    (env : Env) (s : Store) (p : Bytes) (bytes : Option Bytes) (head : FileHeadState) (e : Err)
    → IsBounded s.tables
    → (mutation_save env.compute_hash env.save env.save_time p head.exists bytes s.tables).0 ≡ err e
    → answer_saved s
        (with_bytes env s p bytes).disk
        (mutation_save env.compute_hash env.save env.save_time p head.exists bytes s.tables)
      ≡ (err (to_grpc_error e), with_bytes env s p bytes)
unfolding mutation_save
saved_fails env s p bytes head e b f =
    answer_saved_failed env s p bytes head e _
      (save_file_snapshot-Writes env.save
        (snapshot_meta env.compute_hash (unix env.save_time) p bytes) []
        (change_type_of head.exists) bytes s.tables b)
      f

failed_save :
    (env : Env) (s : Store) (p : Bytes) (bytes : Option Bytes) (base : ℕ) (head : FileHeadState)
    (e : Err)
    → IsBounded s.tables
    → is_stale base head.version ≡ false
    → env.compute_hash (bytes_of bytes) ≢ head.hash
    → env.write ≡ no_fault
    → (mutation_save env.compute_hash env.save env.save_time p head.exists bytes s.tables).0 ≡ err e
    → write_at_head env s p bytes base head ≡ (err (to_grpc_error e), with_bytes env s p bytes)
failed_save env s p bytes base head e b t n w f =
    rw (at_save env s p bytes base head t n w) (saved_fails env s p bytes head e b f)

unchanged_answer :
    (env : Env) (s : Store) (p : Bytes) (bytes : Option Bytes) (base : ℕ) (m : Meta) (f : File)
    → is_stale base m.version ≡ false
    → m.version ≢ 0
    → env.compute_hash (bytes_of bytes) ≡ m.hash
    → env.again ≡ none
    → get s.disk p ≡ some f
    → write_at_head env s p bytes base (known_head m) ≡ (ok (written m.version), s)
unfolding write_at_head is_unchanged stat
unchanged_answer env s p bytes base m f t v h a g =
    rw (t, a, g) (ground (arith, bytes_eq_iff (env.compute_hash (bytes_of bytes)) m.hash))

-- A call whose queries of the head and whose second look at the file meet no error.
pub record IsAnswered (env : Env) : Type 0 where
  pub latest : env.head.latest ≡ none
  pub meta : env.head.meta ≡ none
  pub again : env.again ≡ none

-- A path p has a meta row with a version that is not 0. A WriteFile of other content (by its
-- hash) writes the file, and then its save fails: it fails and leaves the tables, but not the
-- file, as they were. A WriteFile of the content of the current version (by its hash) is then
-- answered as done, and leaves the other content in the file. In both calls the path normalises
-- to p, the queries of the head and the second look at the file meet no error and the base
-- version is not stale, and the tables are bounded.
pub do_write_file_retry :
    (env env' : Env) (s : Store) (path p : Bytes) (bytes bytes' : Option Bytes) (base : ℕ)
    (m : Meta) (e : Err)
    → IsBounded s.tables
    → IsAnswered env
    → IsAnswered env'
    → normalize_project_path env.root path ≡ ok p
    → normalize_project_path env'.root path ≡ ok p
    → get s.tables.meta p ≡ some m
    → m.version ≢ 0
    → is_stale base m.version ≡ false
    → env.compute_hash (bytes_of bytes) ≢ m.hash
    → env'.compute_hash (bytes_of bytes') ≡ m.hash
    → env.write ≡ no_fault
    → (mutation_save env.compute_hash env.save env.save_time p true bytes s.tables).0 ≡ err e
    → (do_write_file env s path bytes base ≡ (err (to_grpc_error e), with_bytes env s p bytes))
      × (do_write_file env' (with_bytes env s p bytes) path bytes' base
          ≡ (ok (written m.version), with_bytes env s p bytes))
do_write_file_retry env env' s path p bytes bytes' base m e b a a' q q' g v t n h w f = (
  do_write_file_at env s path p bytes base (known_head m) q
        (resolve_file_head_known env.head s p m a.latest a.meta g)
      ∙ failed_save env s p bytes base (known_head m) e b t n w f,
  do_write_file_at env' (with_bytes env s p bytes) path p bytes' base (known_head m) q'
        (resolve_file_head_known env'.head (with_bytes env s p bytes) p m a'.latest a'.meta g)
      ∙ unchanged_answer env' (with_bytes env s p bytes) p bytes' base m _ t v h a'.again
          (put_here s.disk p (record { content = bytes_of bytes; mtime = env.write_time })),
)
