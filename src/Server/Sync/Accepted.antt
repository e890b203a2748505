-- ===== src/Server/Sync/Accepted.antt =====
-- WriteFile without a base version, or with the current one, or on a path without versions.
use roodox_sever_win.Base.{
  ℕ, suc, ◌≡◌, ◌≢◌, refl, inl, inr, Option, some, true, false, Bytes, bytes_eq_iff, arith,
  Bool-cases, [],
}
use roodox_sever_win.Base.Dict.{get, put, get-put}
use roodox_sever_win.Base.Time.{unix}
use roodox_sever_win.Errors.{Result, ok, err, Err, Code, to_grpc_error}
use roodox_sever_win.Fs.Root.{normalize_project_path}
use roodox_sever_win.Fs.Disk.{Disk, File, write_file, WriteFault, no_fault, refused, torn}
use roodox_sever_win.Db.Tables.{Tables, VersionRecord}
use roodox_sever_win.Db.Versions.{current_version}
use roodox_sever_win.Db.Versions.Bounds.{IsBounded}
use roodox_sever_win.Db.Versions.Numbers.{saved_record}
use roodox_sever_win.Db.Versions.History.{Extends}
use roodox_sever_win.Db.Versions.Writes.{Writes, save_file_snapshot-Writes}
use roodox_sever_win.Server.Mutations.{
  Store, FileHeadState, resolve_file_head, bytes_of, mutation_save, snapshot_meta, change_type_of,
}
use roodox_sever_win.Server.Sync.{
  Env, WriteFileResponse, written, is_stale, is_unchanged, save_written, answer_saved,
  write_at_head, do_write_file,
}
use roodox_sever_win.Server.Sync.Stale.{do_write_file_at}

-- The record of the new version.
abbrev pub new_record : Env → Store → Bytes → Option Bytes → FileHeadState → VersionRecord
new_record env s p bytes head =
    saved_record (snapshot_meta env.compute_hash (unix env.save_time) p bytes) []
      (change_type_of head.exists) (suc (current_version s.tables p))

-- No other file has changed.
abbrev pub SameElsewhere : Bytes → Store → Store → Type 0
SameElsewhere p s s' = (k : Bytes) → k ≢ p → get s'.disk k ≡ get s.disk k

pub data Accepts (env : Env) (s : Store) (p : Bytes) (bytes : Option Bytes) (head : FileHeadState)
    : Result Code WriteFileResponse × Store → Type 0 where
  fails :
      (c : Code) (s' : Store)
      → s'.tables ≡ s.tables
      → SameElsewhere p s s'
      → Accepts env s p bytes head (err c, s')
  unchanged :
      head.exists ≡ true
      → env.compute_hash (bytes_of bytes) ≡ head.hash
      → Accepts env s p bytes head (ok (written head.version), s)
  saved :
      (s' : Store)
      → get s'.disk p ≡ some (record { content = bytes_of bytes; mtime = env.write_time })
      → SameElsewhere p s s'
      → Extends p (new_record env s p bytes head) bytes s.tables s'.tables
      → IsBounded s'.tables
      → Accepts env s p bytes head (ok (written (suc (current_version s.tables p))), s')

put_elsewhere : (d : Disk) (p : Bytes) (f : File) (k : Bytes) → k ≢ p → get (put d p f) k ≡ get d k
put_elsewhere d p f k n = ground (arith, get-put d p k f, bytes_eq_iff p k)

pub put_here : (d : Disk) (p : Bytes) (f : File) → get (put d p f) p ≡ some f
put_here d p f = ground (arith, get-put d p p f, bytes_eq_iff p p)

answer_saved-Accepts :
    (env : Env) (s : Store) (p : Bytes) (bytes : Option Bytes) (head : FileHeadState)
    (r : Result Err ℕ × Tables)
    → Writes p (new_record env s p bytes head) bytes s.tables r
    → Accepts env s p bytes head (
        answer_saved s
          (put s.disk p (record { content = bytes_of bytes; mtime = env.write_time }))
          r)
answer_saved-Accepts env s p bytes head r (inl (e, h)) =
    rw h (fails (to_grpc_error e) _ refl (λ k n. put_elsewhere s.disk p _ k n))
answer_saved-Accepts env s p bytes head r (inr (t', h, x, b)) =
    rw h (saved _ (put_here s.disk p _) (λ k n. put_elsewhere s.disk p _ k n) x b)

save_written-Accepts :
    (env : Env) (s : Store) (p : Bytes) (bytes : Option Bytes) (head : FileHeadState)
    (fault : WriteFault)
    → IsBounded s.tables
    → Accepts env s p bytes head (
        save_written env p head.exists bytes s
          (write_file fault env.write_time s.disk p (bytes_of bytes)))
unfolding save_written write_file
save_written-Accepts env s p bytes head (refused e) b = fails (to_grpc_error e) _ refl (λ k n. refl)
save_written-Accepts env s p bytes head (torn e m) b =
    fails (to_grpc_error e) _ refl (λ k n. put_elsewhere s.disk p _ k n)
save_written-Accepts env s p bytes head no_fault b =
    unfold mutation_save in
    answer_saved-Accepts env s p bytes head _ (
      save_file_snapshot-Writes env.save
        (snapshot_meta env.compute_hash (unix env.save_time) p bytes) []
        (change_type_of head.exists) bytes s.tables b)

unchanged_hash :
    (env : Env) (s : Store) (p : Bytes) (bytes : Option Bytes) (head : FileHeadState)
    → is_unchanged env s p head bytes ≡ true
    → (head.exists ≡ true) × (env.compute_hash (bytes_of bytes) ≡ head.hash)
unfolding is_unchanged
unchanged_hash env s p bytes head u =
    (ground arith, ground (arith, bytes_eq_iff (env.compute_hash (bytes_of bytes)) head.hash))

pub write_at_head-Accepts :
    (env : Env) (s : Store) (p : Bytes) (bytes : Option Bytes) (base : ℕ) (head : FileHeadState)
    → IsBounded s.tables
    → is_stale base head.version ≡ false
    → Accepts env s p bytes head (write_at_head env s p bytes base head)
unfolding write_at_head
write_at_head-Accepts env s p bytes base head b t =
    elim (Bool-cases (is_unchanged env s p head bytes)) [
      | inl u ↦ rw (t, u) (let (x, y) = unchanged_hash env s p bytes head u in unchanged x y)
      | inr u ↦ rw (t, u) (save_written-Accepts env s p bytes head env.write b)
    ]

-- WriteFile when the path normalises to p, the head of p is found, the base version is 0 or the
-- current one or the head has no version, and the tables are bounded. If it fails, no table and
-- no other file has changed. If it answers, either the content has the hash of the current
-- version and nothing has changed; or the answer is the number after the current one, the file
-- holds the bytes, the version store is extended by that version of p with its content, the
-- tables stay bounded, and no other file has changed.
pub do_write_file_accepted :
    (env : Env) (s : Store) (path p : Bytes) (bytes : Option Bytes) (base : ℕ)
    (head : FileHeadState)
    → IsBounded s.tables
    → normalize_project_path env.root path ≡ ok p
    → resolve_file_head env.head s p ≡ ok head
    → is_stale base head.version ≡ false
    → Accepts env s p bytes head (do_write_file env s path bytes base)
do_write_file_accepted env s path p bytes base head b e h t =
    rw (do_write_file_at env s path p bytes base head e h)
      (write_at_head-Accepts env s p bytes base head b t)
