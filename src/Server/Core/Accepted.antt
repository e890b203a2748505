-- ===== src/Server/Core/Accepted.antt =====
-- WriteFileRange and SetFileSize without a base version, or with the current one, or on a path
-- without versions.
use roodox_sever_win.Base.{
  ℕ, zero, suc, ◌≡◌, ◌≢◌, refl, sym, ◌∙◌, inl, inr, Option, none, some, Bool, false, Bytes,
  bytes_eq_iff, arith, [], pos, length,
}
use roodox_sever_win.Base.Dict.{get, put, get-put}
use roodox_sever_win.Base.Time.{unix}
use roodox_sever_win.Errors.{Result, ok, err, Err, Code, to_grpc_error}
use roodox_sever_win.Fs.Root.{normalize_project_path}
use roodox_sever_win.Fs.Disk.{
  Disk, File, WriteFault, no_fault, refused, torn, read_file, truncate, zeros, opened, written_at,
  write_at, set_file_size,
}
use roodox_sever_win.Db.Tables.{Tables, VersionRecord}
use roodox_sever_win.Db.Versions.{current_version}
use roodox_sever_win.Db.Versions.Bounds.{IsBounded}
use roodox_sever_win.Db.Versions.Numbers.{saved_record}
use roodox_sever_win.Db.Versions.History.{Extends}
use roodox_sever_win.Db.Versions.Writes.{Writes, save_file_snapshot-Writes}
use roodox_sever_win.Server.Mutations.{
  Store, FileHeadState, resolve_file_head, mutation_save, snapshot_meta, change_type_of,
}
use roodox_sever_win.Server.Ranges.Contents.{length-zeros, length-copy_into}
use roodox_sever_win.Server.Sync.{is_stale}
use roodox_sever_win.Server.Sync.Accepted.{put_here}
use roodox_sever_win.Server.Core.{
  Env, RangeResponse, save_read, save_range, saved_answer, sized, has_size, range_at_head,
  write_file_range, size_at_head, set_size,
}

-- The answer of a saved change.
abbrev pub changed : ℕ → ℕ → ℕ → RangeResponse
changed n size version = record {
  bytes_written = n;
  file_size = size;
  new_version = version;
  conflicted = false;
  conflict_path = [];
}

-- The record of the new version.
abbrev pub content_record : Env → Store → Bytes → Bool → Bytes → VersionRecord
content_record env s p existed content =
    saved_record (snapshot_meta env.compute_hash (unix env.save_time) p (some content)) []
      (change_type_of existed) (suc (current_version s.tables p))

abbrev pub SameElsewhere : Bytes → Store → Store → Type 0
SameElsewhere p s s' = (k : Bytes) → k ≢ p → get s'.disk k ≡ get s.disk k

-- An error that has changed no table and no other file; or the file is as given, its content is
-- the new version's, and the answer has the size of the content.
pub data SavesFile (env : Env) (s : Store) (p : Bytes) (existed : Bool) (n : ℕ) (f : File)
    : Result Code RangeResponse × Store → Type 0 where
  fails :
      (c : Code) (s' : Store)
      → s'.tables ≡ s.tables
      → SameElsewhere p s s'
      → SavesFile env s p existed n f (err c, s')
  saved :
      (s' : Store)
      → get s'.disk p ≡ some f
      → SameElsewhere p s s'
      → Extends p (content_record env s p existed f.content) (some f.content) s.tables s'.tables
      → IsBounded s'.tables
      → SavesFile env s p existed n f
          (ok (changed n (length f.content) (suc (current_version s.tables p))), s')

put_elsewhere : (d : Disk) (p : Bytes) (f : File) (k : Bytes) → k ≢ p → get (put d p f) k ≡ get d k
put_elsewhere d p f k n = ground (arith, get-put d p k f, bytes_eq_iff p k)

saved_answer-SavesFile :
    (env : Env) (s : Store) (p : Bytes) (existed : Bool) (n : ℕ) (f : File)
    (r : Result Err ℕ × Tables)
    → Writes p (content_record env s p existed f.content) (some f.content) s.tables r
    → SavesFile env s p existed n f (saved_answer n (length f.content) s (put s.disk p f) r)
saved_answer-SavesFile env s p existed n f r (inl (e, h)) =
    rw h (fails (to_grpc_error e) _ refl (λ k m. put_elsewhere s.disk p f k m))
saved_answer-SavesFile env s p existed n f r (inr (t', h, x, b)) =
    rw h (saved _ (put_here s.disk p f) (λ k m. put_elsewhere s.disk p f k m) x b)

save_read-SavesFile :
    (env : Env) (s : Store) (p : Bytes) (existed : Bool) (n : ℕ) (f : File) (fault : Option Err)
    → IsBounded s.tables
    → SavesFile env s p existed n f (
        save_read env p existed n
          (length f.content)
          s
          (put s.disk p f)
          (read_file fault (put s.disk p f) p))
unfolding save_read read_file
save_read-SavesFile env s p existed n f (some e) b =
    fails (to_grpc_error e) _ refl (λ k m. put_elsewhere s.disk p f k m)
save_read-SavesFile env s p existed n f none b = rw (put_here s.disk p f) (
    unfold mutation_save in
    saved_answer-SavesFile env s p existed n f _ (
      save_file_snapshot-Writes env.save
        (snapshot_meta env.compute_hash (unix env.save_time) p (some f.content)) []
        (change_type_of existed) (some f.content) s.tables b))

-- The file after a range is written.
abbrev pub range_file : Env → Store → Bytes → ℕ → Bytes → File
range_file env s p offset bytes =
    written_at env.write_time (opened env.write_time (get s.disk p)) offset bytes

save_range-SavesFile :
    (env : Env) (s : Store) (p : Bytes) (existed : Bool) (offset : ℕ) (bytes : Bytes)
    (fault : WriteFault)
    → IsBounded s.tables
    → SavesFile env s p existed
        (length bytes)
        (range_file env s p offset bytes)
        (save_range env p existed s (write_at fault env.write_time s.disk p offset bytes))
unfolding save_range write_at
save_range-SavesFile env s p existed offset bytes no_fault b =
    save_read-SavesFile env s p existed (length bytes) (range_file env s p offset bytes) env.read b
save_range-SavesFile env s p existed offset bytes (refused e) b =
    fails (to_grpc_error e) _ refl (λ k m. refl)
save_range-SavesFile env s p existed offset bytes (torn e j) b =
    fails (to_grpc_error e) _ refl (λ k m. put_elsewhere s.disk p _ k m)

pub write_file_range_at :
    (env : Env) (s : Store) (path p : Bytes) (offset : ℕ) (bytes : Bytes) (base : ℕ)
    (head : FileHeadState)
    → normalize_project_path env.root path ≡ ok p
    → resolve_file_head env.head s p ≡ ok head
    → write_file_range env s path (pos offset) bytes base
      ≡ range_at_head env s p offset bytes base head
unfolding write_file_range
write_file_range_at env s path p offset bytes base head e h = rw (e, h) refl

-- WriteFileRange at an offset that is not negative, when the path normalises to p, the head of p
-- is found, the base version is 0 or the current one or the head has no version, and the tables
-- are bounded. If it fails, no table and no other file has changed. If it answers, the file is
-- the old one with the bytes written at the offset, and the answer has the number of the bytes,
-- the size of this file and the number after the current version; the version store is extended
-- by that version of p with the content of the whole file, the tables stay bounded, and no other
-- file has changed.
pub write_file_range_accepted :
    (env : Env) (s : Store) (path p : Bytes) (offset : ℕ) (bytes : Bytes) (base : ℕ)
    (head : FileHeadState)
    → IsBounded s.tables
    → normalize_project_path env.root path ≡ ok p
    → resolve_file_head env.head s p ≡ ok head
    → is_stale base head.version ≡ false
    → SavesFile env s p head.exists
        (length bytes)
        (range_file env s p offset bytes)
        (write_file_range env s path (pos offset) bytes base)
unfolding range_at_head
write_file_range_accepted env s path p offset bytes base head b e h t =
    rw (write_file_range_at env s path p offset bytes base head e h, t)
      (save_range-SavesFile env s p head.exists offset bytes env.write b)

-- The file after its size is set.
abbrev pub sized_file : Env → Store → Bytes → ℕ → File
sized_file env s p size = record {
  content = truncate (opened env.write_time (get s.disk p)).content size;
  mtime = env.write_time;
}

length-truncate : (content : Bytes) (size : ℕ) → length (truncate content size) ≡ size
unfolding truncate
length-truncate content size = length-copy_into 0 (zeros size) content ∙ length-zeros size

save_sized-SavesFile :
    (env : Env) (s : Store) (p : Bytes) (existed : Bool) (size : ℕ) (f : File)
    → size ≡ length f.content
    → IsBounded s.tables
    → SavesFile env s p existed 0 f
        (save_read env p existed 0 size s (put s.disk p f) (read_file env.read (put s.disk p f) p))
save_sized-SavesFile env s p existed size f e b =
    rw e (save_read-SavesFile env s p existed 0 f env.read b)

save_size-SavesFile :
    (env : Env) (s : Store) (p : Bytes) (existed : Bool) (size : ℕ) (fault : WriteFault)
    → IsBounded s.tables
    → SavesFile env s p existed 0
        (sized_file env s p size)
        (save_range env p existed s (sized (set_file_size fault env.write_time s.disk p size)))
unfolding save_range set_file_size
save_size-SavesFile env s p existed size no_fault b =
    save_sized-SavesFile env s p existed size (sized_file env s p size)
      (sym (length-truncate (opened env.write_time (get s.disk p)).content size)) b
save_size-SavesFile env s p existed size (refused e) b =
    fails (to_grpc_error e) _ refl (λ k m. refl)
save_size-SavesFile env s p existed size (torn e zero) b =
    fails (to_grpc_error e) _ refl (λ k m. put_elsewhere s.disk p _ k m)
save_size-SavesFile env s p existed size (torn e (suc j)) b =
    fails (to_grpc_error e) _ refl (λ k m. put_elsewhere s.disk p _ k m)

set_size_at :
    (env : Env) (s : Store) (path p : Bytes) (size base : ℕ) (head : FileHeadState)
    → normalize_project_path env.root path ≡ ok p
    → resolve_file_head env.head s p ≡ ok head
    → set_size env s path (pos size) base ≡ size_at_head env s p size base head
unfolding set_size
set_size_at env s path p size base head e h = rw (e, h) refl

-- SetFileSize to a size that is not negative and that p does not have already, when the path
-- normalises to p, the head of p is found, the base version is not stale, and the tables are
-- bounded. If it fails, no table and no other file has changed. If it answers, the file is the
-- old one cut or filled with zeros to the size, and the answer has this size and the number
-- after the current version; the version store is extended by that version of p with the content
-- of the file, the tables stay bounded, and no other file has changed.
pub set_size_accepted :
    (env : Env) (s : Store) (path p : Bytes) (size base : ℕ) (head : FileHeadState)
    → IsBounded s.tables
    → normalize_project_path env.root path ≡ ok p
    → resolve_file_head env.head s p ≡ ok head
    → is_stale base head.version ≡ false
    → has_size env s p head size ≡ false
    → SavesFile env s p head.exists 0
        (sized_file env s p size)
        (set_size env s path (pos size) base)
unfolding size_at_head
set_size_accepted env s path p size base head b e h t u =
    rw (set_size_at env s path p size base head e h, t, u)
      (save_size-SavesFile env s p head.exists size env.write b)
