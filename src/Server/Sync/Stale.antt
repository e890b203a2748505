-- ===== src/Server/Sync/Stale.antt =====
-- WriteFile with the base version of an older state of the file.
use roodox_sever_win.Base.{ℕ, ◌≡◌, refl, ◌∙◌, inl, inr, Option, some, true, false, Bytes}
use roodox_sever_win.Base.Dict.{get}
use roodox_sever_win.Errors.{Result, ok, err, Err, Code, to_grpc_error}
use roodox_sever_win.Fs.Root.{normalize_project_path}
use roodox_sever_win.Fs.Ignore.{is_conflict_path}
use roodox_sever_win.Fs.Disk.{Disk, File}
use roodox_sever_win.Server.Mutations.{Store, FileHeadState, resolve_file_head, bytes_of}
use roodox_sever_win.Server.Copies.Kept.{cleanups_kept}
use roodox_sever_win.Server.Conflicts.Copied.{Leaves, Copies, write_conflict_file-Copies}
use roodox_sever_win.Server.Conflicts.{Attempts}
use roodox_sever_win.Server.Sync.{
  Env, WriteFileResponse, is_stale, answer_conflict, cleanup_after_copy, write_at_head,
  do_write_file, write_path, write_known,
}

-- Every file that is no conflict copy is still there, with the content that it had.
abbrev pub KeepsFiles : Disk → Disk → Type 0
KeepsFiles d d' =
    (k : Bytes) (f : File) → is_conflict_path k ≡ false → get d k ≡ some f → get d' k ≡ some f

-- An error, or the answer that names the current version and the copy.
pub data AnswersConflict (current : ℕ) : Result Code WriteFileResponse → Type 0 where
  fails : (c : Code) → AnswersConflict current (err c)
  copied :
      (copy : Bytes)
      → AnswersConflict current
          (ok (record { conflicted = true; conflict_path = copy; new_version = current }))

-- What a stale write does: it answers so, and changes no table and no file but conflict copies.
abbrev pub OnlyCopies : ℕ → Store → Result Code WriteFileResponse × Store → Type 0
OnlyCopies current s r =
    AnswersConflict current r.0 × (r.1.tables ≡ s.tables) × KeepsFiles s.disk r.1.disk

pub do_write_file_at :
    (env : Env) (s : Store) (path p : Bytes) (bytes : Option Bytes) (base : ℕ)
    (head : FileHeadState)
    → normalize_project_path env.root path ≡ ok p
    → resolve_file_head env.head s p ≡ ok head
    → do_write_file env s path bytes base ≡ write_at_head env s p bytes base head
unfolding do_write_file write_path write_known
do_write_file_at env s path p bytes base head e h = rw (e, h) refl

-- A file that was there is left.
there_left :
    (a : Attempts) (now : ℕ) (p bytes k : Bytes) (f : File) (x y : Option File)
    → Leaves a now p bytes k x y
    → x ≡ some f
    → y ≡ some f
there_left a now p bytes k f x y (inl e) h = e ∙ h
there_left a now p bytes k f x y (inr (e, i, n, u, v)) h = absurd (cc (e, h))

answer_conflict-OnlyCopies :
    (env : Env) (p bytes : Bytes) (current : ℕ) (s : Store) (r : Result Err Bytes × Disk)
    → Copies env.copies env.write_time s.disk p bytes r
    → OnlyCopies current s (answer_conflict env p current s r)
unfolding answer_conflict cleanup_after_copy
answer_conflict-OnlyCopies env p bytes current s (err x, d) (inl (e, h, l)) = (
  fails (to_grpc_error x),
  refl,
  λ k f n g. there_left env.copies env.write_time p bytes k f _ _ (l k) g,
)
answer_conflict-OnlyCopies env p bytes current s (ok c, d) (inl (e, h, l)) = cc h
answer_conflict-OnlyCopies env p bytes current s (err x, d) (inr (i, h, free, full, l)) = cc h
answer_conflict-OnlyCopies env p bytes current s (ok c, d) (inr (i, h, free, full, l)) = (
  copied c,
  refl,
  λ j f n g.
      cleanups_kept env.policy env.sweep env.walk env.cleanup_time s.last_cleanup p _ j n
      ∙ there_left env.copies env.write_time p bytes j f _ _ (l j (λ e. cc (free, g, e))) g,
)

pub write_at_head_stale :
    (env : Env) (s : Store) (p : Bytes) (bytes : Option Bytes) (base : ℕ) (head : FileHeadState)
    → is_stale base head.version ≡ true
    → OnlyCopies head.version s (write_at_head env s p bytes base head)
unfolding write_at_head
write_at_head_stale env s p bytes base head t = rw t (
    answer_conflict-OnlyCopies env p (bytes_of bytes) head.version s _
      (write_conflict_file-Copies env.copies env.write_time s.disk p (bytes_of bytes)))

-- No lost update: WriteFile with a base version that is not 0 and differs from the version, not
-- 0, of the head of p, when the path normalises to p and the head is found. Whatever else is
-- reported, it fails or answers a conflict with the current version; no table has changed, and
-- every file whose name is not that of a conflict copy is as it was.
pub do_write_file_stale :
    (env : Env) (s : Store) (path p : Bytes) (bytes : Option Bytes) (base : ℕ)
    (head : FileHeadState)
    → normalize_project_path env.root path ≡ ok p
    → resolve_file_head env.head s p ≡ ok head
    → is_stale base head.version ≡ true
    → OnlyCopies head.version s (do_write_file env s path bytes base)
do_write_file_stale env s path p bytes base head e h t =
    rw (do_write_file_at env s path p bytes base head e h)
      (write_at_head_stale env s p bytes base head t)
