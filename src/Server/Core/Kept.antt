-- ===== src/Server/Core/Kept.antt =====
-- What WriteFileRange and SetFileSize leave of every version, on all of their branches.
use roodox_sever_win.Base.{ℕ, [], inl, inr, some, Bytes, Bool, Bool-cases, ℤ, is_negative, pos_part}
use roodox_sever_win.Base.Time.{unix}
use roodox_sever_win.Errors.{Result, ok, err, Err, Code}
use roodox_sever_win.Fs.Root.{normalize_project_path}
use roodox_sever_win.Fs.Disk.{Disk, read_file}
use roodox_sever_win.Db.Versions.Writes.{Keeps, Keeps-refl}
use roodox_sever_win.Db.Versions.Kept.{save_file_snapshot-Keeps}
use roodox_sever_win.Server.Conflicts.{write_conflict_file}
use roodox_sever_win.Server.Ranges.{Built, built, refused, panics}
use roodox_sever_win.Server.Sync.{is_stale}
use roodox_sever_win.Server.Mutations.{
  Store, FileHeadState, resolve_file_head, mutation_save, snapshot_meta, change_type_of,
}
use roodox_sever_win.Server.Core.{
  Env, RangeResponse, answer_stale, copy_answer, save_read, save_range, has_size, range_at_head,
  with_head, with_path, at_head, write_file_range, size_at_head, set_size,
}

-- Every version reads as before.
abbrev pub KeepsVersions : Store → Store → Type 0
KeepsVersions s s' = Keeps s.tables s'.tables

copy_answer-Keeps :
    (head : FileHeadState) (s : Store) (r : Result Err Bytes × Disk)
    → KeepsVersions s (copy_answer head s r).1
copy_answer-Keeps head s (ok copy, d) = Keeps-refl s.tables
copy_answer-Keeps head s (err e, d) = Keeps-refl s.tables

answer_stale-Keeps :
    (env : Env) (p : Bytes) (head : FileHeadState) (s : Store) (r : Built)
    → KeepsVersions s (answer_stale env p head s r).1
unfolding answer_stale
answer_stale-Keeps env p head s (built content) =
    copy_answer-Keeps head s (write_conflict_file env.copies env.write_time s.disk p content)
answer_stale-Keeps env p head s (refused e) = Keeps-refl s.tables
answer_stale-Keeps env p head s panics = Keeps-refl s.tables

save_read-Keeps :
    (env : Env) (p : Bytes) (existed : Bool) (n size : ℕ) (s : Store) (d : Disk)
    (r : Result Err Bytes)
    → KeepsVersions s (save_read env p existed n size s d r).1
unfolding save_read mutation_save
save_read-Keeps env p existed n size s d (ok full) =
    save_file_snapshot-Keeps env.save
      (snapshot_meta env.compute_hash (unix env.save_time) p (some full)) []
      (change_type_of existed) (some full) s.tables
save_read-Keeps env p existed n size s d (err e) = Keeps-refl s.tables

save_range-Keeps :
    (env : Env) (p : Bytes) (existed : Bool) (s : Store) (r : Result Err (ℕ × ℕ) × Disk)
    → KeepsVersions s (save_range env p existed s r).1
unfolding save_range
save_range-Keeps env p existed s (ok (n, size), d) =
    save_read-Keeps env p existed n size s d (read_file env.read d p)
save_range-Keeps env p existed s (err e, d) = Keeps-refl s.tables

range_at_head-Keeps :
    (env : Env) (s : Store) (p : Bytes) (offset : ℕ) (bytes : Bytes) (base : ℕ)
    (head : FileHeadState)
    → KeepsVersions s (range_at_head env s p offset bytes base head).1
unfolding range_at_head
range_at_head-Keeps env s p offset bytes base head =
    elim (Bool-cases (is_stale base head.version)) [
      | inl e ↦ rw e (answer_stale-Keeps env p head s _)
      | inr e ↦ rw e (save_range-Keeps env p head.exists s _)
    ]

size_at_head-Keeps :
    (env : Env) (s : Store) (p : Bytes) (size base : ℕ) (head : FileHeadState)
    → KeepsVersions s (size_at_head env s p size base head).1
unfolding size_at_head
size_at_head-Keeps env s p size base head = elim (Bool-cases (is_stale base head.version)) [
  | inl e ↦ rw e (answer_stale-Keeps env p head s _)
  | inr e ↦ elim (Bool-cases (has_size env s p head size)) [
    | inl u ↦ rw (e, u) (Keeps-refl s.tables)
    | inr u ↦ rw (e, u) (save_range-Keeps env p head.exists s _)
  ]
]

pub with_head-Keeps :
    {A : Type 0} (s : Store) (handler : FileHeadState → Result Code A × Store)
    (r : Result Err FileHeadState)
    → ((head : FileHeadState) → KeepsVersions s (handler head).1)
    → KeepsVersions s (with_head s handler r).1
with_head-Keeps s handler (ok head) h = h head
with_head-Keeps s handler (err e) h = Keeps-refl s.tables

pub with_path-Keeps :
    {A : Type 0} (s : Store) (handler : Bytes → Result Code A × Store) (r : Result Err Bytes)
    → ((p : Bytes) → KeepsVersions s (handler p).1)
    → KeepsVersions s (with_path s handler r).1
with_path-Keeps s handler (ok p) h = h p
with_path-Keeps s handler (err e) h = Keeps-refl s.tables

at_head-Keeps :
    (env : Env) (s : Store) (path : Bytes)
    (handler : Bytes → FileHeadState → Result Code RangeResponse × Store)
    → ((p : Bytes) (head : FileHeadState) → KeepsVersions s (handler p head).1)
    → KeepsVersions s (at_head env s path handler).1
at_head-Keeps env s path handler h =
    with_path-Keeps s _ (normalize_project_path env.root path)
      (λ p. with_head-Keeps s (handler p) (resolve_file_head env.head s p) (h p))

pub write_file_range-Keeps :
    (env : Env) (s : Store) (path : Bytes) (offset : ℤ) (bytes : Bytes) (base : ℕ)
    → KeepsVersions s (write_file_range env s path offset bytes base).1
unfolding write_file_range
write_file_range-Keeps env s path offset bytes base = elim (Bool-cases (is_negative offset)) [
  | inl e ↦ rw e (Keeps-refl s.tables)
  | inr e ↦ rw e (
      at_head-Keeps env s path _
        (λ p head. range_at_head-Keeps env s p (pos_part offset) bytes base head))
]

pub set_size-Keeps :
    (env : Env) (s : Store) (path : Bytes) (size : ℤ) (base : ℕ)
    → KeepsVersions s (set_size env s path size base).1
unfolding set_size
set_size-Keeps env s path size base = elim (Bool-cases (is_negative size)) [
  | inl e ↦ rw e (Keeps-refl s.tables)
  | inr e ↦
      rw e (
        at_head-Keeps env s path _ (λ p head. size_at_head-Keeps env s p (pos_part size) base head))
]
