-- ===== src/Server/Sync/Versions.antt =====
-- What WriteFile leaves of every version, in any tables at all.
use roodox_sever_win.Base.{ℕ, [], inl, inr, Option, Bytes, Bool, Bool-cases}
use roodox_sever_win.Base.Time.{unix}
use roodox_sever_win.Errors.{Result, ok, err, Err}
use roodox_sever_win.Fs.Root.{normalize_project_path}
use roodox_sever_win.Fs.Disk.{Disk}
use roodox_sever_win.Db.Versions.Writes.{Keeps, Keeps-refl}
use roodox_sever_win.Db.Versions.Kept.{save_file_snapshot-Keeps}
use roodox_sever_win.Server.Mutations.{
  Store, FileHeadState, resolve_file_head, mutation_save, snapshot_meta, change_type_of,
}
use roodox_sever_win.Server.Sync.{
  Env, is_stale, is_unchanged, answer_conflict, cleanup_after_copy, save_written, write_at_head,
  write_known, write_path, do_write_file,
}

answer_conflict-Keeps :
    (env : Env) (p : Bytes) (current : ℕ) (s : Store) (r : Result Err Bytes × Disk)
    → Keeps s.tables (answer_conflict env p current s r).1.tables
unfolding answer_conflict cleanup_after_copy
answer_conflict-Keeps env p current s (ok copy, d) = Keeps-refl s.tables
answer_conflict-Keeps env p current s (err e, d) = Keeps-refl s.tables

save_written-Keeps :
    (env : Env) (p : Bytes) (existed : Bool) (bytes : Option Bytes) (s : Store)
    (r : Result Err (Unit {0}) × Disk)
    → Keeps s.tables (save_written env p existed bytes s r).1.tables
unfolding save_written mutation_save
save_written-Keeps env p existed bytes s (ok u, d) =
    save_file_snapshot-Keeps env.save (snapshot_meta env.compute_hash (unix env.save_time) p bytes)
      [] (change_type_of existed) bytes s.tables
save_written-Keeps env p existed bytes s (err e, d) = Keeps-refl s.tables

write_at_head-Keeps :
    (env : Env) (s : Store) (p : Bytes) (bytes : Option Bytes) (base : ℕ) (head : FileHeadState)
    → Keeps s.tables (write_at_head env s p bytes base head).1.tables
unfolding write_at_head
write_at_head-Keeps env s p bytes base head = elim (Bool-cases (is_stale base head.version)) [
  | inl e ↦ rw e (answer_conflict-Keeps env p head.version s _)
  | inr e ↦ elim (Bool-cases (is_unchanged env s p head bytes)) [
    | inl u ↦ rw (e, u) (Keeps-refl s.tables)
    | inr u ↦ rw (e, u) (save_written-Keeps env p head.exists bytes s _)
  ]
]

write_known-Keeps :
    (env : Env) (s : Store) (p : Bytes) (bytes : Option Bytes) (base : ℕ)
    (head : Result Err FileHeadState)
    → Keeps s.tables (write_known env s p bytes base head).1.tables
unfolding write_known
write_known-Keeps env s p bytes base (ok head) = write_at_head-Keeps env s p bytes base head
write_known-Keeps env s p bytes base (err e) = Keeps-refl s.tables

write_path-Keeps :
    (env : Env) (s : Store) (bytes : Option Bytes) (base : ℕ) (p : Result Err Bytes)
    → Keeps s.tables (write_path env s bytes base p).1.tables
unfolding write_path
write_path-Keeps env s bytes base (ok p) =
    write_known-Keeps env s p bytes base (resolve_file_head env.head s p)
write_path-Keeps env s bytes base (err e) = Keeps-refl s.tables

pub do_write_file-KeepsVersions :
    (env : Env) (s : Store) (path : Bytes) (bytes : Option Bytes) (base : ℕ)
    → Keeps s.tables (do_write_file env s path bytes base).1.tables
unfolding do_write_file
do_write_file-KeepsVersions env s path bytes base =
    write_path-Keeps env s bytes base (normalize_project_path env.root path)
