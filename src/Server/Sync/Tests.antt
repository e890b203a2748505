-- ===== src/Server/Sync/Tests.antt =====
-- WriteFile on a root with one file, whose current version is 3.
use roodox_sever_win.Base.{
  ◌≡◌, ◌≢◌, refl, none, some, true, false, codes, arith, bytes_eq, bytes_eq_iff,
}
use roodox_sever_win.Base.Dict.{get}
use roodox_sever_win.Errors.{ok, err, other, to_grpc_error}
use roodox_sever_win.Fs.Ignore.{is_conflict_path}
use roodox_sever_win.Db.Tx.{with_write_tx, is_busy}
use roodox_sever_win.Db.Versions.{save_file_snapshot}
use roodox_sever_win.Server.Examples.{
  quiet, policy, sync_env, file, row, tables, store, tables-IsBounded, file_path, row_found,
}
use roodox_sever_win.Server.Mutations.{known_head, resolve_file_head, mutation_save}
use roodox_sever_win.Server.Mutations.Heads.{resolve_file_head_known}
use roodox_sever_win.Server.Copies.{
  maybe_cleanup_expired_conflict_files, cleanup_conflict_copies_for_path,
}
use roodox_sever_win.Server.Copies.Kept.{cleanups_kept}
use roodox_sever_win.Server.Conflicts.Copied.{Copies}
use roodox_sever_win.Server.Sync.{Env, written, do_write_file}
use roodox_sever_win.Server.Sync.Stale.{OnlyCopies, do_write_file_stale}
use roodox_sever_win.Server.Sync.Accepted.{Accepts, do_write_file_accepted}
use roodox_sever_win.Server.Sync.Retry.{with_bytes, do_write_file_retry}

abbrev env : Env
env = sync_env (λ k. none)

abbrev broken : Env
broken = sync_env (λ k. some other)

head_found : resolve_file_head env.head store file ≡ ok (known_head row)
head_found = resolve_file_head_known env.head store file row refl refl row_found

do_write_file_stale_example :
    OnlyCopies 3 store (do_write_file env store file (some (codes "new")) 2)
do_write_file_stale_example =
    do_write_file_stale env store file file (some (codes "new")) 2 (known_head row) file_path
      head_found refl

do_write_file_accepted_example :
    Accepts env store file
      (some (codes "new"))
      (known_head row)
      (do_write_file env store file (some (codes "new")) 3)
do_write_file_accepted_example =
    do_write_file_accepted env store file file (some (codes "new")) 3 (known_head row)
      tables-IsBounded file_path head_found refl

new_differs : bytes_eq (codes "new") (codes "old") ≡ false
unfolding bytes_eq
new_differs = refl

new_not_old : codes "new" ≢ codes "old"
new_not_old e = cc (new_differs, (bytes_eq_iff (codes "new") (codes "old")).1 e)

save_fails :
    (mutation_save broken.compute_hash broken.save 9 file true (some (codes "new")) tables).0
    ≡ err other
unfolding mutation_save save_file_snapshot with_write_tx is_busy
save_fails = refl

do_write_file_retry_example :
    (do_write_file broken store file (some (codes "new")) 3
      ≡ (err (to_grpc_error other), with_bytes broken store file (some (codes "new"))))
    × (do_write_file env
          (with_bytes broken store file (some (codes "new")))
          file
          (some (codes "old"))
          3
        ≡ (ok (written 3), with_bytes broken store file (some (codes "new"))))
do_write_file_retry_example =
    do_write_file_retry broken env store file file (some (codes "new")) (some (codes "old")) 3 row
      other tables-IsBounded (record { latest = refl; meta = refl; again = refl })
      (record { latest = refl; meta = refl; again = refl }) file_path file_path row_found
      (ground arith) refl new_not_old refl refl save_fails

cleanups_kept_example :
    get
      (maybe_cleanup_expired_conflict_files policy quiet 500
        (0, cleanup_conflict_copies_for_path policy quiet 500 file store.disk)).1
      file
    ≡ get store.disk file
cleanups_kept_example =
    cleanups_kept policy quiet quiet 500 0 file store.disk file (unfold is_conflict_path in refl)
