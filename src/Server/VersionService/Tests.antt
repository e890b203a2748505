-- ===== src/Server/VersionService/Tests.antt =====
-- A write that is answered, and its version.
use roodox_sever_win.Base.{
  ◌≡◌, ◌≢◌, refl, ap, ◌∙◌, none, some, [], true, false, codes, arith, bytes_eq, bytes_eq_iff,
}
use roodox_sever_win.Base.Dict.{get}
use roodox_sever_win.Errors.{ok}
use roodox_sever_win.Fs.Disk.{write_file}
use roodox_sever_win.Db.Tables.{max_version}
use roodox_sever_win.Base.Time.{unix}
use roodox_sever_win.Db.Versions.Writes.{save_file_snapshot_succeeds}
use roodox_sever_win.Db.Versions.{current_version}
use roodox_sever_win.Server.Mutations.{
  known_head, resolve_file_head, mutation_save, snapshot_meta, change_type_of,
}
use roodox_sever_win.Server.Mutations.Heads.{resolve_file_head_known}
use roodox_sever_win.Server.Examples.{
  sync_env, file, row, tables, store, tables-IsBounded, file_path, row_found, root_rooted,
}
use roodox_sever_win.Server.Sync.{Env, written, write_at_head, do_write_file}
use roodox_sever_win.Server.Sync.Stale.{do_write_file_at}
use roodox_sever_win.Server.VersionService.{get_version}
use roodox_sever_win.Server.VersionService.Restores.{no_faults, get_version-do_write_file}

abbrev env : Env
env = sync_env (λ k. none)

head_found : resolve_file_head env.head store file ≡ ok (known_head row)
head_found = resolve_file_head_known env.head store file row refl refl row_found

new_differs : bytes_eq (codes "new") (codes "old") ≡ false
unfolding bytes_eq
new_differs = refl

new_not_old : codes "new" ≢ codes "old"
new_not_old e = cc (new_differs, (bytes_eq_iff (codes "new") (codes "old")).1 e)

saves : (mutation_save env.compute_hash env.save 9 file true (some (codes "new")) tables).0 ≡ ok 4
unfolding mutation_save current_version max_version get bytes_eq
saves =
    save_file_snapshot_succeeds env.save
      (snapshot_meta env.compute_hash (unix 9) file (some (codes "new"))) [] (change_type_of true)
      (some (codes "new")) tables 0 tables-IsBounded (omega arith) (λ j h. absurd (omega arith))
      refl

answered_at_head :
    (write_at_head env store file (some (codes "new")) 3 (known_head row)).0 ≡ ok (written 4)
unfolding write_at_head bytes_eq write_file
answered_at_head = rw saves refl

answered : (do_write_file env store file (some (codes "new")) 3).0 ≡ ok (written 4)
answered =
    ap (λ r. r.0)
      (do_write_file_at env store file file (some (codes "new")) 3 (known_head row) file_path
        head_found)
    ∙ answered_at_head

get_version-do_write_file_example :
    get_version no_faults (do_write_file env store file (some (codes "new")) 3).1.tables file 4
    ≡ ok (codes "new")
get_version-do_write_file_example =
    get_version-do_write_file env store file file (codes "new") 3 (known_head row) 4
      tables-IsBounded root_rooted file_path head_found refl new_not_old answered
