-- ===== src/Server/Reads/Tests.antt =====
-- A range that is written at the end of a file, and read.
use roodox_sever_win.Base.{◌≡◌, refl, ap, ◌∙◌, none, some, [], true, codes, pos, arith, bytes_eq}
use roodox_sever_win.Errors.{ok}
use roodox_sever_win.Fs.Disk.{write_at, read_file, overwrite, copy_into, zeros}
use roodox_sever_win.Base.Dict.{get, put}
use roodox_sever_win.Server.Mutations.{
  known_head, resolve_file_head, mutation_save, snapshot_meta, change_type_of,
}
use roodox_sever_win.Base.Time.{unix}
use roodox_sever_win.Db.Tables.{max_version}
use roodox_sever_win.Db.Versions.{current_version}
use roodox_sever_win.Db.Versions.Writes.{save_file_snapshot_succeeds}
use roodox_sever_win.Server.Mutations.Heads.{resolve_file_head_known}
use roodox_sever_win.Server.Examples.{
  core_env, file, row, tables, store, tables-IsBounded, file_path, row_found,
}
use roodox_sever_win.Server.Core.{Env, range_at_head, write_file_range}
use roodox_sever_win.Server.Core.Accepted.{changed, write_file_range_at}
use roodox_sever_win.Server.Reads.{read_file_range}
use roodox_sever_win.Server.Reads.Written.{read_file_range-write_file_range}

abbrev env : Env
env = core_env

head_found : resolve_file_head env.head store file ≡ ok (known_head row)
head_found = resolve_file_head_known env.head store file row refl refl row_found

saves : (mutation_save env.compute_hash env.save 9 file true (some (codes "olxyz")) tables).0 ≡ ok 4
unfolding mutation_save current_version max_version get bytes_eq
saves =
    save_file_snapshot_succeeds env.save
      (snapshot_meta env.compute_hash (unix 9) file (some (codes "olxyz"))) [] (change_type_of true)
      (some (codes "olxyz")) tables 0 tables-IsBounded (omega arith) (λ j h. absurd (omega arith))
      refl

answered_at_head :
    (range_at_head env store file 2 (codes "xyz") 3 (known_head row)).0 ≡ ok (changed 3 5 4)
unfolding range_at_head write_at read_file get put bytes_eq overwrite copy_into zeros
answered_at_head = rw saves refl

answered : (write_file_range env store file (pos 2) (codes "xyz") 3).0 ≡ ok (changed 3 5 4)
answered =
    ap (λ r. r.0)
      (write_file_range_at env store file file 2 (codes "xyz") 3 (known_head row) file_path
        head_found)
    ∙ answered_at_head

read_file_range-write_file_range_example :
    read_file_range
      (codes "/srv")
      none
      (write_file_range env store file (pos 2) (codes "xyz") 3).1
      file
      (pos 2)
      (pos 3)
    ≡ ok (codes "xyz", 5)
read_file_range-write_file_range_example =
    read_file_range-write_file_range env store file file 2 120 (codes "yz") 3 (known_head row)
      (changed 3 5 4) tables-IsBounded file_path head_found refl answered
