-- ===== src/Server/Core/Tests.antt =====
-- WriteFileRange and SetFileSize on a root with one file, whose current version is 3.
use roodox_sever_win.Base.{◌≡◌, refl, [], ◌∷◌, true, false, codes, pos, arith, bytes_eq}
use roodox_sever_win.Errors.{ok}
use roodox_sever_win.Fs.Disk.{overwrite}
use roodox_sever_win.Db.Tables.{VersionRecord, find_version, find_blob}
use roodox_sever_win.Db.Versions.{get_record, get_version_data}
use roodox_sever_win.Server.Mutations.{Store, known_head, resolve_file_head, load_version_snapshot}
use roodox_sever_win.Server.Mutations.Heads.{resolve_file_head_known}
use roodox_sever_win.Server.Examples.{
  core_env, file, row, tables, store, tables-IsBounded, file_path, row_found,
}
use roodox_sever_win.Server.Core.{Env, has_size, write_file_range}
use roodox_sever_win.Server.Core.Accepted.{SavesFile, range_file, write_file_range_accepted}
use roodox_sever_win.Server.Core.Stale.{CopiesRange, write_file_range_stale}

abbrev env : Env
env = core_env

head_found : resolve_file_head env.head store file ≡ ok (known_head row)
head_found = resolve_file_head_known env.head store file row refl refl row_found

write_file_range_accepted_example :
    SavesFile env store file true 2
      (range_file env store file 1 (codes "xy"))
      (write_file_range env store file (pos 1) (codes "xy") 3)
write_file_range_accepted_example =
    write_file_range_accepted env store file file 1 (codes "xy") 3 (known_head row) tables-IsBounded
      file_path head_found refl

other_size : has_size env store file (known_head row) 5 ≡ false
unfolding has_size
other_size = refl

-- Version 2 of the file.
abbrev second_record : VersionRecord
second_record = record {
  version = 2;
  mtime_unix = pos 6;
  hash = codes "abc";
  size = 3;
  client_id = [];
  change_type = codes "modify";
}

abbrev older : Store
older = record store {
  tables = record tables {
    version = record { path = file; rec = second_record } ∷ [];
    version_blob = record { path = file; version = 2; content = codes "abc" } ∷ [];
  };
}

older_head : resolve_file_head env.head older file ≡ ok (known_head row)
older_head = resolve_file_head_known env.head older file row refl refl row_found

older_content : load_version_snapshot env.snapshot older.tables file 2 ≡ ok (codes "abc")
unfolding load_version_snapshot get_record get_version_data find_version find_blob bytes_eq
older_content = refl

write_file_range_stale_example :
    CopiesRange env older file
      (known_head row)
      (overwrite (codes "abc") 1 (codes "xy"))
      (write_file_range env older file (pos 1) (codes "xy") 2)
write_file_range_stale_example =
    write_file_range_stale env older file file 1 120 (codes "y") 2 (known_head row) (codes "abc")
      file_path older_head refl older_content (omega arith) (omega arith)
