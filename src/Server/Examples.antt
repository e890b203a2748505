-- ===== src/Server/Examples.antt =====
-- A root with one file, whose current version is 3.
use roodox_sever_win.Base.{
  ℕ, ◌≡◌, refl, Option, none, some, [], ◌∷◌, true, false, Bytes, bytes_eq, codes, pos, arith,
}
use roodox_sever_win.Base.Dict.{get}
use roodox_sever_win.Errors.{ok, Err}
use roodox_sever_win.Fs.RelPath.{normalize_relative_path, check_clean, clean, is_rooted}
use roodox_sever_win.Fs.Root.{normalize_project_path}
use roodox_sever_win.Fs.Root.Requests.{normalize_project_path_lem}
use roodox_sever_win.Db.Tables.{Tables, Meta, max_version}
use roodox_sever_win.Db.Versions.{current_version}
use roodox_sever_win.Db.Versions.Bounds.{IsBounded, max_blob}
use roodox_sever_win.Server.Mutations.{Store}
use roodox_sever_win.Server.Copies.{ConflictCleanupPolicy, Sweep}
use roodox_sever_win.Server.Sync
use roodox_sever_win.Server.Core
use roodox_sever_win.Fs.Disk.{no_fault}

abbrev pub file : Bytes
file = codes "a/f"

-- The content stands for its hash.
abbrev pub row : Meta
row = record {
  path = codes "a/f";
  is_dir = false;
  size = 3;
  mtime_unix = pos 7;
  hash = codes "old";
  version = 3;
}

abbrev pub tables : Tables
tables = record {
  meta = (file, row) ∷ [];
  file_head = (file, 3) ∷ [];
  version = [];
  version_blob = [];
}

abbrev pub store : Store
store = record {
  disk = (file, record { content = codes "old"; mtime = 7 }) ∷ [];
  tables = tables;
  last_cleanup = 0;
}

pub tables-IsBounded : IsBounded tables
unfolding max_version max_blob current_version get
tables-IsBounded = record {
  rows = λ p. omega arith;
  blobs = λ p. omega arith;
  metas = λ p. ground arith;
}

pub root_rooted : is_rooted (codes "/srv") ≡ true
unfolding is_rooted
root_rooted = refl

file_normal : normalize_relative_path file ≡ ok file
unfolding normalize_relative_path check_clean clean bytes_eq
file_normal = refl

pub file_path : normalize_project_path (codes "/srv") file ≡ ok file
file_path = rw (normalize_project_path_lem (codes "/srv") file root_rooted) file_normal

pub row_found : get tables.meta file ≡ some row
unfolding get bytes_eq
row_found = refl

abbrev pub quiet : Sweep
quiet = record { read_dir = none; info = λ q. none; remove = λ q. none }

abbrev pub policy : ConflictCleanupPolicy
policy = record { file_ttl = pos 100; max_copies_per_path = pos 2; cleanup_interval = pos 10 }

abbrev pub sync_env : (ℕ → Option Err) → Sync.Env
sync_env save = record {
  root = codes "/srv";
  compute_hash = λ b. b;
  policy = policy;
  write_time = 8;
  save_time = 9;
  cleanup_time = 9;
  head = record { latest = none; meta = none; stat = none };
  again = none;
  copies = record { suffix = λ k. codes "1"; fault = λ k. no_fault; removal = λ k. none };
  sweep = quiet;
  walk = quiet;
  write = no_fault;
  save = save;
}

-- A call of the core service to which nothing is reported.
abbrev pub core_env : Core.Env
core_env = record {
  root = codes "/srv";
  compute_hash = λ b. b;
  write_time = 8;
  save_time = 9;
  head = record { latest = none; meta = none; stat = none };
  again = none;
  snapshot = record { find = none; content = none };
  max_alloc = 1_099_511_627_776;
  copies = record { suffix = λ k. codes "1"; fault = λ k. no_fault; removal = λ k. none };
  write = no_fault;
  read = none;
  save = λ k. none;
  is_dir = false;
  change = none;
  revert = none;
  set = none;
}
