-- ===== src/Server/Conflicts.antt =====
-- Conflict copies: internal/conflict/conflict.go, and writeConflictFile of
-- internal/server/file_mutation_support.go. The suffix of each attempt, made of the time and of
-- random digits, is an argument.
pub mod Copied
use roodox_sever_win.Base.{
  ℕ, zero, suc, Option, none, some, Bool, true, false, ◌||◌, List, [], ◌∷◌, ◌++◌, Bytes, bytes_eq,
  codes, if◌then◌else◌, ◌==◌,
}
use roodox_sever_win.Errors.{Result, ok, err, Err, os_exist}
use roodox_sever_win.Fs.RelPath.{slash, dot, split, join, clean}
use roodox_sever_win.Fs.Ignore.{split_last, marker}
use roodox_sever_win.Fs.Root.{join_paths}
use roodox_sever_win.Fs.Disk.{Disk, WriteFault, write_file_exclusive}

-- filepath.Dir and filepath.Base of a path in normal form.
abbrev pub dir_base : Bytes → List Bytes → Bytes × Bytes
dir_base p [] = (dot, p)
dir_base p (x ∷ xs) = let s = split_last x xs in (clean (join s.0), s.1)

-- GenerateConflictPath
unfoldable pub generate_conflict_path : Bytes → Bytes → Bytes
generate_conflict_path p suffix =
    let (dir, base) = dir_base p (split p) in
    let name = base ++ (marker ++ suffix) in
    if bytes_eq dir dot || bytes_eq dir (slash ∷ []) then name else join_paths dir name

abbrev pub max_conflict_write_attempts : ℕ
max_conflict_write_attempts = 32

-- The suffix of each attempt, how its exclusive write goes, and the error that os.Remove meets
-- when a write that broke off is undone, if any.
pub record Attempts : Type 0 where
  pub suffix : ℕ → Bytes
  pub fault : ℕ → WriteFault
  pub removal : ℕ → Option Err

abbrev pub is_exist : Err → Bool
is_exist os_exist = true
is_exist _ = false

-- One round of the loop: a name that is taken is tried again with another suffix, on the disk that
-- the round left.
abbrev pub conflict_round :
    Bytes → Result Err (Unit {0}) × Disk → Result Err Bytes × Disk → Result Err Bytes × Disk
conflict_round p (ok _, d) again = (ok p, d)
conflict_round p (err e, d) again = if is_exist e then again else (err e, d)

unfoldable pub conflict_loop : Attempts → ℕ → ℕ → ℕ → Disk → Bytes → Bytes → Result Err Bytes × Disk
conflict_loop a now zero k d p bytes = (err os_exist, d)
conflict_loop a now (suc left) k d p bytes =
    let copy = generate_conflict_path p (a.suffix k) in
    let tried = write_file_exclusive (a.fault k) (a.removal k) now d copy bytes in
    let again = conflict_loop a now left (suc k) tried.1 p bytes in conflict_round copy tried again

-- writeConflictFile of mutationSupport.
unfoldable pub write_conflict_file : Attempts → ℕ → Disk → Bytes → Bytes → Result Err Bytes × Disk
write_conflict_file a now d p bytes = conflict_loop a now max_conflict_write_attempts 0 d p bytes
