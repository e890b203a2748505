-- ===== src/Server/Copies.antt =====
-- internal/server/sync_service.go: the cleanup of conflict copies. What the directory listing,
-- the file infos and the removals report is an argument; errors are logged and passed over. The
-- path is not the root itself. now.Sub(t) is compared with positive durations only.
pub mod Kept
use roodox_sever_win.Base.{
  ℕ, zero, suc, ◌-◌, Option, none, some, Bool, true, false, not, ◌&&◌, ◌||◌, List, [], ◌∷◌, ◌++◌,
  Bytes, bytes_eq, ℤ, pos_part, ltb, leb, ◌==◌, if◌then◌else◌, keep_if, length,
}
use roodox_sever_win.Errors.{Err}
use roodox_sever_win.Fs.RelPath.{split, has_prefix}
use roodox_sever_win.Fs.Ignore.{split_last, base_name, marker, should_ignore, is_conflict_path}
use roodox_sever_win.Fs.Disk.{Disk, File, remove_file}

-- ConflictCleanupPolicy
pub record ConflictCleanupPolicy : Type 0 where
  pub file_ttl : ℤ
  pub max_copies_per_path : ℤ
  pub cleanup_interval : ℤ

-- What one sweep meets, by the path of the file.
pub record Sweep : Type 0 where
  pub read_dir : Option Err
  pub info : Bytes → Option Err
  pub remove : Bytes → Option Err

abbrev pub reads : Option Err → Bool
reads none = true
reads (some e) = false

-- `ttl > 0 && now.Sub(t) > ttl`
abbrev pub is_expired : ℤ → ℕ → ℕ → Bool
is_expired ttl now t = ltb 0 (pos_part ttl) && ltb (pos_part ttl) (now - t)

unfoldable pub segments_eq : List Bytes → List Bytes → Bool
segments_eq [] [] = true
segments_eq (x ∷ xs) (y ∷ ys) = bytes_eq x y && segments_eq xs ys
segments_eq _ _ = false

abbrev pub dir_segments : List Bytes → List Bytes
dir_segments [] = []
dir_segments (x ∷ xs) = (split_last x xs).0

-- stringsHasConflictPrefix
unfoldable pub has_conflict_prefix : Bytes → Bytes → Bool
has_conflict_prefix name prefix = ltb (length prefix) (length name) && has_prefix name prefix

-- A file of the path's directory with the name of a copy of it.
unfoldable pub is_copy_of : Bytes → Bytes → Bool
unfolding segments_eq has_conflict_prefix
is_copy_of p q =
    segments_eq (dir_segments (split q)) (dir_segments (split p))
    && has_conflict_prefix (base_name q) (base_name p ++ marker)

-- a > b, byte by byte.
unfoldable pub bytes_gt : Bytes → Bytes → Bool
bytes_gt [] ys = false
bytes_gt (x ∷ xs) [] = true
bytes_gt (x ∷ xs) (y ∷ ys) = ltb y x || (x == y && bytes_gt xs ys)

-- The newest first, and the greatest name first among those of one time.
pub sorts_before : Bytes × File → Bytes × File → Bool
unfolding bytes_gt
sorts_before (p, f) (q, g) =
    if f.mtime == g.mtime then bytes_gt (base_name p) (base_name q) else ltb g.mtime f.mtime

unfoldable pub insert_copy : Bytes × File → List (Bytes × File) → List (Bytes × File)
unfolding sorts_before
insert_copy e [] = e ∷ []
insert_copy e (c ∷ cs) =
    let rest = insert_copy e cs in if sorts_before c e then c ∷ rest else e ∷ c ∷ cs

unfoldable pub sort_copies : List (Bytes × File) → List (Bytes × File)
unfolding insert_copy
sort_copies [] = []
sort_copies (e ∷ es) = insert_copy e (sort_copies es)

abbrev pub is_excess : ConflictCleanupPolicy → ℕ → ℕ → ℕ → Bool
is_excess policy now idx t =
    is_expired policy.file_ttl now t
    || (ltb 0 (pos_part policy.max_copies_per_path)
        && leb (pos_part policy.max_copies_per_path) idx)

unfoldable pub remove_excess :
    ConflictCleanupPolicy → Sweep → ℕ → ℕ → List (Bytes × File) → Disk → Disk
remove_excess policy sweep now idx [] d = d
remove_excess policy sweep now idx ((q, f) ∷ cs) d =
    remove_excess policy sweep now (suc idx) cs
      (if is_excess policy now idx f.mtime then remove_file (sweep.remove q) d q else d)

-- cleanupConflictCopiesForPath
unfoldable pub cleanup_conflict_copies_for_path :
    ConflictCleanupPolicy → Sweep → ℕ → Bytes → Disk → Disk
unfolding sort_copies remove_excess is_copy_of
cleanup_conflict_copies_for_path policy sweep now p d =
    if reads sweep.read_dir
    then remove_excess policy sweep now 0
        (sort_copies (keep_if (λ e. is_copy_of p e.0 && reads (sweep.info e.0)) d)) d
    else d

-- Some directory on the way to the file is left out of scans.
unfoldable pub some_ignored : List Bytes → Bool
some_ignored [] = false
some_ignored (x ∷ xs) = let rest = some_ignored xs in if should_ignore x then true else rest

-- The walk reaches the file, a conflict copy whose time has passed.
abbrev pub expires : ℤ → Sweep → ℕ → Bytes → File → Bool
expires ttl sweep now q f =
    (is_conflict_path q && not (some_ignored (dir_segments (split q))))
    && (reads (sweep.info q) && is_expired ttl now f.mtime)

-- cleanupExpiredConflictFiles, file by file; an entry that the walk cannot read is passed over.
unfoldable pub expire_walk : ℤ → Sweep → ℕ → List (Bytes × File) → Disk → Disk
unfolding some_ignored
expire_walk ttl sweep now [] d = d
expire_walk ttl sweep now ((q, f) ∷ es) d =
    expire_walk ttl sweep now es
      (if expires ttl sweep now q f then remove_file (sweep.remove q) d q else d)

unfoldable pub cleanup_expired_conflict_files : ℤ → Sweep → ℕ → Disk → Disk
unfolding expire_walk
cleanup_expired_conflict_files ttl sweep now d =
    if ltb 0 (pos_part ttl) then expire_walk ttl sweep now d d else d

-- `!last.IsZero() && now.Sub(last) < interval`
abbrev pub too_soon : ℤ → ℕ → ℕ → Bool
too_soon interval last now = not (last == 0) && ltb (now - last) (pos_part interval)

-- maybeCleanupExpiredConflictFiles; `last` is lastConflictCleanup.
unfoldable pub maybe_cleanup_expired_conflict_files :
    ConflictCleanupPolicy → Sweep → ℕ → ℕ × Disk → ℕ × Disk
unfolding cleanup_expired_conflict_files
maybe_cleanup_expired_conflict_files policy sweep now (last, d) =
    if (not (ltb 0 (pos_part policy.file_ttl)) || not (ltb 0 (pos_part policy.cleanup_interval)))
      || too_soon policy.cleanup_interval last now
    then (last, d)
    else (now, cleanup_expired_conflict_files policy.file_ttl sweep now d)
