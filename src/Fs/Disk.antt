-- ===== src/Fs/Disk.antt =====
-- The files below the root, by their normal path, and the calls of internal/fs/filesystem.go and
-- of package os on them. What else may go wrong, a directory in the way included, is an argument
-- of the call. Times are nanoseconds since the zero time, and a change is given its own.
use roodox_sever_win.Base.{
  ℕ, zero, suc, ◌-◌, ℤ, pos_part, is_negative, ltb, leb, ◌&&◌, ◌+◌, max, Bool, true, false, Option,
  none, some, [], ◌∷◌, Bytes, take, length, drop, ◌++◌, ◌||◌, if◌then◌else◌,
}
use roodox_sever_win.Base.Dict.{Dict, get, put, remove}
use roodox_sever_win.Errors.{Result, ok, err, Err, os_not_exist, os_exist, other, ◌>>=◌}
use roodox_sever_win.Fs.RelPath.{slash, has_prefix}

pub record File : Type 0 where
  pub content : Bytes
  pub mtime : ℕ

abbrev pub Disk : Type 0
Disk = Dict File

abbrev found : Option File → Result Err File
found none = err os_not_exist
found (some f) = ok f

-- FileSystem.Stat
unfoldable pub stat : Option Err → Disk → Bytes → Result Err File
stat none d p = found (get d p)
stat (some e) d p = err e

-- How a write goes: it may be refused before the file is opened, or break off after some bytes.
pub data WriteFault : Type 0 where
  no_fault : WriteFault
  refused : Err → WriteFault
  torn : Err → ℕ → WriteFault

-- FileSystem.WriteFile truncates the file and writes the bytes.
unfoldable pub write_file : WriteFault → ℕ → Disk → Bytes → Bytes → Result Err (Unit {0}) × Disk
write_file no_fault now d p bytes = (ok tt, put d p (record { content = bytes; mtime = now }))
write_file (refused e) now d p bytes = (err e, d)
write_file (torn e n) now d p bytes =
    (err e, put d p (record { content = take n bytes; mtime = now }))

-- os.Remove
unfoldable pub remove_file : Option Err → Disk → Bytes → Disk
remove_file none d p = remove d p
remove_file (some e) d p = d

-- What O_EXCL leaves of a call: `opened` if no file is in the way.
abbrev pub when_new :
    Option File → Disk → Result Err (Unit {0}) × Disk → Result Err (Unit {0}) × Disk
when_new none d opened = opened
when_new (some f) d opened = (err os_exist, d)

-- writeFileExclusive: the file must be new. It is removed again when the write or the close
-- breaks off; the error that os.Remove meets then, if any, is ignored.
unfoldable pub write_file_exclusive :
    WriteFault → Option Err → ℕ → Disk → Bytes → Bytes → Result Err (Unit {0}) × Disk
unfolding remove_file
write_file_exclusive no_fault removal now d p bytes =
    when_new (get d p) d (ok tt, put d p (record { content = bytes; mtime = now }))
write_file_exclusive (refused e) removal now d p bytes = (err e, d)
write_file_exclusive (torn e n) removal now d p bytes =
    when_new (get d p) d
      (err e, remove_file removal (put d p (record { content = take n bytes; mtime = now })) p)

-- FileSystem.ReadFile: the bytes are a slice that is not nil.
unfoldable pub read_file : Option Err → Disk → Bytes → Result Err Bytes
read_file none d p = found (get d p) >>= λ f. ok f.content
read_file (some e) d p = err e

-- The bytes from an offset, as many as the length says if it is positive, and the file's size.
abbrev pub range_of : Bytes → ℕ → ℤ → Bytes × ℕ
range_of content offset len =
    let size = length content in
    let n =
      if ltb 0 (pos_part len) && ltb (pos_part len) (size - offset)
      then pos_part len
      else size - offset in
    if leb size offset then ([], size) else (take n (drop offset content), size)

-- FileSystem.ReadAt
unfoldable pub read_at : Option Err → Disk → Bytes → ℤ → ℤ → Result Err (Bytes × ℕ)
read_at (some e) d p offset len = err e
read_at none d p offset len =
    if is_negative offset
    then err other
    else found (get d p) >>= λ f. ok (range_of f.content (pos_part offset) len)

-- make([]byte, n)
unfoldable pub zeros : ℕ → Bytes
zeros zero = []
zeros (suc n) = 0 ∷ zeros n

-- copy(dst[offset:], src): as many bytes as both have.
unfoldable pub copy_into : ℕ → Bytes → Bytes → Bytes
copy_into zero [] src = []
copy_into zero (x ∷ dst) [] = x ∷ dst
copy_into zero (x ∷ dst) (b ∷ src) = b ∷ copy_into zero dst src
copy_into (suc n) [] src = []
copy_into (suc n) (x ∷ dst) src = x ∷ copy_into n dst src

-- The content of a file after bytes are written at an offset: zero behind the old end.
unfoldable pub overwrite : Bytes → ℕ → Bytes → Bytes
overwrite old offset bytes =
    copy_into offset (copy_into 0 (zeros (max (length old) (offset + length bytes))) old) bytes

-- The content of a file after it is cut or extended to a size.
unfoldable pub truncate : Bytes → ℕ → Bytes
truncate old size = copy_into 0 (zeros size) old

-- The file that O_CREATE opens.
abbrev pub opened : ℕ → Option File → File
opened now none = record { content = []; mtime = now }
opened now (some f) = f

-- A write of no bytes leaves the file as it was opened.
abbrev pub written_at : ℕ → File → ℕ → Bytes → File
written_at now f offset [] = f
written_at now f offset (b ∷ bytes) = record {
  content = overwrite f.content offset (b ∷ bytes);
  mtime = now;
}

-- FileSystem.WriteAt, for an offset that is not negative: the bytes written and the new size.
unfoldable pub write_at : WriteFault → ℕ → Disk → Bytes → ℕ → Bytes → Result Err (ℕ × ℕ) × Disk
write_at no_fault now d p offset bytes =
    let f = written_at now (opened now (get d p)) offset bytes in
    (ok (length bytes, length f.content), put d p f)
write_at (refused e) now d p offset bytes = (err e, d)
write_at (torn e n) now d p offset bytes =
    (err e, put d p (written_at now (opened now (get d p)) offset (take n bytes)))

-- FileSystem.SetFileSize, for a size that is not negative; `torn` with no bytes leaves the file as
-- opened, when Truncate fails, and else as truncated, when Stat fails.
unfoldable pub set_file_size : WriteFault → ℕ → Disk → Bytes → ℕ → Result Err ℕ × Disk
set_file_size no_fault now d p size = (
  ok size,
  put d p (record { content = truncate (opened now (get d p)).content size; mtime = now }),
)
set_file_size (refused e) now d p size = (err e, d)
set_file_size (torn e zero) now d p size = (err e, put d p (opened now (get d p)))
set_file_size (torn e (suc n)) now d p size = (
  err e,
  put d p (record { content = truncate (opened now (get d p)).content size; mtime = now }),
)

abbrev pub removed : Disk → Bytes → Option File → Result Err (Unit {0}) × Disk
removed d p none = (err os_not_exist, d)
removed d p (some f) = (ok tt, remove d p)

-- FileSystem.Remove: of a file, or of an empty directory.
unfoldable pub remove_path : Option Err → Bool → Disk → Bytes → Result Err (Unit {0}) × Disk
remove_path (some e) is_dir d p = (err e, d)
remove_path none true d p = (ok tt, d)
remove_path none false d p = removed d p (get d p)

-- Some file lies below the directory.
unfoldable pub any_below : Bytes → Disk → Bool
any_below p [] = false
any_below p ((q, f) ∷ d) =
    let rest = any_below p d in if has_prefix q (p ++ (slash ∷ [])) then true else rest

abbrev is_some : Option File → Bool
is_some none = false
is_some (some f) = true

abbrev pub exists_at : Disk → Bytes → Bool
exists_at d p = is_some (get d p)

-- The files of a directory under its new path.
unfoldable pub move_below : Bytes → Bytes → Disk → Disk
move_below old new [] = []
move_below old new ((q, f) ∷ d) =
    let rest = move_below old new d in
    (if has_prefix q (old ++ (slash ∷ [])) then new ++ drop (length old) q else q, f) ∷ rest

abbrev pub rename_found : Bool → Disk → Bytes → Bytes → Option File → Result Err (Unit {0}) × Disk
rename_found is_dir d old new (some f) =
    if any_below new d then (err other, d) else (ok tt, put (remove d old) new f)
rename_found is_dir d old new none =
    if is_dir || any_below old d
    then (if exists_at d new || any_below new d
        then (err other, d)
        else (ok tt, move_below old new d))
    else (err os_not_exist, d)

-- FileSystem.Rename: a file replaces a file, and a directory nothing, and neither goes below
-- itself; `is_dir` stands for an empty directory at the old path.
unfoldable pub rename_path : Option Err → Bool → Disk → Bytes → Bytes → Result Err (Unit {0}) × Disk
rename_path (some e) is_dir d old new = (err e, d)
rename_path none is_dir d old new =
    if has_prefix new (old ++ (slash ∷ []))
    then (err other, d)
    else rename_found is_dir d old new (get d old)
