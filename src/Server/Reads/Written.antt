-- ===== src/Server/Reads/Written.antt =====
-- What ReadFileRange reads of a range that has been written.
use roodox_sever_win.Base.{
  ℕ, zero, suc, ◌+◌, ◌-◌, ◌≤◌, ◌<◌, inl, inr, Bool, Bool-cases, ◌≡◌, refl, ap, ◌∙◌, none, some,
  false, [], ◌∷◌, Bytes, pos, take, drop, length, length-drop, max, ltb, arith,
}
use roodox_sever_win.Base.Dict.{get}
use roodox_sever_win.Errors.{Result, Code, ok, err}
use roodox_sever_win.Fs.Root.{normalize_project_path}
use roodox_sever_win.Fs.Disk.{File, zeros, copy_into, overwrite, opened, range_of, read_at}
use roodox_sever_win.Db.Versions.Bounds.{IsBounded}
use roodox_sever_win.Server.Mutations.{Store, FileHeadState, resolve_file_head}
use roodox_sever_win.Server.Ranges.Contents.{length-zeros, length-copy_into}
use roodox_sever_win.Server.Sync.{is_stale}
use roodox_sever_win.Server.Core.{Env, RangeResponse, write_file_range}
use roodox_sever_win.Server.Core.Accepted.{
  SavesFile, fails, saved, range_file, write_file_range_accepted,
}
use roodox_sever_win.Server.Reads.{read_file_range}

drop-copy_into :
    (n : ℕ) (dst src : Bytes) → drop n (copy_into n dst src) ≡ copy_into 0 (drop n dst) src
unfolding copy_into
drop-copy_into zero dst src = refl
drop-copy_into (suc n) [] [] = refl
drop-copy_into (suc n) [] (b ∷ src) = refl
drop-copy_into (suc n) (x ∷ dst) src = drop-copy_into n dst src

take-copy_into :
    (dst src : Bytes) → length src ≤ length dst → take (length src) (copy_into 0 dst src) ≡ src
unfolding copy_into
take-copy_into dst [] h = refl
take-copy_into [] (b ∷ src) h = absurd (omega arith)
take-copy_into (x ∷ dst) (b ∷ src) h = ap (λ t. b ∷ t) (take-copy_into dst src (omega arith))

length-overwrite :
    (old : Bytes) (offset : ℕ) (bytes : Bytes)
    → length (overwrite old offset bytes) ≡ max (length old) (offset + length bytes)
unfolding overwrite
length-overwrite old offset bytes =
    let size = max (length old) (offset + length bytes) in
    length-copy_into offset (copy_into 0 (zeros size) old) bytes
    ∙ length-copy_into 0 (zeros size) old
    ∙ length-zeros size

range_of_overwrite :
    (old : Bytes) (offset : ℕ) (bytes : Bytes)
    → take (length bytes) (drop offset (overwrite old offset bytes)) ≡ bytes
unfolding overwrite
range_of_overwrite old offset bytes =
    let size = max (length old) (offset + length bytes) in
    let under = copy_into 0 (zeros size) old in
    ap (take (length bytes)) (drop-copy_into offset under bytes)
    ∙ take-copy_into (drop offset under) bytes (
        omega
          (arith, length-drop offset under, length-copy_into 0 (zeros size) old, length-zeros size))

range_of_at :
    (content : Bytes) (offset len : ℕ)
    → 0 < len
    → offset + len ≤ length content
    → range_of content offset (pos len) ≡ (take len (drop offset content), length content)
range_of_at content offset len p h = elim (Bool-cases (ltb len (length content - offset))) [
  | inl e ↦ ground arith
  | inr e ↦ (let n : length content - offset ≡ len = ground arith in rw n (ground arith))
]

-- What is read of the written range.
reads_range :
    (old : Bytes) (offset b : ℕ) (bytes : Bytes)
    → range_of (overwrite old offset (b ∷ bytes)) offset (pos (length (b ∷ bytes)))
      ≡ (b ∷ bytes, length (overwrite old offset (b ∷ bytes)))
reads_range old offset b bytes =
    range_of_at (overwrite old offset (b ∷ bytes)) offset (length (b ∷ bytes)) (omega arith)
      (omega (arith, length-overwrite old offset (b ∷ bytes)))
    ∙ ap (λ t. (t, length (overwrite old offset (b ∷ bytes))))
        (range_of_overwrite old offset (b ∷ bytes))

read_stored :
    (root : Bytes) (s : Store) (path p : Bytes) (offset len : ℕ) (f : File)
    → normalize_project_path root path ≡ ok p
    → get s.disk p ≡ some f
    → read_file_range root none s path (pos offset) (pos len)
      ≡ ok (range_of f.content offset (pos len))
unfolding read_file_range read_at
read_stored root s path p offset len f n g = rw (n, g) refl

reads_saved :
    (env : Env) (s : Store) (path p : Bytes) (existed : Bool) (offset b : ℕ) (bytes : Bytes)
    (r : Result Code RangeResponse × Store) (answer : RangeResponse)
    → normalize_project_path env.root path ≡ ok p
    → SavesFile env s p existed (length (b ∷ bytes)) (range_file env s p offset (b ∷ bytes)) r
    → r.0 ≡ ok answer
    → read_file_range env.root none r.1 path (pos offset) (pos (length (b ∷ bytes)))
      ≡ ok (b ∷ bytes, answer.file_size)
reads_saved env s path p existed offset b bytes _ answer n (fails c s' x y) e = absurd (cc e)
reads_saved env s path p existed offset b bytes _ answer n (saved s' x y z w) e =
    read_stored env.root s' path p offset (length (b ∷ bytes)) _ n x
    ∙ ap ok (reads_range (opened env.write_time (get s.disk p)).content offset b bytes)
    ∙ ap (λ k. ok (b ∷ bytes, k)) (ap size_of e)
  where
    size_of : Result Code RangeResponse → ℕ
    size_of (ok a) = a.file_size
    size_of (err c) = 0

-- A range that is written reads back: when the path normalises to p, the head of p is found, the
-- base version is not stale, the tables are bounded, and WriteFileRange of at least one byte is
-- answered, then ReadFileRange of the same offset and length, if the disk reports no error,
-- answers with the bytes and with the file size of that answer.
pub read_file_range-write_file_range :
    (env : Env) (s : Store) (path p : Bytes) (offset b : ℕ) (bytes : Bytes) (base : ℕ)
    (head : FileHeadState) (answer : RangeResponse)
    → IsBounded s.tables
    → normalize_project_path env.root path ≡ ok p
    → resolve_file_head env.head s p ≡ ok head
    → is_stale base head.version ≡ false
    → (write_file_range env s path (pos offset) (b ∷ bytes) base).0 ≡ ok answer
    → read_file_range env.root none
        (write_file_range env s path (pos offset) (b ∷ bytes) base).1
        path
        (pos offset)
        (pos (length (b ∷ bytes)))
      ≡ ok (b ∷ bytes, answer.file_size)
read_file_range-write_file_range env s path p offset b bytes base head answer bounded n h fresh e =
    reads_saved env s path p head.exists offset b bytes
      (write_file_range env s path (pos offset) (b ∷ bytes) base) answer n
      (write_file_range_accepted env s path p offset (b ∷ bytes) base head bounded n h fresh) e
