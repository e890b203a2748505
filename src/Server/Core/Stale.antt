-- ===== src/Server/Core/Stale.antt =====
-- WriteFileRange with the base version of an older state of the file.
use roodox_sever_win.Base.{
  ℕ, ◌+◌, ◌^◌, ◌<◌, ◌≡◌, ◌≢◌, inl, inr, none, some, true, Bool-cases, Bytes, ◌∷◌, pos, length,
  arith, [], max, ltb,
}
use roodox_sever_win.Base.Dict.{get}
use roodox_sever_win.Errors.{Result, ok, err, Err, Code, unavailable}
use roodox_sever_win.Fs.Root.{normalize_project_path}
use roodox_sever_win.Fs.Disk.{Disk, overwrite}
use roodox_sever_win.Server.Mutations.{
  Store, FileHeadState, resolve_file_head, load_version_snapshot,
}
use roodox_sever_win.Server.Conflicts.Copied.{Leaves, LeavesAll, Copies, write_conflict_file-Copies}
use roodox_sever_win.Server.Conflicts.{generate_conflict_path}
use roodox_sever_win.Server.Ranges.{apply_range_mutation, make_bytes}
use roodox_sever_win.Server.Ranges.Contents.{apply_below, range-HasRange}
use roodox_sever_win.Server.Sync.{is_stale}
use roodox_sever_win.Server.Core.{
  Env, RangeResponse, conflict_response, answer_stale, copy_answer, range_at_head, write_file_range,
}
use roodox_sever_win.Server.Core.Accepted.{write_file_range_at}

-- A conflict is answered, and its copy, if one is named, has the content; other files are left but
-- for partial copies. Or make cannot give that many bytes, and the process ends.
pub data CopiesRange (env : Env) (s : Store) (p : Bytes) (head : FileHeadState) (content : Bytes)
    : Result Code RangeResponse × Store → Type 0 where
  no_copy :
      (d : Disk)
      → LeavesAll env.copies env.write_time p content s.disk d
      → CopiesRange env s p head content (ok (conflict_response head []), record s { disk = d })
  copied :
      (copy : Bytes) (d : Disk)
      → get s.disk copy ≡ none
      → get d copy ≡ some (record { content = content; mtime = env.write_time })
      → ((k : Bytes)
          → k ≢ copy
          → Leaves env.copies env.write_time p content k (get s.disk k) (get d k))
      → CopiesRange env s p head content (ok (conflict_response head copy), record s { disk = d })
  crashed : env.max_alloc < length content → CopiesRange env s p head content (err unavailable, s)

copy_answer-CopiesRange :
    (env : Env) (s : Store) (p : Bytes) (head : FileHeadState) (content : Bytes)
    (r : Result Err Bytes × Disk)
    → Copies env.copies env.write_time s.disk p content r
    → CopiesRange env s p head content (copy_answer head s r)
copy_answer-CopiesRange env s p head content (err x, d) (inl (e, h, l)) = no_copy d l
copy_answer-CopiesRange env s p head content (ok c, d) (inl (e, h, l)) = cc h
copy_answer-CopiesRange env s p head content (err x, d) (inr (i, h, free, full, l)) = cc h
copy_answer-CopiesRange env s p head content (ok c, d) (inr (i, h, free, full, l)) =
    let e : generate_conflict_path p (env.copies.suffix i) ≡ c = ground arith in
    copied c d (rw e at free) (rw e at full) (rw e at l)

-- applyRangeMutation makes what the file system makes of the same content, or make panics.
range_of_base :
    (max_alloc : ℕ) (base_data : Bytes) (offset b : ℕ) (bytes : Bytes)
    → length base_data < 2 ^ 63
    → offset + length (b ∷ bytes) < 2 ^ 63
    → apply_range_mutation max_alloc base_data (pos offset) (b ∷ bytes)
      ≡ make_bytes max_alloc
          (max (length base_data) (offset + length (b ∷ bytes)))
          (overwrite base_data offset (b ∷ bytes))
unfolding overwrite
range_of_base max_alloc base_data offset b bytes h k =
    apply_below max_alloc base_data offset (b ∷ bytes) h k

length-overwrite :
    (old : Bytes) (offset : ℕ) (bytes : Bytes)
    → length (overwrite old offset bytes) ≡ max (length old) (offset + length bytes)
unfolding overwrite
length-overwrite old offset bytes = (range-HasRange old offset bytes).0

made-CopiesRange :
    (env : Env) (s : Store) (p : Bytes) (head : FileHeadState) (content : Bytes) (size : ℕ)
    → length content ≡ size
    → CopiesRange env s p head content
        (answer_stale env p head s (make_bytes env.max_alloc size content))
unfolding answer_stale
made-CopiesRange env s p head content size e = elim (Bool-cases (ltb env.max_alloc size)) [
  | inl t ↦ rw t (crashed (ground arith))
  | inr t ↦ rw t (
      copy_answer-CopiesRange env s p head content _
        (write_conflict_file-Copies env.copies env.write_time s.disk p content))
]

-- WriteFileRange of some bytes with a base version that is stale, when the path normalises to p,
-- the head of p is found, the content of the base version is loaded, and it and the end of the
-- range stay below 2^63. Let the new content be that of the base version as a write of the range
-- to a file makes it. If make cannot give its length, a panic may end the process before
-- anything has changed. Else a conflict with the head of p is answered and no table changes: it
-- names no copy, or one at a name that was free and that has the new content; and every other
-- file is as it was, or is new with a generated name and a beginning of that content.
pub write_file_range_stale :
    (env : Env) (s : Store) (path p : Bytes) (offset b : ℕ) (bytes : Bytes) (base : ℕ)
    (head : FileHeadState) (content : Bytes)
    → normalize_project_path env.root path ≡ ok p
    → resolve_file_head env.head s p ≡ ok head
    → is_stale base head.version ≡ true
    → load_version_snapshot env.snapshot s.tables p base ≡ ok content
    → length content < 2 ^ 63
    → offset + length (b ∷ bytes) < 2 ^ 63
    → CopiesRange env s p head
        (overwrite content offset (b ∷ bytes))
        (write_file_range env s path (pos offset) (b ∷ bytes) base)
unfolding range_at_head
write_file_range_stale env s path p offset b bytes base head content e h t l small fits =
    rw
      (
        write_file_range_at env s path p offset (b ∷ bytes) base head e h,
        t,
        l,
        range_of_base env.max_alloc content offset b bytes small fits,
      )
      (made-CopiesRange env s p head (overwrite content offset (b ∷ bytes)) _
        (length-overwrite content offset (b ∷ bytes)))
