-- ===== src/Server/Copies/Kept.antt =====
-- The cleanups remove conflict copies only.
use roodox_sever_win.Base.{
  ℕ, suc, ◌≡◌, refl, ap, ◌∙◌, inl, inr, Option, none, some, Bool, true, false, ◌&&◌, List, [], ◌∷◌,
  ◌++◌, Bytes, bytes_eq, bytes_eq_iff, ℤ, ◌==◌, keep_if, arith, Bool-cases,
}
use roodox_sever_win.Base.Dict.{get, get-remove}
use roodox_sever_win.Errors.{Err}
use roodox_sever_win.Fs.RelPath.Segments.{All}
use roodox_sever_win.Fs.RelPath.{has_prefix}
use roodox_sever_win.Fs.Ignore.{is_conflict_path, contains, to_lower, base_name, marker, lower}
use roodox_sever_win.Fs.Disk.{Disk, File, remove_file}
use roodox_sever_win.Server.Copies.{
  ConflictCleanupPolicy, Sweep, reads, is_excess, remove_excess, sort_copies, insert_copy,
  is_copy_of, expire_walk, maybe_cleanup_expired_conflict_files, cleanup_expired_conflict_files,
  cleanup_conflict_copies_for_path, sorts_before, has_conflict_prefix, expires,
}

-- The entry is not the file at `k`.
abbrev pub NotAt : Bytes → Bytes × File → Type 0
NotAt k e = bytes_eq e.0 k ≡ false

get-remove_file :
    (fault : Option Err) (d : Disk) (q k : Bytes)
    → bytes_eq q k ≡ false
    → get (remove_file fault d q) k ≡ get d k
unfolding remove_file
get-remove_file none d q k n = ground (arith, get-remove d q k)
get-remove_file (some e) d q k n = refl

remove_excess_kept :
    (policy : ConflictCleanupPolicy) (sweep : Sweep) (now idx : ℕ) (cs : List (Bytes × File))
    (d : Disk) (k : Bytes)
    → All (NotAt k) cs
    → get (remove_excess policy sweep now idx cs d) k ≡ get d k
unfolding remove_excess
remove_excess_kept policy sweep now idx [] d k h = refl
remove_excess_kept policy sweep now idx ((q, f) ∷ cs) d k h =
    elim (Bool-cases (is_excess policy now idx f.mtime)) [
      | inl e ↦ rw e (
          remove_excess_kept policy sweep now (suc idx) cs _ k h.1
          ∙ get-remove_file (sweep.remove q) d q k h.0)
      | inr e ↦ rw e (remove_excess_kept policy sweep now (suc idx) cs d k h.1)
    ]

insert_copy-NotAt :
    (k : Bytes) (e : Bytes × File) (cs : List (Bytes × File))
    → NotAt k e
    → All (NotAt k) cs
    → All (NotAt k) (insert_copy e cs)
unfolding insert_copy
insert_copy-NotAt k e [] h a = (h, tt)
insert_copy-NotAt k e (c ∷ cs) h a = elim (Bool-cases (sorts_before c e)) [
  | inl t ↦ rw t (a.0, insert_copy-NotAt k e cs h a.1)
  | inr t ↦ rw t (h, (a.0, a.1))
]

sort_copies-NotAt :
    (k : Bytes) (cs : List (Bytes × File)) → All (NotAt k) cs → All (NotAt k) (sort_copies cs)
unfolding sort_copies
sort_copies-NotAt k [] a = tt
sort_copies-NotAt k (c ∷ cs) a = insert_copy-NotAt k c _ a.0 (sort_copies-NotAt k cs a.1)

-- A test that fails at `k` lets no entry of `k` pass.
keep_if-NotAt :
    (test : Bytes × File → Bool) (k : Bytes)
    → ((e : Bytes × File) → test e ≡ true → NotAt k e)
    → (d : List (Bytes × File)) → All (NotAt k) (keep_if test d)
keep_if-NotAt test k f [] = tt
keep_if-NotAt test k f (e ∷ d) = elim (Bool-cases (test e)) [
  | inl t ↦ rw t (f e t, keep_if-NotAt test k f d)
  | inr t ↦ rw t (keep_if-NotAt test k f d)
]

to_lower-prefix :
    (s m : Bytes) → has_prefix s m ≡ true → has_prefix (to_lower s) (to_lower m) ≡ true
unfolding has_prefix to_lower
to_lower-prefix s [] h = refl
to_lower-prefix [] (c ∷ m) h = absurd (cc h)
to_lower-prefix (x ∷ s) (c ∷ m) h = elim (Bool-cases (x == c)) [
  | inl e ↦ ground (arith, to_lower-prefix s m)
  | inr e ↦ absurd (ground arith)
]

contains_prefix : (s m : Bytes) → has_prefix s m ≡ true → contains s m ≡ true
unfolding contains
contains_prefix [] m h = h
contains_prefix (c ∷ s) m h = rw h refl

contains_later :
    (x : ℕ) (s m : Bytes)
    → contains (to_lower s) (to_lower m) ≡ true
    → contains (to_lower (x ∷ s)) (to_lower m) ≡ true
unfolding contains to_lower
contains_later x s m h = ground arith

prefix_tail :
    (x : ℕ) (s : Bytes) (b : ℕ) (p : Bytes)
    → has_prefix (x ∷ s) (b ∷ p) ≡ true
    → has_prefix s p ≡ true
unfolding has_prefix
prefix_tail x s b p h = ground arith

contains_behind :
    (s base m : Bytes) → has_prefix s (base ++ m) ≡ true → contains (to_lower s) (to_lower m) ≡ true
contains_behind s [] m h = contains_prefix (to_lower s) (to_lower m) (to_lower-prefix s m h)
contains_behind [] (b ∷ base) m h = absurd (unfold has_prefix in cc h)
contains_behind (x ∷ s) (b ∷ base) m h =
    contains_later x s m (contains_behind s base m (prefix_tail x s b (base ++ m) h))

copy_has_prefix :
    (p q : Bytes) → is_copy_of p q ≡ true → has_prefix (base_name q) (base_name p ++ marker) ≡ true
unfolding is_copy_of has_conflict_prefix
copy_has_prefix p q h = ground arith

copy_is_conflict : (p q : Bytes) → is_copy_of p q ≡ true → is_conflict_path q ≡ true
unfolding is_conflict_path to_lower lower
copy_is_conflict p q h = contains_behind (base_name q) (base_name p) marker (copy_has_prefix p q h)

conflict_not_at :
    (k q : Bytes) → is_conflict_path k ≡ false → is_conflict_path q ≡ true → bytes_eq q k ≡ false
conflict_not_at k q n c = elim (Bool-cases (bytes_eq q k)) [
  | inl e ↦ absurd (cc (n, c, ap is_conflict_path ((bytes_eq_iff q k).0 e)))
  | inr e ↦ e
]

-- What the walk and the cleanup of one path leave alone.
path_cleanup_kept :
    (policy : ConflictCleanupPolicy) (sweep : Sweep) (now : ℕ) (p : Bytes) (d : Disk) (k : Bytes)
    → is_conflict_path k ≡ false
    → get (cleanup_conflict_copies_for_path policy sweep now p d) k ≡ get d k
unfolding cleanup_conflict_copies_for_path
path_cleanup_kept policy sweep now p d k n = elim (Bool-cases (reads sweep.read_dir)) [
  | inl r ↦ rw r (
      remove_excess_kept policy sweep now 0 _ d k
        (sort_copies-NotAt k _ (keep_if-NotAt _ k passes d)))
  | inr r ↦ rw r refl
]
  where
    passes : (e : Bytes × File) → (is_copy_of p e.0 && reads (sweep.info e.0)) ≡ true → NotAt k e
    passes e t = conflict_not_at k e.0 n (copy_is_conflict p e.0 (ground arith))

walk_kept :
    (ttl : ℤ) (sweep : Sweep) (now : ℕ) (es : List (Bytes × File)) (d : Disk) (k : Bytes)
    → is_conflict_path k ≡ false
    → get (expire_walk ttl sweep now es d) k ≡ get d k
unfolding expire_walk
walk_kept ttl sweep now [] d k n = refl
walk_kept ttl sweep now ((q, f) ∷ es) d k n = elim (Bool-cases (expires ttl sweep now q f)) [
  | inl t ↦ rw t (
      walk_kept ttl sweep now es _ k n
      ∙ get-remove_file (sweep.remove q) d q k (conflict_not_at k q n (ground arith)))
  | inr t ↦ rw t (walk_kept ttl sweep now es d k n)
]

maybe_kept :
    (policy : ConflictCleanupPolicy) (sweep : Sweep) (now last : ℕ) (d : Disk) (k : Bytes)
    → is_conflict_path k ≡ false
    → get (maybe_cleanup_expired_conflict_files policy sweep now (last, d)).1 k ≡ get d k
unfolding maybe_cleanup_expired_conflict_files cleanup_expired_conflict_files
maybe_kept policy sweep now last d k n = ground (arith, walk_kept policy.file_ttl sweep now d d k n)

-- The cleanups after a new conflict copy, whatever they meet, leave every file alone whose name
-- is not that of a conflict copy.
pub cleanups_kept :
    (policy : ConflictCleanupPolicy) (sweep walk : Sweep) (now last : ℕ) (p : Bytes) (d : Disk)
    (k : Bytes)
    → is_conflict_path k ≡ false
    → get
        (maybe_cleanup_expired_conflict_files policy walk now
          (last, cleanup_conflict_copies_for_path policy sweep now p d)).1
        k
      ≡ get d k
cleanups_kept policy sweep walk now last p d k n =
    maybe_kept policy walk now last _ k n ∙ path_cleanup_kept policy sweep now p d k n
