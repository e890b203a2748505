-- ===== src/Server/Conflicts/Copied.antt =====
-- A conflict copy gets a name that no file has, and an attempt that breaks off leaves at most a
-- partial copy at such a name.
use roodox_sever_win.Base.{
  ℕ, zero, suc, ◌≡◌, ◌≢◌, refl, sym, ap, ◌∙◌, ◌⊎◌, inl, inr, Option, none, some, Option-cases,
  Bool-cases, Bytes, bytes_eq, bytes_eq_iff, bytes_eq→eq, take, arith,
}
use roodox_sever_win.Base.Dict.{get, put, get-put, get-remove}
use roodox_sever_win.Errors.{Result, ok, err, Err, os_exist}
use roodox_sever_win.Fs.Disk.{
  Disk, File, WriteFault, no_fault, refused, torn, write_file_exclusive, remove_file,
}
use roodox_sever_win.Server.Conflicts.{
  Attempts, generate_conflict_path, conflict_loop, conflict_round, write_conflict_file, is_exist,
  max_conflict_write_attempts,
}

-- The file of this name is as it was; or no file had the name, which is generated for a copy, and
-- the file is now a beginning of the bytes.
abbrev pub Leaves : Attempts → ℕ → Bytes → Bytes → Bytes → Option File → Option File → Type 0
Leaves a now p bytes k old new =
    (new ≡ old)
    ⊎ ((old ≡ none)
        × (i : ℕ) × (n : ℕ) × (k ≡ generate_conflict_path p (a.suffix i))
        × (new ≡ some (record { content = take n bytes; mtime = now })))

abbrev pub LeavesAll : Attempts → ℕ → Bytes → Bytes → Disk → Disk → Type 0
LeavesAll a now p bytes d d' = (k : Bytes) → Leaves a now p bytes k (get d k) (get d' k)

-- The write fails, or one generated name that was free has the bytes; every other file is left.
abbrev pub Copies : Attempts → ℕ → Disk → Bytes → Bytes → Result Err Bytes × Disk → Type 0
Copies a now d p bytes r =
    ((e : Err) × (r.0 ≡ err e) × LeavesAll a now p bytes d r.1)
    ⊎ ((i : ℕ) × (r.0 ≡ ok (generate_conflict_path p (a.suffix i)))
        × (get d (generate_conflict_path p (a.suffix i)) ≡ none)
        × (get r.1 (generate_conflict_path p (a.suffix i))
            ≡ some (record { content = bytes; mtime = now }))
        × ((k : Bytes)
            → k ≢ generate_conflict_path p (a.suffix i)
            → Leaves a now p bytes k (get d k) (get r.1 k)))

Leaves-trans :
    (a : Attempts) (now : ℕ) (p bytes k : Bytes) (x y z : Option File)
    → Leaves a now p bytes k x y
    → Leaves a now p bytes k y z
    → Leaves a now p bytes k x z
Leaves-trans a now p bytes k x y z (inl e) (inl f) = inl (f ∙ e)
Leaves-trans a now p bytes k x y z (inl e) (inr (f, i, n, s, t)) = inr (sym e ∙ f, i, n, s, t)
Leaves-trans a now p bytes k x y z (inr (e, i, n, s, t)) (inl f) = inr (e, i, n, s, f ∙ t)
Leaves-trans a now p bytes k x y z (inr (e, i, n, s, t)) (inr (f, j, m, u, v)) = absurd (cc (t, f))

free_before :
    (a : Attempts) (now : ℕ) (p bytes k : Bytes) (x y : Option File)
    → Leaves a now p bytes k x y
    → y ≡ none
    → x ≡ none
free_before a now p bytes k x y (inl e) f = sym e ∙ f
free_before a now p bytes k x y (inr (e, i, n, s, t)) f = e

-- What comes after a round that left files alone but for a partial copy.
after_round :
    (a : Attempts) (now : ℕ) (d d' : Disk) (p bytes : Bytes) (r : Result Err Bytes × Disk)
    → LeavesAll a now p bytes d d'
    → Copies a now d' p bytes r
    → Copies a now d p bytes r
after_round a now d d' p bytes r l (inl (e, h, m)) =
    inl (e, h, λ k. Leaves-trans a now p bytes k _ _ _ (l k) (m k))
after_round a now d d' p bytes r l (inr (i, h, free, full, m)) = inr (
  i,
  h,
  free_before a now p bytes _ _ _ (l (generate_conflict_path p (a.suffix i))) free,
  full,
  λ k n. Leaves-trans a now p bytes k _ _ _ (l k) (m k n),
)

put_same : (d : Disk) (q : Bytes) (f : File) → get (put d q f) q ≡ some f
put_same d q f = ground (arith, get-put d q q f, bytes_eq_iff q q)

put_other : (d : Disk) (q k : Bytes) (f : File) → k ≢ q → get (put d q f) k ≡ get d k
put_other d q k f n = ground (arith, get-put d q k f, bytes_eq_iff q k, bytes_eq_iff k q)

-- How one attempt ends: it fails, or its name was free and has the bytes.
abbrev Tried : Attempts → ℕ → ℕ → Disk → Bytes → Bytes → Result Err (Unit {0}) × Disk → Type 0
Tried a now i d p bytes r =
    let q = generate_conflict_path p (a.suffix i) in
    ((e : Err) × (r.0 ≡ err e) × LeavesAll a now p bytes d r.1)
    ⊎ ((r.0 ≡ ok tt)
        × (get d q ≡ none)
        × (get r.1 q ≡ some (record { content = bytes; mtime = now }))
        × ((k : Bytes) → k ≢ q → get r.1 k ≡ get d k))

-- What is left of a file that was written and removed again.
removal_leaves :
    (removal : Option Err) (d : Disk) (q k : Bytes) (f : File)
    → get d q ≡ none
    → (get (remove_file removal (put d q f) q) k ≡ get d k)
      ⊎ ((get d k ≡ none) × (k ≡ q) × (get (remove_file removal (put d q f) q) k ≡ some f))
unfolding remove_file
removal_leaves none d q k f free = inl (elim (Bool-cases (bytes_eq q k)) [
  | inl e ↦
      (let same : q ≡ k = bytes_eq→eq q k e in
        get-remove (put d q f) q k ∙ rw e (sym free ∙ ap (get d) same))
  | inr e ↦ get-remove (put d q f) q k ∙ rw e (get-put d q k f ∙ rw e refl)
])
removal_leaves (some x) d q k f free = elim (Bool-cases (bytes_eq q k)) [
  | inl e ↦
      (let same : q ≡ k = bytes_eq→eq q k e in
        inr (sym (ap (get d) same) ∙ free, sym same, get-put d q k f ∙ rw e refl))
  | inr e ↦ inl (get-put d q k f ∙ rw e refl)
]

write_file_exclusive-Tried :
    (a : Attempts) (now i : ℕ) (fault : WriteFault) (removal : Option Err) (d : Disk)
    (p bytes : Bytes)
    → Tried a now i d p bytes
        (write_file_exclusive fault removal now d (generate_conflict_path p (a.suffix i)) bytes)
unfolding write_file_exclusive
write_file_exclusive-Tried a now i no_fault removal d p bytes =
    elim (Option-cases (get d (generate_conflict_path p (a.suffix i)))) [
      | inl e ↦ rw e (
          inr (
            refl,
            refl,
            put_same d _ _,
            λ k n. put_other d (generate_conflict_path p (a.suffix i)) k _ n,
          ))
      | inr (f, e) ↦ rw e (inl (os_exist, refl, λ k. inl refl))
    ]
write_file_exclusive-Tried a now i (refused x) removal d p bytes = inl (x, refl, λ k. inl refl)
write_file_exclusive-Tried a now i (torn x n) removal d p bytes =
    elim (Option-cases (get d (generate_conflict_path p (a.suffix i)))) [
      | inl e ↦ rw e (inl (x, refl, λ k. left k e))
      | inr (f, e) ↦ rw e (inl (os_exist, refl, λ k. inl refl))
    ]
  where
    left :
        (k : Bytes)
        → get d (generate_conflict_path p (a.suffix i)) ≡ none
        → Leaves a now p bytes k (get d k) (
            get
              (remove_file removal
                (put d
                  (generate_conflict_path p (a.suffix i))
                  (record { content = take n bytes; mtime = now }))
                (generate_conflict_path p (a.suffix i)))
              k)
    left k e = elim (removal_leaves removal d (generate_conflict_path p (a.suffix i)) k _ e) [
      | inl x ↦ inl x
      | inr (x, y, z) ↦ inr (x, i, n, y, z)
    ]

round-Copies :
    (a : Attempts) (now i : ℕ) (d : Disk) (p bytes : Bytes) (r : Result Err (Unit {0}) × Disk)
    (again : Result Err Bytes × Disk)
    → Tried a now i d p bytes r
    → Copies a now r.1 p bytes again
    → Copies a now d p bytes (conflict_round (generate_conflict_path p (a.suffix i)) r again)
round-Copies a now i d p bytes (ok u, d') again (inl (e, h, l)) c = cc h
round-Copies a now i d p bytes (err x, d') again (inl (e, h, l)) c =
    elim (Bool-cases (is_exist x)) [
      | inl t ↦ rw t (after_round a now d d' p bytes again l c)
      | inr t ↦ rw t (inl (x, refl, l))
    ]
round-Copies a now i d p bytes (ok u, d') again (inr (h, free, full, l)) c =
    inr (i, refl, free, full, λ k n. inl (l k n))
round-Copies a now i d p bytes (err x, d') again (inr (h, free, full, l)) c = cc h

loop-Copies :
    (a : Attempts) (now left i : ℕ) (d : Disk) (p bytes : Bytes)
    → Copies a now d p bytes (conflict_loop a now left i d p bytes)
unfolding conflict_loop
loop-Copies a now zero i d p bytes = inl (os_exist, refl, λ k. inl refl)
loop-Copies a now (suc left) i d p bytes =
    let copy = generate_conflict_path p (a.suffix i) in
    let tried = write_file_exclusive (a.fault i) (a.removal i) now d copy bytes in
    round-Copies a now i d p bytes tried _
      (write_file_exclusive-Tried a now i (a.fault i) (a.removal i) d p bytes)
      (loop-Copies a now left (suc i) tried.1 p bytes)

pub write_conflict_file-Copies :
    (a : Attempts) (now : ℕ) (d : Disk) (p bytes : Bytes)
    → Copies a now d p bytes (write_conflict_file a now d p bytes)
unfolding write_conflict_file
write_conflict_file-Copies a now d p bytes =
    loop-Copies a now max_conflict_write_attempts 0 d p bytes
