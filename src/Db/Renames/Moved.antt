-- ===== src/Db/Renames/Moved.antt =====
-- What RenamePathTree leaves of every row.
use roodox_sever_win.Base.{
  ℕ, ◌≡◌, ◌≢◌, refl, ap, ◌∙◌, ◌⊎◌, inl, inr, false, Option, none, some, List, [], Bytes, bytes_eq,
  bytes_eq_iff, arith,
}
use roodox_sever_win.Base.Dict.{Dict, get}
use roodox_sever_win.Errors.{ok, err, Err}
use roodox_sever_win.Db.Tables.{Tables, VersionRecord, VersionRow, BlobRow, find_version, find_blob}
use roodox_sever_win.Db.Tx.Retries.{with_write_tx-IsAtomic}
use roodox_sever_win.Db.Versions.{get_record, get_version_data, or_not_exist}
use roodox_sever_win.Db.Renames.{
  in_tree, has_row, moved_path, rename_rows, head_columns, version_columns, blob_columns,
  rename_path_tree_tx, rename_path_tree,
}
use roodox_sever_win.Db.Renames.Statements.{Renamed, rename_path_tree_tx-Renamed}
use roodox_sever_win.Db.Renames.Places.{Goes, Goes-moved_path, in_tree_self, new_path_self}
use roodox_sever_win.Db.Renames.Rows.{
  moved_row, has_row-find_row, rename_rows_found, rename_rows_taken,
}
use roodox_sever_win.Db.Renames.Lookups.{
  blob_laws, find_blob_row, find_row_blob, find_row_version, find_version_row, get_row, head_laws,
  row_get, version_laws,
}

-- Every record, every content and every head is found at the moved path.
pub record MovesByPath (old new : Bytes) (t t' : Tables) : Type 0 where
  pub records :
      (p : Bytes) (v : ℕ) (r : VersionRecord)
      → get_record t p v ≡ ok r
      → get_record t' (moved_path old new p) v ≡ ok r
  pub contents :
      (p : Bytes) (v : ℕ) (d : Bytes)
      → get_version_data t p v ≡ ok d
      → get_version_data t' (moved_path old new p) v ≡ ok d
  pub heads :
      (p : Bytes) (h : ℕ)
      → get t.file_head p ≡ some h
      → get t'.file_head (moved_path old new p) ≡ some h

some_of_ok : {A : Type 0} (o : Option A) (a : A) → or_not_exist o ≡ ok a → o ≡ some a
some_of_ok none a h = cc
some_of_ok (some b) a h = ground arith

version_moved :
    (old new p : Bytes) (v : ℕ) (rs out : List VersionRow) (x : VersionRecord)
    → find_version p v rs ≡ some x
    → rename_rows version_columns old new [] rs ≡ ok out
    → find_version (moved_path old new p) v out ≡ some x
unfolding moved_row
version_moved old new p v rs out x h r =
    let (y, f, e) = find_version_row p v rs x h in
    find_row_version (moved_path old new p) v out _
      (rename_rows_found version_columns version_laws old new p v [] rs out y f r)
    ∙ ground arith

blob_moved :
    (old new p : Bytes) (v : ℕ) (rs out : List BlobRow) (x : Bytes)
    → find_blob p v rs ≡ some x
    → rename_rows blob_columns old new [] rs ≡ ok out
    → find_blob (moved_path old new p) v out ≡ some x
unfolding moved_row
blob_moved old new p v rs out x h r =
    let (y, f, e) = find_blob_row p v rs x h in
    find_row_blob (moved_path old new p) v out _
      (rename_rows_found blob_columns blob_laws old new p v [] rs out y f r)
    ∙ ground arith

head_moved :
    (old new p : Bytes) (rs out : Dict ℕ) (x : ℕ)
    → get rs p ≡ some x
    → rename_rows head_columns old new [] rs ≡ ok out
    → get out (moved_path old new p) ≡ some x
unfolding moved_row
head_moved old new p rs out x h r =
    let (y, f, e) = get_row p rs x h in
    row_get (moved_path old new p) out _
      (rename_rows_found head_columns head_laws old new p 0 [] rs out y f r)
    ∙ ground arith

Renamed-MovesByPath :
    (old new : Bytes) (t t' : Tables) → Renamed old new t t' → MovesByPath old new t t'
unfolding get_record get_version_data
Renamed-MovesByPath old new t t' r = record {
  records = λ p v x h.
      rw (version_moved old new p v t.version t'.version x (some_of_ok _ x h) r.version) refl;
  contents = λ p v d h.
      rw (blob_moved old new p v t.version_blob t'.version_blob d (some_of_ok _ d h) r.blob) refl;
  heads = λ p h e. head_moved old new p t.file_head t'.file_head h e r.head;
}

heads_taken :
    (old new : Bytes) (rs out : Dict ℕ) (h k : ℕ)
    → in_tree old new ≡ false
    → get rs old ≡ some h
    → get rs new ≡ some k
    → rename_rows head_columns old new [] rs ≢ ok out
heads_taken old new rs out h k t a b =
    let (x, f, e) = get_row old rs h a in
    let (y, g, i) = get_row new rs k b in
    rename_rows_taken head_columns head_laws old new old 0 [] rs out x (in_tree_self old)
      (ap (in_tree old) (new_path_self old new) ∙ t)
      (ap (λ q. has_row head_columns q 0 rs) (new_path_self old new)
        ∙ has_row-find_row head_columns new 0 rs y g)
      f

-- A rename fails and changes no table, or moves every row by its path.
pub rename_path_tree-MovesByPath :
    (faults : ℕ → Option Err) (old new : Bytes) (t : Tables)
    → old ≢ new
    → ((e : Err) × (rename_path_tree faults old new t ≡ (err e, t)))
      ⊎ ((t' : Tables) × (rename_path_tree faults old new t ≡ (ok tt, t'))
          × MovesByPath old new t t')
unfolding rename_path_tree
rename_path_tree-MovesByPath faults old new t n =
    let e : bytes_eq old new ≡ false = ground (arith, bytes_eq_iff old new) in
    rw e (elim (with_write_tx-IsAtomic faults (rename_path_tree_tx old new) t) [
      | inl (x, f) ↦ inl (x, f)
      | inr (u, t', f, g) ↦
          inr
            (t', g, Renamed-MovesByPath old new t t' (rename_path_tree_tx-Renamed old new t t' u f))
    ])

-- Every record, every content and every head is found where its path goes.
pub record Moves (old new : Bytes) (t t' : Tables) : Type 0 where
  pub records :
      (p q : Bytes) (v : ℕ) (r : VersionRecord)
      → Goes old new p q
      → get_record t p v ≡ ok r
      → get_record t' q v ≡ ok r
  pub contents :
      (p q : Bytes) (v : ℕ) (d : Bytes)
      → Goes old new p q
      → get_version_data t p v ≡ ok d
      → get_version_data t' q v ≡ ok d
  pub heads :
      (p q : Bytes) (h : ℕ)
      → Goes old new p q
      → get t.file_head p ≡ some h
      → get t'.file_head q ≡ some h

MovesByPath-Moves :
    (old new : Bytes) (t t' : Tables) → MovesByPath old new t t' → Moves old new t t'
MovesByPath-Moves old new t t' m = record {
  records = λ p q v r g h. rw (Goes-moved_path old new p q g) at (m.records p v r h);
  contents = λ p q v d g h. rw (Goes-moved_path old new p q g) at (m.contents p v d h);
  heads = λ p q n g h. rw (Goes-moved_path old new p q g) at (m.heads p n h);
}

-- RenamePathTree from one path to another, whatever the engine reports: it fails and changes no
-- table, or every record, every content and every current version is found where its path goes:
-- that of the old path itself at the new path; that of a path below it, even one whose folder
-- has other cases of ASCII letters, at the same place below the new path; and that of any other
-- path at its own.
pub rename_path_tree-Moves :
    (faults : ℕ → Option Err) (old new : Bytes) (t : Tables)
    → old ≢ new
    → ((e : Err) × (rename_path_tree faults old new t ≡ (err e, t)))
      ⊎ ((t' : Tables) × (rename_path_tree faults old new t ≡ (ok tt, t')) × Moves old new t t')
rename_path_tree-Moves faults old new t n = elim (rename_path_tree-MovesByPath faults old new t n) [
  | inl x ↦ inl x
  | inr (t', h, m) ↦ inr (t', h, MovesByPath-Moves old new t t' m)
]

-- RenamePathTree never succeeds from a path with a file_head row to a path outside its tree that
-- has one too, and changes no table.
pub rename_path_tree_taken :
    (faults : ℕ → Option Err) (old new : Bytes) (t : Tables) (h k : ℕ)
    → in_tree old new ≡ false
    → get t.file_head old ≡ some h
    → get t.file_head new ≡ some k
    → (e : Err) × (rename_path_tree faults old new t ≡ (err e, t))
unfolding rename_path_tree
rename_path_tree_taken faults old new t h k out a b =
    let n : bytes_eq old new ≡ false = ground (arith, in_tree_self old, bytes_eq_iff old new) in
    rw n (elim (with_write_tx-IsAtomic faults (rename_path_tree_tx old new) t) [
      | inl x ↦ x
      | inr (u, t', f, g) ↦ absurd (
          heads_taken old new t.file_head t'.file_head h k out a b
            (rename_path_tree_tx-Renamed old new t t' u f).head)
    ])
