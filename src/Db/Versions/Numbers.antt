-- ===== src/Db/Versions/Numbers.antt =====
-- What a save and a delete write: the next number, one row, and the path's meta row.
use roodox_sever_win.Base.{
  ℕ, suc, ◌≤◌, ◌≡◌, refl, Option, none, some, List, [], ◌∷◌, Bytes, bytes_eq, bytes_eq_iff, max,
  arith, if◌then◌else◌, ℤ,
}
use roodox_sever_win.Base.Dict.{get, put, remove, get-put, get-remove}
use roodox_sever_win.Errors.{ok}
use roodox_sever_win.Db.Tables.{
  Tables, Meta, VersionRecord, BlobRow, max_version, find_version, find_blob,
}
use roodox_sever_win.Db.Tx.{◌>>=◌}
use roodox_sever_win.Db.Versions.{
  current_version, insert_snapshot, insert_version, insert_content, insert_blob, upsert_meta,
  delete_meta, save_file_snapshot_tx, append_delete_snapshot_tx, change_delete,
}
use roodox_sever_win.Db.Versions.Bounds.{
  IsBounded, max_blob, find_version_above, find_blob_above, next_version_lem,
}

abbrev pub with_blob : Bytes → ℕ → Option Bytes → List BlobRow → List BlobRow
with_blob p v none bs = bs
with_blob p v (some content) bs = record { path = p; version = v; content = content } ∷ bs

-- One more version of `p`: the row and the blob stand first, the head is its number, the meta row
-- is `m`, and no other path has changed.
pub record Appended (p : Bytes) (rec : VersionRecord) (content : Option Bytes) (m : Option Meta)
    (t t' : Tables) : Type 0 where
  pub heads :
      (j : Bytes)
      → get t'.file_head j ≡ (if bytes_eq p j then some rec.version else get t.file_head j)
  pub metas : (j : Bytes) → get t'.meta j ≡ (if bytes_eq p j then m else get t.meta j)
  pub rows : t'.version ≡ record { path = p; rec = rec } ∷ t.version
  pub blobs : t'.version_blob ≡ with_blob p rec.version content t.version_blob

insert_snapshot_lem :
    (p : Bytes) (rec : VersionRecord) (content : Option Bytes) (t : Tables)
    → find_version p rec.version t.version ≡ none
    → find_blob p rec.version t.version_blob ≡ none
    → insert_snapshot p rec content t
      ≡ ok (
        tt,
        record t {
          version = record { path = p; rec = rec } ∷ t.version;
          version_blob = with_blob p rec.version content t.version_blob;
        },
      )
unfolding insert_snapshot insert_version insert_content insert_blob
insert_snapshot_lem p rec none t h k = ground arith
insert_snapshot_lem p rec (some content) t h k = ground arith

abbrev pub saved_meta : Meta → ℕ → Meta
saved_meta m v = record m { version = v }

abbrev pub saved_record : Meta → Bytes → Bytes → ℕ → VersionRecord
saved_record m client_id change_type v = record {
  version = v;
  mtime_unix = m.mtime_unix;
  hash = m.hash;
  size = m.size;
  client_id = client_id;
  change_type = change_type;
}

-- A save succeeds, numbers the version one above the path's current one, and appends it.
pub save_file_snapshot_tx_lem :
    (m : Meta) (client_id change_type : Bytes) (content : Option Bytes) (t : Tables)
    → IsBounded t
    → (t' : Tables) × (save_file_snapshot_tx m client_id change_type content t
        ≡ ok (suc (current_version t m.path), t'))
      × Appended m.path
          (saved_record m client_id change_type (suc (current_version t m.path)))
          content
          (some (saved_meta m (suc (current_version t m.path))))
          t
          t'
unfolding save_file_snapshot_tx upsert_meta
save_file_snapshot_tx_lem m c ct content t b =
    let (heads, e, h) = next_version_lem m.path t in
    let v : ℕ = suc (current_version t m.path) in
    (
      record {
        meta = put t.meta m.path (saved_meta m v);
        file_head = heads;
        version = record { path = m.path; rec = saved_record m c ct v } ∷ t.version;
        version_blob = with_blob m.path v content t.version_blob;
      },
      rw (e, ◌>>=◌)
          (rw (
            insert_snapshot_lem m.path (saved_record m c ct v) content
                (record t { file_head = heads; meta = put t.meta m.path (saved_meta m v) })
                (find_version_above m.path v t.version (omega (arith, b.rows m.path)))
                (find_blob_above m.path v t.version_blob
                  (omega (arith, b.blobs m.path, b.rows m.path))),
            ◌>>=◌,
          )),
      record {
        heads = h;
        metas = λ j. get-put t.meta m.path j (saved_meta m v);
        rows = refl;
        blobs = refl;
      },
    )

abbrev pub delete_record : ℕ → ℤ → Bytes → ℕ → VersionRecord
delete_record size mtime_unix client_id v = record {
  version = v;
  mtime_unix = mtime_unix;
  hash = [];
  size = size;
  client_id = client_id;
  change_type = change_delete;
}

-- A delete is a version too: it succeeds, takes the next number, appends a row with no content,
-- and removes the path's meta row.
pub append_delete_snapshot_tx_lem :
    (p : Bytes) (size : ℕ) (mtime_unix : ℤ) (client_id : Bytes) (t : Tables)
    → IsBounded t
    → (t' : Tables) × (append_delete_snapshot_tx p size mtime_unix client_id t
        ≡ ok (suc (current_version t p), t'))
      × Appended p
          (delete_record size mtime_unix client_id (suc (current_version t p)))
          none
          none
          t
          t'
unfolding append_delete_snapshot_tx delete_meta
append_delete_snapshot_tx_lem p size mt c t b =
    let (heads, e, h) = next_version_lem p t in
    let v : ℕ = suc (current_version t p) in
    (
      record {
        meta = remove t.meta p;
        file_head = heads;
        version = record { path = p; rec = delete_record size mt c v } ∷ t.version;
        version_blob = t.version_blob;
      },
      rw (e, ◌>>=◌)
          (rw (
            insert_snapshot_lem p (delete_record size mt c v) none
                (record t { file_head = heads; meta = remove t.meta p })
                (find_version_above p v t.version (omega (arith, b.rows p)))
                (find_blob_above p v t.version_blob (omega (arith, b.blobs p, b.rows p))),
            ◌>>=◌,
          )),
      record { heads = h; metas = λ j. get-remove t.meta p j; rows = refl; blobs = refl },
    )

max_version-cons :
    (j p : Bytes) (rec : VersionRecord) (t t' : Tables)
    → t'.version ≡ record { path = p; rec = rec } ∷ t.version
    → max_version j t'.version ≡ (
        if bytes_eq p j then max rec.version (max_version j t.version) else max_version j t.version)
unfolding max_version
max_version-cons j p rec t t' e = rw e

max_blob-cons :
    (j p : Bytes) (v : ℕ) (content : Option Bytes) (t t' : Tables)
    → t'.version_blob ≡ with_blob p v content t.version_blob
    → max_blob j t'.version_blob
      ≤ (if bytes_eq p j then max v (max_blob j t.version_blob) else max_blob j t.version_blob)
unfolding max_blob
max_blob-cons j p v none t t' e = rw e (ground arith)
max_blob-cons j p v (some content) t t' e = rw e (ground arith)

-- The current version after an append: the appended number at that path, as before elsewhere.
pub current_version-Appended :
    (p : Bytes) (rec : VersionRecord) (content : Option Bytes) (m : Option Meta) (t t' : Tables)
    (j : Bytes)
    → Appended p rec content m t t'
    → current_version t' j ≡ (if bytes_eq p j then rec.version else current_version t j)
unfolding current_version
current_version-Appended p rec content m t t' j a =
    ground (arith, a.heads j, a.metas j, a.rows, max_version-cons j p rec t t' a.rows)

-- Appending the number after the current one keeps the tables bounded.
pub Appended-IsBounded :
    (p : Bytes) (rec : VersionRecord) (content : Option Bytes) (m : Option Meta) (t t' : Tables)
    → IsBounded t
    → rec.version ≡ suc (current_version t p)
    → (elim m [ none ↦ 0 | some x ↦ x.version ]) ≤ rec.version
    → Appended p rec content m t t'
    → IsBounded t'
Appended-IsBounded p rec content m t t' b e le a = record {
  rows = λ j. ground (
    arith,
    b.rows j,
    max_version-cons j p rec t t' a.rows,
    current_version-Appended p rec content m t t' j a,
    bytes_eq_iff p j,
  );
  blobs = λ j. ground (
    arith,
    b.blobs j,
    max_blob-cons j p rec.version content t t' a.blobs,
    max_version-cons j p rec t t' a.rows,
    bytes_eq_iff p j,
  );
  metas = λ j. ground (
    arith,
    b.metas j,
    a.metas j,
    current_version-Appended p rec content m t t' j a,
    bytes_eq_iff p j,
  );
}
