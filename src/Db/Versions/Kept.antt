-- ===== src/Db/Versions/Kept.antt =====
-- What saves and deletes leave of every version, in any tables at all.
use roodox_sever_win.Base.{ℕ, ◌≡◌, Option, none, some, ◌∷◌, Bytes, bytes_eq_iff, ℤ, arith}
use roodox_sever_win.Errors.{ok, Err}
use roodox_sever_win.Db.Tables.{Tables, Meta, VersionRecord, find_version, find_blob}
use roodox_sever_win.Db.Tx.Outcomes.{Ensures, Ensures-bind, with_write_tx-Ensures}
use roodox_sever_win.Db.Versions.{
  ensure_file_head, bump_head, next_version, upsert_meta, delete_meta, insert_version, insert_blob,
  insert_content, insert_snapshot, save_file_snapshot_tx, append_delete_snapshot_tx,
  save_file_snapshot, append_delete_snapshot, get_record, get_version_data,
}
use roodox_sever_win.Db.Versions.Writes.{Keeps, Keeps-refl, Keeps-trans}

same_rows : (t t' : Tables) → t'.version ≡ t.version → t'.version_blob ≡ t.version_blob → Keeps t t'
unfolding get_record get_version_data
same_rows t t' e f = record { records = λ p v r h. rw e h; contents = λ p v d h. rw f h }

ensure_file_head-Keeps : (p : Bytes) → Ensures Keeps (ensure_file_head p)
unfolding ensure_file_head
ensure_file_head-Keeps p t t' a h = same_rows t t' (ground arith) (ground arith)

bump_head-Keeps : (p : Bytes) → Ensures Keeps (bump_head p)
unfolding bump_head
bump_head-Keeps p t t' a h = same_rows t t' (ground arith) (ground arith)

upsert_meta-Keeps : (m : Meta) → Ensures Keeps (upsert_meta m)
unfolding upsert_meta
upsert_meta-Keeps m t t' a h = same_rows t t' (ground arith) (ground arith)

delete_meta-Keeps : (p : Bytes) → Ensures Keeps (delete_meta p)
unfolding delete_meta
delete_meta-Keeps p t t' a h = same_rows t t' (ground arith) (ground arith)

insert_version_ok :
    (p : Bytes) (r : VersionRecord) (t t' : Tables) (a : Unit {0})
    → insert_version p r t ≡ ok (a, t')
    → (find_version p r.version t.version ≡ none)
      × (t'.version ≡ record { path = p; rec = r } ∷ t.version)
      × (t'.version_blob ≡ t.version_blob)
unfolding insert_version
insert_version_ok p r t t' a h = (ground arith, ground arith, ground arith)

insert_version-Keeps : (p : Bytes) (r : VersionRecord) → Ensures Keeps (insert_version p r)
unfolding get_record get_version_data
insert_version-Keeps p r t t' a h =
    let (new, e, f) = insert_version_ok p r t t' a h in
    record {
      records = λ j w x k. rw e (unfold find_version in ground (arith, new, bytes_eq_iff p j));
      contents = λ j w d k. rw f k;
    }

insert_blob_ok :
    (p : Bytes) (v : ℕ) (c : Bytes) (t t' : Tables) (a : Unit {0})
    → insert_blob p v c t ≡ ok (a, t')
    → (find_blob p v t.version_blob ≡ none)
      × (t'.version ≡ t.version)
      × (t'.version_blob ≡ record { path = p; version = v; content = c } ∷ t.version_blob)
unfolding insert_blob
insert_blob_ok p v c t t' a h = (ground arith, ground arith, ground arith)

insert_blob-Keeps : (p : Bytes) (v : ℕ) (c : Bytes) → Ensures Keeps (insert_blob p v c)
unfolding get_record get_version_data
insert_blob-Keeps p v c t t' a h =
    let (new, e, f) = insert_blob_ok p v c t t' a h in
    record {
      records = λ j w x k. rw e k;
      contents = λ j w d k. rw f (unfold find_blob in ground (arith, new, bytes_eq_iff p j));
    }

insert_content-Keeps :
    (p : Bytes) (v : ℕ) (content : Option Bytes) → Ensures Keeps (insert_content p v content)
unfolding insert_content
insert_content-Keeps p v none t t' a h = same_rows t t' (ground arith) (ground arith)
insert_content-Keeps p v (some c) t t' a h = insert_blob-Keeps p v c t t' a h

insert_snapshot-Keeps :
    (p : Bytes) (r : VersionRecord) (content : Option Bytes)
    → Ensures Keeps (insert_snapshot p r content)
unfolding insert_snapshot
insert_snapshot-Keeps p r content =
    Ensures-bind Keeps (insert_version p r) _ Keeps-trans (insert_version-Keeps p r)
      (λ _. insert_content-Keeps p r.version content)

next_version-Keeps : (p : Bytes) → Ensures Keeps (next_version p)
unfolding next_version
next_version-Keeps p =
    Ensures-bind Keeps (ensure_file_head p) _ Keeps-trans (ensure_file_head-Keeps p)
      (λ _. bump_head-Keeps p)

return-Keeps : (v : ℕ) → Ensures Keeps (λ t. ok (v, t))
return-Keeps v t t' a h = same_rows t t' (ground arith) (ground arith)

save_file_snapshot_tx-Keeps :
    (m : Meta) (client_id change_type : Bytes) (content : Option Bytes)
    → Ensures Keeps (save_file_snapshot_tx m client_id change_type content)
unfolding save_file_snapshot_tx
save_file_snapshot_tx-Keeps m c ct content =
    Ensures-bind Keeps (next_version m.path) _ Keeps-trans (next_version-Keeps m.path) (λ v.
      Ensures-bind Keeps (upsert_meta (record m { version = v })) _ Keeps-trans
        (upsert_meta-Keeps (record m { version = v }))
        (λ _.
          Ensures-bind Keeps (insert_snapshot m.path _ content) _ Keeps-trans
            (insert_snapshot-Keeps m.path _ content) (λ _. return-Keeps v)))

append_delete_snapshot_tx-Keeps :
    (p : Bytes) (size : ℕ) (mtime_unix : ℤ) (client_id : Bytes)
    → Ensures Keeps (append_delete_snapshot_tx p size mtime_unix client_id)
unfolding append_delete_snapshot_tx
append_delete_snapshot_tx-Keeps p size mt c =
    Ensures-bind Keeps (next_version p) _ Keeps-trans (next_version-Keeps p) (λ v.
      Ensures-bind Keeps (delete_meta p) _ Keeps-trans (delete_meta-Keeps p) (λ _.
        Ensures-bind Keeps (insert_snapshot p _ none) _ Keeps-trans (insert_snapshot-Keeps p _ none)
          (λ _. return-Keeps v)))

pub save_file_snapshot-Keeps :
    (faults : ℕ → Option Err) (m : Meta) (client_id change_type : Bytes) (content : Option Bytes)
    (t : Tables)
    → Keeps t (save_file_snapshot faults m client_id change_type content t).1
unfolding save_file_snapshot
save_file_snapshot-Keeps faults m c ct content t =
    with_write_tx-Ensures Keeps faults (save_file_snapshot_tx m c ct content) t Keeps-refl
      (save_file_snapshot_tx-Keeps m c ct content)

pub append_delete_snapshot-Keeps :
    (faults : ℕ → Option Err) (p : Bytes) (size : ℕ) (mtime_unix : ℤ) (client_id : Bytes)
    (t : Tables)
    → Keeps t (append_delete_snapshot faults p size mtime_unix client_id t).1
unfolding append_delete_snapshot
append_delete_snapshot-Keeps faults p size mt c t =
    with_write_tx-Ensures Keeps faults (append_delete_snapshot_tx p size mt c) t Keeps-refl
      (append_delete_snapshot_tx-Keeps p size mt c)
