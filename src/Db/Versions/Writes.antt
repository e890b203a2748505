-- ===== src/Db/Versions/Writes.antt =====
-- Saves and deletes as transactions, and any sequence of them.
use roodox_sever_win.Base.{
  ℕ, suc, ◌<◌, ◌≡◌, refl, ap, ◌∙◌, ◌⊎◌, inl, inr, Option, none, some, List, [], ◌∷◌, Bytes, ℤ,
  arith, true, pos,
}
use roodox_sever_win.Base.Dict.{get, get-put}
use roodox_sever_win.Errors.{Result, ok, err, Err, busy}
use roodox_sever_win.Db.Tables.{Tables, Meta, VersionRecord, max_version}
use roodox_sever_win.Db.Tx.{Tx, with_write_tx, max_attempts}
use roodox_sever_win.Db.Tx.Retries.{IsAtomic, with_write_tx-IsAtomic, with_write_tx_retries}
use roodox_sever_win.Db.Metas.{set_meta}
use roodox_sever_win.Db.Versions.{
  current_version, save_file_snapshot_tx, append_delete_snapshot_tx, save_file_snapshot,
  append_delete_snapshot, get_record, get_version_data,
}
use roodox_sever_win.Db.Versions.Bounds.{IsBounded, max_blob}
use roodox_sever_win.Db.Versions.Numbers.{
  Appended-IsBounded, saved_record, delete_record, save_file_snapshot_tx_lem,
  append_delete_snapshot_tx_lem,
}
use roodox_sever_win.Db.Versions.History.{Extends, Appended-Extends}

-- A write of one version either fails and changes nothing, or numbers it one above the path's
-- current version and extends the store by it.
abbrev pub Writes : Bytes → VersionRecord → Option Bytes → Tables → Result Err ℕ × Tables → Type 0
Writes p rec content t r =
    ((e : Err) × (r ≡ (err e, t)))
    ⊎ ((t' : Tables) × (r ≡ (ok (suc (current_version t p)), t'))
        × Extends p rec content t t'
        × IsBounded t')

atomic-Writes :
    (fn : Tx ℕ) (p : Bytes) (rec : VersionRecord) (content : Option Bytes) (t t1 : Tables)
    (r : Result Err ℕ × Tables)
    → fn t ≡ ok (suc (current_version t p), t1)
    → Extends p rec content t t1
    → IsBounded t1
    → IsAtomic fn t r
    → Writes p rec content t r
atomic-Writes fn p rec content t t1 r e x b (inl f) = inl f
atomic-Writes fn p rec content t t1 r e x b (inr (a, t', f, k)) = inr (t1, ground arith, x, b)

-- SaveFileSnapshot, whatever the engine reports: it fails and changes no table, or it returns
-- the number after the path's current version; then the saved record is the latest and the last
-- of the path's history, its content is what was saved, and no other version of any path has
-- changed. The tables are bounded.
pub save_file_snapshot-Writes :
    (faults : ℕ → Option Err) (m : Meta) (client_id change_type : Bytes) (content : Option Bytes)
    (t : Tables)
    → IsBounded t
    → Writes m.path
        (saved_record m client_id change_type (suc (current_version t m.path)))
        content
        t
        (save_file_snapshot faults m client_id change_type content t)
unfolding save_file_snapshot
save_file_snapshot-Writes faults m c ct content t b =
    let (t', e, a) = save_file_snapshot_tx_lem m c ct content t b in
    atomic-Writes (save_file_snapshot_tx m c ct content) m.path _ content t t' _ e
      (Appended-Extends m.path _ content _ t t' b refl a)
      (Appended-IsBounded m.path _ content _ t t' b refl (omega arith) a)
      (with_write_tx-IsAtomic faults (save_file_snapshot_tx m c ct content) t)

-- AppendDeleteSnapshot, whatever the engine reports: it fails and changes no table, or the
-- deletion is one more version of the path, the latest and the last of its history, with no
-- content, and no other version of any path has changed. The tables are bounded.
pub append_delete_snapshot-Writes :
    (faults : ℕ → Option Err) (p : Bytes) (size : ℕ) (mtime_unix : ℤ) (client_id : Bytes)
    (t : Tables)
    → IsBounded t
    → Writes p
        (delete_record size mtime_unix client_id (suc (current_version t p)))
        none
        t
        (append_delete_snapshot faults p size mtime_unix client_id t)
unfolding append_delete_snapshot
append_delete_snapshot-Writes faults p size mt c t b =
    let (t', e, a) = append_delete_snapshot_tx_lem p size mt c t b in
    atomic-Writes (append_delete_snapshot_tx p size mt c) p _ none t t' _ e
      (Appended-Extends p _ none _ t t' b refl a)
      (Appended-IsBounded p _ none _ t t' b refl (omega arith) a)
      (with_write_tx-IsAtomic faults (append_delete_snapshot_tx p size mt c) t)

tx_succeeds :
    {A : Type 0} (faults : ℕ → Option Err) (fn : Tx A) (t t' : Tables) (a : A) (k : ℕ)
    → fn t ≡ ok (a, t')
    → k < max_attempts
    → ((j : ℕ) → j < k → faults j ≡ some busy)
    → faults k ≡ none
    → with_write_tx faults fn t ≡ (ok a, t')
tx_succeeds faults fn t t' a k e lt before fine =
    with_write_tx_retries faults fn t k lt before (rw (fine, e) tt) ∙ rw (fine, e)

-- A save goes through, with the number after the path's current one, when the database is busy
-- for at most four attempts and the engine reports no error in the next. The tables are bounded.
pub save_file_snapshot_succeeds :
    (faults : ℕ → Option Err) (m : Meta) (client_id change_type : Bytes) (content : Option Bytes)
    (t : Tables) (k : ℕ)
    → IsBounded t
    → k < max_attempts
    → ((j : ℕ) → j < k → faults j ≡ some busy)
    → faults k ≡ none
    → (save_file_snapshot faults m client_id change_type content t).0
      ≡ ok (suc (current_version t m.path))
unfolding save_file_snapshot
save_file_snapshot_succeeds faults m c ct content t k b lt before fine =
    let (t', e, a) = save_file_snapshot_tx_lem m c ct content t b in
    ap (λ r. r.0)
      (tx_succeeds faults (save_file_snapshot_tx m c ct content) t t' _ k e lt before fine)

-- The writes of the services but for renames: saves, deletes, and the meta row of a new
-- directory, whose version is 0 (SetMeta in Mkdir).
pub data Write : Type 0 where
  saves : (ℕ → Option Err) → Meta → Bytes → Bytes → Option Bytes → Write
  deletes : (ℕ → Option Err) → Bytes → ℕ → ℤ → Bytes → Write
  makes_dir : Option Err → Bytes → Write

abbrev pub dir_meta : Bytes → Meta
dir_meta p = record {
  path = p;
  is_dir = true;
  size = 0;
  mtime_unix = pos 0;
  hash = [];
  version = 0;
}

unfoldable pub write : Tables → Write → Tables
write t (saves faults m c ct content) = (save_file_snapshot faults m c ct content t).1
write t (deletes faults p size mt c) = (append_delete_snapshot faults p size mt c t).1
write t (makes_dir fault p) = (set_meta fault t (dir_meta p)).1

unfoldable pub writes : Tables → List Write → Tables
writes t [] = t
writes t (w ∷ ws) = writes (write t w) ws

abbrev pub empty : Tables
empty = record { meta = []; file_head = []; version = []; version_blob = [] }

IsBounded-empty : IsBounded empty
unfolding max_version max_blob get
IsBounded-empty = record {
  rows = λ p. omega arith;
  blobs = λ p. omega arith;
  metas = λ p. omega arith;
}

-- What a version reads as stays as it was.
pub record Keeps (t t' : Tables) : Type 0 where
  pub records :
      (p : Bytes) (v : ℕ) (r : VersionRecord) → get_record t p v ≡ ok r → get_record t' p v ≡ ok r
  pub contents :
      (p : Bytes) (v : ℕ) (d : Bytes)
      → get_version_data t p v ≡ ok d
      → get_version_data t' p v ≡ ok d

pub Keeps-refl : (t : Tables) → Keeps t t
Keeps-refl t = record { records = λ p v r h. h; contents = λ p v d h. h }

pub Keeps-trans : (t u v : Tables) → Keeps t u → Keeps u v → Keeps t v
Keeps-trans t u v a b = record {
  records = λ p n r h. b.records p n r (a.records p n r h);
  contents = λ p n d h. b.contents p n d (a.contents p n d h);
}

pub Writes-Keeps :
    (p : Bytes) (rec : VersionRecord) (content : Option Bytes) (t : Tables)
    (r : Result Err ℕ × Tables)
    → IsBounded t
    → Writes p rec content t r
    → IsBounded r.1 × Keeps t r.1
Writes-Keeps p rec content t r b (inl (e, h)) = rw h (b, Keeps-refl t)
Writes-Keeps p rec content t r b (inr (t', h, x, b')) =
    rw h (b', record { records = x.kept; contents = x.content_kept })

set_dir-IsBounded :
    (t : Tables) (p : Bytes) → IsBounded t → IsBounded (set_meta none t (dir_meta p)).1
unfolding set_meta current_version
set_dir-IsBounded t p b = record {
  rows = λ j. ground (arith, b.rows j);
  blobs = b.blobs;
  metas = λ j. ground (arith, get-put t.meta p j (dir_meta p), b.metas j);
}

set_dir-Keeps : (t : Tables) (p : Bytes) → Keeps t (set_meta none t (dir_meta p)).1
unfolding set_meta get_record get_version_data
set_dir-Keeps t p = record { records = λ p v r h. h; contents = λ p v d h. h }

write-Keeps : (t : Tables) (w : Write) → IsBounded t → IsBounded (write t w) × Keeps t (write t w)
unfolding write
write-Keeps t (saves faults m c ct content) b =
    Writes-Keeps m.path _ content t _ b (save_file_snapshot-Writes faults m c ct content t b)
write-Keeps t (deletes faults p size mt c) b =
    Writes-Keeps p _ none t _ b (append_delete_snapshot-Writes faults p size mt c t b)
write-Keeps t (makes_dir none p) b = (set_dir-IsBounded t p b, set_dir-Keeps t p)
write-Keeps t (makes_dir (some e) p) b = unfold set_meta in (b, Keeps-refl t)

writes-Keeps :
    (t : Tables) (ws : List Write) → IsBounded t → IsBounded (writes t ws) × Keeps t (writes t ws)
unfolding writes
writes-Keeps t [] b = (b, Keeps-refl t)
writes-Keeps t (w ∷ ws) b =
    let (b', k) = write-Keeps t w b in
    let (c, l) = writes-Keeps (write t w) ws b' in
    (c, Keeps-trans t (write t w) (writes (write t w) ws) k l)

-- From empty tables, after any saves, deletes and new directories, whatever the engine reports,
-- every number in use stays at or below its path's current version, and every content belongs to
-- a number that its path has reached.
pub writes-IsBounded : (ws : List Write) → IsBounded (writes empty ws)
writes-IsBounded ws = (writes-Keeps empty ws IsBounded-empty).0
