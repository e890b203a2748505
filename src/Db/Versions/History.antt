-- ===== src/Db/Versions/History.antt =====
-- What the readers of the version store see after a save or a delete.
use roodox_sever_win.Base.{
  ℕ, suc, ◌<◌, ◌≡◌, ◌≢◌, refl, inl, inr, ◌&&◌, Option, none, some, List, [], ◌∷◌, ◌++◌, Bytes,
  bytes_eq, bytes_eq_iff, ◌==◌, arith, Bool-cases, if◌then◌else◌,
}
use roodox_sever_win.Errors.{ok}
use roodox_sever_win.Db.Tables.{
  Tables, Meta, VersionRecord, VersionRow, BlobRow, max_version, find_version, latest_version,
  history_of, find_blob, insert_by_version, newer,
}
use roodox_sever_win.Db.Versions.{
  current_version, get_history, get_record, get_latest_record, get_version_data, or_not_exist,
}
use roodox_sever_win.Db.Versions.Bounds.{IsBounded, max_blob, find_blob_above, find_version_above}
use roodox_sever_win.Db.Versions.Numbers.{Appended, with_blob}

abbrev AllBelow : ℕ → List VersionRecord → Type 0
AllBelow v [] = Unit
AllBelow v (r ∷ rs) = (r.version < v) × AllBelow v rs

insert-AllBelow :
    (v : ℕ) (r : VersionRecord) (rs : List VersionRecord)
    → r.version < v
    → AllBelow v rs
    → AllBelow v (insert_by_version r rs)
unfolding insert_by_version
insert-AllBelow v r [] h a = (h, tt)
insert-AllBelow v r (s ∷ ss) h a = ground (arith, insert-AllBelow v r ss h a.1)

history-AllBelow :
    (p : Bytes) (v : ℕ) (rs : List VersionRow) → max_version p rs < v → AllBelow v (history_of p rs)
unfolding max_version history_of
history-AllBelow p v [] h = tt
history-AllBelow p v (r ∷ rs) h =
    ground (arith, history-AllBelow p v rs, insert-AllBelow v r.rec (history_of p rs))

insert_last :
    (r : VersionRecord) (rs : List VersionRecord)
    → AllBelow r.version rs
    → insert_by_version r rs ≡ rs ++ (r ∷ [])
unfolding insert_by_version
insert_last r [] a = refl
insert_last r (s ∷ ss) a = ground (arith, insert_last r ss a.1)

-- The latest row of a path, if it has one, is below `v`.
abbrev LatestBelow : ℕ → Option VersionRecord → Type 0
LatestBelow v none = Unit
LatestBelow v (some r) = r.version < v

newer-LatestBelow :
    (v : ℕ) (r : VersionRecord) (o : Option VersionRecord)
    → r.version < v
    → LatestBelow v o
    → (newer r o).version < v
newer-LatestBelow v r none h b = h
newer-LatestBelow v r (some s) h b = ground arith

latest-LatestBelow :
    (p : Bytes) (v : ℕ) (rs : List VersionRow)
    → max_version p rs < v
    → LatestBelow v (latest_version p rs)
unfolding latest_version max_version
latest-LatestBelow p v [] h = tt
latest-LatestBelow p v (s ∷ ss) h = elim (Bool-cases (bytes_eq s.path p)) [
  | inl e ↦ rw e (
      newer-LatestBelow v s.rec (latest_version p ss) (ground arith)
        (latest-LatestBelow p v ss (ground arith)))
  | inr e ↦ rw e (latest-LatestBelow p v ss (ground arith))
]

newer_first :
    (r : VersionRecord) (o : Option VersionRecord) → LatestBelow r.version o → newer r o ≡ r
newer_first r none b = refl
newer_first r (some s) b = ground arith

module _ (p : Bytes) (rec : VersionRecord) (rs : List VersionRow) where
  abbrev with_row : List VersionRow
  with_row = record { path = p; rec = rec } ∷ rs

  latest_with_row : max_version p rs < rec.version → latest_version p with_row ≡ some rec
  unfolding latest_version
  latest_with_row h = rw (
    (bytes_eq_iff p p).1 refl,
    newer_first rec (latest_version p rs) (latest-LatestBelow p rec.version rs h),
  )

  history_with_row :
      (j : Bytes)
      → max_version p rs < rec.version
      → history_of j with_row
        ≡ (if bytes_eq p j then history_of p rs ++ (rec ∷ []) else history_of j rs)
  unfolding history_of
  history_with_row j h = ground (
    arith,
    bytes_eq_iff p j,
    insert_last rec (history_of p rs) (history-AllBelow p rec.version rs h),
  )

  find_with_row :
      (j : Bytes) (w : ℕ)
      → find_version j w with_row
        ≡ (if bytes_eq p j && rec.version == w then some rec else find_version j w rs)
  unfolding find_version
  find_with_row j w = refl

find_with_blob :
    (p : Bytes) (v : ℕ) (content : Option Bytes) (bs : List BlobRow) (j : Bytes) (w : ℕ)
    → max_blob p bs < v
    → find_blob j w (with_blob p v content bs)
      ≡ (if bytes_eq p j && v == w then content else find_blob j w bs)
unfolding find_blob
find_with_blob p v none bs j w h = ground (arith, bytes_eq_iff p j, find_blob_above p v bs h)
find_with_blob p v (some c) bs j w h = refl

-- The version store after one append, as its readers see it: the new record is the latest and
-- the last of the history, and every other version of every path reads as before.
pub record Extends (p : Bytes) (rec : VersionRecord) (content : Option Bytes) (t t' : Tables)
    : Type 0 where
  pub latest : get_latest_record t' p ≡ ok rec
  pub history : get_history t' p ≡ get_history t p ++ (rec ∷ [])
  pub history_ne : (j : Bytes) → p ≢ j → get_history t' j ≡ get_history t j
  pub found : get_record t' p rec.version ≡ ok rec
  pub kept :
      (j : Bytes) (w : ℕ) (r : VersionRecord) → get_record t j w ≡ ok r → get_record t' j w ≡ ok r
  pub content_found : get_version_data t' p rec.version ≡ or_not_exist content
  pub content_kept :
      (j : Bytes) (w : ℕ) (d : Bytes)
      → get_version_data t j w ≡ ok d
      → get_version_data t' j w ≡ ok d

pub Appended-Extends :
    (p : Bytes) (rec : VersionRecord) (content : Option Bytes) (m : Option Meta) (t t' : Tables)
    → IsBounded t
    → rec.version ≡ suc (current_version t p)
    → Appended p rec content m t t'
    → Extends p rec content t t'
unfolding get_latest_record get_history get_record get_version_data
Appended-Extends p rec content m t t' b e a = record {
  latest = rw (a.rows, latest_with_row p rec t.version fresh);
  history = rw (a.rows, history_with_row p rec t.version p fresh, (bytes_eq_iff p p).1 refl);
  history_ne = λ j n.
      rw (a.rows, history_with_row p rec t.version j fresh) (ground (arith, bytes_eq_iff p j));
  found = rw a.rows (ground (arith, find_with_row p rec t.version p rec.version, bytes_eq_iff p p));
  kept = λ j w r h. rw a.rows (
      ground (
        arith,
        find_with_row p rec t.version j w,
        bytes_eq_iff p j,
        find_version_above p rec.version t.version fresh,
      ));
  content_found = rw a.blobs (
      ground (
        arith,
        find_with_blob p rec.version content t.version_blob p rec.version fresh_blob,
        bytes_eq_iff p p,
      ));
  content_kept = λ j w d h. rw a.blobs (
      ground (
        arith,
        find_with_blob p rec.version content t.version_blob j w fresh_blob,
        bytes_eq_iff p j,
        find_blob_above p rec.version t.version_blob fresh_blob,
      ));
}
  where
    fresh : max_version p t.version < rec.version
    fresh = omega (arith, b.rows p)

    fresh_blob : max_blob p t.version_blob < rec.version
    fresh_blob = omega (arith, b.blobs p, b.rows p)
