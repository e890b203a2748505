-- ===== src/Db/Renames/Lookups.antt =====
-- What is found of a table by a key, as rows.
use roodox_sever_win.Base.{
  ℕ, ◌≡◌, refl, ap, inl, inr, Bool-cases, ◌&&◌, some, List, [], ◌∷◌, Bytes, bytes_eq, ◌==◌, arith,
}
use roodox_sever_win.Base.Dict.{Dict, get}
use roodox_sever_win.Errors.{Result, ok, err, Err}
use roodox_sever_win.Db.Tables.{Tables, VersionRecord, VersionRow, BlobRow, find_version, find_blob}
use roodox_sever_win.Db.Renames.{set_rows, head_columns, version_columns, blob_columns}
use roodox_sever_win.Db.Renames.Rows.{some_inj, AreLawful, find_row}

pub find_version_row :
    (p : Bytes) (v : ℕ) (rs : List VersionRow) (r : VersionRecord)
    → find_version p v rs ≡ some r
    → (x : VersionRow) × (find_row version_columns p v rs ≡ some x) × (x.rec ≡ r)
unfolding find_version find_row
find_version_row p v [] r h = cc
find_version_row p v (y ∷ rs) r h = elim (Bool-cases (bytes_eq y.path p && y.rec.version == v)) [
  | inl e ↦ (y, rw e refl, some_inj (rw e at h))
  | inr e ↦ (let (x, f, g) = find_version_row p v rs r (rw e at h) in (x, rw e f, g))
]

pub find_row_version :
    (p : Bytes) (v : ℕ) (rs : List VersionRow) (x : VersionRow)
    → find_row version_columns p v rs ≡ some x
    → find_version p v rs ≡ some x.rec
unfolding find_version find_row
find_row_version p v [] x h = cc
find_row_version p v (y ∷ rs) x h = elim (Bool-cases (bytes_eq y.path p && y.rec.version == v)) [
  | inl e ↦ rw e (ap (λ o. some o.rec) (some_inj (rw e at h)))
  | inr e ↦ rw e (find_row_version p v rs x (rw e at h))
]

pub find_blob_row :
    (p : Bytes) (v : ℕ) (rs : List BlobRow) (d : Bytes)
    → find_blob p v rs ≡ some d
    → (x : BlobRow) × (find_row blob_columns p v rs ≡ some x) × (x.content ≡ d)
unfolding find_blob find_row
find_blob_row p v [] d h = cc
find_blob_row p v (y ∷ rs) d h = elim (Bool-cases (bytes_eq y.path p && y.version == v)) [
  | inl e ↦ (y, rw e refl, some_inj (rw e at h))
  | inr e ↦ (let (x, f, g) = find_blob_row p v rs d (rw e at h) in (x, rw e f, g))
]

pub find_row_blob :
    (p : Bytes) (v : ℕ) (rs : List BlobRow) (x : BlobRow)
    → find_row blob_columns p v rs ≡ some x
    → find_blob p v rs ≡ some x.content
unfolding find_blob find_row
find_row_blob p v [] x h = cc
find_row_blob p v (y ∷ rs) x h = elim (Bool-cases (bytes_eq y.path p && y.version == v)) [
  | inl e ↦ rw e (ap (λ o. some o.content) (some_inj (rw e at h)))
  | inr e ↦ rw e (find_row_blob p v rs x (rw e at h))
]

pub get_row :
    (p : Bytes) (rs : Dict ℕ) (h : ℕ)
    → get rs p ≡ some h
    → (x : Bytes × ℕ) × (find_row head_columns p 0 rs ≡ some x) × (x.1 ≡ h)
unfolding get find_row
get_row p [] h e = cc
get_row p (y ∷ rs) h e = elim (Bool-cases (bytes_eq y.0 p)) [
  | inl k ↦ (y, rw k refl, some_inj (rw k at e))
  | inr k ↦ (let (x, f, g) = get_row p rs h (rw k at e) in (x, rw k f, g))
]

pub row_get :
    (p : Bytes) (rs : Dict ℕ) (x : Bytes × ℕ)
    → find_row head_columns p 0 rs ≡ some x
    → get rs p ≡ some x.1
unfolding get find_row
row_get p [] x e = cc
row_get p (y ∷ rs) x e = elim (Bool-cases (bytes_eq y.0 p)) [
  | inl k ↦ rw k (ap (λ o. some o.1) (some_inj (rw k at e)))
  | inr k ↦ rw k (row_get p rs x (rw k at e))
]

pub set_rows_ok :
    {R : Type 0} (f : List R → Tables) (x : Result Err (List R)) (t' : Tables) (u : Unit {0})
    → set_rows f x ≡ ok (u, t')
    → (rs : List R) × (x ≡ ok rs) × (t' ≡ f rs)
set_rows_ok f (ok rs) t' u h = (rs, refl, ground arith)
set_rows_ok f (err e) t' u h = cc

pub version_laws : AreLawful version_columns
version_laws = record { path-set_path = λ q r. refl; number-set_path = λ q r. refl }

pub blob_laws : AreLawful blob_columns
blob_laws = record { path-set_path = λ q r. refl; number-set_path = λ q r. refl }

pub head_laws : AreLawful head_columns
head_laws = record { path-set_path = λ q r. refl; number-set_path = λ q r. refl }
