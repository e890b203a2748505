-- ===== src/Db/Renames/Statements.antt =====
-- What each of the four statements of RenamePathTree leaves of the tables.
use roodox_sever_win.Base.{◌≡◌, sym, ap, ◌∙◌, [], Bytes}
use roodox_sever_win.Errors.{ok}
use roodox_sever_win.Db.Tables.{Tables}
use roodox_sever_win.Db.Tx.Outcomes.{bind_ok}
use roodox_sever_win.Db.Renames.{
  rename_rows, head_columns, version_columns, blob_columns, rename_meta, rename_head,
  rename_version, rename_blob, rename_path_tree_tx,
}
use roodox_sever_win.Db.Renames.Lookups.{set_rows_ok}

-- The four tables after the four statements.
pub record Renamed (old new : Bytes) (t t' : Tables) : Type 0 where
  pub head : rename_rows head_columns old new [] t.file_head ≡ ok t'.file_head
  pub version : rename_rows version_columns old new [] t.version ≡ ok t'.version
  pub blob : rename_rows blob_columns old new [] t.version_blob ≡ ok t'.version_blob

-- What each statement leaves of the tables.
meta_step :
    (old new : Bytes) (t t' : Tables) (u : Unit {0})
    → rename_meta old new t ≡ ok (u, t')
    → (t'.file_head ≡ t.file_head) × (t'.version ≡ t.version) × (t'.version_blob ≡ t.version_blob)
unfolding rename_meta
meta_step old new t t' u h =
    let (rs, e, f) = set_rows_ok _ _ t' u h in
    (ap (λ x. x.file_head) f, ap (λ x. x.version) f, ap (λ x. x.version_blob) f)

head_step :
    (old new : Bytes) (t t' : Tables) (u : Unit {0})
    → rename_head old new t ≡ ok (u, t')
    → (rename_rows head_columns old new [] t.file_head ≡ ok t'.file_head)
      × (t'.version ≡ t.version)
      × (t'.version_blob ≡ t.version_blob)
unfolding rename_head
head_step old new t t' u h =
    let (rs, e, f) = set_rows_ok _ _ t' u h in
    (e ∙ ap (λ x. ok x.file_head) (sym f), ap (λ x. x.version) f, ap (λ x. x.version_blob) f)

version_step :
    (old new : Bytes) (t t' : Tables) (u : Unit {0})
    → rename_version old new t ≡ ok (u, t')
    → (rename_rows version_columns old new [] t.version ≡ ok t'.version)
      × (t'.file_head ≡ t.file_head)
      × (t'.version_blob ≡ t.version_blob)
unfolding rename_version
version_step old new t t' u h =
    let (rs, e, f) = set_rows_ok _ _ t' u h in
    (e ∙ ap (λ x. ok x.version) (sym f), ap (λ x. x.file_head) f, ap (λ x. x.version_blob) f)

blob_step :
    (old new : Bytes) (t t' : Tables) (u : Unit {0})
    → rename_blob old new t ≡ ok (u, t')
    → (rename_rows blob_columns old new [] t.version_blob ≡ ok t'.version_blob)
      × (t'.file_head ≡ t.file_head)
      × (t'.version ≡ t.version)
unfolding rename_blob
blob_step old new t t' u h =
    let (rs, e, f) = set_rows_ok _ _ t' u h in
    (e ∙ ap (λ x. ok x.version_blob) (sym f), ap (λ x. x.file_head) f, ap (λ x. x.version) f)

steps-Renamed :
    (old new : Bytes) (t t1 t2 t3 t' : Tables) (u : Unit {0})
    → rename_meta old new t ≡ ok (u, t1)
    → rename_head old new t1 ≡ ok (u, t2)
    → rename_version old new t2 ≡ ok (u, t3)
    → rename_blob old new t3 ≡ ok (u, t')
    → Renamed old new t t'
steps-Renamed old new t t1 t2 t3 t' u a b c d =
    let (a1, a2, a3) = meta_step old new t t1 u a in
    let (b1, b2, b3) = head_step old new t1 t2 u b in
    let (c1, c2, c3) = version_step old new t2 t3 u c in
    let (d1, d2, d3) = blob_step old new t3 t' u d in
    record { head = cc (a1, b1, c2, d2); version = cc (a2, b2, c1, d3); blob = cc (a3, b3, c3, d1) }

pub rename_path_tree_tx-Renamed :
    (old new : Bytes) (t t' : Tables) (u : Unit {0})
    → rename_path_tree_tx old new t ≡ ok (u, t')
    → Renamed old new t t'
unfolding rename_path_tree_tx
rename_path_tree_tx-Renamed old new t t' u h =
    let (a1, t1, x1, y1) = bind_ok (rename_meta old new) _ t t' u h in
    let (a2, t2, x2, y2) = bind_ok (rename_head old new) _ t1 t' u y1 in
    let (a3, t3, x3, x4) = bind_ok (rename_version old new) _ t2 t' u y2 in
    steps-Renamed old new t t1 t2 t3 t' tt x1 x2 x3 x4
