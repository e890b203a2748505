-- ===== src/Db/Renames/Rows.antt =====
-- What an UPDATE of the paths leaves of each row.
use roodox_sever_win.Base.{
  ℕ, ◌≡◌, ◌≢◌, refl, sym, ap, ◌∙◌, ◌⊎◌, inl, inr, Bool, true, false, Bool-cases, ◌||◌, ◌&&◌, Option,
  none, some, List, [], ◌∷◌, Bytes, bytes_eq, bytes_eq_iff, ◌==◌, if◌then◌else◌, arith,
}
use roodox_sever_win.Errors.{Result, ok, err, Err}
use roodox_sever_win.Db.Renames.{
  Columns, in_tree, new_path, moved_path, has_row, cons_row, rename_rows,
}

-- Setting the path sets the path and nothing else of the key.
pub record AreLawful {R : Type 0} (c : Columns R) : Type 0 where
  pub path-set_path : (q : Bytes) (r : R) → c.path (c.set_path q r) ≡ q
  pub number-set_path : (q : Bytes) (r : R) → c.number (c.set_path q r) ≡ c.number r

pub some_inj : {A : Type 0} {a b : A} → some a ≡ some b → a ≡ b
some_inj h = cc h

module _ {R : Type 0} (c : Columns R) where
  -- The first row with this key.
  unfoldable pub find_row : Bytes → ℕ → List R → Option R
  find_row p v [] = none
  find_row p v (r ∷ rs) =
      if bytes_eq (c.path r) p && c.number r == v then some r else find_row p v rs

  -- The row as the statement leaves it.
  unfoldable pub moved_row : Bytes → Bytes → R → R
  moved_row old new r =
      if in_tree old (c.path r) then c.set_path (new_path old new (c.path r)) r else r

  cons_row_ok :
      (r : R) (x : Result Err (List R)) (out : List R)
      → cons_row c r x ≡ ok out
      → (rs : List R) × (x ≡ ok rs) × (out ≡ r ∷ rs)
  cons_row_ok r (ok rs) out h = (rs, refl, ground arith)
  cons_row_ok r (err e) out h = cc

  pub has_row-find_row :
      (p : Bytes) (v : ℕ) (rs : List R) (r : R) → find_row p v rs ≡ some r → has_row c p v rs ≡ true
  unfolding find_row has_row
  has_row-find_row p v [] r h = cc
  has_row-find_row p v (s ∷ rs) r h = ground (arith, has_row-find_row p v rs r)

  -- One step of the statement, when it goes through.
  pub record Steps (old new : Bytes) (done : List R) (r : R) (rs out : List R) : Type 0 where
    pub rest : List R
    pub go_on : rename_rows c old new (moved_row old new r ∷ done) rs ≡ ok rest
    pub out_eq : out ≡ moved_row old new r ∷ rest
    pub free_done :
        in_tree old (c.path r) ≡ true
        → has_row c (new_path old new (c.path r)) (c.number r) done ≡ false
    pub free_rest :
        in_tree old (c.path r) ≡ true
        → has_row c (new_path old new (c.path r)) (c.number r) rs ≡ false

  abbrev taken : Bytes → Bytes → List R → R → List R → Bool
  taken old new done r rs =
      has_row c (new_path old new (c.path r)) (c.number r) done
      || has_row c (new_path old new (c.path r)) (c.number r) rs

  rename_rows_step :
      (old new : Bytes) (done : List R) (r : R) (rs out : List R)
      → rename_rows c old new done (r ∷ rs) ≡ ok out
      → Steps old new done r rs out
  unfolding rename_rows moved_row
  rename_rows_step old new done r rs out h = elim (Bool-cases (in_tree old (c.path r))) [
    | inl t ↦ elim (Bool-cases (taken old new done r rs)) [
      | inl k ↦ absurd (let b = rw (t, k) at h in cc b)
      | inr k ↦
          (let b = rw (t, k) at h in
            let (rest, e, o) = cons_row_ok (c.set_path (new_path old new (c.path r)) r) _ out b in
            record {
              rest = rest;
              go_on = rw t e;
              out_eq = rw t o;
              free_done = λ _. ground arith;
              free_rest = λ _. ground arith;
            })
    ]
    | inr t ↦
        (let b = rw t at h in
          let (rest, e, o) = cons_row_ok r _ out b in
          record {
            rest = rest;
            go_on = rw t e;
            out_eq = rw t o;
            free_done = λ k. absurd (cc (t, k));
            free_rest = λ k. absurd (cc (t, k));
          })
  ]

module _ {R : Type 0} (c : Columns R) (l : AreLawful c) (old new : Bytes) where
  path-moved_row : (r : R) → c.path (moved_row c old new r) ≡ moved_path old new (c.path r)
  unfolding moved_row moved_path
  path-moved_row r = ground (arith, l.path-set_path (new_path old new (c.path r)) r)

  number-moved_row : (r : R) → c.number (moved_row c old new r) ≡ c.number r
  unfolding moved_row
  number-moved_row r = ground (arith, l.number-set_path (new_path old new (c.path r)) r)

  abbrev IsKey : Bytes → ℕ → R → Type 0
  IsKey p v r = (bytes_eq (c.path r) p && c.number r == v) ≡ true

  IsKey-path : (p : Bytes) (v : ℕ) (r : R) → IsKey p v r → (c.path r ≡ p) × (c.number r ≡ v)
  IsKey-path p v r h = (ground (arith, bytes_eq_iff (c.path r) p), ground arith)

  has_row_of_key :
      (p : Bytes) (v : ℕ) (r : R) (rs : List R)
      → c.path r ≡ p
      → c.number r ≡ v
      → has_row c p v (r ∷ rs) ≡ true
  unfolding has_row
  has_row_of_key p v r rs e n = ground (arith, bytes_eq_iff (c.path r) p)

  has_row_cons :
      (p : Bytes) (v : ℕ) (r : R) (rs : List R)
      → has_row c p v rs ≡ true
      → has_row c p v (r ∷ rs) ≡ true
  unfolding has_row
  has_row_cons p v r rs h = ground arith

  -- A row of the tree does not get through while another row has its new key.
  blocked :
      (p : Bytes) (v : ℕ) (done rs out : List R) (r : R)
      → in_tree old p ≡ true
      → has_row c (new_path old new p) v done ≡ true
      → find_row c p v rs ≡ some r
      → rename_rows c old new done rs ≢ ok out
  unfolding find_row
  blocked p v done [] out r t k f h = cc f
  blocked p v done (y ∷ rs) out r t k f h =
      let st = rename_rows_step c old new done y rs out h in
      elim (Bool-cases (bytes_eq (c.path y) p && c.number y == v)) [
        | inl e ↦
            (let (a, b) = IsKey-path p v y e in
              absurd (cc (st.free_done (ap (in_tree old) a ∙ t), a, b, k)))
        | inr e ↦
            blocked p v (moved_row c old new y ∷ done) rs st.rest r t
              (has_row_cons (new_path old new p) v (moved_row c old new y) done k) (rw e at f)
              st.go_on
      ]

  moved_path_in : (p : Bytes) → in_tree old p ≡ true → moved_path old new p ≡ new_path old new p
  unfolding moved_path
  moved_path_in p t = rw t refl

  moved_path_out : (p : Bytes) → in_tree old p ≡ false → moved_path old new p ≡ p
  unfolding moved_path
  moved_path_out p t = rw t refl

  not_key :
      (p : Bytes) (v : ℕ) (y : R)
      → (bytes_eq (c.path y) p && c.number y == v) ≡ false
      → c.path y ≡ p
      → c.number y ≢ v
  not_key p v y e a b =
      let m : (bytes_eq (c.path y) p && c.number y == v) ≡ true =
        ground (arith, bytes_eq_iff (c.path y) p) in
      cc (e, m)

  -- The key of a row that comes later stays apart from the key of this one.
  apart :
      (p : Bytes) (v : ℕ) (done rs out : List R) (y r : R)
      → (bytes_eq (c.path y) p && c.number y == v) ≡ false
      → find_row c p v rs ≡ some r
      → Steps c old new done y rs out
      → c.path (moved_row c old new y) ≡ moved_path old new p
      → c.number y ≢ v
  apart p v done rs out y r e f st a b = elim (Bool-cases (in_tree old p)) [
    | inl t ↦
        blocked p v (moved_row c old new y ∷ done) rs st.rest r t
          (has_row_of_key (new_path old new p) v (moved_row c old new y) done
            (a ∙ moved_path_in p t) (number-moved_row y ∙ b))
          f st.go_on
    | inr t ↦ elim (Bool-cases (in_tree old (c.path y))) [
      | inl u ↦ absurd (
          cc (
            st.free_rest u,
            b,
            has_row-find_row c p v rs r f,
            sym (moved_path_in (c.path y) u) ∙ sym (path-moved_row y) ∙ a ∙ moved_path_out p t,
          ))
      | inr u ↦
          not_key p v y e
            (sym (moved_path_out (c.path y) u) ∙ sym (path-moved_row y) ∙ a ∙ moved_path_out p t) b
    ]
  ]

  find_row_head :
      (p : Bytes) (v : ℕ) (y : R) (rs : List R)
      → c.path y ≡ p
      → c.number y ≡ v
      → find_row c p v (y ∷ rs) ≡ some y
  unfolding find_row
  find_row_head p v y rs a b = ground (arith, bytes_eq_iff (c.path y) p)

  find_row_skip :
      (p : Bytes) (v : ℕ) (y : R) (rs : List R)
      → (c.path y ≡ p → c.number y ≢ v)
      → find_row c p v (y ∷ rs) ≡ find_row c p v rs
  unfolding find_row
  find_row_skip p v y rs n = elim (Bool-cases (bytes_eq (c.path y) p && c.number y == v)) [
    | inl e ↦ (let (a, b) = IsKey-path p v y e in absurd (n a b))
    | inr e ↦ rw e refl
  ]

  -- A statement that goes through moves every row with its path: what was found at a key is found
  -- at the moved key.
  pub rename_rows_found :
      (p : Bytes) (v : ℕ) (done rs out : List R) (r : R)
      → find_row c p v rs ≡ some r
      → rename_rows c old new done rs ≡ ok out
      → find_row c (moved_path old new p) v out ≡ some (moved_row c old new r)
  unfolding find_row
  rename_rows_found p v done [] out r f h = cc
  rename_rows_found p v done (y ∷ rs) out r f h =
      let st = rename_rows_step c old new done y rs out h in
      elim (Bool-cases (bytes_eq (c.path y) p && c.number y == v)) [
        | inl e ↦
            (let (a, b) = IsKey-path p v y e in
              ap (find_row c (moved_path old new p) v) st.out_eq
              ∙ find_row_head (moved_path old new p) v (moved_row c old new y) st.rest
                  (path-moved_row y ∙ ap (moved_path old new) a) (number-moved_row y ∙ b)
              ∙ ap (λ o. some (moved_row c old new o)) (some_inj (rw e at f)))
        | inr e ↦
            ap (find_row c (moved_path old new p) v) st.out_eq
            ∙ find_row_skip (moved_path old new p) v (moved_row c old new y) st.rest
                (λ a b. apart p v done rs out y r e (rw e at f) st a (sym (number-moved_row y) ∙ b))
            ∙ rename_rows_found p v (moved_row c old new y ∷ done) rs st.rest r (rw e at f) st.go_on
      ]

  kept_row : (r : R) → in_tree old (c.path r) ≡ false → moved_row c old new r ≡ r
  unfolding moved_row
  kept_row r t = rw t refl

  has_row_at :
      (p : Bytes) (v : ℕ) (y : R) (rs : List R)
      → has_row c p v (y ∷ rs) ≡ true
      → ((c.path y ≡ p) × (c.number y ≡ v)) ⊎ (has_row c p v rs ≡ true)
  unfolding has_row
  has_row_at p v y rs h = elim (Bool-cases (bytes_eq (c.path y) p && c.number y == v)) [
    | inl e ↦ inl (IsKey-path p v y e)
    | inr e ↦ inr (rw e at h)
  ]

  -- A row outside the tree that has the new key of a row of the tree stops the statement.
  pub rename_rows_taken :
      (p : Bytes) (v : ℕ) (done rs out : List R) (r : R)
      → in_tree old p ≡ true
      → in_tree old (new_path old new p) ≡ false
      → has_row c (new_path old new p) v rs ≡ true
      → find_row c p v rs ≡ some r
      → rename_rows c old new done rs ≢ ok out
  unfolding find_row
  rename_rows_taken p v done [] out r t u k f h = cc f
  rename_rows_taken p v done (y ∷ rs) out r t u k f h =
      let st = rename_rows_step c old new done y rs out h in
      elim (Bool-cases (bytes_eq (c.path y) p && c.number y == v)) [
        | inl e ↦
            (let (a, b) = IsKey-path p v y e in
              elim (has_row_at (new_path old new p) v y rs k) [
                | inl (x, z) ↦ cc (t, u, a, x)
                | inr z ↦ absurd (cc (st.free_rest (ap (in_tree old) a ∙ t), a, b, z))
              ])
        | inr e ↦ elim (has_row_at (new_path old new p) v y rs k) [
          | inl (x, z) ↦
              blocked p v (moved_row c old new y ∷ done) rs st.rest r t
                (has_row_of_key (new_path old new p) v (moved_row c old new y) done
                  (ap c.path (kept_row y (ap (in_tree old) x ∙ u)) ∙ x) (number-moved_row y ∙ z))
                (rw e at f) st.go_on
          | inr z ↦
              rename_rows_taken p v (moved_row c old new y ∷ done) rs st.rest r t u z (rw e at f)
                st.go_on
        ]
      ]
