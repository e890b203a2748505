-- ===== src/Db/Renames/Places.antt =====
-- Where a rename of a tree takes a path.
use roodox_sever_win.Base.{
  ℕ, ◌≡◌, ◌≢◌, refl, sym, ap, ◌∙◌, inl, inr, true, false, Bool-cases, [], ◌∷◌, ◌++◌, Bytes,
  bytes_eq, bytes_eq_iff, bytes_eq→eq, length, drop, arith,
}
use roodox_sever_win.Fs.RelPath.{slash, has_prefix}
use roodox_sever_win.Fs.Ignore.{lower, to_lower}
use roodox_sever_win.Db.Renames.{in_tree, new_path, moved_path}

-- A rename from one path to another takes the path itself to the new one; what lies below it, in
-- any case of the ASCII letters, to the same place below the new one; and nothing else.
pub data Goes (old new : Bytes) : Bytes → Bytes → Type 0 where
  itself : Goes old new old new
  below :
      (folder rest : Bytes)
      → to_lower folder ≡ to_lower old
      → Goes old new (folder ++ (slash ∷ rest)) (new ++ (slash ∷ rest))
  outside :
      (p : Bytes)
      → p ≢ old
      → ((folder rest : Bytes) → to_lower folder ≡ to_lower old → p ≢ folder ++ (slash ∷ rest))
      → Goes old new p p

pub in_tree_self : (p : Bytes) → in_tree p p ≡ true
unfolding in_tree
in_tree_self p = ground (arith, bytes_eq_iff p p)

pub new_path_self : (old new : Bytes) → new_path old new old ≡ new
unfolding new_path
new_path_self old new = ground (arith, bytes_eq_iff old old)

lower-slash : (c : ℕ) → lower c ≡ slash → c ≡ slash
unfolding lower
lower-slash c h = ground arith

length-to_lower : (s : Bytes) → length (to_lower s) ≡ length s
unfolding to_lower
length-to_lower [] = refl
length-to_lower (c ∷ s) = omega (arith, length-to_lower s)

-- What lies below a folder has its name and a slash as a prefix, whatever the case.
prefix_below :
    (folder old rest : Bytes)
    → to_lower folder ≡ to_lower old
    → has_prefix (to_lower (folder ++ (slash ∷ rest))) (to_lower (old ++ (slash ∷ []))) ≡ true
unfolding has_prefix to_lower lower
prefix_below [] [] rest e = refl
prefix_below [] (o ∷ old) rest e = cc e
prefix_below (c ∷ folder) [] rest e = cc e
prefix_below (c ∷ folder) (o ∷ old) rest e = ground (arith, prefix_below folder old rest)

first_of_prefix :
    (c p : ℕ) (s ps : Bytes)
    → has_prefix (c ∷ s) (p ∷ ps) ≡ true
    → (c ≡ p) × (has_prefix s ps ≡ true)
unfolding has_prefix
first_of_prefix c p s ps h = (ground arith, ground arith)

lower_at_slash : lower slash ≡ slash
unfolding lower
lower_at_slash = refl

-- And nothing else has.
below_of_prefix :
    (p old : Bytes)
    → has_prefix (to_lower p) (to_lower (old ++ (slash ∷ []))) ≡ true
    → (folder : Bytes) × (rest : Bytes) × (to_lower folder ≡ to_lower old)
      × (p ≡ folder ++ (slash ∷ rest))
unfolding has_prefix to_lower
below_of_prefix [] [] h = cc h
below_of_prefix [] (o ∷ old) h = cc h
below_of_prefix (c ∷ p) [] h =
    let (e, k) = first_of_prefix (lower c) (lower slash) (to_lower p) [] h in
    ([], p, refl, ap (λ x. x ∷ p) (lower-slash c (e ∙ lower_at_slash)))
below_of_prefix (c ∷ p) (o ∷ old) h =
    let (e, k) =
      first_of_prefix (lower c) (lower o) (to_lower p) (to_lower (old ++ (slash ∷ []))) h in
    let (folder, rest, f, g) = below_of_prefix p old k in
    (c ∷ folder, rest, cc (e, f), ap (λ x. c ∷ x) g)

drop_folder :
    (folder old rest : Bytes)
    → length folder ≡ length old
    → drop (length old) (folder ++ rest) ≡ rest
drop_folder [] [] rest e = refl
drop_folder [] (o ∷ old) rest e = absurd (omega arith)
drop_folder (c ∷ folder) [] rest e = absurd (omega arith)
drop_folder (c ∷ folder) (o ∷ old) rest e = drop_folder folder old rest (omega arith)

not_longer : (folder old rest : Bytes) → length folder ≡ length old → folder ++ (slash ∷ rest) ≢ old
not_longer [] [] rest e h = cc h
not_longer [] (o ∷ old) rest e h = absurd (omega arith)
not_longer (c ∷ folder) [] rest e h = cc h
not_longer (c ∷ folder) (o ∷ old) rest e h = not_longer folder old rest (omega arith) (ground arith)

length_of_lower : (s r : Bytes) → to_lower s ≡ to_lower r → length s ≡ length r
length_of_lower s r e = sym (length-to_lower s) ∙ ap length e ∙ length-to_lower r

not_equal : (p q : Bytes) → p ≢ q → bytes_eq p q ≡ false
not_equal p q n = elim (Bool-cases (bytes_eq p q)) [
  | inl e ↦ absurd (n (bytes_eq→eq p q e))
  | inr e ↦ e
]

in_tree_below :
    (old p : Bytes)
    → p ≢ old
    → in_tree old p ≡ true
    → has_prefix (to_lower p) (to_lower (old ++ (slash ∷ []))) ≡ true
unfolding in_tree
in_tree_below old p n h = rw (not_equal p old n) at h

moved_in :
    (old new p : Bytes)
    → bytes_eq p old ≡ false
    → has_prefix (to_lower p) (to_lower (old ++ (slash ∷ []))) ≡ true
    → moved_path old new p ≡ new ++ drop (length old) p
unfolding moved_path in_tree new_path
moved_in old new p e h = rw (e, h) refl

pub Goes-moved_path : (old new p q : Bytes) → Goes old new p q → moved_path old new p ≡ q
unfolding moved_path
Goes-moved_path old new _ _ itself = rw (in_tree_self old) (new_path_self old new)
Goes-moved_path old new _ _ (below folder rest e) =
    let same : length folder ≡ length old = omega (arith, length_of_lower folder old e) in
    let n : bytes_eq (folder ++ (slash ∷ rest)) old ≡ false =
      not_equal _ old (not_longer folder old rest same) in
    moved_in old new (folder ++ (slash ∷ rest)) n (prefix_below folder old rest e)
    ∙ ap (λ s. new ++ s) (drop_folder folder old (slash ∷ rest) same)
Goes-moved_path old new _ _ (outside p n m) = elim (Bool-cases (in_tree old p)) [
  | inl e ↦
      (let (folder, rest, f, g) = below_of_prefix p old (in_tree_below old p n e) in
        absurd (m folder rest f g))
  | inr e ↦ rw e refl
]
