-- ===== src/Fs/RelPath/Segments.antt =====
-- What a segment of a cleaned path looks like, and splitting as the inverse of joining.
use mathlib.Core.List.{reverse, reverse-cons}
use roodox_sever_win.Base.{
  ℕ, ◌≡◌, ◌≢◌, refl, ap, sym, ◌∙◌, inl, inr, Bool, Bool-cases, ◌==◌, List, [], ◌∷◌, ◌++◌, Bytes,
  bytes_eq_iff, arith,
}
use roodox_sever_win.Fs.RelPath.{slash, dot, dotdot, cons_head, split, join, Cleaned, clean_step}

abbrev pub NoSlash : Bytes → Type 0
NoSlash [] = Unit
NoSlash (c ∷ s) = (c ≢ slash) × NoSlash s

-- A name inside a directory: no separator in it, and not one of the three special ones.
abbrev pub IsSegment : Bytes → Type 0
IsSegment x = NoSlash x × (x ≢ []) × (x ≢ dot) × (x ≢ dotdot)

abbrev pub All {ℓ} : {A : Type ℓ} → (A → Type 0) → List A → Type 0
All P [] = Unit
All P (x ∷ xs) = P x × All P xs

pub All-append {ℓ} :
    {A : Type ℓ} (P : A → Type 0) (xs ys : List A) → All P xs → All P ys → All P (xs ++ ys)
All-append P [] ys h k = k
All-append P (x ∷ xs) ys h k = (h.0, All-append P xs ys h.1 k)

pub All-append_back {ℓ} :
    {A : Type ℓ} (P : A → Type 0) (xs ys : List A) → All P (xs ++ ys) → All P ys
All-append_back P [] ys h = h
All-append_back P (x ∷ xs) ys h = All-append_back P xs ys h.1

pub All-reverse {ℓ} : {A : Type ℓ} (P : A → Type 0) (xs : List A) → All P xs → All P (reverse xs)
All-reverse P [] h = tt
All-reverse P (x ∷ xs) h =
    rw (reverse-cons x xs) (All-append P (reverse xs) (x ∷ []) (All-reverse P xs h.1) (h.0, tt))

cons_head-NoSlash :
    (c : ℕ) (xs : List Bytes) → c ≢ slash → All NoSlash xs → All NoSlash (cons_head c xs)
cons_head-NoSlash c [] n h = ((n, tt), tt)
cons_head-NoSlash c (x ∷ xs) n h = ((n, h.0), h.1)

pub split-NoSlash : (p : Bytes) → All NoSlash (split p)
unfolding split
split-NoSlash [] = (tt, tt)
split-NoSlash (c ∷ s) = elim (Bool-cases (c == slash)) [
  | inl e ↦ rw e (tt, split-NoSlash s)
  | inr e ↦ rw e (cons_head-NoSlash c (split s) (ground arith) (split-NoSlash s))
]

pub split-join_one : (x : Bytes) → NoSlash x → split x ≡ x ∷ []
unfolding split
split-join_one [] h = refl
split-join_one (c ∷ x) h = ground (arith, split-join_one x h.1)

split-append : (x r : Bytes) → NoSlash x → split (x ++ (slash ∷ r)) ≡ x ∷ split r
unfolding split
split-append [] r h = refl
split-append (c ∷ x) r h = ground (arith, split-append x r h.1)

pub split-join :
    (x : Bytes) (xs : List Bytes) → All NoSlash (x ∷ xs) → split (join (x ∷ xs)) ≡ x ∷ xs
unfolding join
split-join x [] h = split-join_one x h.0
split-join x (y ∷ ys) h = split-append x (join (y ∷ ys)) h.0 ∙ ap (◌∷◌ x) (split-join y ys h.1)

join-cons_head : (c : ℕ) (xs : List Bytes) → join (cons_head c xs) ≡ c ∷ join xs
unfolding join
join-cons_head c [] = refl
join-cons_head c (x ∷ []) = refl
join-cons_head c (x ∷ y ∷ r) = refl

pub split-cons : (p : Bytes) → (x : Bytes) × (xs : List Bytes) × (split p ≡ x ∷ xs)
unfolding split
split-cons [] = ([], [], refl)
split-cons (c ∷ s) = elim (Bool-cases (c == slash)) [
  | inl e ↦ ([], split s, rw e)
  | inr e ↦ (let (x, xs, h) = split-cons s in (c ∷ x, xs, rw (e, h)))
]

join-slash :
    (c : ℕ) (s x : Bytes) (xs : List Bytes)
    → c ≡ slash
    → join (x ∷ xs) ≡ s
    → join ([] ∷ x ∷ xs) ≡ c ∷ s
unfolding join
join-slash c s x xs e h = cc

pub join-split : (p : Bytes) → join (split p) ≡ p
unfolding split
join-split [] = unfold join in refl
join-split (c ∷ s) = elim (Bool-cases (c == slash)) [
  | inl e ↦
      (let (x, xs, h) = split-cons s in
        rw (e, h) (join-slash c s x xs (ground arith) (ap join (sym h) ∙ join-split s)))
  | inr e ↦ rw e (join-cons_head c (split s) ∙ ap (◌∷◌ c) (join-split s))
]

pub clean_step-comps :
    (rooted : Bool) (s : Cleaned) (x : Bytes)
    → All IsSegment s.comps
    → NoSlash x
    → All IsSegment (clean_step rooted s x).comps
unfolding clean_step
clean_step-comps rooted s x h n =
    ground (arith, bytes_eq_iff x [], bytes_eq_iff x dot, bytes_eq_iff x dotdot)
