-- ===== src/Fs/Root/Resolve.antt =====
-- A resolved path lies below the root by the segments of the normalised request.
use mathlib.Core.List.{
  reverse, reverse_aux, reverse_aux-reverse_aux-nil, reverse-reverse, reverse_aux-reverse_aux-nil,
  reverse_aux-eq,
}
use roodox_sever_win.Base.{
  ℕ, ◌≡◌, ◌≢◌, refl, ap, ◌∙◌, Bool, true, List, [], ◌∷◌, ◌++◌, Bytes, bytes_eq, bytes_eq_iff, arith,
}
use roodox_sever_win.Fs.RelPath.{
  slash, dot, dotdot, split, join, is_rooted, Cleaned, clean_step, clean_loop, replicate_up, clean,
  render, cons_head,
}
use roodox_sever_win.Fs.RelPath.Segments.{
  IsSegment, All, All-append, All-reverse, split-NoSlash, split-join, split-cons,
}
use roodox_sever_win.Fs.RelPath.Inside.{All-NoSlash, clean_loop-comps}
use roodox_sever_win.Fs.Root.{abs_segments, join_paths}

abbrev pub start : Cleaned
start = record { ups = 0; comps = [] }

cons_head-append :
    (c : ℕ) (xs ys : List Bytes) → xs ≢ [] → cons_head c xs ++ ys ≡ cons_head c (xs ++ ys)
cons_head-append c [] ys n = absurd (n refl)
cons_head-append c (x ∷ xs) ys n = refl

split_nonempty : (p : Bytes) → split p ≢ []
split_nonempty p e = let (x, xs, h) = split-cons p in cc

split_at_slash : (a b : Bytes) → split (a ++ (slash ∷ b)) ≡ split a ++ split b
unfolding split
split_at_slash [] b = refl
split_at_slash (c ∷ a) b =
    ground (arith, split_at_slash a b, cons_head-append c (split a) (split b) (split_nonempty a))

clean_loop-append :
    (rooted : Bool) (s : Cleaned) (xs ys : List Bytes)
    → clean_loop rooted s (xs ++ ys) ≡ clean_loop rooted (clean_loop rooted s xs) ys
unfolding clean_loop
clean_loop-append rooted s [] ys = refl
clean_loop-append rooted s (x ∷ xs) ys = clean_loop-append rooted (clean_step rooted s x) xs ys

step_segment :
    (s : Cleaned) (x : Bytes)
    → IsSegment x
    → clean_step true s x ≡ record { ups = s.ups; comps = x ∷ s.comps }
unfolding clean_step
step_segment s x h = ground (arith, bytes_eq_iff x [], bytes_eq_iff x dot, bytes_eq_iff x dotdot)

loop_segments :
    (s : Cleaned) (xs : List Bytes)
    → All IsSegment xs
    → clean_loop true s xs ≡ record { ups = s.ups; comps = reverse_aux xs s.comps }
unfolding clean_loop
loop_segments s [] h = refl
loop_segments s (x ∷ xs) h =
    rw (step_segment s x h.0) (loop_segments (record { ups = s.ups; comps = x ∷ s.comps }) xs h.1)

-- A rooted path keeps no `..`.
rooted_ups : (s : Cleaned) (xs : List Bytes) → s.ups ≡ 0 → (clean_loop true s xs).ups ≡ 0
unfolding clean_loop clean_step
rooted_ups s [] h = h
rooted_ups s (x ∷ xs) h = rooted_ups (clean_step true s x) xs (ground arith)

-- The absolute path of some segments.
unfoldable pub abs_path : List Bytes → Bytes
abs_path xs = slash ∷ join xs

pub abs_segments-IsSegment : (p : Bytes) → All IsSegment (abs_segments p)
unfolding abs_segments replicate_up
abs_segments-IsSegment p =
    rw (rooted_ups start (split p) refl)
      (All-reverse IsSegment _ (clean_loop-comps true start (split p) tt (split-NoSlash p)))

pub clean_rooted : (p : Bytes) → is_rooted p ≡ true → clean p ≡ abs_path (abs_segments p)
unfolding clean abs_path abs_segments render
clean_rooted p h = rw h refl

-- The loop over the split of an absolute path collects its segments.
loop_abs :
    (xs : List Bytes)
    → All IsSegment xs
    → clean_loop true start (split (abs_path xs)) ≡ record { ups = 0; comps = reverse xs }
unfolding abs_path split clean_loop clean_step bytes_eq join
loop_abs [] h = refl
loop_abs (x ∷ xs) h = rw (split-join x xs (All-NoSlash (x ∷ xs) h)) (loop_segments start (x ∷ xs) h)

pub abs_segments-abs_path : (xs : List Bytes) → All IsSegment xs → abs_segments (abs_path xs) ≡ xs
unfolding abs_segments replicate_up
abs_segments-abs_path xs h = rw (loop_abs xs h) (reverse-reverse xs)

-- Joining segments below an absolute path appends them.
abs_segments-append :
    (xs : List Bytes) (q : Bytes)
    → All IsSegment xs
    → All IsSegment (split q)
    → abs_segments (abs_path xs ++ (slash ∷ q)) ≡ xs ++ split q
unfolding abs_segments replicate_up
abs_segments-append xs q h k =
    rw
      (
        split_at_slash (abs_path xs) q,
        clean_loop-append true start (split (abs_path xs)) (split q),
        loop_abs xs h,
        loop_segments (record { ups = 0; comps = reverse xs }) (split q) k,
      )
      (reverse_aux-reverse_aux-nil (split q) (reverse xs)
        ∙ reverse_aux-eq (reverse xs) (split q)
        ∙ ap (λ ys. ys ++ split q) (reverse-reverse xs))

pub abs_path_rooted : (xs : List Bytes) (s : Bytes) → is_rooted (abs_path xs ++ s) ≡ true
unfolding abs_path is_rooted
abs_path_rooted xs s = refl

pub is_rooted-abs_path : (xs : List Bytes) → is_rooted (abs_path xs) ≡ true
unfolding abs_path is_rooted
is_rooted-abs_path xs = refl

pub clean-abs_path : (xs : List Bytes) → All IsSegment xs → clean (abs_path xs) ≡ abs_path xs
clean-abs_path xs h =
    clean_rooted (abs_path xs) (is_rooted-abs_path xs) ∙ ap abs_path (abs_segments-abs_path xs h)

pub clean-join_paths :
    (xs : List Bytes) (q : Bytes)
    → All IsSegment xs
    → All IsSegment (split q)
    → clean (join_paths (abs_path xs) q) ≡ abs_path (xs ++ split q)
clean-join_paths xs q h k =
    ap clean (
      clean_rooted (abs_path xs ++ (slash ∷ q)) (abs_path_rooted xs (slash ∷ q))
      ∙ ap abs_path (abs_segments-append xs q h k))
    ∙ clean-abs_path (xs ++ split q) (All-append IsSegment xs (split q) h k)

pub abs_segments-clean : (p : Bytes) → is_rooted p ≡ true → abs_segments (clean p) ≡ abs_segments p
abs_segments-clean p h =
    ap abs_segments (clean_rooted p h)
    ∙ abs_segments-abs_path (abs_segments p) (abs_segments-IsSegment p)
