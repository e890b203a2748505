-- ===== src/Base/Space.antt =====
-- strings.TrimSpace cuts white space by runes: the one-byte spaces of ASCII, and the UTF-8 forms of
-- U+0085, U+00A0, U+1680, U+2000 to U+200A, U+2028, U+2029, U+202F, U+205F and U+3000.
pub mod Trims
use Prim.Native.Nat.{ℕ, zero, suc}
use mathlib.Core.Bool.{Bool, true, false, ◌&&◌, ◌||◌}
use mathlib.Core.List.{[], ◌∷◌}
use roodox_sever_win.Base.Tests.{if◌then◌else◌, leb, ◌==◌}
use roodox_sever_win.Base.Text.{Bytes}

abbrev pub is_ascii_space : ℕ → Bool
is_ascii_space b = (leb 9 b && leb b 13) || b == 32

abbrev is_space2 : ℕ → ℕ → Bool
is_space2 a b = a == 194 && (b == 133 || b == 160)

abbrev is_space3 : ℕ → ℕ → ℕ → Bool
is_space3 a b c =
    (a == 225 && (b == 154 && c == 128))
    || ((a == 226
          && ((b == 128 && (leb 128 c && leb c 138 || (c == 168 || (c == 169 || c == 175))))
              || (b == 129 && c == 159)))
        || (a == 227 && (b == 128 && c == 128)))

-- How many bytes the space at the front has, 0 when there is none.
unfoldable pub space_length : Bytes → ℕ
space_length [] = 0
space_length (a ∷ []) = if is_ascii_space a then 1 else 0
space_length (a ∷ b ∷ []) = if is_ascii_space a then 1 else if is_space2 a b then 2 else 0
space_length (a ∷ b ∷ c ∷ s) =
    if is_ascii_space a then 1 else if is_space2 a b then 2 else if is_space3 a b c then 3 else 0

-- The bytes of the front space that are still to be cut come first.
unfoldable pub trim_left_from : ℕ → Bytes → Bytes
unfolding space_length
trim_left_from k [] = []
trim_left_from (suc k) (b ∷ s) = trim_left_from k s
trim_left_from zero (b ∷ s) =
    let one = trim_left_from 0 s in
    let two = trim_left_from 1 s in
    let three = trim_left_from 2 s in
    let n = space_length (b ∷ s) in
    if n == 1 then one else if n == 2 then two else if n == 3 then three else b ∷ s

-- `strings.TrimSpace(s) == ""`
unfoldable pub is_blank : Bytes → Bool
unfolding trim_left_from
is_blank s = elim (trim_left_from 0 s) [ [] ↦ true | b ∷ t ↦ false ]

-- What is left when the longest end that is a sequence of spaces is cut. No byte of a space but the
-- first can begin a rune, so the spaces are the same from either side.
unfoldable pub trim_right : Bytes → Bytes
unfolding is_blank
trim_right [] = []
trim_right (b ∷ s) = let rest = trim_right s in if is_blank (b ∷ s) then [] else b ∷ rest

-- strings.TrimSpace
unfoldable pub trim_space : Bytes → Bytes
trim_space s = trim_right (trim_left_from 0 s)
