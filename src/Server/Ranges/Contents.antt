-- ===== src/Server/Ranges/Contents.antt =====
-- The length and each byte of a changed content.
use roodox_sever_win.Base.{
  ℕ, zero, suc, ◌+◌, ◌-◌, ◌^◌, ◌<◌, ◌≤◌, ◌≡◌, refl, inl, inr, Bool-cases, Option, none, some, [],
  ◌∷◌, Bytes, pos, wrap64, ltb, leb, max, ◌&&◌, if◌then◌else◌, length, arith,
}
use roodox_sever_win.Errors.{Err, other}
use roodox_sever_win.Fs.Disk.{zeros, copy_into}
use roodox_sever_win.Server.Ranges.{
  Built, built, refused, panics, make_bytes, apply_range_mutation, resize_file_data,
}

unfoldable pub byte_at : ℕ → Bytes → Option ℕ
byte_at i [] = none
byte_at zero (b ∷ s) = some b
byte_at (suc i) (b ∷ s) = byte_at i s

pub length-zeros : (n : ℕ) → length (zeros n) ≡ n
unfolding zeros
length-zeros zero = refl
length-zeros (suc n) = omega (arith, length-zeros n)

byte_at-zeros : (i n : ℕ) → byte_at i (zeros n) ≡ (if ltb i n then some 0 else none)
unfolding byte_at zeros
byte_at-zeros i zero = ground arith
byte_at-zeros zero (suc n) = ground arith
byte_at-zeros (suc i) (suc n) = ground (arith, byte_at-zeros i n)

pub length-copy_into : (n : ℕ) (dst src : Bytes) → length (copy_into n dst src) ≡ length dst
unfolding copy_into
length-copy_into zero [] src = refl
length-copy_into zero (x ∷ dst) [] = refl
length-copy_into zero (x ∷ dst) (b ∷ src) = omega (arith, length-copy_into zero dst src)
length-copy_into (suc n) [] src = refl
length-copy_into (suc n) (x ∷ dst) src = omega (arith, length-copy_into n dst src)

-- The bytes from `n` on are those of the source, as far as both reach.
byte_at-copy_into :
    (i n : ℕ) (dst src : Bytes)
    → byte_at i (copy_into n dst src) ≡ (
        if leb n i && (ltb i (n + length src) && ltb i (length dst))
        then byte_at (i - n) src
        else byte_at i dst)
unfolding copy_into byte_at
byte_at-copy_into i zero [] src = ground arith
byte_at-copy_into i zero (x ∷ dst) [] = ground arith
byte_at-copy_into zero zero (x ∷ dst) (b ∷ src) = ground arith
byte_at-copy_into (suc i) zero (x ∷ dst) (b ∷ src) =
    ground (arith, byte_at-copy_into i zero dst src)
byte_at-copy_into i (suc n) [] src = ground arith
byte_at-copy_into zero (suc n) (x ∷ dst) src = ground arith
byte_at-copy_into (suc i) (suc n) (x ∷ dst) src = ground (arith, byte_at-copy_into i n dst src)

-- The bytes of a content over which a range is written.
abbrev pub HasRange : Bytes → ℕ → Bytes → Bytes → Type 0
HasRange base_data offset bytes out =
    (length out ≡ max (length base_data) (offset + length bytes))
    × ((i : ℕ)
        → byte_at i out ≡ (
            if leb offset i && ltb i (offset + length bytes)
            then byte_at (i - offset) bytes
            else if ltb i (length base_data)
            then byte_at i base_data
            else if ltb i offset
            then some 0
            else none))

pub range-HasRange :
    (base_data : Bytes) (n : ℕ) (bytes : Bytes)
    → HasRange base_data n bytes (
        copy_into n
          (copy_into 0 (zeros (max (length base_data) (n + length bytes))) base_data)
          bytes)
range-HasRange base_data n bytes =
    let size = max (length base_data) (n + length bytes) in
    let under = copy_into 0 (zeros size) base_data in
    (
      omega (
        arith,
        length-copy_into n under bytes,
        length-copy_into 0 (zeros size) base_data,
        length-zeros size,
      ),
      λ i. ground (
        arith,
        byte_at-copy_into i n under bytes,
        byte_at-copy_into i 0 (zeros size) base_data,
        byte_at-zeros i size,
        length-zeros size,
        length-copy_into 0 (zeros size) base_data,
      ),
    )

-- What is made of a base content below 2^63 and of a range, by where the range ends: an overflow
-- is refused, make panics beyond its bound, and the rest is built.
pub data Applies (max_alloc : ℕ) (base_data : Bytes) (offset : ℕ) (bytes : Bytes)
    : Built → Type 0 where
  overflows :
      (e : Err)
      → 2 ^ 63 ≤ offset + length bytes
      → Applies max_alloc base_data offset bytes (refused e)
  too_large :
      offset + length bytes < 2 ^ 63
      → max_alloc < max (length base_data) (offset + length bytes)
      → Applies max_alloc base_data offset bytes panics
  applied :
      (out : Bytes)
      → offset + length bytes < 2 ^ 63
      → max (length base_data) (offset + length bytes) ≤ max_alloc
      → HasRange base_data offset bytes out
      → Applies max_alloc base_data offset bytes (built out)

apply_overflow :
    (max_alloc : ℕ) (base_data : Bytes) (n : ℕ) (bytes : Bytes)
    → n < 2 ^ 63
    → length bytes < 2 ^ 63
    → 2 ^ 63 ≤ n + length bytes
    → apply_range_mutation max_alloc base_data (pos n) bytes ≡ refused other
unfolding apply_range_mutation wrap64
apply_overflow max_alloc base_data n bytes k l o = ground arith

pub apply_below :
    (max_alloc : ℕ) (base_data : Bytes) (n : ℕ) (bytes : Bytes)
    → length base_data < 2 ^ 63
    → n + length bytes < 2 ^ 63
    → apply_range_mutation max_alloc base_data (pos n) bytes
      ≡ make_bytes max_alloc (max (length base_data) (n + length bytes)) (
          copy_into n
            (copy_into 0 (zeros (max (length base_data) (n + length bytes))) base_data)
            bytes)
unfolding apply_range_mutation wrap64
apply_below max_alloc base_data n bytes h o = ground arith

-- applyRangeMutation of a base content, an offset and bytes whose lengths are below 2^63. If the
-- end of the range reaches 2^63, it fails. Else, if the result is longer than make can give, it
-- panics. Else the result reaches to the farther of the two ends, its bytes in the range are
-- those written, the others are those of the base content, and zero between the end of the base
-- content and a later range.
pub apply_range_mutation_lem :
    (max_alloc : ℕ) (base_data : Bytes) (offset : ℕ) (bytes : Bytes)
    → length base_data < 2 ^ 63
    → offset < 2 ^ 63
    → length bytes < 2 ^ 63
    → Applies max_alloc base_data offset bytes
        (apply_range_mutation max_alloc base_data (pos offset) bytes)
apply_range_mutation_lem max_alloc base_data n bytes h k l =
    let size = max (length base_data) (n + length bytes) in
    elim (Bool-cases (ltb (n + length bytes) (2 ^ 63))) [
      | inr o ↦
          rw (apply_overflow max_alloc base_data n bytes k l (ground arith))
            (overflows other (ground arith))
      | inl o ↦
          rw (apply_below max_alloc base_data n bytes h (ground arith))
            (elim (Bool-cases (ltb max_alloc size)) [
              | inl t ↦ rw t (too_large (ground arith) (ground arith))
              | inr t ↦
                  rw t (applied _ (ground arith) (ground arith) (range-HasRange base_data n bytes))
            ])
    ]

-- resizeFileData to a size below 2^63 that make can give: the result has this size, and each of
-- its bytes is that of the base content, or zero behind its end.
pub resize_file_data_lem :
    (max_alloc : ℕ) (base_data : Bytes) (size : ℕ)
    → size < 2 ^ 63
    → size ≤ max_alloc
    → (out : Bytes) × (resize_file_data max_alloc base_data (pos size) ≡ built out)
      × (length out ≡ size)
      × ((i : ℕ)
          → byte_at i out ≡ (
              if ltb i size
              then (if ltb i (length base_data) then byte_at i base_data else some 0)
              else none))
unfolding resize_file_data
resize_file_data_lem max_alloc base_data size h k = (
  copy_into 0 (zeros size) base_data,
  ground arith,
  omega (arith, length-copy_into 0 (zeros size) base_data, length-zeros size),
  λ i. ground (
    arith,
    byte_at-copy_into i 0 (zeros size) base_data,
    byte_at-zeros i size,
    length-zeros size,
  ),
)
