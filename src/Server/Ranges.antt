-- ===== src/Server/Ranges.antt =====
-- internal/server/core_service.go: applyRangeMutation and resizeFileData, which make the content
-- of a conflict copy from a base content. `int` has 64 bits.
pub mod Contents
mod Tests
use roodox_sever_win.Base.{
  ℕ, zero, suc, ◌+◌, ◌-◌, ◌^◌, Option, none, some, Bool, true, false, List, [], ◌∷◌, Bytes, ℤ, pos,
  is_negative, pos_part, wrap64, ltb, leb, max, if◌then◌else◌, length, ◌||◌,
}
use roodox_sever_win.Fs.Disk.{zeros, copy_into}
use roodox_sever_win.Errors.{Err, other}

-- What is built in memory: the bytes, or an error, or make panics.
pub data Built : Type 0 where
  built : Bytes → Built
  refused : Err → Built
  panics : Built

-- make([]byte, int(size)), when `max_alloc` is the most that it can give; it panics beyond.
abbrev pub make_bytes : ℕ → ℕ → Bytes → Built
make_bytes max_alloc size out = if ltb max_alloc size then panics else built out

abbrev pub max_slice_len : ℕ
max_slice_len = 2 ^ 63 - 1

-- `end < offset`, for the int64 sum of an offset that is not negative and a length.
abbrev pub is_before : ℤ → ℕ → Bool
is_before end offset = is_negative end || ltb (pos_part end) offset

unfoldable pub apply_range_mutation : ℕ → Bytes → ℤ → Bytes → Built
apply_range_mutation max_alloc base_data offset bytes =
    if is_negative offset
    then refused other
    else let from = pos_part offset in
      let end = wrap64 (pos (from + length bytes)) in
      if is_before end from
      then refused other
      else let size = max (length base_data) (pos_part end) in
        if ltb max_slice_len size
        then refused other
        else make_bytes max_alloc size (copy_into from (copy_into 0 (zeros size) base_data) bytes)

unfoldable pub resize_file_data : ℕ → Bytes → ℤ → Built
resize_file_data max_alloc base_data size =
    if is_negative size
    then refused other
    else if ltb max_slice_len (pos_part size)
    then refused other
    else make_bytes max_alloc (pos_part size) (copy_into 0 (zeros (pos_part size)) base_data)
