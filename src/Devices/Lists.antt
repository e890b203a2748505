-- ===== src/Devices/Lists.antt =====
-- String lists, the tests of SQL expressions and ORDER BY, as internal/db and internal/server use
-- them.
pub mod Laws
pub mod Orders
use roodox_sever_win.Base.{
  ℕ, ℤ, pos, negsuc, Bool, true, false, Bytes, bytes_eq, List, [], ◌∷◌, ◌||◌, ◌==◌, ltb, ◌+◌, ◌/◌,
  ◌%◌, if◌then◌else◌,
}
use roodox_sever_win.Base.Space.{trim_space}
use roodox_sever_win.Errors.{Result, ok, err, Err}

-- `s == ""`
abbrev pub is_empty {ℓ} : {A : Type ℓ} → List A → Bool
is_empty [] = true
is_empty (x ∷ xs) = false

-- `z == 0`
abbrev pub is_zero : ℤ → Bool
is_zero (pos n) = n == 0
is_zero (negsuc n) = false

abbrev pub in_list : Bytes → List Bytes → Bool
in_list x [] = false
in_list x (y ∷ ys) = bytes_eq y x || in_list x ys

abbrev pub normalize_from : (Bytes → Bytes) → List Bytes → List Bytes → List Bytes
normalize_from lower seen [] = []
normalize_from lower seen (v ∷ vs) =
    let trimmed = trim_space v in
    let key = lower trimmed in
    let skipped = normalize_from lower seen vs in
    let kept = trimmed ∷ normalize_from lower (key ∷ seen) vs in
    if is_empty trimmed then skipped else if in_list key seen then skipped else kept

-- normalizeStringList, which is also what marshalStringList writes as JSON.
unfoldable pub normalize_string_list : (Bytes → Bytes) → List Bytes → List Bytes
unfolding trim_space
normalize_string_list lower vs = normalize_from lower [] vs

-- coalesceNonEmpty
unfoldable pub coalesce_non_empty : List Bytes → Bytes
unfolding trim_space
coalesce_non_empty [] = []
coalesce_non_empty (v ∷ vs) =
    let rest = coalesce_non_empty vs in if is_empty (trim_space v) then rest else trim_space v

-- fallbackDeviceLabel, and fallbackDisplayName of the services
unfoldable pub fallback_device_label : Bytes → Bytes → Bytes
unfolding trim_space
fallback_device_label name id =
    if is_empty (trim_space name) then trim_space id else trim_space name

abbrev pub hex_digit : ℕ → ℕ
hex_digit n = if ltb n 10 then 48 + n else 87 + n

-- hex.EncodeToString
abbrev pub hex_encode : Bytes → Bytes
hex_encode [] = []
hex_encode (b ∷ s) = hex_digit (b / 16 % 16) ∷ hex_digit (b % 16) ∷ hex_encode s

-- newRandomID, by what rand.Read gives.
unfoldable pub new_random_id : Result Err Bytes → Result Err Bytes
new_random_id (err e) = err e
new_random_id (ok buf) = ok (hex_encode buf)

module _ {ℓ} {A : Type ℓ} (before : A → A → Bool) where
  abbrev pub insert_by : A → List A → List A
  insert_by x [] = x ∷ []
  insert_by x (y ∷ ys) = let rest = insert_by x ys in if before y x then y ∷ rest else x ∷ y ∷ ys

  -- ORDER BY, by a test of which row comes first.
  abbrev pub order_by : List A → List A
  order_by [] = []
  order_by (x ∷ xs) = insert_by x (order_by xs)
