-- ===== src/Devices/Diagnostics.antt =====
-- The diagnostics that devices upload: InsertDiagnostic and ListDiagnostics of
-- internal/db/device_registry_admin.go.
pub mod Bounds
use roodox_sever_win.Base.{
  ℕ, ℤ, pos, pos_part, non_positive, ltz, Bool, true, false, Bytes, bytes_eq, bytes_less, List, [],
  ◌∷◌, map, keep_if, take, length, not, ◌||◌, if◌then◌else◌,
}
use roodox_sever_win.Base.Space.{trim_space}
use roodox_sever_win.Errors.{Result, ok, err, Err, os_invalid, other}
use roodox_sever_win.Devices.Tables.{DeviceDiagnosticRecord, Registry, Call}
use roodox_sever_win.Devices.Lists.{is_empty, is_zero, in_list, order_by, new_random_id}
use roodox_sever_win.Devices.Reports.{read, write, update_device}

-- defaultDiagnosticsKeepLatestPerDevice
abbrev pub default_keep_latest : ℕ
default_keep_latest = 20

abbrev pub keep_count : ℤ → ℕ
keep_count keep_latest =
    if non_positive keep_latest then default_keep_latest else pos_part keep_latest

abbrev pub diagnostic_before : DeviceDiagnosticRecord → DeviceDiagnosticRecord → Bool
unfolding bytes_less
diagnostic_before a b =
    if ltz b.uploaded_at_unix a.uploaded_at_unix
    then true
    else if ltz a.uploaded_at_unix b.uploaded_at_unix
    then false
    else bytes_less b.diagnostics_id a.diagnostics_id

abbrev pub is_of : Bytes → DeviceDiagnosticRecord → Bool
unfolding bytes_eq
is_of device_id x = bytes_eq x.device_id device_id

-- SELECT ... WHERE device_id = ? ORDER BY uploaded_at_unix DESC, diagnostics_id DESC LIMIT ?
unfoldable pub newest_diagnostics :
    Bytes → ℕ → List DeviceDiagnosticRecord → List DeviceDiagnosticRecord
unfolding bytes_eq bytes_less
newest_diagnostics device_id n xs =
    take n (order_by diagnostic_before (keep_if (is_of device_id) xs))

abbrev pub stays : Bytes → List Bytes → DeviceDiagnosticRecord → Bool
unfolding bytes_eq
stays device_id ids x = not (is_of device_id x) || in_list x.diagnostics_id ids

-- DELETE ... AND diagnostics_id NOT IN (...)
unfoldable pub delete_old_diagnostics :
    Bytes → ℕ → List DeviceDiagnosticRecord → List DeviceDiagnosticRecord
unfolding newest_diagnostics bytes_eq
delete_old_diagnostics device_id n xs =
    keep_if (stays device_id (map (λ x. x.diagnostics_id) (newest_diagnostics device_id n xs))) xs

unfoldable pub diagnostic_exists : Bytes → List DeviceDiagnosticRecord → Bool
unfolding bytes_eq
diagnostic_exists id [] = false
diagnostic_exists id (x ∷ xs) = bytes_eq x.diagnostics_id id || diagnostic_exists id xs

-- INSERT INTO device_diagnostics: the diagnostics id is the primary key.
abbrev pub insert_row :
    DeviceDiagnosticRecord → List DeviceDiagnosticRecord → Result Err (List DeviceDiagnosticRecord)
unfolding diagnostic_exists
insert_row x xs = if diagnostic_exists x.diagnostics_id xs then err other else ok (x ∷ xs)

abbrev pub new_diagnostic : Call → DeviceDiagnosticRecord → Bytes → DeviceDiagnosticRecord
unfolding trim_space
new_diagnostic c input id = record {
  diagnostics_id = id;
  device_id = trim_space input.device_id;
  category = trim_space input.category;
  content_type = trim_space input.content_type;
  summary = trim_space input.summary;
  payload = input.payload;
  size_bytes = if is_zero input.size_bytes then pos (length input.payload) else input.size_bytes;
  uploaded_at_unix = c.now_unix;
}

abbrev pub store_diagnostics :
    Call → Bytes → ℕ → Registry → Result Err (List DeviceDiagnosticRecord) → Result Err Registry
unfolding update_device delete_old_diagnostics
store_diagnostics c id n r (err e) = err e
store_diagnostics c id n r (ok xs) = ok (
    update_device id (λ d. record d { updated_at_unix = c.now_unix })
      (record r { diagnostics = delete_old_diagnostics id n xs }))

abbrev pub end_insert :
    DeviceDiagnosticRecord
    → Result Err Registry
    → Registry
    → Result Err DeviceDiagnosticRecord × Registry
end_insert x (err e) r = (err e, r)
end_insert x (ok r') r = (ok x, r')

-- The part of InsertDiagnostic that follows newRandomID.
abbrev pub insert_as :
    Call
    → DeviceDiagnosticRecord
    → ℤ
    → Result Err Bytes
    → Registry
    → Result Err DeviceDiagnosticRecord × Registry
unfolding trim_space diagnostic_exists update_device delete_old_diagnostics
insert_as c input keep_latest (err e) r = (err e, r)
insert_as c input keep_latest (ok id) r =
    end_insert (new_diagnostic c input id)
      (write c (
        store_diagnostics c (trim_space input.device_id) (keep_count keep_latest) r
          (insert_row (new_diagnostic c input id) r.diagnostics)))
      r

-- InsertDiagnostic
unfoldable pub insert_diagnostic :
    Call → DeviceDiagnosticRecord → ℤ → Registry → Result Err DeviceDiagnosticRecord × Registry
unfolding new_random_id trim_space diagnostic_exists update_device delete_old_diagnostics
insert_diagnostic c input keep_latest r =
    if is_empty (trim_space input.device_id)
    then (err os_invalid, r)
    else insert_as c input keep_latest
        (if is_empty (trim_space input.diagnostics_id)
          then new_random_id c.random
          else ok (trim_space input.diagnostics_id))
        r

-- ListDiagnostics
unfoldable pub list_diagnostics :
    Call → Bytes → ℤ → Registry → Result Err (List DeviceDiagnosticRecord)
unfolding trim_space newest_diagnostics
list_diagnostics c device_id limit r =
    read c (newest_diagnostics (trim_space device_id) (keep_count limit) r.diagnostics)
