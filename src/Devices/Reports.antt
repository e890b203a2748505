-- ===== src/Devices/Reports.antt =====
-- The rows of device_registry: Register, Get, List, MarkPolicyPulled and the reports of the devices
-- in internal/db/device_registry.go, and UpdateMountState of device_registry_admin.go.
use roodox_sever_win.Base.{
  ltz, Bool, true, false, Bytes, bytes_less, List, Option, none, some, map, if◌then◌else◌,
}
use roodox_sever_win.Base.Space.{trim_space}
use roodox_sever_win.Base.Dict.{get, put}
use roodox_sever_win.Errors.{Result, ok, err, Err, os_invalid, os_not_exist}
use roodox_sever_win.Devices.Tables.{DeviceRecord, Registry, Call}
use roodox_sever_win.Devices.Lists.{is_empty, order_by}
use roodox_sever_win.Devices.Rows.{
  DeviceRegistration, DeviceHeartbeat, DeviceSyncStateReport, DeviceMountStateReport, new_row,
  merge_row, heartbeat_row, sync_state_row, mount_state_row,
}

-- A query, unless the engine reports an error.
abbrev pub read {ℓ} : {A : Type ℓ} → Call → A → Result Err A
read c a = elim c.read_fault [ none ↦ ok a | some e ↦ err e ]

-- A statement or a transaction: when it fails, or the engine reports an error, nothing is written.
abbrev pub write : Call → Result Err Registry → Result Err Registry
write c x = elim c.write_fault [ none ↦ x | some e ↦ err e ]

-- sql.ErrNoRows as os.ErrNotExist
abbrev pub found {ℓ} : {A : Type ℓ} → Option A → Result Err A
found none = err os_not_exist
found (some a) = ok a

abbrev pub read_found {ℓ} : {A : Type ℓ} → Call → Option A → Result Err A
read_found c x = elim c.read_fault [ none ↦ found x | some e ↦ err e ]

-- Get
unfoldable pub get_device : Call → Bytes → Registry → Result Err DeviceRecord
unfolding trim_space get
get_device c device_id r = read_found c (get r.devices (trim_space device_id))

abbrev pub set_row :
    Bytes → (DeviceRecord → DeviceRecord) → Registry → Option DeviceRecord → Registry
set_row id f r none = r
set_row id f r (some d) = record r { devices = put r.devices id (f d) }

-- UPDATE device_registry SET ... WHERE device_id = id
unfoldable pub update_device : Bytes → (DeviceRecord → DeviceRecord) → Registry → Registry
unfolding get put
update_device id f r = set_row id f r (get r.devices id)

abbrev pub ensure_rows_affected : Option DeviceRecord → Registry → Result Err Registry
ensure_rows_affected none r = err os_not_exist
ensure_rows_affected (some d) r = ok r

-- The same, followed by ensureRowsAffected.
unfoldable pub update_known_device :
    Bytes → (DeviceRecord → DeviceRecord) → Registry → Result Err Registry
unfolding update_device get
update_known_device id f r = ensure_rows_affected (get r.devices id) (update_device id f r)

-- `return r.Get(deviceID)` after a statement
abbrev pub read_back :
    Call → Bytes → Result Err Registry → Registry → Result Err DeviceRecord × Registry
unfolding get_device
read_back c id (err e) r = (err e, r)
read_back c id (ok r') r = (get_device c id r', r')

-- The common frame of the reports.
abbrev pub report :
    Call → Bytes → (DeviceRecord → DeviceRecord) → Registry → Result Err DeviceRecord × Registry
unfolding trim_space update_known_device
report c device_id f r =
    if is_empty (trim_space device_id)
    then (err os_invalid, r)
    else read_back c (trim_space device_id)
        (write c (update_known_device (trim_space device_id) f r)) r

unfoldable pub insert_device : DeviceRecord → Registry → Registry
unfolding get put
insert_device n r = record r {
  devices = put r.devices n.device_id (merge_row n (get r.devices n.device_id));
}

-- Register
unfoldable pub register : Call → DeviceRegistration → Registry → Result Err DeviceRecord × Registry
unfolding trim_space insert_device get_device
register c input r =
    if is_empty (trim_space input.device_id)
    then (err os_invalid, r)
    else read_back c (trim_space input.device_id) (write c (ok (insert_device (new_row c input) r)))
        r

-- UpdateHeartbeat
unfoldable pub update_heartbeat :
    Call → DeviceHeartbeat → Registry → Result Err DeviceRecord × Registry
unfolding trim_space update_known_device get_device
update_heartbeat c input r = report c input.device_id (heartbeat_row c input) r

-- UpdateSyncState
unfoldable pub update_sync_state :
    Call → DeviceSyncStateReport → Registry → Result Err DeviceRecord × Registry
unfolding trim_space update_known_device get_device
update_sync_state c input r = report c input.device_id (sync_state_row c input) r

-- UpdateMountState
unfoldable pub update_mount_state :
    Call → DeviceMountStateReport → Registry → Result Err DeviceRecord × Registry
unfolding trim_space update_known_device get_device
update_mount_state c input r = report c input.device_id (mount_state_row c input) r

abbrev pub end_write : Result Err Registry → Registry → Result Err (Unit {0}) × Registry
end_write (err e) r = (err e, r)
end_write (ok r') r = (ok tt, r')

abbrev pub pulled_row : Call → DeviceRecord → DeviceRecord
pulled_row c d = record d { requires_policy_pull = false; updated_at_unix = c.now_unix }

-- MarkPolicyPulled
unfoldable pub mark_policy_pulled : Call → Bytes → Registry → Result Err (Unit {0}) × Registry
unfolding trim_space update_known_device
mark_policy_pulled c device_id r =
    end_write (write c (update_known_device (trim_space device_id) (pulled_row c) r)) r

abbrev pub row_before : DeviceRecord → DeviceRecord → Bool
unfolding bytes_less
row_before a b =
    if ltz b.last_seen_at_unix a.last_seen_at_unix
    then true
    else if ltz a.last_seen_at_unix b.last_seen_at_unix
    then false
    else if ltz b.updated_at_unix a.updated_at_unix
    then true
    else if ltz a.updated_at_unix b.updated_at_unix
    then false
    else bytes_less a.device_id b.device_id

-- List
unfoldable pub list_devices : Call → Registry → Result Err (List DeviceRecord)
list_devices c r = read c (order_by row_before (map (λ e. e.1) r.devices))
