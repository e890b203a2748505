-- ===== src/Devices/Requests/Logs.antt =====
-- Properties of the registry that do not look at the tables of devices and policies, under the calls
-- that write to those two only.
use roodox_sever_win.Base.{ℕ, ◌≡◌, refl, Bytes, Option, none, some}
use roodox_sever_win.Base.Space.{trim_space}
use roodox_sever_win.Base.Space.Trims.{trim_space_idem}
use roodox_sever_win.Base.Dict.{Dict, get, put}
use roodox_sever_win.Errors.{Result, Code, ok, err, Err, to_grpc_error}
use roodox_sever_win.Devices.Tables.{DeviceRecord, DevicePolicyRecord, Registry, Call}
use roodox_sever_win.Devices.Lists.{is_empty}
use roodox_sever_win.Devices.Rows.{
  DeviceRegistration, DeviceHeartbeat, DeviceSyncStateReport, DeviceMountStateReport, new_row,
  heartbeat_row, sync_state_row, mount_state_row,
}
use roodox_sever_win.Devices.Reports.{
  report, update_device, update_known_device, write, ensure_rows_affected, set_row, insert_device,
  register, update_heartbeat, update_sync_state, update_mount_state, mark_policy_pulled, get_device,
}
use roodox_sever_win.Devices.Policies.{
  upsert_policy, reset_policy, put_policy, delete_policy, policy_row, set_policy_revision,
}
use roodox_sever_win.Devices.Config.{AssignedConfig, ControlPlaneConfig, assigned_config_from_proto}
use roodox_sever_win.Devices.Messages.{RegisterDeviceRequest}
use roodox_sever_win.Devices.ControlPlane.{
  register_device, registration, registered, register_for, get_assigned_config, pull_for,
  pull_policy,
}
use roodox_sever_win.Devices.Reporting.{
  report_sync_state, sync_for, report_mount_state, mount_for, acknowledged,
}
use roodox_sever_win.Devices.Console.{
  UpdateDevicePolicyRequest, update_device_policy, update_policy_for, store_policy_update,
  check_policy_update, set_policy, policy_record, policy_answer,
}
use roodox_sever_win.Devices.Requests.Frames.{
  Commits, write-Commits, read_back_kept, read_policy_back_kept, end_write_kept, guard_kept,
  report_kept, with_device_id_kept, then_do_kept, respond_kept,
}

-- A change of a device's row that leaves the revision of its policy.
abbrev pub KeepsRevision : (DeviceRecord → DeviceRecord) → Type 0
KeepsRevision f = (d : DeviceRecord) → (f d).policy_revision ≡ d.policy_revision

module _ (P : Registry → Type 0)
    (rows : (r : Registry) (ds : Dict DeviceRecord) → P r → P (record r { devices = ds })) where
  pub update_device_kept :
      (id : Bytes) (f : DeviceRecord → DeviceRecord) (r : Registry) → P r → P (update_device id f r)
  unfolding update_device
  update_device_kept id f r h = by_row (get r.devices id)
    where
      by_row : (o : Option DeviceRecord) → P (set_row id f r o)
      by_row none = h
      by_row (some d) = rows r (put r.devices id (f d)) h

  pub insert_device_kept : (n : DeviceRecord) (r : Registry) → P r → P (insert_device n r)
  unfolding insert_device
  insert_device_kept n r h = rows r _ h

module _ (P : Registry → Type 0)
    (updates : (id : Bytes) (f : DeviceRecord → DeviceRecord)
      → KeepsRevision f
      → (r : Registry) → P r
      → P (update_device id f r))
    (inserts : (n : DeviceRecord) (r : Registry) → P r → P (insert_device n r)) where
  known-Commits :
      (id : Bytes) (f : DeviceRecord → DeviceRecord) (r : Registry)
      → P (update_device id f r)
      → Commits P (update_known_device id f r)
  unfolding update_known_device
  known-Commits id f r h = by_row (get r.devices id)
    where
      by_row : (o : Option DeviceRecord) → Commits P (ensure_rows_affected o (update_device id f r))
      by_row none = tt
      by_row (some d) = h

  pub reports_kept :
      (c : Call) (id : Bytes) (f : DeviceRecord → DeviceRecord) (r : Registry)
      → KeepsRevision f
      → P r
      → P (report c id f r).1
  reports_kept c id f r same h =
      report_kept P c id f r h
        (known-Commits (trim_space id) f r (updates (trim_space id) f same r h))

  register_kept :
      (c : Call) (input : DeviceRegistration) (r : Registry) → P r → P (register c input r).1
  unfolding register
  register_kept c input r h = guard_kept P (is_empty (trim_space input.device_id)) _ _ h (
      read_back_kept P c (trim_space input.device_id)
        (write c (ok (insert_device (new_row c input) r))) r h
        (write-Commits P c (ok (insert_device (new_row c input) r))
          (inserts (new_row c input) r h)))

  pub register_device_kept :
      (config : ControlPlaneConfig) (c : Call) (req : RegisterDeviceRequest) (r : Registry)
      → P r
      → P (register_device config c req r).1
  unfolding register_device
  register_device_kept config c req r h =
      with_device_id_kept P req.device_id r (register_for config c req r) h (
        respond_kept P registered
          (register c (registration config req (trim_space req.device_id)) r)
          (register_kept c (registration config req (trim_space req.device_id)) r h))

  pub update_heartbeat_kept :
      (c : Call) (input : DeviceHeartbeat) (r : Registry) → P r → P (update_heartbeat c input r).1
  unfolding update_heartbeat
  update_heartbeat_kept c input r h =
      reports_kept c input.device_id (heartbeat_row c input) r (λ d. refl) h

  pub report_sync_state_kept :
      (c : Call) (req : DeviceSyncStateReport) (r : Registry)
      → P r
      → P (report_sync_state c req r).1
  unfolding report_sync_state update_sync_state
  report_sync_state_kept c req r h = with_device_id_kept P req.device_id r (sync_for c req r) h (
      respond_kept P acknowledged
        (update_sync_state c (record req { device_id = trim_space req.device_id }) r)
        (reports_kept c (trim_space req.device_id)
          (sync_state_row c (record req { device_id = trim_space req.device_id })) r (λ d. refl) h))

  pub report_mount_state_kept :
      (c : Call) (req : DeviceMountStateReport) (r : Registry)
      → P r
      → P (report_mount_state c req r).1
  unfolding report_mount_state update_mount_state
  report_mount_state_kept c req r h = with_device_id_kept P req.device_id r (mount_for c req r) h (
      respond_kept P acknowledged
        (update_mount_state c (record req { device_id = trim_space req.device_id }) r)
        (reports_kept c (trim_space req.device_id)
          (mount_state_row c (record req { device_id = trim_space req.device_id })) r (λ d. refl)
          h))

  mark_policy_pulled_kept :
      (c : Call) (id : Bytes) (r : Registry) → P r → P (mark_policy_pulled c id r).1
  unfolding mark_policy_pulled
  mark_policy_pulled_kept c id r h = end_write_kept P _ r h (
      write-Commits P c _
        (known-Commits (trim_space id) _ r (updates (trim_space id) _ (λ d. refl) r h)))

  pub get_assigned_config_kept :
      (config : ControlPlaneConfig) (calls : ℕ → Call) (id : Bytes) (r : Registry)
      → P r
      → P (get_assigned_config config calls id r).1
  unfolding get_assigned_config
  get_assigned_config_kept config calls id r h =
      with_device_id_kept P id r (pull_for config calls r) h
        (pulled (get_device (calls 0) (trim_space id) r))
    where
      pulled : (x : Result Err DeviceRecord) → P (pull_policy config calls (trim_space id) r x).1
      pulled (err e) = h
      pulled (ok d) =
          then_do_kept P (mark_policy_pulled (calls 1) (trim_space id) r) _
            (mark_policy_pulled_kept (calls 1) (trim_space id) r h)
            λ _. mark_policy_pulled_kept (calls 1) (trim_space id) r h

  -- The registry once the transaction of UpdateDevicePolicy is done, either way.
  module _ (req : UpdateDevicePolicyRequest)
      (upserts : (c : Call) (input : DevicePolicyRecord) (r : Registry)
        → trim_space input.device_id ≡ trim_space req.device_id
        → P r
        → P (
            update_device
              (trim_space input.device_id)
              (set_policy_revision c input.policy_revision)
              (put_policy (policy_row c input) r)))
      (resets : (c : Call) (id : Bytes) (n : ℕ) (r : Registry)
        → id ≡ trim_space req.device_id
        → P r
        → P (update_device id (set_policy_revision c n) (delete_policy id r))) where
    upsert_policy_kept :
        (c : Call) (input : DevicePolicyRecord) (r : Registry)
        → trim_space input.device_id ≡ trim_space req.device_id
        → P r
        → P (upsert_policy c input r).1
    unfolding upsert_policy
    upsert_policy_kept c input r e h = guard_kept P (is_empty (trim_space input.device_id)) _ _ h (
        read_policy_back_kept P c (trim_space input.device_id) _ r h (
          write-Commits P c _
            (known-Commits (trim_space input.device_id) _ _ (upserts c input r e h))))

    reset_policy_kept :
        (c : Call) (id : Bytes) (n : ℕ) (r : Registry)
        → trim_space id ≡ trim_space req.device_id
        → P r
        → P (reset_policy c id n r).1
    unfolding reset_policy
    reset_policy_kept c id n r e h = guard_kept P (is_empty (trim_space id)) _ _ h (
        end_write_kept P _ r h (
          write-Commits P c _
            (known-Commits (trim_space id) _ _ (resets c (trim_space id) n r e h))))

    set_policy_kept :
        (c : Call) (policy : Option AssignedConfig) (n : ℕ) (r : Registry)
        → P r
        → P (set_policy c (trim_space req.device_id) policy n r).1
    unfolding upsert_policy assigned_config_from_proto to_grpc_error
    set_policy_kept c none n r h = h
    set_policy_kept c (some policy) n r h =
        let config = assigned_config_from_proto c.to_lower policy in
        let input = policy_record (trim_space req.device_id) config n in
        respond_kept P (policy_answer n config) (upsert_policy c input r)
          (upsert_policy_kept c input r (trim_space_idem req.device_id) h)

    pub update_device_policy_kept :
        (config : ControlPlaneConfig) (calls : ℕ → Call) (r : Registry)
        → P r
        → P (update_device_policy config calls req r).1
    unfolding update_device_policy store_policy_update
    update_device_policy_kept config calls r h =
        with_device_id_kept P req.device_id r (update_policy_for config calls req r) h
          (stored (check_policy_update (calls 0) req (trim_space req.device_id) r))
      where
        stored :
            (x : Result Code ℕ)
            → P (store_policy_update config (calls 1) req (trim_space req.device_id) r x).1
        stored (err e) = h
        stored (ok n) =
            guard_kept P req.resets_to_default _ _
              (respond_kept P (policy_answer n config.default_assigned_config)
                (reset_policy (calls 1) (trim_space req.device_id) n r)
                (reset_policy_kept (calls 1) (trim_space req.device_id) n r
                  (trim_space_idem req.device_id) h))
              (set_policy_kept (calls 1) req.policy n r h)
