-- ===== src/Devices/Requests/Histories.antt =====
-- Properties of the table device_actions alone, and of device_diagnostics alone, over histories of
-- requests.
use roodox_sever_win.Base.{
  ◌≡◌, Bytes, bytes_eq, Bool, true, false, List, [], ◌∷◌, map, if◌then◌else◌,
}
use roodox_sever_win.Base.Space.{trim_space}
use roodox_sever_win.Devices.Tables.{
  DeviceRecord, DeviceActionRecord, DeviceDiagnosticRecord, Registry, Call,
}
use roodox_sever_win.Devices.Lists.{hex_encode}
use roodox_sever_win.Devices.Reports.{update_device, insert_device}
use roodox_sever_win.Devices.Policies.{put_policy, delete_policy, policy_row, set_policy_revision}
use roodox_sever_win.Devices.Actions.{
  DeviceActionRequest, deliver, replaced, new_action, action_exists, cancel_similar,
}
use roodox_sever_win.Devices.Diagnostics.{
  delete_old_diagnostics, keep_count, new_diagnostic, diagnostic_exists,
}
use roodox_sever_win.Devices.Config.{ControlPlaneConfig}
use roodox_sever_win.Devices.Requests.{
  Request, registers, beats, asks_config, reports_sync, reports_mount, uploads, sets_policy,
  requests_action, serve, serve_all,
}
use roodox_sever_win.Devices.Requests.Logs.{
  KeepsRevision, update_device_kept, insert_device_kept, register_device_kept,
  report_sync_state_kept, report_mount_state_kept, get_assigned_config_kept,
  update_device_policy_kept,
}
use roodox_sever_win.Devices.Requests.Writes.{
  heartbeat_kept, request_client_action_kept, upload_diagnostics_kept,
}

module _ (Q : List DeviceActionRecord → Type 0)
    (delivers : (c : Call) (ids : List Bytes) (xs : List DeviceActionRecord)
      → Q xs
      → Q (map (deliver c ids) xs))
    (cancels : (c : Call) (device_id action_type : Bytes) (xs : List DeviceActionRecord)
      → Q xs
      → Q (map (cancel_similar c device_id action_type) xs))
    (inserts : (c : Call) (input : DeviceActionRequest) (buf : Bytes) (xs : List DeviceActionRecord)
      → action_exists (hex_encode buf) xs ≡ false
      → Q xs
      → Q (new_action c input (hex_encode buf) ∷ xs)) where
  replaced_kept :
      (c : Call) (input : DeviceActionRequest) (xs : List DeviceActionRecord)
      → Q xs
      → Q (replaced c input xs)
  unfolding trim_space bytes_eq
  replaced_kept c input xs h = chosen input.replace_similar_pending
    where
      chosen :
          (b : Bool)
          → Q (
              if b
              then map
                  (cancel_similar c (trim_space input.device_id) (trim_space input.action_type))
                  xs
              else xs)
      chosen true = cancels c (trim_space input.device_id) (trim_space input.action_type) xs h
      chosen false = h

  abbrev OfActions : Registry → Type 0
  OfActions r = Q r.actions

  updates :
      (id : Bytes) (f : DeviceRecord → DeviceRecord)
      → KeepsRevision f
      → (r : Registry) → OfActions r
      → OfActions (update_device id f r)
  updates id f _ r h = update_device_kept OfActions (λ _ _ k. k) id f r h

  inserts_row : (n : DeviceRecord) (r : Registry) → OfActions r → OfActions (insert_device n r)
  inserts_row n r h = insert_device_kept OfActions (λ _ _ k. k) n r h

  pub serve_actions_kept :
      (config : ControlPlaneConfig) (q : Request) (r : Registry)
      → Q r.actions
      → Q (serve config q r).actions
  unfolding serve
  serve_actions_kept config (registers c req) r h =
      register_device_kept OfActions updates inserts_row config c req r h
  serve_actions_kept config (beats calls req) r h =
      heartbeat_kept OfActions updates inserts_row calls req r h
        λ c ids r' k. delivers c ids r'.actions k
  serve_actions_kept config (asks_config calls id) r h =
      get_assigned_config_kept OfActions updates inserts_row config calls id r h
  serve_actions_kept config (reports_sync c req) r h =
      report_sync_state_kept OfActions updates inserts_row c req r h
  serve_actions_kept config (reports_mount c req) r h =
      report_mount_state_kept OfActions updates inserts_row c req r h
  serve_actions_kept config (uploads calls req) r h =
      upload_diagnostics_kept OfActions updates inserts_row config calls req r h λ _ _ _ _. h
  serve_actions_kept config (sets_policy calls req) r h =
      update_device_policy_kept OfActions updates inserts_row req
        (λ c input r' _ k.
          update_device_kept OfActions (λ _ _ g. g) (trim_space input.device_id)
            (set_policy_revision c input.policy_revision) (put_policy (policy_row c input) r') k)
        (λ c id n r' _ k.
          update_device_kept OfActions (λ _ _ g. g) id (set_policy_revision c n)
            (delete_policy id r') k)
        config calls r h
  serve_actions_kept config (requests_action calls req) r h =
      request_client_action_kept OfActions updates inserts_row calls req r h λ c input buf free.
        inserts c input buf (replaced c input r.actions) free (replaced_kept c input r.actions h)

  pub serve_all_actions_kept :
      (config : ControlPlaneConfig) (qs : List Request) (r : Registry)
      → Q r.actions
      → Q (serve_all config qs r).actions
  unfolding serve_all
  serve_all_actions_kept config [] r h = h
  serve_all_actions_kept config (q ∷ qs) r h =
      serve_all_actions_kept config qs (serve config q r) (serve_actions_kept config q r h)

module _ (config : ControlPlaneConfig) (Q : List DeviceDiagnosticRecord → Type 0)
    (stores : (c : Call) (input : DeviceDiagnosticRecord) (id : Bytes)
        (xs : List DeviceDiagnosticRecord)
      → diagnostic_exists id xs ≡ false
      → Q xs
      → Q (
          delete_old_diagnostics
            (trim_space input.device_id)
            (keep_count config.diagnostics_keep_latest)
            (new_diagnostic c input id ∷ xs))) where
  abbrev OfDiagnostics : Registry → Type 0
  OfDiagnostics r = Q r.diagnostics

  row_updates :
      (id : Bytes) (f : DeviceRecord → DeviceRecord)
      → KeepsRevision f
      → (r : Registry) → OfDiagnostics r
      → OfDiagnostics (update_device id f r)
  row_updates id f _ r h = update_device_kept OfDiagnostics (λ _ _ k. k) id f r h

  row_inserts :
      (n : DeviceRecord) (r : Registry) → OfDiagnostics r → OfDiagnostics (insert_device n r)
  row_inserts n r h = insert_device_kept OfDiagnostics (λ _ _ k. k) n r h

  pub serve_diagnostics_kept :
      (q : Request) (r : Registry) → Q r.diagnostics → Q (serve config q r).diagnostics
  unfolding serve
  serve_diagnostics_kept (registers c req) r h =
      register_device_kept OfDiagnostics row_updates row_inserts config c req r h
  serve_diagnostics_kept (beats calls req) r h =
      heartbeat_kept OfDiagnostics row_updates row_inserts calls req r h λ _ _ _ k. k
  serve_diagnostics_kept (asks_config calls id) r h =
      get_assigned_config_kept OfDiagnostics row_updates row_inserts config calls id r h
  serve_diagnostics_kept (reports_sync c req) r h =
      report_sync_state_kept OfDiagnostics row_updates row_inserts c req r h
  serve_diagnostics_kept (reports_mount c req) r h =
      report_mount_state_kept OfDiagnostics row_updates row_inserts c req r h
  serve_diagnostics_kept (uploads calls req) r h =
      upload_diagnostics_kept OfDiagnostics row_updates row_inserts config calls req r h
        λ c input id free. stores c input id r.diagnostics free h
  serve_diagnostics_kept (sets_policy calls req) r h =
      update_device_policy_kept OfDiagnostics row_updates row_inserts req
        (λ c input r' _ k.
          update_device_kept OfDiagnostics (λ _ _ g. g) (trim_space input.device_id)
            (set_policy_revision c input.policy_revision) (put_policy (policy_row c input) r') k)
        (λ c id n r' _ k.
          update_device_kept OfDiagnostics (λ _ _ g. g) id (set_policy_revision c n)
            (delete_policy id r') k)
        config calls r h
  serve_diagnostics_kept (requests_action calls req) r h =
      request_client_action_kept OfDiagnostics row_updates row_inserts calls req r h λ _ _ _ _. h

  pub serve_all_diagnostics_kept :
      (qs : List Request) (r : Registry) → Q r.diagnostics → Q (serve_all config qs r).diagnostics
  unfolding serve_all
  serve_all_diagnostics_kept [] r h = h
  serve_all_diagnostics_kept (q ∷ qs) r h =
      serve_all_diagnostics_kept qs (serve config q r) (serve_diagnostics_kept q r h)
