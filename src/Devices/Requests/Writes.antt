-- ===== src/Devices/Requests/Writes.antt =====
-- Properties of the registry that do not look at the rows of devices, under the calls that write to
-- the tables of actions and diagnostics: what each call comes to.
use roodox_sever_win.Base.{
  ℕ, ℤ, pos, ◌≡◌, refl, Bytes, Bool, true, false, List, [], ◌∷◌, map, if◌then◌else◌,
}
use roodox_sever_win.Base.Space.{trim_space}
use roodox_sever_win.Errors.{Result, ok, err, Err, to_grpc_error, other}
use roodox_sever_win.Devices.Tables.{
  DeviceRecord, DeviceActionRecord, DeviceDiagnosticRecord, Registry, Call,
}
use roodox_sever_win.Devices.Lists.{is_empty, hex_encode, new_random_id}
use roodox_sever_win.Devices.Rows.{DeviceHeartbeat}
use roodox_sever_win.Devices.Reports.{
  write, update_device, insert_device, update_heartbeat, get_device,
}
use roodox_sever_win.Devices.Actions.{
  DeviceActionRequest, deliver, replaced, new_action, action_exists, store_actions, end_enqueue,
  enqueue_as, enqueue_action, mark_actions_delivered, list_pending_actions,
}
use roodox_sever_win.Devices.Diagnostics.{
  delete_old_diagnostics, keep_count, new_diagnostic, diagnostic_exists, store_diagnostics,
  end_insert, insert_as, insert_diagnostic,
}
use roodox_sever_win.Devices.Config.{ControlPlaneConfig}
use roodox_sever_win.Devices.Messages.{UploadDiagnosticsRequest, client_action_to_proto}
use roodox_sever_win.Devices.ControlPlane.{
  heartbeat, beat_for, hand_out, handed_out, list_and_hand_out,
}
use roodox_sever_win.Devices.Reporting.{
  upload_diagnostics, upload_for, upload_known, uploaded_record, uploaded,
}
use roodox_sever_win.Devices.Console.{request_client_action, request_for, request_known, requested}
use roodox_sever_win.Devices.Requests.Frames.{
  Commits, write-Commits, end_write_kept, guard_kept, with_device_id_kept, then_do_kept,
  respond_kept,
}
use roodox_sever_win.Devices.Requests.Logs.{KeepsRevision, update_heartbeat_kept}

module _ (P : Registry → Type 0)
    (updates : (id : Bytes) (f : DeviceRecord → DeviceRecord)
      → KeepsRevision f
      → (r : Registry) → P r
      → P (update_device id f r))
    (inserts : (n : DeviceRecord) (r : Registry) → P r → P (insert_device n r)) where
  -- The registry once the statement of MarkActionsDelivered is done.
  pub mark_actions_delivered_kept :
      (c : Call) (ids : List Bytes) (r : Registry)
      → P r
      → P (record r { actions = map (deliver c (map trim_space ids)) r.actions })
      → P (mark_actions_delivered c ids r).1
  unfolding mark_actions_delivered
  mark_actions_delivered_kept c [] r h k = h
  mark_actions_delivered_kept c (id ∷ ids) r h k =
      end_write_kept P (write c _) r h (write-Commits P c _ k)

  hand_out_kept :
      (c : Call) (d : DeviceRecord) (x : Result Err (List DeviceActionRecord)) (r : Registry)
      → P r
      → ((ids : List Bytes) → P (record r { actions = map (deliver c ids) r.actions }))
      → P (hand_out c d x r).1
  unfolding mark_actions_delivered client_action_to_proto to_grpc_error
  hand_out_kept c d (err e) r h k = h
  hand_out_kept c d (ok actions) r h k =
      respond_kept P (handed_out c d actions)
        (mark_actions_delivered c (map (λ a. a.action_id) actions) r)
        (mark_actions_delivered_kept c (map (λ a. a.action_id) actions) r h (k _))

  pub heartbeat_kept :
      (calls : ℕ → Call) (req : DeviceHeartbeat) (r : Registry)
      → P r
      → ((c : Call) (ids : List Bytes) (r' : Registry)
          → P r'
          → P (record r' { actions = map (deliver c ids) r'.actions }))
      → P (heartbeat calls req r).1
  unfolding heartbeat list_pending_actions mark_actions_delivered client_action_to_proto
      to_grpc_error
  heartbeat_kept calls req r h k =
      let id = trim_space req.device_id in
      let input : DeviceHeartbeat = record req { device_id = id } in
      let beaten = update_heartbeat_kept P updates inserts (calls 0) input r h in
      with_device_id_kept P req.device_id r (beat_for calls req r) h (
        then_do_kept P (update_heartbeat (calls 0) input r) (list_and_hand_out calls id) beaten λ d.
          let r' = (update_heartbeat (calls 0) input r).1 in
          hand_out_kept (calls 2) d (list_pending_actions (calls 1) id (pos 16) r') r' beaten
            λ ids. k (calls 2) ids r' beaten)

  -- The registry once the transaction of EnqueueAction is done.
  pub enqueue_action_kept :
      (c : Call) (input : DeviceActionRequest) (r : Registry)
      → P r
      → ((buf : Bytes)
          → action_exists (hex_encode buf) (replaced c input r.actions) ≡ false
          → P (record r {
            actions = new_action c input (hex_encode buf) ∷ replaced c input r.actions;
          }))
      → P (enqueue_action c input r).1
  unfolding enqueue_action new_random_id
  enqueue_action_kept c input r h k = guard_kept P _ _ _ h (drawn c.random)
    where
      inserted :
          (buf : Bytes) (b : Bool)
          → action_exists (hex_encode buf) (replaced c input r.actions) ≡ b
          → Commits P (
              store_actions c (trim_space input.device_id) r (
                if b
                then err other
                else ok (new_action c input (hex_encode buf) ∷ replaced c input r.actions)))
      inserted buf true e = tt
      inserted buf false e = updates (trim_space input.device_id) _ (λ d. refl) _ (k buf e)

      ended :
          (a : DeviceActionRecord) (x : Result Err Registry) → Commits P x → P (end_enqueue a x r).1
      ended a (ok r') g = g
      ended a (err e) g = h

      drawn : (random : Result Err Bytes) → P (enqueue_as c input (new_random_id random) r).1
      drawn (err e) = h
      drawn (ok buf) =
          ended (new_action c input (hex_encode buf)) _ (write-Commits P c _ (inserted buf _ refl))

  pub request_client_action_kept :
      (calls : ℕ → Call) (req : DeviceActionRequest) (r : Registry)
      → P r
      → ((c : Call) (input : DeviceActionRequest) (buf : Bytes)
          → action_exists (hex_encode buf) (replaced c input r.actions) ≡ false
          → P (record r {
            actions = new_action c input (hex_encode buf) ∷ replaced c input r.actions;
          }))
      → P (request_client_action calls req r).1
  unfolding request_client_action
  request_client_action_kept calls req r h k =
      with_device_id_kept P req.device_id r (request_for calls req r) h (
        guard_kept P (is_empty (trim_space req.action_type)) _ _ h
          (known (get_device (calls 0) (trim_space req.device_id) r)))
    where
      known :
          (x : Result Err DeviceRecord)
          → P (request_known (calls 1) req r (trim_space req.device_id) x).1
      known (err e) = h
      known (ok d) =
          let input : DeviceActionRequest = record req { device_id = trim_space req.device_id } in
          respond_kept P requested (enqueue_action (calls 1) input r)
            (enqueue_action_kept (calls 1) input r h (k (calls 1) input))

  -- The registry once the transaction of InsertDiagnostic is done.
  pub insert_diagnostic_kept :
      (c : Call) (input : DeviceDiagnosticRecord) (keep_latest : ℤ) (r : Registry)
      → P r
      → ((id : Bytes)
          → diagnostic_exists id r.diagnostics ≡ false
          → P (record r {
            diagnostics =
                delete_old_diagnostics
                  (trim_space input.device_id)
                  (keep_count keep_latest)
                  (new_diagnostic c input id ∷ r.diagnostics);
          }))
      → P (insert_diagnostic c input keep_latest r).1
  unfolding insert_diagnostic
  insert_diagnostic_kept c input keep_latest r h k = guard_kept P _ _ _ h (drawn _)
    where
      inserted :
          (id : Bytes) (b : Bool)
          → diagnostic_exists id r.diagnostics ≡ b
          → Commits P (
              store_diagnostics c
                (trim_space input.device_id)
                (keep_count keep_latest)
                r
                (if b then err other else ok (new_diagnostic c input id ∷ r.diagnostics)))
      inserted id true e = tt
      inserted id false e = updates (trim_space input.device_id) _ (λ d. refl) _ (k id e)

      ended :
          (x : DeviceDiagnosticRecord) (y : Result Err Registry)
          → Commits P y
          → P (end_insert x y r).1
      ended x (ok r') g = g
      ended x (err e) g = h

      drawn : (id : Result Err Bytes) → P (insert_as c input keep_latest id r).1
      drawn (err e) = h
      drawn (ok id) = ended (new_diagnostic c input id) _ (write-Commits P c _ (inserted id _ refl))

  pub upload_diagnostics_kept :
      (config : ControlPlaneConfig) (calls : ℕ → Call) (req : UploadDiagnosticsRequest)
      (r : Registry)
      → P r
      → ((c : Call) (input : DeviceDiagnosticRecord) (id : Bytes)
          → diagnostic_exists id r.diagnostics ≡ false
          → P (record r {
            diagnostics =
                delete_old_diagnostics
                  (trim_space input.device_id)
                  (keep_count config.diagnostics_keep_latest)
                  (new_diagnostic c input id ∷ r.diagnostics);
          }))
      → P (upload_diagnostics config calls req r).1
  unfolding upload_diagnostics
  upload_diagnostics_kept config calls req r h k =
      with_device_id_kept P req.device_id r (upload_for config calls req r) h
        (known (get_device (calls 0) (trim_space req.device_id) r))
    where
      known :
          (x : Result Err DeviceRecord)
          → P (upload_known config (calls 1) req r (trim_space req.device_id) x).1
      known (err e) = h
      known (ok d) =
          let input = uploaded_record req (trim_space req.device_id) in
          respond_kept P uploaded
            (insert_diagnostic (calls 1) input config.diagnostics_keep_latest r)
            (insert_diagnostic_kept (calls 1) input config.diagnostics_keep_latest r h
              (k (calls 1) input))
