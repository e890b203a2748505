-- ===== src/Devices/Requests/Pulls.antt =====
-- GetAssignedConfig after UpdateDevicePolicy, whatever other requests come between.
use roodox_sever_win.Base.{
  ℕ, ◌≡◌, refl, sym, ◌∙◌, ap, Bytes, false, List, Option, none, some, if◌then◌else◌,
}
use mathlib.Core.Path.{subst}
use roodox_sever_win.Base.Space.{trim_space}
use roodox_sever_win.Base.Space.Trims.{trim_space_idem}
use roodox_sever_win.Base.Dict.{get, put}
use roodox_sever_win.Errors.{
  Result, Code, ok, err, Err, invalid_argument, to_grpc_error, is_not_exist,
}
use roodox_sever_win.Devices.Tables.{DeviceRecord, Registry, Call}
use roodox_sever_win.Devices.Lists.{is_empty}
use roodox_sever_win.Devices.Lists.Laws.{Every}
use roodox_sever_win.Devices.Reports.{
  set_row, get_device, mark_policy_pulled, update_known_device, update_device, ensure_rows_affected,
  end_write, found, pulled_row,
}
use roodox_sever_win.Devices.Policies.{get_policy}
use roodox_sever_win.Devices.Config.{
  AssignedConfig, ControlPlaneConfig, assigned_config_from_policy_record,
}
use roodox_sever_win.Devices.Messages.{GetAssignedConfigResponse}
use roodox_sever_win.Devices.ControlPlane.{
  effective_config, end_assigned_config, get_assigned_config, pull_for, pull_policy, then_do,
}
use roodox_sever_win.Devices.Console.{
  UpdateDevicePolicyRequest, UpdateDevicePolicyResponse, update_device_policy,
}
use roodox_sever_win.Devices.Requests.{Request, serve_all}
use roodox_sever_win.Devices.Requests.Revisions.{LeavesPolicy, serve_all-HasPolicy}
use roodox_sever_win.Devices.Requests.Policies.{
  IsEffective, update_device_policy-Stores, update_device_policy_named,
}

-- The engine reports no error in a call.
abbrev pub HasNoFault : Call → Type 0
HasNoFault c = (c.write_fault ≡ none) × (c.read_fault ≡ none)

pub get_device_lem :
    (c : Call) (id : Bytes) (r : Registry) (d : DeviceRecord)
    → c.read_fault ≡ none
    → get r.devices (trim_space id) ≡ some d
    → get_device c id r ≡ ok d
unfolding get_device get
get_device_lem c id r d e f = by_fault c.read_fault e
  where
    by_fault :
        (o : Option Err)
        → o ≡ none
        → (elim o [ none ↦ found (get r.devices (trim_space id)) | some x ↦ err x ]) ≡ ok d
    by_fault none g = ap found f
    by_fault (some x) g = cc g

get_policy_lem :
    (c : Call) (id : Bytes) (r : Registry)
    → c.read_fault ≡ none
    → get_policy c id r ≡ found (get r.policies (trim_space id))
unfolding get_policy get
get_policy_lem c id r e = by_fault c.read_fault e
  where
    by_fault :
        (o : Option Err)
        → o ≡ none
        → (elim o [ none ↦ found (get r.policies (trim_space id)) | some x ↦ err x ])
          ≡ found (get r.policies (trim_space id))
    by_fault none g = refl
    by_fault (some x) g = cc g

mark_policy_pulled_lem :
    (c : Call) (id : Bytes) (r : Registry) (d : DeviceRecord)
    → c.write_fault ≡ none
    → get r.devices (trim_space id) ≡ some d
    → mark_policy_pulled c id r
      ≡ (ok tt, record r { devices = put r.devices (trim_space id) (pulled_row c d) })
unfolding mark_policy_pulled update_known_device update_device put get trim_space
mark_policy_pulled_lem c id r d e f = marked c.write_fault (get r.devices (trim_space id)) e f
  where
    marked :
        (fault : Option Err) (x : Option DeviceRecord)
        → fault ≡ none
        → x ≡ some d
        → end_write
            (elim fault [
              | none ↦ ensure_rows_affected x (set_row (trim_space id) (pulled_row c) r x)
              | some y ↦ err y
            ])
            r
          ≡ (ok tt, record r { devices = put r.devices (trim_space id) (pulled_row c d) })
    marked none (some d') g h =
        let same : d' ≡ d = cc h in
        ap (λ y. (ok tt, record r { devices = put r.devices (trim_space id) (pulled_row c y) }))
          same
    marked none none g h = cc h
    marked (some y) x g h = cc g

pull_lem :
    (config : ControlPlaneConfig) (calls : ℕ → Call) (id : Bytes) (n : ℕ)
    (assigned : AssignedConfig) (r : Registry)
    → ((k : ℕ) → HasNoFault (calls k))
    → IsEffective config (trim_space id) n assigned r
    → (pull_for config calls r id).0 ≡ ok (record { config = assigned; policy_revision = n })
unfolding get_device mark_policy_pulled get_policy get put assigned_config_from_policy_record
    is_not_exist to_grpc_error trim_space
pull_lem config calls id n assigned r fine (policy, ((d, e, f), p), g) =
    let next : Registry = record r {
      devices = put r.devices (trim_space id) (pulled_row (calls 1) d);
    } in
    let read_policy = get_policy_lem (calls 2) id next (fine 2).1 ∙ ap found p in
    let end_with : Registry → Result Code GetAssignedConfigResponse = λ r'.
      end_assigned_config d
        (effective_config config.default_assigned_config (get_policy (calls 2) id r')) in
    ap (λ x. (pull_policy config calls id r x).0) (get_device_lem (calls 0) id r d (fine 0).1 e)
    ∙ ap (λ y. (then_do y λ _ r'. (end_with r', r')).0)
        (mark_policy_pulled_lem (calls 1) id r d (fine 1).0 e)
    ∙ ap (λ x. end_assigned_config d (effective_config config.default_assigned_config x))
        read_policy
    ∙ ap (end_assigned_config d) g
    ∙ ap (λ m. ok (record { config = assigned; policy_revision = m })) f

pub config_read :
    (config : ControlPlaneConfig) (calls : ℕ → Call) (id : Bytes) (n : ℕ)
    (assigned : AssignedConfig) (r : Registry)
    → ((k : ℕ) → HasNoFault (calls k))
    → is_empty (trim_space id) ≡ false
    → IsEffective config (trim_space id) n assigned r
    → (get_assigned_config config calls id r).0
      ≡ ok (record { config = assigned; policy_revision = n })
unfolding get_assigned_config get assigned_config_from_policy_record is_not_exist to_grpc_error
    trim_space
config_read config calls id n assigned r fine named h =
    ap (λ b. (if b then (err invalid_argument, r) else pull_for config calls r (trim_space id)).0)
      named
    ∙ pull_lem config calls (trim_space id) n assigned r fine
        (subst (λ k. IsEffective config k n assigned r) (sym (trim_space_idem id)) h)

-- A policy reaches its device: after UpdateDevicePolicy has succeeded for a device, and after
-- any other requests that do not set the policy of that device (registrations, heartbeats,
-- reports, actions), GetAssignedConfig of the device returns the configuration and the revision
-- that the response to the administrator names. The engine reports no error to
-- GetAssignedConfig.
pub policy_reaches_device :
    (config : ControlPlaneConfig) (calls : ℕ → Call) (req : UpdateDevicePolicyRequest)
    (r : Registry) (resp : UpdateDevicePolicyResponse) (qs : List Request) (calls' : ℕ → Call)
    → (update_device_policy config calls req r).0 ≡ ok resp
    → Every (LeavesPolicy (trim_space req.device_id)) qs
    → ((k : ℕ) → HasNoFault (calls' k))
    → (get_assigned_config config calls' req.device_id
        (serve_all config qs (update_device_policy config calls req r).1)).0
      ≡ ok (record { config = resp.effective_policy; policy_revision = resp.policy_revision })
unfolding get assigned_config_from_policy_record is_not_exist to_grpc_error trim_space
policy_reaches_device config calls req r resp qs calls' h l fine =
    let (_, (policy, held, applies)) = update_device_policy-Stores config calls req r resp h in
    let id = trim_space req.device_id in
    let r' = (update_device_policy config calls req r).1 in
    config_read config calls' req.device_id resp.policy_revision resp.effective_policy
      (serve_all config qs r') fine (update_device_policy_named config calls req r resp h)
      (policy, serve_all-HasPolicy id resp.policy_revision policy config qs r' l held, applies)
