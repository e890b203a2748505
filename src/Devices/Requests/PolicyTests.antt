-- ===== src/Devices/Requests/PolicyTests.antt =====
-- Runs of UpdateDevicePolicy and GetAssignedConfig on a small registry.
use roodox_sever_win.Base.{◌≡◌, refl, bytes_eq, Bytes, false, [], ◌∷◌, some, codes, arith}
use roodox_sever_win.Base.Dict.{get}
use roodox_sever_win.Base.Space.{trim_space, trim_right}
use roodox_sever_win.Fs.Ignore.{to_lower}
use roodox_sever_win.Errors.{ok, err, failed_precondition, is_not_exist, to_grpc_error}
use roodox_sever_win.Devices.Tables.{Registry}
use roodox_sever_win.Devices.Config.{
  normalize_control_plane_config, assigned_config_from_policy_record,
}
use roodox_sever_win.Devices.ControlPlane.{get_assigned_config}
use roodox_sever_win.Devices.Console.{
  UpdateDevicePolicyRequest, UpdateDevicePolicyResponse, policy_response, update_device_policy,
  store_policy_update, check_policy_update,
}
use roodox_sever_win.Devices.Requests.{registers, serve_all}
use roodox_sever_win.Devices.Requests.Tests.{
  call, blank_config, config, registration, registry, answer, has_answer,
}
use roodox_sever_win.Devices.Requests.Policies.{IsEffective}
use roodox_sever_win.Devices.Requests.Pulls.{policy_reaches_device}
use roodox_sever_win.Devices.Requests.Races.{second_update_refused, concurrent_updates}

abbrev mounted_at : Bytes → UpdateDevicePolicyRequest
mounted_at path = record {
  device_id = codes "d1";
  policy =
      some (record blank_config { mount_path = path; sync_roots = codes "a " ∷ codes "A" ∷ [] });
  expected_policy_revision = 1;
  resets_to_default = false;
}

abbrev no_update : UpdateDevicePolicyResponse
no_update = policy_response 0 blank_config

abbrev updated : UpdateDevicePolicyResponse
unfolding update_device_policy serve_all to_lower normalize_control_plane_config
updated =
    answer no_update (update_device_policy config (call 20) (mounted_at (codes "x ")) registry).0

policy_reaches_device_example :
    (get_assigned_config config (call 22) (codes "d1") (
      serve_all config
        (registers (call 21 0) registration ∷ [])
        (update_device_policy config (call 20) (mounted_at (codes "x ")) registry).1)).0
    ≡ ok (record { config = updated.effective_policy; policy_revision = updated.policy_revision })
unfolding get_assigned_config update_device_policy serve_all to_lower normalize_control_plane_config
    trim_right bytes_eq get assigned_config_from_policy_record is_not_exist to_grpc_error trim_space
policy_reaches_device_example =
    policy_reaches_device config (call 20) (mounted_at (codes "x ")) registry updated
      (registers (call 21 0) registration ∷ []) (call 22)
      (has_answer no_update
        (update_device_policy config (call 20) (mounted_at (codes "x ")) registry).0 refl)
      (tt, tt) λ k. (refl, refl)

second_update_refused_example :
    update_device_policy config (call 22) (mounted_at (codes "y")) (
      serve_all config
        (registers (call 21 0) registration ∷ [])
        (update_device_policy config (call 20) (mounted_at (codes "x ")) registry).1)
    ≡ (
      err failed_precondition,
      serve_all config
          (registers (call 21 0) registration ∷ [])
          (update_device_policy config (call 20) (mounted_at (codes "x ")) registry).1,
    )
unfolding update_device_policy serve_all to_lower normalize_control_plane_config trim_right bytes_eq
    get assigned_config_from_policy_record is_not_exist to_grpc_error trim_space
second_update_refused_example =
    second_update_refused config (call 20) (call 22) (mounted_at (codes "x "))
      (mounted_at (codes "y")) registry updated (registers (call 21 0) registration ∷ [])
      (has_answer no_update
        (update_device_policy config (call 20) (mounted_at (codes "x ")) registry).0 refl)
      (tt, tt) refl (λ e. omega (arith, e)) refl refl

-- Both have found revision 1 before the first of them stores its policy.
abbrev after_first : Registry
unfolding check_policy_update store_policy_update serve_all to_lower normalize_control_plane_config
after_first =
    (store_policy_update config (call 20 1) (mounted_at (codes "x")) (codes "d1") registry
      (check_policy_update (call 20 0) (mounted_at (codes "x")) (codes "d1") registry)).1

abbrev second : UpdateDevicePolicyResponse
unfolding check_policy_update store_policy_update serve_all to_lower normalize_control_plane_config
second =
    answer no_update
      (store_policy_update config (call 21 1) (mounted_at (codes "y")) (codes "d1") after_first
        (check_policy_update (call 20 0) (mounted_at (codes "y")) (codes "d1") registry)).0

abbrev first : UpdateDevicePolicyResponse
unfolding check_policy_update store_policy_update serve_all to_lower normalize_control_plane_config
first =
    answer no_update
      (store_policy_update config (call 20 1) (mounted_at (codes "x")) (codes "d1") registry
        (check_policy_update (call 20 0) (mounted_at (codes "x")) (codes "d1") registry)).0

concurrent_updates_example :
    (second.policy_revision ≡ first.policy_revision)
    × IsEffective config
        (codes "d1")
        second.policy_revision
        second.effective_policy
        (store_policy_update config
          (call 21 1)
          (mounted_at (codes "y"))
          (codes "d1")
          after_first
          (check_policy_update (call 20 0) (mounted_at (codes "y")) (codes "d1") registry)).1
unfolding check_policy_update store_policy_update serve_all to_lower normalize_control_plane_config
    trim_right bytes_eq get assigned_config_from_policy_record is_not_exist to_grpc_error trim_space
concurrent_updates_example =
    concurrent_updates config (call 20 0) (call 20 0) (call 20 1) (call 21 1)
      (mounted_at (codes "x")) (mounted_at (codes "y")) (codes "d1") registry first second refl
      (λ e. omega (arith, e)) refl
      (has_answer no_update
        (store_policy_update config (call 20 1) (mounted_at (codes "x")) (codes "d1") registry
          (check_policy_update (call 20 0) (mounted_at (codes "x")) (codes "d1") registry)).0
        refl)
      (has_answer no_update
        (store_policy_update config (call 21 1) (mounted_at (codes "y")) (codes "d1") after_first
          (check_policy_update (call 20 0) (mounted_at (codes "y")) (codes "d1") registry)).0
        refl)
