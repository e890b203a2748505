-- ===== src/Devices/Requests/Races.antt =====
-- Two UpdateDevicePolicy of one device that expect the same revision.
use roodox_sever_win.Base.{
  ℕ, ◌≡◌, ◌≢◌, refl, sym, ◌∙◌, ap, Bytes, Bool, true, false, List, none, some, arith, ◌==◌, ◌&&◌,
  not, if◌then◌else◌,
}
use roodox_sever_win.Base.Space.{trim_space}
use roodox_sever_win.Base.Space.Trims.{trim_space_idem}
use roodox_sever_win.Base.Dict.{get}
use roodox_sever_win.Errors.{
  Result, ok, err, Err, failed_precondition, invalid_argument, to_grpc_error, is_not_exist,
}
use roodox_sever_win.Devices.Tables.{DeviceRecord, Registry, Call}
use roodox_sever_win.Devices.Lists.{is_empty}
use roodox_sever_win.Devices.Lists.Laws.{Every}
use roodox_sever_win.Devices.Reports.{get_device}
use roodox_sever_win.Devices.Config.{ControlPlaneConfig, assigned_config_from_policy_record}
use roodox_sever_win.Devices.Console.{
  UpdateDevicePolicyRequest, UpdateDevicePolicyResponse, update_device_policy, update_policy_for,
  store_policy_update, check_policy_update, checked_revision, next_revision,
}
use roodox_sever_win.Devices.Requests.{Request, serve_all}
use roodox_sever_win.Devices.Requests.Revisions.{LeavesPolicy, serve_all-HasPolicy}
use roodox_sever_win.Devices.Requests.Policies.{
  IsEffective, store-Stores, update_device_policy-Stores, update_device_policy_named,
}
use roodox_sever_win.Devices.Requests.Pulls.{get_device_lem}

-- The revision that follows is never the one that was expected.
next_revision_ne : (n : ℕ) → next_revision n ≢ n
next_revision_ne n e = ground arith

pick_lem :
    (b : Bool) (n m : ℕ)
    → (if b then err failed_precondition else ok n) ≡ ok m
    → (b ≡ false) × (n ≡ m)
pick_lem true n m h = cc h
pick_lem false n m h = (refl, cc h)

matched_lem :
    (expected current : ℕ)
    → expected ≢ 0
    → (not (expected == 0) && not (expected == current)) ≡ false
    → current ≡ expected
matched_lem expected current h k = ground arith

checked_lem :
    (expected m : ℕ) (x : Result Err DeviceRecord)
    → expected ≢ 0
    → checked_revision expected x ≡ ok m
    → m ≡ next_revision expected
unfolding to_grpc_error
checked_lem expected m (err e) h k = cc k
checked_lem expected m (ok d) h k =
    let (b, e) =
      pick_lem (not (expected == 0) && not (expected == d.policy_revision))
        (next_revision d.policy_revision) m k in
    sym e ∙ ap next_revision (matched_lem expected d.policy_revision h b)

check_lem :
    (c : Call) (req : UpdateDevicePolicyRequest) (id : Bytes) (r : Registry) (m : ℕ)
    → req.expected_policy_revision ≢ 0
    → check_policy_update c req id r ≡ ok m
    → m ≡ next_revision req.expected_policy_revision
unfolding check_policy_update
check_lem c req id r m h k = checked_lem req.expected_policy_revision m (get_device c id r) h k

refused_lem :
    (expected : ℕ) (d : DeviceRecord)
    → expected ≢ 0
    → d.policy_revision ≢ expected
    → checked_revision expected (ok d) ≡ err failed_precondition
unfolding to_grpc_error
refused_lem expected d h k = ground arith

-- A known device with another revision
refused_update :
    (config : ControlPlaneConfig) (calls : ℕ → Call) (req : UpdateDevicePolicyRequest)
    (r : Registry) (d : DeviceRecord)
    → is_empty (trim_space req.device_id) ≡ false
    → (calls 0).read_fault ≡ none
    → get r.devices (trim_space req.device_id) ≡ some d
    → req.expected_policy_revision ≢ 0
    → d.policy_revision ≢ req.expected_policy_revision
    → update_device_policy config calls req r ≡ (err failed_precondition, r)
unfolding update_device_policy check_policy_update get store_policy_update to_grpc_error trim_space
refused_update config calls req r d named fine e ne other =
    let id = trim_space req.device_id in
    let known =
      get_device_lem (calls 0) id r d fine
        (ap (get r.devices) (trim_space_idem req.device_id) ∙ e) in
    ap (λ b. if b then (err invalid_argument, r) else update_policy_for config calls req r id) named
    ∙ ap
        (λ x.
          store_policy_update config (calls 1) req id r
            (checked_revision req.expected_policy_revision x))
        known
    ∙ ap (store_policy_update config (calls 1) req id r)
        (refused_lem req.expected_policy_revision d ne other)

-- When an UpdateDevicePolicy that expects a revision, not 0, has succeeded, a later one for the
-- same device that expects the same revision is refused with FailedPrecondition and changes
-- nothing, whatever requests that do not set the policy of that device come between. The engine
-- reports no error to its query.
pub second_update_refused :
    (config : ControlPlaneConfig) (calls calls' : ℕ → Call) (req req' : UpdateDevicePolicyRequest)
    (r : Registry) (resp : UpdateDevicePolicyResponse) (qs : List Request)
    → (update_device_policy config calls req r).0 ≡ ok resp
    → Every (LeavesPolicy (trim_space req.device_id)) qs
    → req'.device_id ≡ req.device_id
    → req.expected_policy_revision ≢ 0
    → req'.expected_policy_revision ≡ req.expected_policy_revision
    → (calls' 0).read_fault ≡ none
    → let r' = serve_all config qs (update_device_policy config calls req r).1 in
      update_device_policy config calls' req' r' ≡ (err failed_precondition, r')
unfolding get assigned_config_from_policy_record is_not_exist to_grpc_error trim_space
second_update_refused config calls calls' req req' r resp qs h l same ne again fine =
    let id = trim_space req.device_id in
    let (checked, (policy, held, _)) = update_device_policy-Stores config calls req r resp h in
    let after = (update_device_policy config calls req r).1 in
    let r' = serve_all config qs after in
    let ((d, e, f), _) =
      serve_all-HasPolicy id resp.policy_revision policy config qs after l held in
    let next = check_lem (calls 0) req id r resp.policy_revision ne checked in
    refused_update config calls' req' r' d
      (ap (λ i. is_empty (trim_space i)) same
        ∙ update_device_policy_named config calls req r resp h)
      fine (ap (λ i. get r'.devices (trim_space i)) same ∙ e) (λ z. ne (sym again ∙ z))
      λ z. next_revision_ne req.expected_policy_revision (sym next ∙ sym f ∙ z ∙ again)

-- Two UpdateDevicePolicy of one device that expect the same revision, not 0, can overlap: each
-- finds and tests the revision before either stores its policy. If both then succeed, both are
-- told the same new revision, and the policy stored last applies to the device: that of the
-- other is lost. The id is trimmed.
pub concurrent_updates :
    (config : ControlPlaneConfig) (c1 c2 c3 c4 : Call) (req1 req2 : UpdateDevicePolicyRequest)
    (id : Bytes) (r : Registry) (resp1 resp2 : UpdateDevicePolicyResponse)
    → let found1 = check_policy_update c1 req1 id r in
      let found2 = check_policy_update c2 req2 id r in
      let r1 = (store_policy_update config c3 req1 id r found1).1 in
      let r2 = (store_policy_update config c4 req2 id r1 found2).1 in
      trim_space id ≡ id
      → req1.expected_policy_revision ≢ 0
      → req2.expected_policy_revision ≡ req1.expected_policy_revision
      → (store_policy_update config c3 req1 id r found1).0 ≡ ok resp1
      → (store_policy_update config c4 req2 id r1 found2).0 ≡ ok resp2
      → (resp2.policy_revision ≡ resp1.policy_revision)
        × IsEffective config id resp2.policy_revision resp2.effective_policy r2
unfolding get assigned_config_from_policy_record is_not_exist to_grpc_error
concurrent_updates config c1 c2 c3 c4 req1 req2 id r resp1 resp2 t ne same h1 h2 =
    let found1 = check_policy_update c1 req1 id r in
    let found2 = check_policy_update c2 req2 id r in
    let r1 = (store_policy_update config c3 req1 id r found1).1 in
    let (e1, _) = store-Stores config c3 req1 id r found1 resp1 t h1 in
    let (e2, effective) = store-Stores config c4 req2 id r1 found2 resp2 t h2 in
    let n1 = check_lem c1 req1 id r resp1.policy_revision ne e1 in
    let n2 = check_lem c2 req2 id r resp2.policy_revision (λ z. ne (sym same ∙ z)) e2 in
    (n2 ∙ ap next_revision same ∙ sym n1, effective)
