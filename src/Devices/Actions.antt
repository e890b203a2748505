-- ===== src/Devices/Actions.antt =====
-- The actions that wait for a device: EnqueueAction, ListPendingActions, ListActiveActions and
-- MarkActionsDelivered of internal/db/device_registry_admin.go.
pub mod Lifecycle
pub mod Settled
pub mod Newest
use roodox_sever_win.Base.{
  ℕ, ℤ, pos, pos_part, non_positive, ltz, Bool, true, false, Bytes, bytes_eq, bytes_less, List, [],
  ◌∷◌, map, keep_if, take, ◌&&◌, ◌||◌, if◌then◌else◌,
}
use roodox_sever_win.Base.Space.{trim_space}
use roodox_sever_win.Errors.{Result, ok, err, Err, os_invalid, other}
use roodox_sever_win.Devices.Tables.{
  ActionStatus, pending, delivered, cancelled, DeviceActionRecord, Registry, Call,
}
use roodox_sever_win.Devices.Lists.{is_empty, is_zero, in_list, order_by, new_random_id}
use roodox_sever_win.Devices.Reports.{read, write, update_device, end_write}

pub record DeviceActionRequest : Type 0 where
  pub device_id : Bytes
  pub action_type : Bytes
  pub payload_json : Bytes
  pub replace_similar_pending : Bool

abbrev pub is_pending : ActionStatus → Bool
is_pending pending = true
is_pending _ = false

-- `status IN ('pending', 'delivered')`
abbrev pub is_active : ActionStatus → Bool
is_active cancelled = false
is_active _ = true

-- `device_id = ? AND action_type = ? AND status = 'pending'`
abbrev pub is_similar_pending : Bytes → Bytes → DeviceActionRecord → Bool
unfolding bytes_eq
is_similar_pending device_id action_type a =
    bytes_eq a.device_id device_id && (bytes_eq a.action_type action_type && is_pending a.status)

abbrev pub cancel_similar : Call → Bytes → Bytes → DeviceActionRecord → DeviceActionRecord
cancel_similar c device_id action_type a =
    if is_similar_pending device_id action_type a
    then record a { status = cancelled; completed_at_unix = c.now_unix }
    else a

-- The action id is the primary key.
unfoldable pub action_exists : Bytes → List DeviceActionRecord → Bool
unfolding bytes_eq
action_exists id [] = false
action_exists id (a ∷ actions) = bytes_eq a.action_id id || action_exists id actions

-- INSERT INTO device_actions
abbrev pub insert_action :
    DeviceActionRecord → List DeviceActionRecord → Result Err (List DeviceActionRecord)
unfolding action_exists
insert_action a actions = if action_exists a.action_id actions then err other else ok (a ∷ actions)

abbrev pub new_action : Call → DeviceActionRequest → Bytes → DeviceActionRecord
unfolding trim_space
new_action c input id = record {
  action_id = id;
  device_id = trim_space input.device_id;
  action_type = trim_space input.action_type;
  payload_json = trim_space input.payload_json;
  status = pending;
  requested_at_unix = c.now_unix;
  delivered_at_unix = pos 0;
  completed_at_unix = pos 0;
}

abbrev pub replaced : Call → DeviceActionRequest → List DeviceActionRecord → List DeviceActionRecord
unfolding trim_space bytes_eq
replaced c input actions =
    if input.replace_similar_pending
    then map (cancel_similar c (trim_space input.device_id) (trim_space input.action_type)) actions
    else actions

abbrev pub store_actions :
    Call → Bytes → Registry → Result Err (List DeviceActionRecord) → Result Err Registry
unfolding update_device
store_actions c id r (err e) = err e
store_actions c id r (ok actions) = ok (
    update_device id (λ d. record d { updated_at_unix = c.now_unix })
      (record r { actions = actions }))

abbrev pub end_enqueue :
    DeviceActionRecord → Result Err Registry → Registry → Result Err DeviceActionRecord × Registry
end_enqueue a (err e) r = (err e, r)
end_enqueue a (ok r') r = (ok a, r')

-- The part of EnqueueAction that follows newRandomID.
abbrev pub enqueue_as :
    Call
    → DeviceActionRequest
    → Result Err Bytes
    → Registry
    → Result Err DeviceActionRecord × Registry
unfolding trim_space action_exists update_device
enqueue_as c input (err e) r = (err e, r)
enqueue_as c input (ok id) r =
    end_enqueue (new_action c input id)
      (write c (
        store_actions c (trim_space input.device_id) r
          (insert_action (new_action c input id) (replaced c input r.actions))))
      r

-- EnqueueAction
unfoldable pub enqueue_action :
    Call → DeviceActionRequest → Registry → Result Err DeviceActionRecord × Registry
unfolding new_random_id trim_space action_exists update_device
enqueue_action c input r =
    if is_empty (trim_space input.device_id) || is_empty (trim_space input.action_type)
    then (err os_invalid, r)
    else enqueue_as c input (new_random_id c.random) r

abbrev pub action_before : DeviceActionRecord → DeviceActionRecord → Bool
unfolding bytes_less
action_before a b =
    if ltz b.requested_at_unix a.requested_at_unix
    then true
    else if ltz a.requested_at_unix b.requested_at_unix
    then false
    else bytes_less b.action_id a.action_id

abbrev pub has_status : (ActionStatus → Bool) → Bytes → DeviceActionRecord → Bool
unfolding bytes_eq
has_status p device_id a = bytes_eq a.device_id device_id && p a.status

-- The rows that the query of listActionsByStatus selects.
abbrev pub selected_actions :
    (ActionStatus → Bool) → Bytes → ℕ → List DeviceActionRecord → List DeviceActionRecord
unfolding bytes_eq bytes_less
selected_actions p device_id limit actions =
    take limit (order_by action_before (keep_if (has_status p device_id) actions))

abbrev pub action_limit : ℤ → ℕ
action_limit limit = if non_positive limit then 16 else pos_part limit

-- listActionsByStatus
unfoldable pub list_actions_by_status :
    Call → (ActionStatus → Bool) → Bytes → ℤ → Registry → Result Err (List DeviceActionRecord)
unfolding trim_space bytes_eq bytes_less
list_actions_by_status c p device_id limit r =
    if is_empty (trim_space device_id)
    then err os_invalid
    else read c (selected_actions p (trim_space device_id) (action_limit limit) r.actions)

-- ListPendingActions
unfoldable pub list_pending_actions :
    Call → Bytes → ℤ → Registry → Result Err (List DeviceActionRecord)
unfolding list_actions_by_status
list_pending_actions c = list_actions_by_status c is_pending

-- ListActiveActions
unfoldable pub list_active_actions :
    Call → Bytes → ℤ → Registry → Result Err (List DeviceActionRecord)
unfolding list_actions_by_status
list_active_actions c = list_actions_by_status c is_active

-- `action_id IN (...) AND status = 'pending'`
abbrev pub deliver : Call → List Bytes → DeviceActionRecord → DeviceActionRecord
unfolding bytes_eq
deliver c ids a =
    if in_list a.action_id ids && is_pending a.status
    then record a {
      status = delivered;
      delivered_at_unix = if is_zero a.delivered_at_unix then c.now_unix else a.delivered_at_unix;
    }
    else a

-- MarkActionsDelivered
unfoldable pub mark_actions_delivered :
    Call → List Bytes → Registry → Result Err (Unit {0}) × Registry
unfolding trim_space bytes_eq
mark_actions_delivered c [] r = (ok tt, r)
mark_actions_delivered c (id ∷ ids) r =
    end_write
      (write c (ok (record r { actions = map (deliver c (map trim_space (id ∷ ids))) r.actions })))
      r
