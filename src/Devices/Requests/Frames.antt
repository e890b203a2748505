-- ===== src/Devices/Requests/Frames.antt =====
-- How a property of the registry passes through the frames that the calls and handlers share.
use roodox_sever_win.Base.{Bool, true, false, Bytes, Option, none, some, if◌then◌else◌}
use roodox_sever_win.Base.Space.{trim_space}
use roodox_sever_win.Errors.{Result, Code, ok, err, Err, to_grpc_error}
use roodox_sever_win.Devices.Tables.{DeviceRecord, Registry, Call}
use roodox_sever_win.Devices.Lists.{is_empty}
use roodox_sever_win.Devices.Reports.{
  update_known_device, write, report, read_back, end_write, get_device,
}
use roodox_sever_win.Devices.Policies.{read_policy_back, get_policy}
use roodox_sever_win.Devices.ControlPlane.{with_device_id, then_do, respond}

module _ (P : Registry → Type 0) where
  -- If a statement or transaction commits, the property holds after it.
  abbrev pub Commits : Result Err Registry → Type 0
  Commits (ok r) = P r
  Commits (err e) = Unit

  pub write-Commits : (c : Call) (x : Result Err Registry) → Commits x → Commits (write c x)
  write-Commits c x h = by_fault c.write_fault
    where
      by_fault : (o : Option Err) → Commits (elim o [ none ↦ x | some e ↦ err e ])
      by_fault none = h
      by_fault (some e) = tt

  pub read_back_kept :
      (c : Call) (id : Bytes) (x : Result Err Registry) (r : Registry)
      → P r
      → Commits x
      → P (read_back c id x r).1
  unfolding get_device
  read_back_kept c id (ok r') r h k = k
  read_back_kept c id (err e) r h k = h

  pub read_policy_back_kept :
      (c : Call) (id : Bytes) (x : Result Err Registry) (r : Registry)
      → P r
      → Commits x
      → P (read_policy_back c id x r).1
  unfolding get_policy
  read_policy_back_kept c id (ok r') r h k = k
  read_policy_back_kept c id (err e) r h k = h

  pub end_write_kept :
      (x : Result Err Registry) (r : Registry) → P r → Commits x → P (end_write x r).1
  end_write_kept (ok r') r h k = k
  end_write_kept (err e) r h k = h

  pub guard_kept {ℓ} :
      {A : Type ℓ} (b : Bool) (x y : A × Registry) → P x.1 → P y.1 → P (if b then x else y).1
  guard_kept true x y h k = h
  guard_kept false x y h k = k

  pub report_kept :
      (c : Call) (id : Bytes) (f : DeviceRecord → DeviceRecord) (r : Registry)
      → P r
      → Commits (update_known_device (trim_space id) f r)
      → P (report c id f r).1
  unfolding trim_space update_known_device get_device
  report_kept c id f r h k = guard_kept (is_empty (trim_space id)) _ _ h (
      read_back_kept c (trim_space id) (write c (update_known_device (trim_space id) f r)) r h
        (write-Commits c (update_known_device (trim_space id) f r) k))

  pub with_device_id_kept {ℓ} :
      {A : Type ℓ} (id : Bytes) (r : Registry) (f : Bytes → Result Code A × Registry)
      → P r
      → P (f (trim_space id)).1
      → P (with_device_id id r f).1
  unfolding trim_space
  with_device_id_kept id r f h k = guard_kept (is_empty (trim_space id)) _ _ h k

  pub then_do_kept {ℓ κ} :
      {A : Type ℓ} {B : Type κ} (x : Result Err A × Registry)
      (f : A → Registry → Result Code B × Registry)
      → P x.1
      → ((a : A) → P (f a x.1).1)
      → P (then_do x f).1
  unfolding to_grpc_error
  then_do_kept (ok a, r) f h k = k a
  then_do_kept (err e, r) f h k = h

  pub respond_kept {ℓ κ} :
      {A : Type ℓ} {B : Type κ} (f : A → B) (x : Result Err A × Registry)
      → P x.1
      → P (respond f x).1
  unfolding to_grpc_error
  respond_kept f (ok a, r) h = h
  respond_kept f (err e, r) h = h
