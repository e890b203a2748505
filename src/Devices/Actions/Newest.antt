-- ===== src/Devices/Actions/Newest.antt =====
-- Which actions a device is given: the pending ones that were requested last.
use roodox_sever_win.Base.{
  ℕ, ℤ, pos, negsuc, ltz, ◌≤◌, ◌≡◌, refl, sym, ap, ◌∙◌, ◌⊎◌, inl, inr, Bool, true, false,
  Bool-cases, Bytes, bytes_eq, bytes_less, List, [], ◌∷◌, ◌++◌, ◌&&◌, length, drop, keep_if, map,
  arith, if◌then◌else◌,
}
use mathlib.Core.List.{Perm}
use roodox_sever_win.Server.PathLocker.Orders.{less_irrefl, less_trans}
use roodox_sever_win.Devices.Tables.{
  ActionStatus, pending, delivered, cancelled, DeviceActionRecord, Call,
}
use roodox_sever_win.Devices.Lists.{in_list, is_zero, order_by}
use roodox_sever_win.Devices.Lists.Orders.{
  Chains, order_by-Chains, order_by-Perm, take-drop, take_cases, keep_if_same,
}
use roodox_sever_win.Devices.Actions.{
  is_pending, has_status, action_before, selected_actions, deliver,
}

-- An action waits for a device.
abbrev waits_as : ActionStatus → Bool
waits_as pending = true
waits_as delivered = false
waits_as cancelled = false

abbrev pub waits_for : Bytes → DeviceActionRecord → Bool
unfolding bytes_eq
waits_for device_id a = bytes_eq a.device_id device_id && waits_as a.status

-- The first was requested after the second, or both at one time and its id is not smaller.
abbrev pub NotEarlier : DeviceActionRecord → DeviceActionRecord → Type 0
unfolding bytes_less
NotEarlier a b =
    (ltz b.requested_at_unix a.requested_at_unix ≡ true)
    ⊎ ((a.requested_at_unix ≡ b.requested_at_unix) × (bytes_less a.action_id b.action_id ≡ false))

abbrev NotEarlierThanNext : DeviceActionRecord → List DeviceActionRecord → Type 0
unfolding bytes_less
NotEarlierThanNext a [] = Unit
NotEarlierThanNext a (b ∷ bs) = NotEarlier a b

abbrev pub LatestFirst : List DeviceActionRecord → Type 0
unfolding bytes_less
LatestFirst [] = Unit
LatestFirst (a ∷ rest) = NotEarlierThanNext a rest × LatestFirst rest

-- The actions that wait for a device, each once, the latest request first, are those handed out
-- and then the others; as many are handed out as the limit says, or all.
pub record IsNewest (device_id : Bytes) (limit : ℕ) (xs handed : List DeviceActionRecord)
    : Type 0 where
  pub others : List DeviceActionRecord
  pub arranged : Perm (handed ++ others) (keep_if (waits_for device_id) xs)
  pub ordered : LatestFirst (handed ++ others)
  pub count : (length handed ≡ limit) ⊎ ((length handed ≤ limit) × (others ≡ []))

-- What a row is after the actions with these ids are delivered at a time.
pub data Delivers (ids : List Bytes) (now : ℤ)
    : DeviceActionRecord → DeviceActionRecord → Type 0 where
  is_delivered :
      (a : DeviceActionRecord) (at : ℤ)
      → in_list a.action_id ids ≡ true
      → a.status ≡ pending
      → (at ≡ now) ⊎ ((a.delivered_at_unix ≡ at) × (is_zero at ≡ false))
      → Delivers ids now a (record a { status = delivered; delivered_at_unix = at })
  is_left :
      (a : DeviceActionRecord)
      → (in_list a.action_id ids ≡ true → waits_as a.status ≡ false)
      → Delivers ids now a a

pub data DeliversAll (ids : List Bytes) (now : ℤ)
    : List DeviceActionRecord → List DeviceActionRecord → Type 0 where
  none_left : DeliversAll ids now [] []
  one_more :
      (a b : DeviceActionRecord) (xs ys : List DeviceActionRecord)
      → Delivers ids now a b
      → DeliversAll ids now xs ys
      → DeliversAll ids now (a ∷ xs) (b ∷ ys)

ltz_asym : (a b : ℤ) → ltz a b ≡ true → ltz b a ≡ false
ltz_asym (pos a) (pos b) h = ground arith
ltz_asym (pos a) (negsuc b) h = cc h
ltz_asym (negsuc a) (pos b) h = refl
ltz_asym (negsuc a) (negsuc b) h = ground arith

ltz_same : (a b : ℤ) → ltz a b ≡ false → ltz b a ≡ false → a ≡ b
ltz_same (pos a) (pos b) h k = ap pos (ground arith)
ltz_same (pos a) (negsuc b) h k = cc k
ltz_same (negsuc a) (pos b) h k = cc h
ltz_same (negsuc a) (negsuc b) h k = ap negsuc (ground arith)

less_asym : (a b : Bytes) → bytes_less a b ≡ true → bytes_less b a ≡ false
less_asym a b h = elim (Bool-cases (bytes_less b a)) [
  | inl e ↦ absurd (cc (less_trans a b a h e, less_irrefl a))
  | inr e ↦ e
]

before_asym : (a b : DeviceActionRecord) → action_before a b ≡ true → action_before b a ≡ false
unfolding bytes_less
before_asym a b h = ground (
  arith,
  ltz_asym a.requested_at_unix b.requested_at_unix,
  ltz_asym b.requested_at_unix a.requested_at_unix,
  less_asym b.action_id a.action_id,
)

not_earlier : (a b : DeviceActionRecord) → action_before b a ≡ false → NotEarlier a b
unfolding bytes_less
not_earlier a b h = elim (Bool-cases (ltz a.requested_at_unix b.requested_at_unix)) [
  | inl e ↦ absurd (let k = rw e at h in cc k)
  | inr e ↦ elim (Bool-cases (ltz b.requested_at_unix a.requested_at_unix)) [
    | inl f ↦ inl f
    | inr f ↦ inr (ltz_same a.requested_at_unix b.requested_at_unix e f, rw (e, f) at h)
  ]
]

Chains-LatestFirst : (xs : List DeviceActionRecord) → Chains action_before xs → LatestFirst xs
unfolding bytes_less
Chains-LatestFirst [] c = tt
Chains-LatestFirst (a ∷ []) c = (tt, tt)
Chains-LatestFirst (a ∷ b ∷ xs) c = (not_earlier a b c.0, Chains-LatestFirst (b ∷ xs) c.1)

waits_same : (s : ActionStatus) → waits_as s ≡ is_pending s
waits_same pending = refl
waits_same delivered = refl
waits_same cancelled = refl

waits_for_same :
    (device_id : Bytes) (a : DeviceActionRecord)
    → has_status is_pending device_id a ≡ waits_for device_id a
unfolding bytes_eq
waits_for_same device_id a = rw (waits_same a.status) refl

pub selected_actions-IsNewest :
    (device_id : Bytes) (limit : ℕ) (xs : List DeviceActionRecord)
    → IsNewest device_id limit xs (selected_actions is_pending device_id limit xs)
unfolding bytes_eq bytes_less
selected_actions-IsNewest device_id limit xs =
    let rows = keep_if (has_status is_pending device_id) xs in
    let all = order_by action_before rows in
    let same =
      keep_if_same (has_status is_pending device_id) (waits_for device_id) xs
        (waits_for_same device_id) in
    record {
      others = drop limit all;
      arranged = rw (take-drop limit all) (rw (sym same) (order_by-Perm action_before rows));
      ordered =
          rw (take-drop limit all)
            (Chains-LatestFirst all (order_by-Chains action_before before_asym rows));
      count = take_cases limit all;
    }

pending_status : (s : ActionStatus) → is_pending s ≡ true → s ≡ pending
pending_status pending h = refl
pending_status delivered h = cc h
pending_status cancelled h = cc h

stamped :
    (now at : ℤ)
    → ((if is_zero at then now else at) ≡ now)
      ⊎ ((at ≡ (if is_zero at then now else at))
          × (is_zero (if is_zero at then now else at) ≡ false))
stamped now at = elim (Bool-cases (is_zero at)) [
  | inl e ↦ rw e (inl refl)
  | inr e ↦ rw e (inr (refl, e))
]

deliver-Delivers :
    (c : Call) (ids : List Bytes) (a : DeviceActionRecord)
    → Delivers ids c.now_unix a (deliver c ids a)
unfolding bytes_eq
deliver-Delivers c ids a = elim (Bool-cases (in_list a.action_id ids)) [
  | inl e ↦ elim (Bool-cases (is_pending a.status)) [
    | inl f ↦
        rw (e, f)
          (is_delivered a _ e (pending_status a.status f) (stamped c.now_unix a.delivered_at_unix))
    | inr f ↦ rw (e, f) (is_left a (λ _. waits_same a.status ∙ f))
  ]
  | inr e ↦ rw e (is_left a (λ h. cc (e, h)))
]

pub deliver-DeliversAll :
    (c : Call) (ids : List Bytes) (xs : List DeviceActionRecord)
    → DeliversAll ids c.now_unix xs (map (deliver c ids) xs)
unfolding bytes_eq
deliver-DeliversAll c ids [] = none_left
deliver-DeliversAll c ids (a ∷ xs) =
    one_more a _ xs _ (deliver-Delivers c ids a) (deliver-DeliversAll c ids xs)
