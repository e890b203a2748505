-- ===== src/Devices/Actions/Settled.antt =====
-- Actions that are no longer pending, and the pending ones that a query selects.
use roodox_sever_win.Base.{
  ℕ, ◌≡◌, refl, ◌∙◌, inl, inr, Bytes, bytes_eq, bytes_eq_iff, bytes_less, Bool, true, false, List,
  [], ◌∷◌, map, keep_if, Bool-cases, arith, ◌&&◌, ◌||◌,
}
use roodox_sever_win.Devices.Tables.{DeviceActionRecord, Call}
use roodox_sever_win.Devices.Lists.{in_list, order_by}
use roodox_sever_win.Devices.Lists.Laws.{Every, Every-order_by, Every-take}
use roodox_sever_win.Devices.Actions.{
  deliver, cancel_similar, action_exists, is_pending, selected_actions, action_before, has_status,
}

unfoldable pub has_pending : Bytes → List DeviceActionRecord → Bool
unfolding bytes_eq
has_pending id [] = false
has_pending id (a ∷ xs) = (bytes_eq a.action_id id && is_pending a.status) || has_pending id xs

-- The table holds the action, and not as pending.
abbrev pub IsSettled : Bytes → List DeviceActionRecord → Type 0
unfolding has_pending action_exists
IsSettled id xs = (action_exists id xs ≡ true) × (has_pending id xs ≡ false)

-- A change of rows that keeps every id and makes no action pending.
module _ (f : DeviceActionRecord → DeviceActionRecord)
    (same_id : (a : DeviceActionRecord) → (f a).action_id ≡ a.action_id)
    (still : (a : DeviceActionRecord)
      → is_pending a.status ≡ false
      → is_pending (f a).status ≡ false) where
  action_exists-map :
      (id : Bytes) (xs : List DeviceActionRecord)
      → action_exists id (map f xs) ≡ action_exists id xs
  unfolding action_exists
  action_exists-map id [] = refl
  action_exists-map id (x ∷ xs) = rw (same_id x, action_exists-map id xs) refl

  has_pending-map :
      (id : Bytes) (xs : List DeviceActionRecord)
      → has_pending id xs ≡ false
      → has_pending id (map f xs) ≡ false
  unfolding has_pending
  has_pending-map id [] h = refl
  has_pending-map id (x ∷ xs) h = ground (arith, same_id x, still x, has_pending-map id xs)

  pub map-IsSettled :
      (id : Bytes) (xs : List DeviceActionRecord) → IsSettled id xs → IsSettled id (map f xs)
  unfolding has_pending action_exists
  map-IsSettled id xs h = (action_exists-map id xs ∙ h.0, has_pending-map id xs h.1)

pub deliver_id :
    (c : Call) (ids : List Bytes) (a : DeviceActionRecord)
    → (deliver c ids a).action_id ≡ a.action_id
unfolding bytes_eq
deliver_id c ids a = ground arith

deliver_still :
    (c : Call) (ids : List Bytes) (a : DeviceActionRecord)
    → is_pending a.status ≡ false
    → is_pending (deliver c ids a).status ≡ false
unfolding bytes_eq
deliver_still c ids a h = ground arith

pub deliver-IsSettled :
    (c : Call) (ids : List Bytes) (id : Bytes) (xs : List DeviceActionRecord)
    → IsSettled id xs
    → IsSettled id (map (deliver c ids) xs)
deliver-IsSettled c ids = map-IsSettled (deliver c ids) (deliver_id c ids) (deliver_still c ids)

pub cancel_id :
    (c : Call) (dev type : Bytes) (a : DeviceActionRecord)
    → (cancel_similar c dev type a).action_id ≡ a.action_id
unfolding bytes_eq
cancel_id c dev type a = ground arith

cancel_still :
    (c : Call) (dev type : Bytes) (a : DeviceActionRecord)
    → is_pending a.status ≡ false
    → is_pending (cancel_similar c dev type a).status ≡ false
unfolding bytes_eq
cancel_still c dev type a h = ground arith

pub cancel-IsSettled :
    (c : Call) (dev type id : Bytes) (xs : List DeviceActionRecord)
    → IsSettled id xs
    → IsSettled id (map (cancel_similar c dev type) xs)
cancel-IsSettled c dev type =
    map-IsSettled (cancel_similar c dev type) (cancel_id c dev type) (cancel_still c dev type)

pub insert-IsSettled :
    (n : DeviceActionRecord) (id : Bytes) (xs : List DeviceActionRecord)
    → action_exists n.action_id xs ≡ false
    → IsSettled id xs
    → IsSettled id (n ∷ xs)
unfolding has_pending action_exists
insert-IsSettled n id xs free h = elim (Bool-cases (bytes_eq n.action_id id)) [
  | inl e ↦ absurd (cc (free, h.0, (bytes_eq_iff n.action_id id).0 e))
  | inr e ↦ ground arith
]

pub pending_exists :
    (id : Bytes) (xs : List DeviceActionRecord)
    → has_pending id xs ≡ true
    → action_exists id xs ≡ true
unfolding has_pending action_exists
pending_exists id [] h = cc h
pending_exists id (x ∷ xs) h = ground (arith, pending_exists id xs)

none_left :
    (c : Call) (ids : List Bytes) (id : Bytes) (xs : List DeviceActionRecord)
    → in_list id ids ≡ true
    → has_pending id (map (deliver c ids) xs) ≡ false
unfolding has_pending
none_left c ids id [] h = refl
none_left c ids id (x ∷ xs) h = elim (Bool-cases (bytes_eq x.action_id id)) [
  | inl e ↦
      let same = (bytes_eq_iff x.action_id id).0 e in
      let found : in_list x.action_id ids ≡ true = rw same h in
      ground (arith, none_left c ids id xs h)
  | inr e ↦ ground (arith, deliver_id c ids x, none_left c ids id xs h)
]

-- A pending action with one of the ids is delivered.
pub delivered-IsSettled :
    (c : Call) (ids : List Bytes) (id : Bytes) (xs : List DeviceActionRecord)
    → in_list id ids ≡ true
    → has_pending id xs ≡ true
    → IsSettled id (map (deliver c ids) xs)
unfolding has_pending action_exists
delivered-IsSettled c ids id xs h k = (
  action_exists-map (deliver c ids) (deliver_id c ids) (deliver_still c ids) id xs
      ∙ pending_exists id xs k,
  none_left c ids id xs h,
)

filtered-HasPending :
    (dev : Bytes) (xs ys : List DeviceActionRecord)
    → ((id : Bytes) → has_pending id xs ≡ true → has_pending id ys ≡ true)
    → Every (λ a. has_pending a.action_id ys ≡ true) (keep_if (has_status is_pending dev) xs)
unfolding has_pending
filtered-HasPending dev [] ys h = tt
filtered-HasPending dev (x ∷ xs) ys h = elim (Bool-cases (has_status is_pending dev x)) [
  | inl e ↦ rw e (
    h x.action_id (ground (arith, bytes_eq_iff x.action_id x.action_id)),
    filtered-HasPending dev xs ys λ id g. h id (ground arith),
  )
  | inr e ↦ rw e (filtered-HasPending dev xs ys λ id g. h id (ground arith))
]

-- What a heartbeat selects was pending.
pub selected-HasPending :
    (dev : Bytes) (n : ℕ) (xs : List DeviceActionRecord)
    → Every (λ a. has_pending a.action_id xs ≡ true) (selected_actions is_pending dev n xs)
unfolding has_pending bytes_eq bytes_less
selected-HasPending dev n xs =
    Every-take _ n (order_by action_before (keep_if (has_status is_pending dev) xs)) (
      Every-order_by _ action_before (keep_if (has_status is_pending dev) xs)
        (filtered-HasPending dev xs xs λ id g. g))
