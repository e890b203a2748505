-- ===== src/Devices/Actions/Lifecycle.antt =====
-- How an action changes: cancelled by a similar one, or delivered to its device.
use roodox_sever_win.Base.{
  ℤ, ◌≡◌, refl, sym, ◌∙◌, ap, inl, inr, Bytes, bytes_eq, bytes_eq_iff, Bool, true, false, List, [],
  ◌∷◌, Option, none, some, map, Bool-cases, arith, if◌then◌else◌, ◌&&◌,
}
use roodox_sever_win.Devices.Tables.{
  ActionStatus, pending, delivered, cancelled, DeviceActionRecord, Call,
}
use roodox_sever_win.Devices.Lists.{in_list, is_zero}
use roodox_sever_win.Devices.Actions.{
  deliver, cancel_similar, action_exists, is_pending, is_similar_pending,
}

-- The row of an action's id.
unfoldable pub find_action : Bytes → List DeviceActionRecord → Option DeviceActionRecord
unfolding bytes_eq
find_action id [] = none
find_action id (a ∷ actions) = if bytes_eq a.action_id id then some a else find_action id actions

-- What can become of an action: only one that is pending changes, once, by its status and the time
-- of that.
pub data Evolves (a b : DeviceActionRecord) : Type 0 where
  unchanged : b ≡ a → Evolves a b
  was_delivered :
      (t : ℤ)
      → a.status ≡ pending
      → b ≡ record a { status = delivered; delivered_at_unix = t }
      → Evolves a b
  was_cancelled :
      (t : ℤ)
      → a.status ≡ pending
      → b ≡ record a { status = cancelled; completed_at_unix = t }
      → Evolves a b

-- An action that is no longer pending is as it will stay.
settled_unchanged : (a b : DeviceActionRecord) → is_pending a.status ≡ false → Evolves a b → b ≡ a
settled_unchanged a b h (unchanged e) = e
settled_unchanged a b h (was_delivered t p e) = absurd (let g = sym h ∙ ap is_pending p in cc g)
settled_unchanged a b h (was_cancelled t p e) = absurd (let g = sym h ∙ ap is_pending p in cc g)

pub Evolves-trans : (a b c : DeviceActionRecord) → Evolves a b → Evolves b c → Evolves a c
Evolves-trans a b c (unchanged e) q = rw (sym e) q
Evolves-trans a b c (was_delivered t p e) q =
    was_delivered t p (settled_unchanged b c (ap (λ x. is_pending x.status) e) q ∙ e)
Evolves-trans a b c (was_cancelled t p e) q =
    was_cancelled t p (settled_unchanged b c (ap (λ x. is_pending x.status) e) q ∙ e)

is_pending→pending : (s : ActionStatus) → is_pending s ≡ true → s ≡ pending
is_pending→pending pending h = refl
is_pending→pending delivered h = cc h
is_pending→pending cancelled h = cc h

and_right : (x y : Bool) → (x && y) ≡ true → y ≡ true
and_right x y h = ground arith

pub deliver-Evolves :
    (c : Call) (ids : List Bytes) (a : DeviceActionRecord) → Evolves a (deliver c ids a)
unfolding bytes_eq
deliver-Evolves c ids a = by_test _ refl
  where
    by_test :
        (b : Bool)
        → (in_list a.action_id ids && is_pending a.status) ≡ b
        → Evolves a (
            if b
            then record a {
              status = delivered;
              delivered_at_unix =
                  if is_zero a.delivered_at_unix then c.now_unix else a.delivered_at_unix;
            }
            else a)
    by_test true e =
        was_delivered (if is_zero a.delivered_at_unix then c.now_unix else a.delivered_at_unix)
          (is_pending→pending a.status
            (and_right (in_list a.action_id ids) (is_pending a.status) e))
          refl
    by_test false e = unchanged refl

pub cancel-Evolves :
    (c : Call) (device_id action_type : Bytes) (a : DeviceActionRecord)
    → Evolves a (cancel_similar c device_id action_type a)
unfolding bytes_eq
cancel-Evolves c device_id action_type a = by_test _ refl
  where
    by_test :
        (b : Bool)
        → is_similar_pending device_id action_type a ≡ b
        → Evolves a
            (if b then record a { status = cancelled; completed_at_unix = c.now_unix } else a)
    by_test true e =
        was_cancelled c.now_unix
          (is_pending→pending a.status (
            and_right (bytes_eq a.action_type action_type) (is_pending a.status) (
              and_right (bytes_eq a.device_id device_id)
                (bytes_eq a.action_type action_type && is_pending a.status) e)))
          refl
    by_test false e = unchanged refl

Evolves-same_id : (a b : DeviceActionRecord) → Evolves a b → b.action_id ≡ a.action_id
Evolves-same_id a b (unchanged e) = ap (λ x. x.action_id) e
Evolves-same_id a b (was_delivered t p e) = ap (λ x. x.action_id) e
Evolves-same_id a b (was_cancelled t p e) = ap (λ x. x.action_id) e

-- Every action of the first table is in the second, as it has evolved.
abbrev pub Follow : List DeviceActionRecord → List DeviceActionRecord → Type 0
Follow xs ys =
    (id : Bytes) (a : DeviceActionRecord)
    → find_action id xs ≡ some a
    → (b : DeviceActionRecord) × (find_action id ys ≡ some b) × Evolves a b

pub map-Follow :
    (f : DeviceActionRecord → DeviceActionRecord)
    → ((a : DeviceActionRecord) → Evolves a (f a))
    → (xs : List DeviceActionRecord) → Follow xs (map f xs)
unfolding find_action
map-Follow f ev [] id a h = cc h
map-Follow f ev (x ∷ xs) id a h = elim (Bool-cases (bytes_eq x.action_id id)) [
  | inl e ↦ (
    f x,
    ground (arith, Evolves-same_id x (f x) (ev x)),
    let same : x ≡ a = ground arith in rw (sym same) (ev x),
  )
  | inr e ↦
      let (b, g, k) = map-Follow f ev xs id a (ground arith) in
      (b, ground (arith, Evolves-same_id x (f x) (ev x)), k)
]

found_exists :
    (id : Bytes) (a : DeviceActionRecord) (xs : List DeviceActionRecord)
    → find_action id xs ≡ some a
    → action_exists id xs ≡ true
unfolding find_action action_exists
found_exists id a [] h = cc h
found_exists id a (x ∷ xs) h = ground (arith, found_exists id a xs)

pub insert-Follow :
    (n : DeviceActionRecord) (xs : List DeviceActionRecord)
    → action_exists n.action_id xs ≡ false
    → Follow xs (n ∷ xs)
unfolding find_action action_exists
insert-Follow n xs free id a h = elim (Bool-cases (bytes_eq n.action_id id)) [
  | inl e ↦ absurd (cc (free, found_exists id a xs h, (bytes_eq_iff n.action_id id).0 e))
  | inr e ↦ (a, ground arith, unchanged refl)
]

pub Follow-refl : (xs : List DeviceActionRecord) → Follow xs xs
Follow-refl xs id a h = (a, h, unchanged refl)

pub Follow-trans : (xs ys zs : List DeviceActionRecord) → Follow xs ys → Follow ys zs → Follow xs zs
Follow-trans xs ys zs p q id a h =
    let (b, f, u) = p id a h in let (c, g, v) = q id b f in (c, g, Evolves-trans a b c u v)
