-- ===== src/Base/Dict.antt =====
-- A Go map from byte strings, as an association list. Where the program ranges over a map the
-- order of the entries is that of the list.
use mathlib.Core.Path.{◌≡◌, refl}
use mathlib.Core.Bool.{Bool, false, ◌||◌}
use roodox_sever_win.Base.Lists.{keep_if}
use mathlib.Core.List.{List, [], ◌∷◌}
use mathlib.Core.Option.{Option, none, some}
use native.Mathlib.Omega.{arith}
use roodox_sever_win.Base.Tests.{if◌then◌else◌}
use roodox_sever_win.Base.Text.{Bytes, bytes_eq, bytes_eq_iff}

abbrev pub Dict {ℓ} : Type ℓ → Type ℓ
Dict V = List (Bytes × V)

module _ {ℓ} {V : Type ℓ} where
  -- v, ok := m[k]
  unfoldable pub get : Dict V → Bytes → Option V
  get [] k = none
  get ((j, v) ∷ d) k = if bytes_eq j k then some v else get d k

  -- delete(m, k)
  unfoldable pub remove : Dict V → Bytes → Dict V
  remove [] k = []
  remove ((j, v) ∷ d) k = let rest = remove d k in if bytes_eq j k then rest else (j, v) ∷ rest

  -- m[k] = v
  unfoldable pub put : Dict V → Bytes → V → Dict V
  put d k v = (k, v) ∷ remove d k

  unfoldable pub bytes_in : Bytes → Dict V → Bool
  bytes_in k [] = false
  bytes_in k ((j, v) ∷ d) = bytes_eq j k || bytes_in k d

  pub get-remove :
      (d : Dict V) (k j : Bytes) → get (remove d k) j ≡ (if bytes_eq k j then none else get d j)
  unfolding get remove
  get-remove [] k j = ground arith
  get-remove ((i, v) ∷ d) k j =
      ground (arith, get-remove d k j, bytes_eq_iff i k, bytes_eq_iff i j, bytes_eq_iff k j)

  pub get-put :
      (d : Dict V) (k j : Bytes) (v : V)
      → get (put d k v) j ≡ (if bytes_eq k j then some v else get d j)
  unfolding get put
  get-put d k j v = ground (arith, get-remove d k j)

  -- Every key has one entry, as in a Go map.
  abbrev pub Distinct : Dict V → Type 0
  Distinct [] = Unit
  Distinct ((k, v) ∷ d) = (bytes_in k d ≡ false) × Distinct d

  pub bytes_in-remove :
      (d : Dict V) (k j : Bytes)
      → bytes_in j (remove d k) ≡ (if bytes_eq k j then false else bytes_in j d)
  unfolding bytes_in remove
  bytes_in-remove [] k j = ground arith
  bytes_in-remove ((i, v) ∷ d) k j =
      ground (arith, bytes_in-remove d k j, bytes_eq_iff i k, bytes_eq_iff i j, bytes_eq_iff k j)

  pub remove-Distinct : (d : Dict V) (k : Bytes) → Distinct d → Distinct (remove d k)
  unfolding remove
  remove-Distinct [] k h = tt
  remove-Distinct ((i, v) ∷ d) k h = ground (arith, remove-Distinct d k h.1, bytes_in-remove d k i)

  pub put-Distinct : (d : Dict V) (k : Bytes) (v : V) → Distinct d → Distinct (put d k v)
  unfolding put
  put-Distinct d k v h =
      (ground (arith, bytes_in-remove d k k, bytes_eq_iff k k), remove-Distinct d k h)

  pub get_absent : (d : Dict V) (k : Bytes) → bytes_in k d ≡ false → get d k ≡ none
  unfolding get bytes_in
  get_absent [] k h = refl
  get_absent ((j, v) ∷ d) k h = ground (arith, get_absent d k)

  pub bytes_in-keep_if :
      (p : Bytes × V → Bool) (d : Dict V) (k : Bytes)
      → bytes_in k d ≡ false
      → bytes_in k (keep_if p d) ≡ false
  unfolding bytes_in
  bytes_in-keep_if p [] k h = refl
  bytes_in-keep_if p ((j, v) ∷ d) k h = ground (arith, bytes_in-keep_if p d k)

  pub keep_if-Distinct : (p : Bytes × V → Bool) (d : Dict V) → Distinct d → Distinct (keep_if p d)
  keep_if-Distinct p [] h = tt
  keep_if-Distinct p ((j, v) ∷ d) h =
      ground (arith, keep_if-Distinct p d h.1, bytes_in-keep_if p d j h.0)

  -- What a lookup finds, if it passes the test.
  abbrev pub passing : (V → Bool) → Option V → Option V
  passing p none = none
  passing p (some v) = if p v then some v else none

  pub get-keep_if :
      (p : V → Bool) (d : Dict V) (k : Bytes)
      → Distinct d
      → get (keep_if (λ e. p e.1) d) k ≡ passing p (get d k)
  unfolding get
  get-keep_if p [] k h = refl
  get-keep_if p ((j, v) ∷ d) k h = ground (
    arith,
    get-keep_if p d k h.1,
    bytes_eq_iff j k,
    get_absent (keep_if (λ e. p e.1) d) j (bytes_in-keep_if (λ e. p e.1) d j h.0),
  )
