-- ===== src/Observability/Sampler.antt =====
-- durationSampler of internal/observability/recorder.go: the last durations, in a ring, and their
-- percentiles. Durations are nanoseconds. The counts of 64 bits are natural numbers: they grow by
-- one for each call.
pub mod Ring
pub mod Percentiles
use roodox_sever_win.Base.{
  ℕ, zero, suc, ◌+◌, ◌-◌, ◌*◌, ◌/◌, ◌%◌, Bool, List, [], ◌∷◌, ◌++◌, length, ℤ, pos_part,
  non_positive, ltb, leb, max, if◌then◌else◌, ◌==◌,
}

pub record DurationSampler : Type 0 where
  pub values : List ℕ
  pub limit : ℤ
  pub next : ℕ
  pub count : ℕ

pub record DurationStats : Type 0 where
  pub count : ℕ
  pub p50_ms : ℕ
  pub p95_ms : ℕ
  pub p99_ms : ℕ

-- A sampler of a new recorder.
abbrev pub empty_sampler : ℤ → DurationSampler
empty_sampler limit = record { values = []; limit = limit; next = 0; count = 0 }

-- A negative duration counts as 0.
abbrev pub milliseconds : ℤ → ℕ
milliseconds d = pos_part d / 1_000_000

-- s.values[i] = x, for an index in range.
unfoldable pub set_at : ℕ → ℕ → List ℕ → List ℕ
set_at i x [] = []
set_at zero x (y ∷ ys) = x ∷ ys
set_at (suc i) x (y ∷ ys) = y ∷ set_at i x ys

-- durationSampler.Add
unfoldable pub add : DurationSampler → ℤ → DurationSampler
add s duration =
    let ms = milliseconds duration in
    if non_positive s.limit
    then record s { count = suc s.count; values = s.values ++ (ms ∷ []) }
    else if ltb (length s.values) (pos_part s.limit)
    then record s { count = suc s.count; values = s.values ++ (ms ∷ []) }
    else record s {
      count = suc s.count;
      values = set_at s.next ms s.values;
      next = suc s.next % pos_part s.limit;
    }

-- sort.Slice of numbers.
unfoldable pub insert_sorted : ℕ → List ℕ → List ℕ
insert_sorted x [] = x ∷ []
insert_sorted x (y ∷ ys) = let rest = insert_sorted x ys in if ltb x y then x ∷ y ∷ ys else y ∷ rest

unfoldable pub sort_values : List ℕ → List ℕ
unfolding insert_sorted
sort_values [] = []
sort_values (x ∷ xs) = insert_sorted x (sort_values xs)

-- values[i], for an index in range.
unfoldable pub value_at : ℕ → List ℕ → ℕ
value_at i [] = 0
value_at zero (x ∷ xs) = x
value_at (suc i) (x ∷ xs) = value_at i xs

-- The index, from 1, of a percentile between 0 and 100.
abbrev pub rank : ℕ → ℕ → ℕ
rank n p =
    let index = (n * p + 99) / 100 in
    let at_least = if leb index 0 then 1 else index in if ltb n at_least then n else at_least

unfoldable pub percentile : List ℕ → ℕ → ℕ
percentile values p =
    if length values == 0
    then 0
    else if leb p 0
    then value_at 0 values
    else if leb 100 p
    then value_at (length values - 1) values
    else value_at (rank (length values) p - 1) values

-- durationSampler.Snapshot
unfoldable pub snapshot : DurationSampler → DurationStats
unfolding sort_values percentile
snapshot s =
    let values = sort_values s.values in
    if length s.values == 0
    then record { count = s.count; p50_ms = 0; p95_ms = 0; p99_ms = 0 }
    else record {
      count = s.count;
      p50_ms = percentile values 50;
      p95_ms = percentile values 95;
      p99_ms = percentile values 99;
    }
