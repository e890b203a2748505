-- ===== src/Cleanup/Janitors.antt =====
-- cleanupFilesByPolicy of internal/serverapp/file_janitors.go, which the conflict, log and artifact
-- janitors share, and the conditions under which these are made. Times are nanoseconds, sizes are
-- natural numbers whose sums stay below 2^63, and `removes` says which removals succeed. Items of
-- one time and one name, which sort.Slice puts in any order, keep the order of the list.
pub mod Ages
pub mod Policies
mod Tests
use roodox_sever_win.Base.{
  ℕ, suc, ◌+◌, ◌-◌, Bool, true, false, not, ◌&&◌, ◌||◌, Option, none, some, List, [], ◌∷◌, Bytes,
  bytes_less, ℤ, pos, pos_part, non_positive, is_negative, ltz, ltb, leb, length, if◌then◌else◌,
  ◌==◌,
}
use roodox_sever_win.Base.Space.{is_blank}
use roodox_sever_win.Base.Time.{elapsed}
use roodox_sever_win.Fs.RelPath.{has_prefix}

-- artifactCleanupItem
pub record Item : Type 0 where
  pub path : Bytes
  pub name : Bytes
  pub size : ℕ
  pub mod_time : ℕ

-- By time, and by name among those of one time.
abbrev pub is_before : Item → Item → Bool
is_before a b =
    if a.mod_time == b.mod_time then bytes_less a.name b.name else ltb a.mod_time b.mod_time

unfoldable pub insert_item : Item → List Item → List Item
insert_item a [] = a ∷ []
insert_item a (b ∷ bs) =
    let rest = insert_item a bs in if is_before b a then b ∷ rest else a ∷ b ∷ bs

unfoldable pub sort_items : List Item → List Item
unfolding insert_item
sort_items [] = []
sort_items (a ∷ xs) = insert_item a (sort_items xs)

-- The items that are kept, and what has been removed.
pub record Outcome : Type 0 where
  pub kept : List Item
  pub count : ℕ
  pub bytes : ℕ

abbrev pub keep : Item → Outcome → Outcome
keep a o = record o { kept = a ∷ o.kept }

-- An item that is removed, if that succeeds.
abbrev pub count_removed : Bool → Item → Outcome → Outcome
count_removed true a o = record o { count = suc o.count; bytes = a.size + o.bytes }
count_removed false a o = o

-- `retention > 0 && now.Sub(item.modTime) > retention`
unfoldable pub is_expired : ℤ → ℕ → Item → Bool
is_expired retention now a = not (non_positive retention) && ltz retention (elapsed now a.mod_time)

-- The first loop: an expired item is kept no longer, even if its removal fails.
unfoldable pub expire : ℤ → ℕ → (Item → Bool) → List Item → Outcome
unfolding is_expired
expire retention now removes [] = record { kept = []; count = 0; bytes = 0 }
expire retention now removes (a ∷ xs) =
    let rest = expire retention now removes xs in
    if is_expired retention now a then count_removed (removes a) a rest else keep a rest

unfoldable pub total_bytes : List Item → ℕ
total_bytes [] = 0
total_bytes (a ∷ xs) = a.size + total_bytes xs

-- The second loop, for a limit that is positive: an item whose removal fails is kept.
unfoldable pub limit : ℕ → ℕ → (Item → Bool) → List Item → Outcome
limit total max removes [] = record { kept = []; count = 0; bytes = 0 }
limit total max removes (a ∷ xs) =
    let same = keep a (limit total max removes xs) in
    let less = count_removed true a (limit (total - a.size) max removes xs) in
    if leb total max then same else if removes a then less else same

unfoldable pub limit_by : ℤ → (Item → Bool) → List Item → Outcome
unfolding limit total_bytes
limit_by max_bytes removes xs =
    if non_positive max_bytes
    then record { kept = xs; count = 0; bytes = 0 }
    else limit (total_bytes xs) (pos_part max_bytes) removes xs

-- The earliest expiry, or the zero time.
unfoldable pub due_from : ℕ → ℤ → List Item → ℕ
due_from next retention [] = next
due_from next retention (a ∷ xs) =
    let at = a.mod_time + pos_part retention in
    due_from (if next == 0 || ltb at next then at else next) retention xs

abbrev pub next_due : ℤ → List Item → ℕ
next_due retention xs = if non_positive retention then 0 else due_from 0 retention xs

-- What is kept, and all that has been removed.
unfoldable pub apply_policy : ℤ → ℤ → ℕ → (Item → Bool) → List Item → Outcome
unfolding sort_items expire limit_by
apply_policy retention max_bytes now removes items =
    let first = expire retention now removes (sort_items items) in
    let second = limit_by max_bytes removes first.kept in
    record {
      kept = second.kept;
      count = first.count + second.count;
      bytes = first.bytes + second.bytes;
    }

-- cleanupFilesByPolicy: the count and the bytes of the removed items, and when it is due again.
unfoldable pub cleanup_files_by_policy : List Item → ℕ → ℤ → ℤ → (Item → Bool) → ℕ × ℕ × ℕ
unfolding apply_policy due_from
cleanup_files_by_policy items now retention max_bytes removes =
    let o = apply_policy retention max_bytes now removes items in
    if length items == 0 then (0, 0, 0) else (o.count, o.bytes, next_due retention o.kept)

-- hasArtifactPrefix
unfoldable pub has_artifact_prefix : Bytes → List Bytes → Bool
has_artifact_prefix name [] = false
has_artifact_prefix name (p ∷ ps) =
    let rest = has_artifact_prefix name ps in if has_prefix name p then true else rest
