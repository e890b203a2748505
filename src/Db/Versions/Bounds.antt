-- ===== src/Db/Versions/Bounds.antt =====
-- Numbers that the tables hold lie below the path's current version, so the next one is fresh.
use roodox_sever_win.Base.{
  ℕ, suc, inl, inr, Option-cases, ◌≤◌, ◌<◌, ◌≡◌, refl, none, some, List, [], ◌∷◌, Bytes, bytes_eq,
  bytes_eq_iff, max, arith, if◌then◌else◌,
}
use roodox_sever_win.Base.Dict.{Dict, get, put, get-put}
use roodox_sever_win.Errors.{ok}
use roodox_sever_win.Db.Tables.{
  Tables, VersionRow, BlobRow, max_version, find_version, find_blob, meta_version,
}
use roodox_sever_win.Db.Versions.{current_version, next_version, ensure_file_head, bump_head}

unfoldable pub max_blob : Bytes → List BlobRow → ℕ
max_blob p [] = 0
max_blob p (b ∷ bs) =
    let rest = max_blob p bs in if bytes_eq b.path p then max b.version rest else rest

-- What the tables know of a path stays at or below its current version, and every content
-- belongs to a number that the path has reached.
pub record IsBounded (t : Tables) : Type 0 where
  pub rows : (p : Bytes) → max_version p t.version ≤ current_version t p
  pub blobs : (p : Bytes) → max_blob p t.version_blob ≤ max_version p t.version
  pub metas : (p : Bytes) → meta_version t p ≤ current_version t p

pub find_version_above :
    (p : Bytes) (v : ℕ) (rs : List VersionRow) → max_version p rs < v → find_version p v rs ≡ none
unfolding max_version find_version
find_version_above p v [] h = refl
find_version_above p v (r ∷ rs) h = ground (arith, find_version_above p v rs)

pub find_blob_above :
    (p : Bytes) (v : ℕ) (bs : List BlobRow) → max_blob p bs < v → find_blob p v bs ≡ none
unfolding max_blob find_blob
find_blob_above p v [] h = refl
find_blob_above p v (b ∷ bs) h = ground (arith, find_blob_above p v bs)

-- The heads after nextVersionTx: the number after the current one, at that path alone.
abbrev pub HeadsAt : Bytes → Tables → Dict ℕ → Type 0
HeadsAt p t heads =
    (j : Bytes)
    → get heads j ≡ (if bytes_eq p j then some (suc (current_version t p)) else get t.file_head j)

current_version_head :
    (p : Bytes) (t : Tables) (h : ℕ) → get t.file_head p ≡ some h → current_version t p ≡ h
unfolding current_version
current_version_head p t h e = rw (e, current_version)

pub next_version_lem :
    (p : Bytes) (t : Tables)
    → (heads : Dict ℕ) × (next_version p t
        ≡ ok (suc (current_version t p), record t { file_head = heads }))
      × HeadsAt p t heads
unfolding next_version ensure_file_head bump_head
next_version_lem p t = elim (Option-cases (get t.file_head p)) [
  | inl e ↦ (
    put (put t.file_head p (current_version t p)) p (suc (current_version t p)),
    ground (arith, get-put t.file_head p p (current_version t p), bytes_eq_iff p p),
    λ j. ground (
      arith,
      get-put (put t.file_head p (current_version t p)) p j (suc (current_version t p)),
      get-put t.file_head p j (current_version t p),
    ),
  )
  | inr (h, e) ↦ (
    put t.file_head p (suc (current_version t p)),
    ground (arith, current_version_head p t h e),
    λ j. get-put t.file_head p j (suc (current_version t p)),
  )
]
