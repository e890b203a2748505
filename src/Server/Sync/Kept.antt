-- ===== src/Server/Sync/Kept.antt =====
-- What every WriteFile keeps, on all of its branches.
use roodox_sever_win.Base.{ℕ, ◌≡◌, inl, inr, Option, Bytes, Bool-cases}
use roodox_sever_win.Errors.{Result, ok, err, Err, Code}
use roodox_sever_win.Fs.Root.{normalize_project_path}
use roodox_sever_win.Db.Versions.Bounds.{IsBounded}
use roodox_sever_win.Db.Versions.Writes.{Keeps, Keeps-refl}
use roodox_sever_win.Server.Mutations.{Store, FileHeadState, resolve_file_head}
use roodox_sever_win.Server.Sync.{
  Env, WriteFileResponse, is_stale, write_at_head, do_write_file, write_path, write_known,
}
use roodox_sever_win.Server.Sync.Stale.{write_at_head_stale}
use roodox_sever_win.Server.Sync.Accepted.{Accepts, fails, unchanged, saved, write_at_head-Accepts}

-- The tables stay bounded, and every version reads as before.
abbrev pub KeepsHistory : Store → Store → Type 0
KeepsHistory s s' = IsBounded s'.tables × Keeps s.tables s'.tables

same_tables : (s s' : Store) → IsBounded s.tables → s'.tables ≡ s.tables → KeepsHistory s s'
same_tables s s' b e = rw e (b, Keeps-refl s.tables)

Accepts-KeepsHistory :
    (env : Env) (s : Store) (p : Bytes) (bytes : Option Bytes) (head : FileHeadState)
    (r : Result Code WriteFileResponse × Store)
    → IsBounded s.tables
    → Accepts env s p bytes head r
    → KeepsHistory s r.1
Accepts-KeepsHistory env s p bytes head _ b (fails c s' e same) = same_tables s s' b e
Accepts-KeepsHistory env s p bytes head _ b (unchanged x h) = (b, Keeps-refl s.tables)
Accepts-KeepsHistory env s p bytes head _ b (saved s' h same x b') =
    (b', record { records = x.kept; contents = x.content_kept })

known-KeepsHistory :
    (env : Env) (s : Store) (p : Bytes) (bytes : Option Bytes) (base : ℕ)
    (head : Result Err FileHeadState)
    → IsBounded s.tables
    → KeepsHistory s (write_known env s p bytes base head).1
unfolding write_known
known-KeepsHistory env s p bytes base (err e) b = (b, Keeps-refl s.tables)
known-KeepsHistory env s p bytes base (ok head) b = elim (Bool-cases (is_stale base head.version)) [
  | inl t ↦
      same_tables s (write_at_head env s p bytes base head).1 b
        (write_at_head_stale env s p bytes base head t).1
  | inr t ↦
      Accepts-KeepsHistory env s p bytes head _ b
        (write_at_head-Accepts env s p bytes base head b t)
]

path-KeepsHistory :
    (env : Env) (s : Store) (bytes : Option Bytes) (base : ℕ) (p : Result Err Bytes)
    → IsBounded s.tables
    → KeepsHistory s (write_path env s bytes base p).1
unfolding write_path
path-KeepsHistory env s bytes base (err e) b = (b, Keeps-refl s.tables)
path-KeepsHistory env s bytes base (ok p) b =
    known-KeepsHistory env s p bytes base (resolve_file_head env.head s p) b

-- Every WriteFile on bounded tables, on every branch and whatever is reported to it, leaves the
-- tables bounded, and the record and the content of every existing version of every path as they
-- were.
pub do_write_file-KeepsHistory :
    (env : Env) (s : Store) (path : Bytes) (bytes : Option Bytes) (base : ℕ)
    → IsBounded s.tables
    → KeepsHistory s (do_write_file env s path bytes base).1
unfolding do_write_file
do_write_file-KeepsHistory env s path bytes base b =
    path-KeepsHistory env s bytes base (normalize_project_path env.root path) b
