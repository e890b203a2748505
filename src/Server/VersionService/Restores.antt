-- ===== src/Server/VersionService/Restores.antt =====
-- What GetVersion reads of a version that WriteFile has answered.
use roodox_sever_win.Base.{
  ℕ, suc, ◌≡◌, ◌≢◌, refl, sym, ap, ◌∙◌, none, some, Bool, true, false, Bytes, bytes_eq,
}
use roodox_sever_win.Errors.{Result, Code, ok, err}
use roodox_sever_win.Fs.RelPath.{normalize_relative_path, is_rooted}
use roodox_sever_win.Fs.Root.{normalize_project_path}
use roodox_sever_win.Fs.Root.Requests.{normalize_project_path_lem}
use roodox_sever_win.Db.Tables.{Tables, VersionRecord}
use roodox_sever_win.Db.Versions.{get_record, get_version_data, change_delete, current_version}
use roodox_sever_win.Db.Versions.Bounds.{IsBounded}
use roodox_sever_win.Server.Mutations.{
  Store, FileHeadState, SnapshotFaults, resolve_file_head, change_type_of,
}
use roodox_sever_win.Server.Sync.{Env, WriteFileResponse, written, is_stale, do_write_file}
use roodox_sever_win.Server.Sync.Accepted.{
  Accepts, fails, unchanged, saved, new_record, do_write_file_accepted,
}
use mathlib.Core.Path.{subst}
use roodox_sever_win.Server.VersionService.{get_version}

-- A database that reports no error.
abbrev pub no_faults : SnapshotFaults
no_faults = record { find = none; content = none }

not_deleted : (existed : Bool) → bytes_eq (change_type_of existed) change_delete ≡ false
unfolding bytes_eq
not_deleted true = refl
not_deleted false = refl

-- The version that a record and its content are found under.
stored_version :
    (t : Tables) (path p : Bytes) (v : ℕ) (rec : VersionRecord) (content : Bytes)
    → normalize_relative_path path ≡ ok p
    → get_record t p v ≡ ok rec
    → bytes_eq rec.change_type change_delete ≡ false
    → get_version_data t p v ≡ ok content
    → get_version no_faults t path v ≡ ok content
unfolding get_version
stored_version t path p v rec content a b c d = rw (a, b, c, d) refl

accepted_version :
    (env : Env) (s : Store) (path p bytes : Bytes) (head : FileHeadState)
    (r : Result Code WriteFileResponse × Store) (v : ℕ)
    → normalize_relative_path path ≡ ok p
    → env.compute_hash bytes ≢ head.hash
    → Accepts env s p (some bytes) head r
    → r.0 ≡ ok (written v)
    → get_version no_faults r.1.tables path v ≡ ok bytes
accepted_version env s path p bytes head _ v n other (fails c s' a b) e = absurd (cc e)
accepted_version env s path p bytes head _ v n other (unchanged x h) e = absurd (other h)
accepted_version env s path p bytes head _ v n other (saved s' a b x c) e =
    let same : suc (current_version s.tables p) ≡ v = version_of e in
    subst (λ w. get_version no_faults s'.tables path w ≡ ok bytes) same
      (stored_version s'.tables path p (suc (current_version s.tables p))
        (new_record env s p (some bytes) head) bytes n x.found (not_deleted head.exists)
        x.content_found)
  where
    version_of :
        {a b : ℕ}
        → ◌≡◌ {A = Result Code WriteFileResponse} (ok (written a)) (ok (written b))
        → a ≡ b
    version_of {a} {b} h = ap number h
      where
        number : Result Code WriteFileResponse → ℕ
        number (ok w) = w.new_version
        number (err c) = 0

-- What WriteFile stores can be read back: when the root is absolute, the path normalises to p,
-- the head of p is found, the base version is not stale, the bytes are a slice that is not nil
-- and have another hash than the head, and the tables are bounded, and WriteFile answers with
-- version v, then GetVersion of that path and v answers with the bytes, unless the database
-- reports an error.
pub get_version-do_write_file :
    (env : Env) (s : Store) (path p bytes : Bytes) (base : ℕ) (head : FileHeadState) (v : ℕ)
    → IsBounded s.tables
    → is_rooted env.root ≡ true
    → normalize_project_path env.root path ≡ ok p
    → resolve_file_head env.head s p ≡ ok head
    → is_stale base head.version ≡ false
    → env.compute_hash bytes ≢ head.hash
    → (do_write_file env s path (some bytes) base).0 ≡ ok (written v)
    → get_version no_faults (do_write_file env s path (some bytes) base).1.tables path v ≡ ok bytes
get_version-do_write_file env s path p bytes base head v b root n h fresh other e =
    accepted_version env s path p bytes head (do_write_file env s path (some bytes) base) v
      (sym (normalize_project_path_lem env.root path root) ∙ n) other
      (do_write_file_accepted env s path p (some bytes) base head b n h fresh) e
