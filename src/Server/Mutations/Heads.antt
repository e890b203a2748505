-- ===== src/Server/Mutations/Heads.antt =====
-- What ResolveFileHead answers.
use roodox_sever_win.Base.{◌≡◌, refl, Option, none, some, Bytes}
use roodox_sever_win.Base.Dict.{get}
use roodox_sever_win.Errors.{Result, ok, Err, ◌>>=◌, is_not_exist}
use roodox_sever_win.Fs.Disk.{File, stat}
use roodox_sever_win.Db.Tables.{Tables, Meta, VersionRecord, latest_version}
use roodox_sever_win.Db.Metas.{get_meta}
use roodox_sever_win.Db.Versions.{get_latest_record, or_not_exist}
use roodox_sever_win.Server.Mutations.{
  Store, HeadFaults, FileHeadState, known_head, head_of_record, head_of_meta, resolve_file_head,
}

record_head_ok :
    (o : Option VersionRecord) → (h : FileHeadState) × (head_of_record (or_not_exist o) ≡ ok h)
unfolding head_of_record is_not_exist
record_head_ok none = (_, refl)
record_head_ok (some r) = (_, refl)

get_meta_found :
    (t : Tables) (p : Bytes) (m : Meta) → get t.meta p ≡ some m → get_meta none t p ≡ ok m
unfolding get_meta
get_meta_found t p m e = rw (e, get_meta) refl

bind_known :
    (x : Result Err FileHeadState) (h : FileHeadState) (r : Result Err Meta) (m : Meta)
    (f : Result Err File)
    → x ≡ ok h
    → r ≡ ok m
    → (x >>= λ head. head_of_meta head r f) ≡ ok (known_head m)
unfolding head_of_meta
bind_known x h r m f e k = rw (e, k, ◌>>=◌) refl

latest_head_ok :
    (t : Tables) (p : Bytes) → (h : FileHeadState) × (head_of_record (get_latest_record t p) ≡ ok h)
unfolding get_latest_record
latest_head_ok t p = record_head_ok (latest_version p t.version)

-- The path's meta row decides, when the database answers.
pub resolve_file_head_known :
    (f : HeadFaults) (s : Store) (p : Bytes) (m : Meta)
    → f.latest ≡ none
    → f.meta ≡ none
    → get s.tables.meta p ≡ some m
    → resolve_file_head f s p ≡ ok (known_head m)
unfolding resolve_file_head
resolve_file_head_known f s p m l n e =
    let (h, r) = latest_head_ok s.tables p in
    rw (l, n) (bind_known _ h _ m (stat f.stat s.disk p) r (get_meta_found s.tables p m e))
