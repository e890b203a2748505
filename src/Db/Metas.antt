-- ===== src/Db/Metas.antt =====
-- internal/db/meta.go: the table of current files. `fault` is the error that the engine reports
-- for the statement, if any.
use roodox_sever_win.Base.{Option, none, some, List, Bytes, map}
use roodox_sever_win.Base.Dict.{get, put, remove}
use roodox_sever_win.Errors.{Result, ok, err, Err, os_not_exist}
use roodox_sever_win.Db.Tables.{Tables, Meta}

found : Option Meta → Result Err Meta
found none = err os_not_exist
found (some m) = ok m

unfoldable pub get_meta : Option Err → Tables → Bytes → Result Err Meta
unfolding found
get_meta none t p = found (get t.meta p)
get_meta (some e) t p = err e

unfoldable pub set_meta : Option Err → Tables → Meta → Result Err (Unit {0}) × Tables
set_meta none t m = (ok tt, record t { meta = put t.meta m.path m })
set_meta (some e) t m = (err e, t)

unfoldable pub delete_meta : Option Err → Tables → Bytes → Result Err (Unit {0}) × Tables
delete_meta none t p = (ok tt, record t { meta = remove t.meta p })
delete_meta (some e) t p = (err e, t)

unfoldable pub all_metas : Option Err → Tables → Result Err (List Meta)
all_metas none t = ok (map (λ e. e.1) t.meta)
all_metas (some e) t = err e
