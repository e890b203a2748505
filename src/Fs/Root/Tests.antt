-- ===== src/Fs/Root/Tests.antt =====
-- The normal form of a request below the root.
use roodox_sever_win.Base.{◌≡◌, refl, Bytes, codes, bytes_eq}
use roodox_sever_win.Errors.{ok}
use roodox_sever_win.Fs.RelPath.{normalize_relative_path, check_clean, clean}

abbrev request : Bytes
request = codes "docs/./old/../a.txt"

abbrev file : Bytes
file = codes "docs/a.txt"

request_normal : normalize_relative_path request ≡ ok file
unfolding normalize_relative_path check_clean clean bytes_eq
request_normal = refl
