-- ===== src/Devices/Requests/Uploads.antt =====
-- How much a device can leave in the table of diagnostics, over histories of requests.
use roodox_sever_win.Base.{◌≤◌, arith, Bytes, bytes_eq, List}
use roodox_sever_win.Base.Space.{trim_space}
use roodox_sever_win.Devices.Diagnostics.{is_of, keep_count, new_diagnostic}
use roodox_sever_win.Devices.Diagnostics.Bounds.{count, HasOneRow, IsBounded, store-IsBounded}
use roodox_sever_win.Devices.Config.{ControlPlaneConfig}
use roodox_sever_win.Devices.Requests.{Request, serve_all, empty_registry}
use roodox_sever_win.Devices.Requests.Histories.{serve_all_diagnostics_kept}

-- From an empty registry, after any requests, no device has more rows in the table of
-- diagnostics than the number that the configuration keeps for each device, 20 when that is not
-- positive.
pub uploads_bounded :
    (config : ControlPlaneConfig) (qs : List Request) (device_id : Bytes)
    → count (is_of device_id) (serve_all config qs empty_registry).diagnostics
      ≤ keep_count config.diagnostics_keep_latest
unfolding bytes_eq trim_space
uploads_bounded config qs =
    let n = keep_count config.diagnostics_keep_latest in
    (serve_all_diagnostics_kept config (λ xs. HasOneRow xs × IsBounded n xs)
      (λ c input id xs free h. store-IsBounded n (new_diagnostic c input id) xs free h) qs
      empty_registry ((λ id. omega arith), λ dev. omega arith)).1
