-- ===== src/Observability.antt =====
-- The recorder of internal/observability/recorder.go. A recorder is not nil; its mutex makes a
-- call one step. Its counters of 64 bits are natural numbers: each grows by one for a call, or by
-- the bytes of a call.
pub mod Sampler
pub mod Bursts
mod Tests
use roodox_sever_win.Base.{
  ℕ, suc, ◌+◌, Bool, true, false, ◌&&◌, ◌||◌, Option, none, some, List, [], ◌∷◌, Bytes, bytes_less,
  length, ℤ, pos, pos_part, non_positive, ltz, ltb, if◌then◌else◌, ◌==◌,
}
use roodox_sever_win.Base.Dict.{Dict, get, put}
use roodox_sever_win.Base.Space.{is_blank}
use roodox_sever_win.Base.Time.{second, elapsed}
use roodox_sever_win.Observability.Sampler.{
  DurationSampler, DurationStats, empty_sampler, add, snapshot,
}

pub record Config : Type 0 where
  pub rpc_latency_sample_size : ℤ
  pub small_write_threshold : ℤ
  pub small_write_window : ℤ
  pub small_write_burst_minimum : ℤ

pub record RpcStats : Type 0 where
  pub count : ℕ
  pub error_count : ℕ
  pub latency : DurationSampler

pub record SmallWriteWindow : Type 0 where
  pub start : ℕ
  pub last : ℕ
  pub count : ℕ

pub record Recorder : Type 0 where
  pub cfg : Config
  pub range_write_calls : ℕ
  pub range_write_bytes : ℕ
  pub range_write_conflict_calls : ℕ
  pub small_write_bursts : ℕ
  pub small_write_state : Dict SmallWriteWindow
  pub small_write_path_counts : Dict ℕ
  pub build_success_count : ℕ
  pub build_failure_count : ℕ
  pub build_log_bytes : ℕ
  pub build_queue_wait : DurationSampler
  pub build_duration : DurationSampler
  pub rpc : Dict RpcStats

abbrev pub default_config : Config
default_config = record {
  rpc_latency_sample_size = pos 256;
  small_write_threshold = pos 65_536;
  small_write_window = pos second;
  small_write_burst_minimum = pos 4;
}

abbrev positive_or : ℤ → ℤ → ℤ
positive_or z default = if non_positive z then default else z

-- The defaults in place of settings that make no sense.
abbrev pub checked_config : Config → Config
checked_config cfg = record {
  rpc_latency_sample_size =
      positive_or cfg.rpc_latency_sample_size default_config.rpc_latency_sample_size;
  small_write_threshold =
      positive_or cfg.small_write_threshold default_config.small_write_threshold;
  small_write_window = positive_or cfg.small_write_window default_config.small_write_window;
  small_write_burst_minimum =
      if ltz (pos 1) cfg.small_write_burst_minimum
      then cfg.small_write_burst_minimum
      else default_config.small_write_burst_minimum;
}

-- NewRecorder
unfoldable pub new_recorder : Config → Recorder
new_recorder given =
    let cfg = checked_config given in
    record {
      cfg = cfg;
      range_write_calls = 0;
      range_write_bytes = 0;
      range_write_conflict_calls = 0;
      small_write_bursts = 0;
      small_write_state = [];
      small_write_path_counts = [];
      build_success_count = 0;
      build_failure_count = 0;
      build_log_bytes = 0;
      build_queue_wait = empty_sampler cfg.rpc_latency_sample_size;
      build_duration = empty_sampler cfg.rpc_latency_sample_size;
      rpc = [];
    }

abbrev pub stats_or_new : ℤ → Option RpcStats → RpcStats
stats_or_new limit (some s) = s
stats_or_new limit none = record { count = 0; error_count = 0; latency = empty_sampler limit }

abbrev pub with_call : RpcStats → ℕ → ℤ → RpcStats
with_call s code duration = record {
  count = suc s.count;
  error_count = if code == 0 then s.error_count else suc s.error_count;
  latency = add s.latency duration;
}

-- RecordRPC; the code of gRPC's OK is 0.
unfoldable pub record_rpc : Recorder → Bytes → ℕ → ℤ → Recorder
record_rpc r method code duration = if is_blank method then r else record r {
  rpc =
      put r.rpc method
        (with_call (stats_or_new r.cfg.rpc_latency_sample_size (get r.rpc method)) code duration);
}

-- RecordBuildQueueWait
unfoldable pub record_build_queue_wait : Recorder → ℤ → Recorder
record_build_queue_wait r wait = record r { build_queue_wait = add r.build_queue_wait wait }

-- RecordBuildCompletion; a negative length counts as 0.
unfoldable pub record_build_completion : Recorder → Bool → ℤ → ℤ → Recorder
record_build_completion r success duration log_bytes = record r {
  build_success_count = if success then suc r.build_success_count else r.build_success_count;
  build_failure_count = if success then r.build_failure_count else suc r.build_failure_count;
  build_log_bytes = r.build_log_bytes + pos_part log_bytes;
  build_duration = add r.build_duration duration;
}

-- The counts of a call.
abbrev pub counted : Recorder → ℕ → Bool → Recorder
counted r bytes conflicted = record r {
  range_write_calls = suc r.range_write_calls;
  range_write_bytes = r.range_write_bytes + bytes;
  range_write_conflict_calls =
      if conflicted then suc r.range_write_conflict_calls else r.range_write_conflict_calls;
}

-- The value of a missing key.
abbrev pub window_at : Option SmallWriteWindow → SmallWriteWindow
window_at (some w) = w
window_at none = record { start = 0; last = 0; count = 0 }

abbrev pub count_at : Option ℕ → ℕ
count_at (some n) = n
count_at none = 0

abbrev pub next_window : SmallWriteWindow → ℕ → SmallWriteWindow
next_window w now = record { start = w.start; last = now; count = suc w.count }

-- The write that makes a burst of its window counts for the path.
abbrev pub with_burst : Recorder → Bytes → SmallWriteWindow → Recorder
with_burst r path w = record r {
  small_write_bursts = suc r.small_write_bursts;
  small_write_path_counts =
      put r.small_write_path_counts path (suc (count_at (get r.small_write_path_counts path)));
  small_write_state = put r.small_write_state path w;
}

abbrev pub is_burst : Config → SmallWriteWindow → Bool
is_burst cfg w =
    ltz (pos 0) cfg.small_write_burst_minimum && w.count == pos_part cfg.small_write_burst_minimum

-- A small write in a window.
abbrev pub small_write : Recorder → Bytes → ℕ → SmallWriteWindow → Recorder
small_write r path now w =
    if w.start == 0 || ltz r.cfg.small_write_window (elapsed now w.last)
    then record r {
      small_write_state =
          put r.small_write_state path (record { start = now; last = now; count = 1 });
    }
    else if is_burst r.cfg (next_window w now)
    then with_burst r path (next_window w now)
    else record r { small_write_state = put r.small_write_state path (next_window w now) }

-- The paths that no window is kept for, and the writes that are not small.
abbrev pub is_skipped : Recorder → Bytes → ℕ → Bool
is_skipped r path bytes =
    is_blank path || (bytes == 0 || ltz r.cfg.small_write_threshold (pos bytes))

-- recordRangeWriteAt; a negative count of bytes is 0.
unfoldable pub record_range_write_at : Recorder → Bytes → ℤ → Bool → ℕ → Recorder
record_range_write_at r path bytes conflicted now =
    let n = pos_part bytes in
    let c = counted r n conflicted in
    if is_skipped r path n
    then c
    else small_write c path now (window_at (get r.small_write_state path))

pub record PathCount : Type 0 where
  pub path : Bytes
  pub count : ℕ

pub record RpcLatency : Type 0 where
  pub method : Bytes
  pub count : ℕ
  pub error_count : ℕ
  pub p50_ms : ℕ
  pub p95_ms : ℕ
  pub p99_ms : ℕ

pub record Snapshot : Type 0 where
  pub range_write_calls : ℕ
  pub range_write_bytes : ℕ
  pub range_write_conflict_calls : ℕ
  pub small_write_bursts : ℕ
  pub small_write_hot_paths : List PathCount
  pub build_success_count : ℕ
  pub build_failure_count : ℕ
  pub build_log_bytes : ℕ
  pub build_queue_wait : DurationStats
  pub build_duration : DurationStats
  pub rpc_latencies : List RpcLatency

-- sort.Slice by the count, the highest first, and then by the path.
unfoldable pub insert_hot_path : PathCount → List PathCount → List PathCount
insert_hot_path p [] = p ∷ []
insert_hot_path p (q ∷ qs) =
    let rest = insert_hot_path p qs in
    let before = if p.count == q.count then bytes_less p.path q.path else ltb q.count p.count in
    if before then p ∷ q ∷ qs else q ∷ rest

unfoldable pub hot_paths : Dict ℕ → List PathCount
unfolding insert_hot_path
hot_paths [] = []
hot_paths ((path, n) ∷ d) = insert_hot_path (record { path = path; count = n }) (hot_paths d)

unfoldable pub insert_latency : RpcLatency → List RpcLatency → List RpcLatency
insert_latency l [] = l ∷ []
insert_latency l (m ∷ ms) =
    let rest = insert_latency l ms in if bytes_less l.method m.method then l ∷ m ∷ ms else m ∷ rest

unfoldable pub rpc_latencies : Dict RpcStats → List RpcLatency
unfolding insert_latency
rpc_latencies [] = []
rpc_latencies ((method, s) ∷ d) =
    let latency = snapshot s.latency in
    insert_latency
      (record {
        method = method;
        count = s.count;
        error_count = s.error_count;
        p50_ms = latency.p50_ms;
        p95_ms = latency.p95_ms;
        p99_ms = latency.p99_ms;
      })
      (rpc_latencies d)

-- Recorder.Snapshot
unfoldable pub recorder_snapshot : Recorder → Snapshot
unfolding hot_paths rpc_latencies
recorder_snapshot r = record {
  range_write_calls = r.range_write_calls;
  range_write_bytes = r.range_write_bytes;
  range_write_conflict_calls = r.range_write_conflict_calls;
  small_write_bursts = r.small_write_bursts;
  small_write_hot_paths = hot_paths r.small_write_path_counts;
  build_success_count = r.build_success_count;
  build_failure_count = r.build_failure_count;
  build_log_bytes = r.build_log_bytes;
  build_queue_wait = snapshot r.build_queue_wait;
  build_duration = snapshot r.build_duration;
  rpc_latencies = rpc_latencies r.rpc;
}
