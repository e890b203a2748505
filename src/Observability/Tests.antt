-- ===== src/Observability/Tests.antt =====
-- A run of a sampler of three.
use roodox_sever_win.Base.{List, [], ◌∷◌, ℤ, pos, negsuc}
use roodox_sever_win.Observability.Sampler.{empty_sampler}
use roodox_sever_win.Observability.Sampler.Ring.{Holds, samples, adds, adds-Holds_lem}

abbrev durations : List ℤ
durations = pos 4_000_000 ∷ pos 1_000_000 ∷ negsuc 5 ∷ pos 9_500_000 ∷ pos 2_000_000 ∷ []

adds-Holds_lem_example : Holds 2 (samples durations) (adds (empty_sampler (pos 3)) durations)
adds-Holds_lem_example = adds-Holds_lem 2 durations
