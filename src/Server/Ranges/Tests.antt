-- ===== src/Server/Ranges/Tests.antt =====
-- A range written past the end, and a longer size.
use roodox_sever_win.Base.{Bytes, codes, pos, arith}
use roodox_sever_win.Server.Ranges.{apply_range_mutation}
use roodox_sever_win.Server.Ranges.Contents.{Applies, apply_range_mutation_lem}

abbrev content : Bytes
content = codes "abc"

apply_range_mutation_lem_example :
    Applies 1_099_511_627_776 content 5
      (codes "xy")
      (apply_range_mutation 1_099_511_627_776 content (pos 5) (codes "xy"))
apply_range_mutation_lem_example =
    apply_range_mutation_lem 1_099_511_627_776 content 5 (codes "xy") (omega arith) (omega arith)
      (omega arith)
