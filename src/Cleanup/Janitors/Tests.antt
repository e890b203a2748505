-- ===== src/Cleanup/Janitors/Tests.antt =====
-- Three files, of which one is too old and one too much.
use roodox_sever_win.Base.{ℕ, List, [], ◌∷◌, Bytes, codes, pos}
use roodox_sever_win.Cleanup.Janitors.{Item, apply_policy}
use roodox_sever_win.Cleanup.Janitors.Policies.{always, RemovesOldest, apply_policy-RemovesOldest}

abbrev item : Bytes → ℕ → ℕ → Item
item name size mod_time = record { path = name; name = name; size = size; mod_time = mod_time }

abbrev items : List Item
items = item (codes "new") 5 90 ∷ item (codes "old") 5 10 ∷ item (codes "mid") 5 80 ∷ []

apply_policy-RemovesOldest_example :
    RemovesOldest (pos 50) (pos 7) 100 items (apply_policy (pos 50) (pos 7) 100 always items)
apply_policy-RemovesOldest_example = apply_policy-RemovesOldest (pos 50) (pos 7) 100 items
