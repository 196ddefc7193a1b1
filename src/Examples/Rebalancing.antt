-- ===== src/Examples/Rebalancing.antt =====
-- Two previews of a rebalance at concrete figures.
use cm_desk.Prelude.{◌≡◌, refl, some, [], ◌∷◌}
use cm_desk.Prelude.Int.{pos}
use cm_desk.Prelude.Text.{codes, text_eq}
use cm_desk.Momentum.Rebalance.{RebalanceOrderLine, map_get, line_map, diff_rebalance_preview}
use cm_desk.Momentum.Rebalance.Patch.{DistinctKeys, patched, diff-patched}

abbrev infy : RebalanceOrderLine
infy = record { symbol = codes "INFY"; side = codes "BUY"; quantity = pos 10 }

abbrev tcs : RebalanceOrderLine
tcs = record { symbol = codes "TCS"; side = codes "BUY"; quantity = pos 4 }

abbrev sbin : RebalanceOrderLine
sbin = record { symbol = codes "SBIN"; side = codes "SELL"; quantity = pos 7 }

-- INFY is dropped, TCS is resized, and SBIN is new.
later_distinct : DistinctKeys (record tcs { quantity = pos 6 } ∷ sbin ∷ [])
unfolding DistinctKeys map_get text_eq
later_distinct = (refl, (refl, tt))

diff-patched_example :
    patched
      (diff_rebalance_preview
        (some (infy ∷ tcs ∷ []))
        (record tcs { quantity = pos 6 } ∷ sbin ∷ []))
      (line_map (infy ∷ tcs ∷ []) (codes "BUY:TCS"))
      (codes "BUY:TCS")
    ≡ line_map (record tcs { quantity = pos 6 } ∷ sbin ∷ []) (codes "BUY:TCS")
diff-patched_example =
    diff-patched (some (infy ∷ tcs ∷ [])) (record tcs { quantity = pos 6 } ∷ sbin ∷ [])
      (codes "BUY:TCS") later_distinct
