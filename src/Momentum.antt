-- ===== src/Momentum.antt =====
-- lib/momentum: what a rebalance of the momentum book changes.
pub mod Rebalance
