-- ===== src/Paper.antt =====
-- lib/trading/positionMatch.ts and lib/trading/paperExecution.ts: paper fills and paper orders.
pub mod Match
pub mod Execution
