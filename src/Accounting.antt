-- ===== src/Accounting.antt =====
-- lib/trading/accounting.ts: average-cost accounting of one position.
pub mod Fill
pub mod Mark
pub mod Rows
