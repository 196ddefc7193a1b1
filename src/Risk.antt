-- ===== src/Risk.antt =====
-- lib/trading/riskEngine.ts, riskGate.ts and exitSafety.ts: the checks before an order is sent.
pub mod Settings
pub mod Role
pub mod Evaluate
pub mod Exit
pub mod Gate
