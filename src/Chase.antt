-- ===== src/Chase.antt =====
-- lib/chaseFill.ts: the decisions of the Chase strategy about its book, its covers and its stops.
pub mod Cover
pub mod Fill
pub mod Orders
pub mod Window
