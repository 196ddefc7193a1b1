-- ===== src/Examples.antt =====
-- Concrete figures: a fill book, a desk with its limits, a Chase episode.
mod Fills
mod Desk
mod Gating
mod Books
mod Chasing
mod Booking
mod Rebalancing
mod Requests
mod Orders
mod Reports
mod Gaps
mod Placing
mod Reconciling
mod Valuing
