-- ===== src/Settlement.antt =====
-- services/settlement.go: the fair shares of an expense, the balances and the payment plan.
pub mod Shares
pub mod Allocations
pub mod Fair
pub mod Plan
