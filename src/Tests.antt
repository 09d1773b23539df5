-- ===== src/Tests.antt =====
-- Runs of the model on the repository's own examples, and each theorem at a concrete input.
mod Shares
mod Plan
mod Payments
mod Services
mod Data
mod Groups
mod Creation
mod Concurrent
mod Summary
mod Deletion
mod AuditLog
