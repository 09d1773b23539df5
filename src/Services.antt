-- ===== src/Services.antt =====
-- services: the requests, each a few queries between checks. `Authz` also holds
-- `principalByKeycloakID` of services/registration.go.
pub mod Authz
pub mod Payments
pub mod Close
pub mod Expenses
pub mod Memberships
pub mod Verification
pub mod Groups
pub mod Admin
pub mod Registration
pub mod Proofs
pub mod Nudges
pub mod Reminders
pub mod Summary
pub mod Request
pub mod Reads
pub mod Atomic
pub mod Frame
pub mod Readings
pub mod AuditLog
pub mod Snapshot
pub mod Creation
pub mod Deletion
pub mod Totals
pub mod Joined
pub mod Figures
pub mod Guard
pub mod Recording
pub mod Closing
pub mod GroupState
pub mod Admins
pub mod Concurrent
