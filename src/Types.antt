-- ===== src/Types.antt =====
-- types/*.go: the errors of the API, and the enumerations and records that the services share.
pub mod ApiError
pub mod Principal
pub mod Membership
pub mod Payment
pub mod Group
pub mod Expense
pub mod Proof
pub mod Nudge
