-- ===== src/Credit.antt =====
-- credit-service: credit accounts, their ledger, and the reservations that hold, pay and return
-- credits for orders.
pub mod Types
pub mod Store
pub mod Ensures
pub mod Primitives
pub mod Ledger
pub mod Invariant
pub mod Lateness
pub mod Service
pub mod Operations
pub mod Release
pub mod Outcome
pub mod Writes
pub mod Keeps
pub mod Idempotency
pub mod Redelivery
pub mod System
