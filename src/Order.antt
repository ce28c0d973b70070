-- ===== src/Order.antt =====
-- The order service's domain, order-service/internal/order: one module for the data and one for each
-- part of the lifecycle policy.
pub mod Types
pub mod Transitions
pub mod Changes
pub mod Facts
pub mod Offers
pub mod Mutations
pub mod Lifecycle
pub mod Audit
pub mod Outcomes
pub mod Workflow
pub mod Images
pub mod Store
pub mod Creation
pub mod Clients
