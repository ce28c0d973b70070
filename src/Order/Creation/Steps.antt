-- ===== src/Order/Creation/Steps.antt =====
-- The transactions that touch orders and their creations, in any order and number, keep the creations
-- linked to their orders.
pub mod Claims
pub mod Finds
pub mod Changes
pub mod Settles
pub mod Admits
