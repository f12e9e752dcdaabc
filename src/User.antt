-- ===== src/User.antt =====
-- The user programs of Group6_Project1/user.
pub mod Grep
