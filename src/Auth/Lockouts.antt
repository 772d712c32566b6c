-- ===== src/Auth/Lockouts.antt =====
-- auth.rs: what the throttle on logins guarantees.
pub mod Keys
pub mod Streak
pub mod Flood
pub mod Wait
pub mod Account
