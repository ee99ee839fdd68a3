-- ===== src/Users.antt =====
-- The handlers of api/users, one module per router, and the administrator that main.py seeds.
pub mod Register
pub mod Login
pub mod Logout
pub mod Refresh
pub mod Endpoints
pub mod Account
pub mod Usage
pub mod SessionList
pub mod Race
pub mod Interleaved
pub mod Rotation
pub mod Chain
pub mod Distinct
pub mod Revocation
pub mod Blocklist
pub mod Onboarding
