-- ===== src/Configuration.antt =====
-- The routers of api/v1/settings and api/v1/dashboard.
pub mod Templates
pub mod ApiKeys
pub mod Dashboard
pub mod Kept
