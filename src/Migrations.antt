-- ===== src/Migrations.antt =====
-- alembic
pub mod Head
pub mod Matching
pub mod Metadata
pub mod Names
pub mod Operations
pub mod Owners
pub mod Running
pub mod Altering
pub mod Beside
pub mod Chain
pub mod Contents
pub mod Effects
pub mod Frame
pub mod Schema
pub mod Versions
