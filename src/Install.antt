-- ===== src/Install.antt =====
-- The package installer, install/*.go.
pub mod Config
pub mod Package
pub mod Repository
pub mod Catalog
pub mod Fetch
pub mod Reading
pub mod Labels
pub mod Operations
pub mod Monitor
pub mod Source
