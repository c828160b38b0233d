-- ===== src/Install/Config.antt =====
-- The configuration of a package: install/transformers.go and the second half of
-- install/package.go. The parts are below: the schema, the definition that is read from the
-- repositories, the transformers, the merge and what is computed from them.
pub mod Schema
pub mod Definition
pub mod Transform
pub mod Merge
pub mod Render
