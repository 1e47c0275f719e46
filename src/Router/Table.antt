-- ===== src/Router/Table.antt =====
-- A router of static routes as a table: lib/src/router.cc from the builder to `forward`.
pub mod Segments
pub mod Paths
pub mod Roots
pub mod Trees
pub mod Growing
pub mod Building
