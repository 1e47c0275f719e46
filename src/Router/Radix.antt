-- ===== src/Router/Radix.antt =====
-- The tree of lib/src/router.cc where it holds static routes alone, read as a map from paths to
-- handlers.
pub mod Strip
pub mod Lookup
pub mod Children
pub mod Forwarding
pub mod Prefix
pub mod Updates
pub mod Steps
pub mod Cutting
pub mod Insertion
