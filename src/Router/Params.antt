-- ===== src/Router/Params.antt =====
-- Routes with parameters: what one leaves in a fresh tree, and how requests go through it.
pub mod Trails
pub mod Naming
pub mod Inserting
pub mod Forwarding
pub mod Parsing
pub mod Serving
pub mod Tests
