-- ===== src/Router/Patterns.antt =====
-- What requests a tree of routes with parameters answers, route by route.
pub mod Tokens
pub mod Goals
pub mod Walking
pub mod Forwarding
pub mod Queues
pub mod Inserting
pub mod Routes
pub mod Building
pub mod Serving
pub mod Tests
