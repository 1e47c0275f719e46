-- ===== src/Router/Handlers.antt =====
-- Where the controllers that the router finds come from.
pub mod Owning
pub mod Forwarding
pub mod Inserting
pub mod Adding
pub mod Building
mod Tests
