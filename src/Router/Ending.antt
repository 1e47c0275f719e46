-- ===== src/Router/Ending.antt =====
-- The loops of `Router::forward` and `RawTree::insert` on any tree, with parameters or without.
pub mod Heights
pub mod Forwarding
pub mod Inserting
mod Tests
