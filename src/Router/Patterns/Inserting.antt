-- ===== src/Router/Patterns/Inserting.antt =====
-- `RawTree::insert` of lib/src/router.cc, and the patterns at which it leaves handlers.
pub mod Wildcards
pub mod Fresh
pub mod Growing
pub mod Looping
pub mod Behind
pub mod Rounds
pub mod Rooting
