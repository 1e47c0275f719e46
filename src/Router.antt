-- ===== src/Router.antt =====
-- lib/src/router.cc and lib/src/router.h: the radix tree of routes.
pub mod Node
pub mod Forward
pub mod Insert
pub mod Parse
pub mod Builder
pub mod Radix
pub mod Ending
pub mod Params
pub mod Handlers
pub mod Patterns
pub mod Table
pub mod Tests
