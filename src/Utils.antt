-- ===== src/Utils.antt =====
-- lib/src/utils.h and lib/src/utils.cc: the helpers that the router and the server share.
pub mod Regex
pub mod Split
pub mod Address
mod Tests
