-- ===== src/App.antt =====
-- lib/src/app.cc and the daemon part of lib/src/http.cc: applications, signals, start and stop.
pub mod Barrier
pub mod Signals
pub mod Daemons
pub mod Flags
pub mod Start
pub mod Lifetime
pub mod Serving
mod Tests
