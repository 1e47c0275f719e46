-- ===== src/Controller.antt =====
-- The controllers of the library: lib/src/controller.cc, lib/include/cppmhd/controller.h.
pub mod Form
pub mod ContentType
pub mod Uploads
mod Tests
