-- ===== src/Http.antt =====
-- lib/src/http.cc: the callbacks that libmicrohttpd calls.
pub mod Method
pub mod Server
pub mod Connection
pub mod Requests
pub mod Tests
