-- ===== src/Http.antt =====
-- The parts of Go's `net/http` that the program stands on: header maps, requests and the response
-- writer of the server.
pub mod Header
pub mod Request
pub mod Response
