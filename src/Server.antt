-- ===== src/Server.antt =====
-- The HTTP server of src/server.rs, in the modules below.
mod Tests
pub mod Dispatch
pub mod Gate
pub mod StreamDispatch
pub mod Serialize
pub mod Sse
pub mod Capacity
pub mod Http
pub mod Perimeter
pub mod Chat
