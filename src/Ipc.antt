-- ===== src/Ipc.antt =====
-- The protocol between the command line and the resident daemon, crates/batuta-ipc/src: bytes and
-- their reader, the requests, the responses, and frames on a stream.
pub mod Wire
pub mod Requests
pub mod Responses
pub mod Frame
mod Tests
