-- ===== src/Tests.antt =====
-- The theorems at concrete inputs.
pub mod Streams
pub mod Sender
pub mod Connection
pub mod Wire
pub mod Datagrams
pub mod Sockets
pub mod Threads
