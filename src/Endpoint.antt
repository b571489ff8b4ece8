-- ===== src/Endpoint.antt =====
-- The endpoints of src/instance.cpp: actors that carry messages over sockets.
pub mod Connection
pub mod Forward
pub mod Frames
pub mod Framing
pub mod Chunks
pub mod Connector
pub mod Retry
pub mod Acceptor
pub mod Wire
mod Tests
