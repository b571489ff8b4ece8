-- ===== src/Hub.antt =====
-- The publish and subscribe actor of src/hub.cpp.
pub mod Range
pub mod Receive
pub mod Broadcast
pub mod Listen
pub mod Subscribe
mod Tests
