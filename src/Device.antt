-- ===== src/Device.antt =====
-- The objects that an actor owns and that report to it: timers, signals, sockets and descriptors
-- (src/instance.cpp).
pub mod Report
pub mod Timer
pub mod Metronome
pub mod Socket
pub mod Pending
pub mod Descriptor
pub mod Unx
pub mod UnxFiles
mod Tests
pub mod Tcp
