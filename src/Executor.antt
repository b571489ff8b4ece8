-- ===== src/Executor.antt =====
-- The executor over asio (src/executor_asio.cpp, src/executor.hpp).
pub mod Threads
pub mod Async
pub mod Counts
pub mod Silent
pub mod Guard
pub mod OneWait
mod Tests
