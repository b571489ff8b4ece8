-- ===== src/Trace.antt =====
-- Traces: the channels of include/thespian/env.hpp and the files of src/trace.cpp.
pub mod File
pub mod Channels
pub mod Writers
pub mod Mermaid
pub mod JsonLines
mod Tests
