-- ===== src/Debug.antt =====
-- The registry of names and the taps of `namespace debug` (src/instance.cpp).
pub mod Registry
pub mod Names
pub mod Taps
pub mod TapCount
pub mod Lines
pub mod CallProxy
pub mod CallReports
pub mod Commands
pub mod Unwritten
pub mod Fields
pub mod Session
pub mod Acceptor
pub mod Json
pub mod Reports
pub mod Receive
pub mod Answers
pub mod TextAnswers
pub mod JsonAnswers
pub mod Dialogue
pub mod CallLists
pub mod Handlers
pub mod Shown
pub mod Balance
mod Tests
