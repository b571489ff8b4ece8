-- ===== src/Actor.antt =====
-- Actors: `struct instance` of src/instance.cpp and the free functions around it.
pub mod Messages
pub mod State
pub mod Send
pub mod Sync
pub mod Run
pub mod Later
pub mod ExecLater
pub mod Handlers
pub mod Exit
pub mod Deliver
pub mod Counted
pub mod StepCounted
pub mod Ends
pub mod Reach
pub mod DeadLetter
mod Tests
