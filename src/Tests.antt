-- ===== src/Tests.antt =====
-- The theorems at concrete messages, boards and memories.
pub mod Wire
pub mod Board
pub mod Memory
pub mod Games
pub mod Registration
pub mod Leaving
pub mod Losing
pub mod Turns
pub mod Threads
pub mod Returning
pub mod Start
pub mod Network
pub mod Asking
pub mod Delivery
pub mod Journey
