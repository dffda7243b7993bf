-- ===== src/Commands/Memory.antt =====
-- The handlers of UPSServer/network/CommandManager.cpp, and the memory after them.
pub mod Lobby
pub mod Joining
pub mod Match
pub mod Return
pub mod Steps
pub mod Reachable
pub mod Delivery
