-- ===== src/Commands.antt =====
-- The commands of clients, and the rounds of the threads, under UPSServer/network.
pub mod Lobby
pub mod Match
pub mod Dispatch
pub mod Events
pub mod Journey
pub mod Memory
