-- ===== src/Server.antt =====
-- The server: its shared memory, the list of games, and the vector of players.
pub mod State
pub mod Access
pub mod Seating
pub mod Games
pub mod Players
pub mod Memory
