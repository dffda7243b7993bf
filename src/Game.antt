-- ===== src/Game.antt =====
-- The game: players, boards, and the search for a closed track.
pub mod Player
pub mod Board
pub mod Decimal
pub mod Control
