-- ===== src/Rooms.antt =====
-- The rooms of the cache under the operations of the hall, of the heartbeat and of the running game
-- (DNW_Server/Server/GameLogic/SceneChain).
pub mod Thins
pub mod Roles
pub mod Seating
pub mod Changes
pub mod Operations
pub mod Hall
pub mod WellFormed
pub mod Game
pub mod Heartbeat
pub mod Events
pub mod Balance
pub mod Online
pub mod Total
pub mod Lobby
