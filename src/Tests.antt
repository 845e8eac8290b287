-- ===== src/Tests.antt =====
-- Tests, and the theorems at concrete inputs.
mod Worlds
mod Rooms
mod Hall
mod Game
mod KeepAlive
mod Sockets
mod Db
mod Sqlite
mod Accounts
mod Worker
mod Coding
mod Requests
mod Replies
mod Lobby
mod Overlap
