-- ===== src/Server.antt =====
-- The server (server/): what its parts do with the messages of its clients.
pub mod DocumentSession
pub mod DocumentManager
pub mod MessageHandler
pub mod ClientSession
pub mod Autosave
pub mod CursorAggregator
