-- ===== src/Protocol.antt =====
-- The library `protocol`: what client and server say to each other.
pub mod Frame
pub mod MessageType
pub mod Messages
pub mod JsonLibrary
pub mod Requests
pub mod Responses
