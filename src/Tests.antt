-- ===== src/Tests.antt =====
-- The theorems at concrete inputs, and runs of the definitions.
mod Core
mod Rights
mod Protocol
mod Client
mod Server
mod Handler
mod JsonText
mod Editor
mod Joining
mod Queue
mod Sessions
mod Workers
