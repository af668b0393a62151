-- ===== src/Core.antt =====
-- The library `core`: operations and their transformation.
pub mod Operation
pub mod Ot
pub mod Document
pub mod Access
pub mod Hash
pub mod Auth
pub mod TokenBucket
pub mod MpscQueue
pub mod ThreadPool
