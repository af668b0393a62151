-- ===== src/Protocol/Responses.antt =====
-- `from_json` and `to_json` of the responses (protocol/src/protocol.cpp): those that answer a request
-- stand in Answers, those that tell of an event in Events.
pub mod Answers
pub mod Events
pub mod ReadAnswers
pub mod ReadEvents
pub mod Kinds
