-- ===== src/Lib.antt =====
-- A collaborative text editor: a server that keeps documents, and clients that edit them together
-- by operational transformation.
--
-- The parts and how they work together. A client's editor (client/src/editor_widget.cpp) makes
-- operations. `OtController` (client/src/ot_controller.cpp) applies one to the `LocalDocument`
-- (client/src/local_document.cpp), has one operation in flight and keeps the others in a buffer.
-- `NetworkManager` (client/src/network_manager.cpp) frames a message (protocol/src/protocol.cpp)
-- and cuts the incoming bytes into messages. The messages are JSON texts
-- (protocol/src/protocol.cpp), which client/src/protocol_codec.cpp encodes and reads on the
-- client's side. On the server a `ClientSession` (server/src/client_session.cpp) reads and writes
-- the frames of one client, a task of the `ThreadPool` (core/src/thread_pool.cpp) hands each
-- message to the `MessageHandler` (server/src/message_handler.cpp), and this puts the commands into
-- an `MPSCQueue` (core/include/collab/mpsc_queue.h). The `DocumentSession`
-- (server/src/document_session.cpp) of an open document takes commands one by one, has the
-- `Document` (core/src/document.cpp) transform an operation against its history and apply it,
-- acknowledges it to its author and broadcasts it to everybody else. `transform` and `apply`
-- (core/src/ot.cpp) serve both sides. `AccessControl` (core/src/access_control.cpp) keeps the
-- roles, `AuthManager` (core/src/auth_manager.cpp) with core/src/hash_utils.cpp the accounts, and
-- `TokenBucket` (core/src/token_bucket.cpp) bounds a rate. `CursorAggregator`
-- (server/src/cursor_aggregator.cpp) tells the clients of a document where the others' cursors are,
-- and `AutosaveThread` (server/src/autosave.cpp) writes the documents to files.
--
-- Which file models which part. The names are those of the code in snake_case.
--   Common: numbers with Boolean tests, lists, maps as association lists, 32-bit words.
--   Core/Operation, Core/Ot: `Operation`, `transform`, `apply`. Core/Ot/Converge with Positions,
--     Commute and Apply is about two concurrent operations; Core/Ot/Order about what `transform`
--     keeps; Core/Ot/Wrapped about an erasure of nothing.
--   Core/Document: the record has the fields of the class; `apply_with_ot` with its loops
--     (`transform_from`, `trim`), the subscribers, the snapshots; `process_queue` in
--     Core/Document/Drain along the runs of Core/MpscQueue. Core/Document/Log has the document
--     without a bound on its history.
--   Core/Access, Core/Auth, Core/Hash: roles, accounts, passwords.
--   Core/TokenBucket: threads that load and compare-exchange, as a step relation.
--   Core/MpscQueue: the linked list with its hazard pointers. Threads has the steps of the
--     producers and of the consumer, Local and Invariant what holds at each point of them, Calm,
--     Produce, Consume and Steps its preservation, Safety the accesses to nodes, Values and Order
--     the values, Progress the steps that a call takes.
--   Core/ThreadPool: the workers as a step relation; Once about the calls of a task, Idle about
--     `wait_idle` and the order of two tasks.
--   Protocol/Frame, Protocol/MessageType, Protocol/Messages: framing, the names of the message
--     types, the messages.
--   Protocol/JsonLibrary: what the code calls of the JSON library, with the laws that it relies on.
--     Protocol/Requests and Protocol/Responses (Answers, Events) have the overloads of `from_json`
--     and `to_json`; Requests/RoundTrip, ReadAnswers, ReadEvents and Kinds are about reading what
--     was written.
--   Client/EditorWidget: from the change of the text that the editor shows to operations, and back;
--     with client/src/utf8_codec.cpp. Edits and Remote are about the bytes of the text, Together
--     about the editor with the controller.
--   Client/ProtocolCodec: `encode_*`, `parse_envelope` and `parse_*`; Responses is about the texts
--     of the server.
--   Client/Network, Client/LocalDocument, Client/CursorTranslator, Client/RemoteCursors,
--     Client/OtController: each slot is a function of the state; signals and messages are returned
--     in their order. In Client/OtController/Rebase stands what the client shows while operations
--     are in flight.
--   Server/DocumentSession: the handlers with the calls of `send`. Delivery and Connections say who
--     gets what, Observer follows a client that only reads, InFlight an operation that is moved by
--     the client and by the server, RoundTrip its way from the edit to the acknowledgement, Joining
--     a user who joins while operations wait.
--   Server/DocumentManager: the maps of documents, titles, sessions and cursors. A shared document
--     stands in a store, and the maps hold addresses. Pointers is about these, Lifetime about the
--     beginning and the end of a document.
--   Server/MessageHandler: `handle_message` and the handlers, in Handlers, Editing and Dispatch;
--     Rights, Safety and Sharing say what a message may bring about, Encoded what a text that the
--     client has encoded does.
--   Server/ClientSession: each handler is a function of the state, with the operations that it
--     starts. Wire joins them to runs, Writing is about the writes, Received about what the client
--     makes of them, Reading about the bytes that the client has sent.
--   Server/CursorAggregator: one round of `broadcast_loop`; Shown and Reached lead from an update
--     of a cursor to the clients that show it.
--   Server/Autosave: a round of `run` over a document, as a step relation with the operations that
--     come in between; Versions is about what the file holds, Lost about what counts as saved.
--   Tests: the theorems at concrete inputs, and runs.
--
-- How the model stands to the code. A text is the list of its bytes, a number is a natural number,
-- and what uint32_t or uint64_t does beyond its range is written out with `add32`, `sub32`, `u32`
-- and remainders. Where the code computes a signed difference that C++ leaves undefined beyond
-- int32_t, the model wraps as the compilers do. A method that holds its lock is one step. A hash
-- map is an association list; no theorem depends on the order of its entries. In
-- Server/DocumentSession a shared document is the field of its session. A client session is its id,
-- and whether a weak pointer still finds it is a parameter. In Core/MpscQueue an access of shared
-- memory is one step, and all threads see the accesses in one order: the weaker orders that the
-- code names for some of them are not modelled. The records there and in Core/ThreadPool also keep
-- what has happened (the values that were linked, the calls of a task), for the theorems to speak
-- of it; no step depends on these.
--
-- Bounds and fuel. `read_frames` has one round more than there are bytes in the buffer, and a round
-- takes four bytes at least, so that the fuel outlasts the buffer. `decimal` has ten digits, as
-- many as a uint32_t needs. The `reads` of a client session has one round more than there are
-- bytes, and a round takes four at least. Positions are bounded to 31 bits and revisions to 32 bits
-- where it matters.
--
-- Parameters. CC_SHA256 is `Digest`; its output is bytes. The random bytes of a salt are an
-- argument. The socket is an argument of each slot, and its outcomes are
-- arguments of the handlers of a client session. The conversions of a `QString` are `Utf8`. The
-- JSON library is `JsonLibrary` with the laws `IsLawful`; Tests/JsonText has a library that has
-- them; for the message handler it also says for which answers `serialize` throws, and a handler ends
-- there (`handled` in Dispatch). The message handler has the colour of a user, the files of a document, the users of an open
-- document and the other client sessions as parameters, the cursor aggregator the users of a
-- session and whether a client session is still there.
--
-- Not modelled: the sockets' accepting, logging, options and start-up (calls of the operating
-- system and of Asio), the destructor of the queue, renamings of files that fail, and
-- the client's windows (Qt: layout, painting and the handing over of events). In
-- Client/EditorWidget the text is a `QString`, elsewhere in the client's model its bytes stand for
-- it.
mod Common
pub mod Core
pub mod Protocol
pub mod Client
pub mod Server
mod Tests
