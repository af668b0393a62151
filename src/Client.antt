-- ===== src/Client.antt =====
-- The client: its connection, its copy of the document and its cursors.
pub mod Network
pub mod LocalDocument
pub mod CursorTranslator
pub mod OtController
pub mod RemoteCursors
pub mod EditorWidget
pub mod ProtocolCodec
