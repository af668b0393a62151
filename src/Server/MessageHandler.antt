-- ===== src/Server/MessageHandler.antt =====
-- server/include/server/message_handler.h, server/src/message_handler.cpp, with the state of
-- server/include/server/client_session.h: what the server does with a message of a client. A handler
-- returns the new state and its actions in their order. The JSON library, the colours, the disk, the
-- other client sessions and the users of the open documents are parameters.
pub mod Handlers
pub mod Editing
pub mod Dispatch
pub mod Encoded
pub mod Rights
pub mod Safety
pub mod Sharing
use collaborative_text_edito.Common.{
  ℕ, ◌+◌, ◌⊎◌, inl, inr, Bool, true, false, ◌&&◌, Option, none, some, List, [], ◌∷◌, ◌++◌, Bytes,
  bytes, bytes_eq, if◌then◌else◌, leb,
}
use collaborative_text_edito.Core.Hash.{Digest}
use collaborative_text_edito.Core.Auth.{AuthManager}
use collaborative_text_edito.Protocol.MessageType.{MessageType}
use collaborative_text_edito.Protocol.Messages.{
  AuthRequestMsg, AuthResponseMsg, DocCreateRequestMsg, DocCreateResponseMsg, DocDeleteRequestMsg,
  DocDeleteResponseMsg, DocJoinRequestMsg, DocJoinResponseMsg, DocLeaveRequestMsg,
  DocLeaveResponseMsg, DocListResponseMsg, DocShareRequestMsg, DocShareResponseMsg, OperationMsg,
  CursorUpdateMsg, RoleChangedMsg, ErrorMsg,
}
use collaborative_text_edito.Server.DocumentSession.{ConnectedUser, DocCommand}
use collaborative_text_edito.Server.DocumentManager.{DocumentManager, DiskEffect}

pub record ClientSession : Type 0 where
  pub session_id : ℕ
  pub authenticated : Bool
  pub user_id : ℕ
  pub username : Bytes
  pub color : Bytes
  pub current_doc_id : ℕ
  pub error_count : ℕ

pub data Reply : Type 0 where
  auth_response : AuthResponseMsg → Reply
  doc_list_response : DocListResponseMsg → Reply
  doc_create_response : DocCreateResponseMsg → Reply
  doc_join_response : DocJoinResponseMsg → Reply
  doc_leave_response : DocLeaveResponseMsg → Reply
  doc_delete_response : DocDeleteResponseMsg → Reply
  doc_share_response : DocShareResponseMsg → Reply
  role_changed : RoleChangedMsg → Reply
  error : ErrorMsg → Reply

-- A command is put in the queue of the session that stands at an address.
pub data Action : Type 0 where
  replied : (session_id : ℕ) → Reply → Action
  enqueued : (session : ℕ) → DocCommand → Action
  disk : DiskEffect → Action
  closed : (session_id : ℕ) → Action

-- What the handlers read and change: the accounts, the documents with the roles, and the client
-- session that the message came from.
pub record World : Type 0 where
  pub auth : AuthManager
  pub manager : DocumentManager
  pub session : ClientSession

-- The JSON library: a text that parses, its type, and a request read from it, or the text of the
-- exception; and the text of the exception that `serialize` throws for a reply, if it does.
pub record Json : Type 1 where
  pub Value : Type 0
  pub parse : Bytes → Option Value
  pub type_of : Value → Option Bytes
  pub auth_request : Value → Bytes ⊎ AuthRequestMsg
  pub doc_create_request : Value → Bytes ⊎ DocCreateRequestMsg
  pub doc_join_request : Value → Bytes ⊎ DocJoinRequestMsg
  pub doc_leave_request : Value → Bytes ⊎ DocLeaveRequestMsg
  pub doc_delete_request : Value → Bytes ⊎ DocDeleteRequestMsg
  pub doc_share_request : Value → Bytes ⊎ DocShareRequestMsg
  pub operation : Value → Bytes ⊎ OperationMsg
  pub cursor_update : Value → Bytes ⊎ CursorUpdateMsg
  pub throws : Reply → Option Bytes

-- What is around the handlers: the digest and the random bytes, the colour of a user, the files of a
-- document, the users of the session at an address, and the client session of a user.
pub record Surroundings : Type 0 where
  pub digest : Digest
  pub random : List ℕ
  pub generate_color : ℕ → Bytes
  pub text : ℕ → Option Bytes
  pub title : ℕ → Bytes
  pub connected_users : ℕ → List ConnectedUser
  pub find_session_by_user_id : ℕ → Option ClientSession

-- `session->send(serialize(r))`. If `serialize` throws, the handler ends there: see `handled` in
-- Dispatch. No handler changes the state behind a reply, so that the state is the one that it leaves.
abbrev pub reply : World → Reply → List Action
reply w r = replied w.session.session_id r ∷ []

-- The texts of errors are ASCII, so that `serialize` does not throw for them.
unfoldable pub send_error : World → Bytes → Bytes → World × List Action
unfolding bytes_eq
send_error w code message =
    let told = reply w (error (record { code = code; message = message })) in
    let count = w.session.error_count + 1 in
    if bytes_eq code (bytes "invalid_message")
    then (
      record w { session = record w.session { error_count = count } },
      told ++ (if leb 3 count then closed w.session.session_id ∷ [] else []),
    )
    else (w, told)
