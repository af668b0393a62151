-- ===== src/Server/DocumentSession.antt =====
-- server/include/server/document_session.h, server/src/document_session.cpp: the users of one open
-- document and the commands that wait for it. One thread takes the commands one by one; a handler
-- returns the new state and the calls of `ClientSession::send`, in their order. A client session is
-- known by its id, and `alive` says for which ids the `lock` of the weak pointer finds one. A
-- payload is the message that is serialised.
pub mod Delivery
pub mod Connections
pub mod Observer
pub mod InFlight
pub mod RoundTrip
pub mod Joining
use collaborative_text_edito.Common.{
  ℕ, Bool, true, false, ◌==◌, Option, none, some, List, [], ◌∷◌, ◌++◌, Bytes, bytes, if◌then◌else◌,
}
use collaborative_text_edito.Common.Assoc.{nat_key, lookup, insert, erase}
use collaborative_text_edito.Core.Operation.{OpType, Operation}
use collaborative_text_edito.Core.Document.{
  Document, OtResult, apply_with_ot, subscribe, unsubscribe, subscriber_count,
}
use collaborative_text_edito.Protocol.Messages.{
  OpEntry, OperationAckMsg, OperationBroadcastMsg, UserJoinedMsg, UserLeftMsg, DocDeletedMsg,
  ErrorMsg,
}

pub record ConnectedUser : Type 0 where
  pub user_id : ℕ
  pub username : Bytes
  pub color : Bytes
  pub session : ℕ

-- `DocCommand::Type`
pub data CommandType : Type 0 where
  operation join leave delete shutdown : CommandType

pub record DocCommand : Type 0 where
  pub type : CommandType
  pub operation : Operation
  pub user_id : ℕ
  pub username : Bytes
  pub color : Bytes
  pub session : ℕ

pub record DocumentSession : Type 0 where
  pub doc : Document
  pub connected_users : List (ℕ × ConnectedUser)

-- The messages that this part serialises.
pub data Payload : Type 0 where
  user_joined : UserJoinedMsg → Payload
  user_left : UserLeftMsg → Payload
  operation_ack : OperationAckMsg → Payload
  operation_broadcast : OperationBroadcastMsg → Payload
  doc_deleted : DocDeletedMsg → Payload
  error : ErrorMsg → Payload

-- `session->send(payload)`
pub record Send : Type 0 where
  pub session : ℕ
  pub payload : Payload

abbrev pub has_subscribers : DocumentSession → Bool
has_subscribers s = if subscriber_count s.doc == 0 then false else true

abbrev pub entry_of : Operation → OpEntry
entry_of op = elim op.type [
  | OpType.insert ↦ record { op = bytes "insert"; pos = op.position; text = op.text; len = 0 }
  | OpType.delete ↦ record { op = bytes "delete"; pos = op.position; text = []; len = op.length }
]

abbrev joining_user : DocCommand → ConnectedUser
joining_user cmd = record {
  user_id = cmd.user_id;
  username = cmd.username;
  color = cmd.color;
  session = cmd.session;
}

module _ (alive : ℕ → Bool) where
  unfoldable pub send : ℕ → Payload → List Send
  send session payload =
      if alive session then record { session = session; payload = payload } ∷ [] else []

  -- The loops of `broadcast`: the targets, and the call for each.
  unfoldable pub broadcast : List (ℕ × ConnectedUser) → Payload → ℕ → List Send
  unfolding send
  broadcast [] payload exclude_user_id = []
  broadcast ((user_id, user) ∷ users) payload exclude_user_id =
      (if user_id == exclude_user_id then [] else send user.session payload)
      ++ broadcast users payload exclude_user_id

  unfoldable pub send_to_user : DocumentSession → ℕ → Payload → List Send
  unfolding send lookup
  send_to_user s user_id payload = elim (lookup user_id s.connected_users) [
    | none ↦ []
    | some user ↦ send user.session payload
  ]

  unfoldable pub handle_join : DocumentSession → DocCommand → DocumentSession × List Send
  unfolding broadcast insert subscribe
  handle_join s cmd =
      let users = insert cmd.user_id (joining_user cmd) s.connected_users in
      (
        record s { doc = subscribe s.doc cmd.user_id; connected_users = users },
        broadcast users
            (user_joined (record {
              doc_id = s.doc.id;
              user_id = cmd.user_id;
              username = cmd.username;
              color = cmd.color;
            }))
            cmd.user_id,
      )

  unfoldable pub handle_leave : DocumentSession → DocCommand → DocumentSession × List Send
  unfolding broadcast erase unsubscribe
  handle_leave s cmd =
      let users = erase cmd.user_id s.connected_users in
      (
        record s { doc = unsubscribe s.doc cmd.user_id; connected_users = users },
        broadcast users
            (user_left
              (record { doc_id = s.doc.id; user_id = cmd.user_id; username = cmd.username }))
            0,
      )

  -- `handle_operation` behind its first line.
  abbrev answered : DocumentSession → DocCommand → Document × OtResult → DocumentSession × List Send
  answered s cmd (doc, result) =
      if result.success
      then (
        record s { doc = doc },
        send_to_user (record s { doc = doc }) cmd.user_id
              (operation_ack (record { doc_id = doc.id; revision = doc.revision }))
            ++ broadcast s.connected_users
                (operation_broadcast (record {
                  doc_id = doc.id;
                  user_id = cmd.user_id;
                  username = cmd.username;
                  revision = doc.revision;
                  ops = entry_of result.transformed_op ∷ [];
                }))
                cmd.user_id,
      )
      else (
        record s { doc = doc },
        send_to_user (record s { doc = doc }) cmd.user_id
            (error (record { code = bytes "revision_too_old"; message = result.error })),
      )

  unfoldable pub handle_operation : DocumentSession → DocCommand → DocumentSession × List Send
  unfolding send_to_user broadcast apply_with_ot
  handle_operation s cmd = answered s cmd (apply_with_ot s.doc cmd.operation)

  unfoldable pub handle_delete : DocumentSession → DocumentSession × List Send
  unfolding broadcast
  handle_delete s = (
    record s { connected_users = [] },
    broadcast s.connected_users (doc_deleted (record { doc_id = s.doc.id })) 0,
  )

  unfoldable pub process_command : DocumentSession → DocCommand → DocumentSession × List Send
  unfolding handle_join handle_leave handle_operation handle_delete
  process_command s cmd = elim cmd.type [
    | CommandType.operation ↦ handle_operation s cmd
    | CommandType.join ↦ handle_join s cmd
    | CommandType.leave ↦ handle_leave s cmd
    | CommandType.delete ↦ handle_delete s
    | CommandType.shutdown ↦ (s, [])
  ]

  -- The loop of `run` over the commands in the order in which the queue gives them.
  unfoldable pub process_commands : DocumentSession → List DocCommand → DocumentSession × List Send
  unfolding process_command
  process_commands s [] = (s, [])
  process_commands s (cmd ∷ cmds) =
      let (s', sends) = process_command s cmd in
      let (s'', sends') = process_commands s' cmds in (s'', sends ++ sends')
