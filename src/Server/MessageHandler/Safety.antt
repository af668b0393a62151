-- ===== src/Server/MessageHandler/Safety.antt =====
-- Every message that reaches the server (server/src/message_handler.cpp): what it may bring about, and
-- what it may not without authentication.
use collaborative_text_edito.Common.{
  ℕ, ◌≡◌, ◌≢◌, refl, ap, ◌∙◌, arith, Option, none, ◌⊎◌, inl, inr, false, Bool-cases, some,
  Option-cases, List, [], ◌∷◌, ◌++◌, Bytes, bytes, bytes_eq,
}
use collaborative_text_edito.Protocol.MessageType.{MessageType, parse_message_type}
use collaborative_text_edito.Server.DocumentSession.{CommandType, DocCommand}
use collaborative_text_edito.Server.DocumentManager.{DocumentManager, get_session}
use collaborative_text_edito.Server.MessageHandler.{
  Reply, Action, replied, enqueued, disk, closed, error, World, Json, Surroundings, send_error,
}
use collaborative_text_edito.Server.MessageHandler.Handlers.{
  handle_doc_list, handle_auth_request, handle_doc_create, handle_doc_join, handle_doc_leave,
}
use collaborative_text_edito.Server.MessageHandler.Editing.{
  handle_doc_delete, handle_doc_share, handle_operation_message, handle_cursor_update,
}
use collaborative_text_edito.Server.MessageHandler.Dispatch.{
  read_as, is_auth_request, check_auth, dispatch, thrown_for, sending, until_thrown, caught,
  handled, handle_message,
}
use collaborative_text_edito.Server.MessageHandler.Rights.{
  PermittedCommand, PermittedAction, PermittedActions, Permitted, send_error-Permitted,
  operation-Permitted, delete-Permitted, join-Permitted, auth-Permitted, create-Permitted,
  leave-Permitted, share-Permitted, cursor-Permitted,
}

module _ (around : Surroundings) (json : Json) (w : World) where
  read-Permitted :
      {A : Type 0} (handler : World → A → World × List Action)
      → ((msg : A) → Permitted w (handler w msg))
      → (r : Bytes ⊎ A) → Permitted w (read_as w handler r)
  read-Permitted handler p (inl what) =
      send_error-Permitted w w (bytes "invalid_message") (bytes "Malformed message: " ++ what)
  read-Permitted handler p (inr msg) = p msg

  not_implemented :
      Permitted w
        (send_error w (bytes "not_implemented") (bytes "This feature is not available in MVP"))
  not_implemented =
      send_error-Permitted w w (bytes "not_implemented")
        (bytes "This feature is not available in MVP")

  unknown_type : Permitted w (send_error w (bytes "invalid_message") (bytes "Unknown message type"))
  unknown_type = send_error-Permitted w w (bytes "invalid_message") (bytes "Unknown message type")

  dispatch-Permitted :
      (type : MessageType) (j : json.Value) → Permitted w (dispatch around json w type j)
  unfolding dispatch handle_doc_list
  dispatch-Permitted MessageType.auth_request j =
      read-Permitted (handle_auth_request around) (auth-Permitted around w) (json.auth_request j)
  dispatch-Permitted MessageType.auth_response j = unknown_type
  dispatch-Permitted MessageType.doc_list_request j = (tt, tt)
  dispatch-Permitted MessageType.doc_list_response j = unknown_type
  dispatch-Permitted MessageType.doc_create_request j =
      read-Permitted (handle_doc_create around) (create-Permitted around w)
        (json.doc_create_request j)
  dispatch-Permitted MessageType.doc_create_response j = unknown_type
  dispatch-Permitted MessageType.doc_join_request j =
      read-Permitted (handle_doc_join around) (join-Permitted around w) (json.doc_join_request j)
  dispatch-Permitted MessageType.doc_join_response j = unknown_type
  dispatch-Permitted MessageType.doc_leave_request j =
      read-Permitted (handle_doc_leave around) (leave-Permitted around w) (json.doc_leave_request j)
  dispatch-Permitted MessageType.doc_leave_response j = unknown_type
  dispatch-Permitted MessageType.doc_delete_request j =
      read-Permitted (handle_doc_delete around) (delete-Permitted around w)
        (json.doc_delete_request j)
  dispatch-Permitted MessageType.doc_delete_response j = unknown_type
  dispatch-Permitted MessageType.doc_share_request j =
      read-Permitted (handle_doc_share around) (share-Permitted around w) (json.doc_share_request j)
  dispatch-Permitted MessageType.doc_share_response j = unknown_type
  dispatch-Permitted MessageType.operation j =
      read-Permitted (handle_operation_message around) (operation-Permitted around w)
        (json.operation j)
  dispatch-Permitted MessageType.operation_ack j = unknown_type
  dispatch-Permitted MessageType.operation_broadcast j = unknown_type
  dispatch-Permitted MessageType.cursor_update j =
      read-Permitted (handle_cursor_update around) (cursor-Permitted around w)
        (json.cursor_update j)
  dispatch-Permitted MessageType.cursor_broadcast j = unknown_type
  dispatch-Permitted MessageType.user_joined j = unknown_type
  dispatch-Permitted MessageType.user_left j = unknown_type
  dispatch-Permitted MessageType.role_changed j = unknown_type
  dispatch-Permitted MessageType.doc_deleted j = unknown_type
  dispatch-Permitted MessageType.server_shutdown j = unknown_type
  dispatch-Permitted MessageType.error j = unknown_type
  dispatch-Permitted MessageType.undo_request j = not_implemented
  dispatch-Permitted MessageType.redo_request j = not_implemented
  dispatch-Permitted MessageType.snapshot_list_request j = not_implemented
  dispatch-Permitted MessageType.snapshot_list_response j = unknown_type
  dispatch-Permitted MessageType.snapshot_view_request j = not_implemented
  dispatch-Permitted MessageType.snapshot_view_response j = unknown_type
  dispatch-Permitted MessageType.snapshot_restore_request j = not_implemented
  dispatch-Permitted MessageType.snapshot_restore_response j = unknown_type
  dispatch-Permitted MessageType.rate_limit j = unknown_type
  dispatch-Permitted MessageType.unknown j = unknown_type

module _ (w : World) where
  kept_command :
      (v v' : World) (session : ℕ) (cmd : DocCommand) (type : CommandType)
      → v'.manager ≡ v.manager
      → PermittedCommand w v session cmd type
      → PermittedCommand w v' session cmd type
  kept_command v v' session cmd CommandType.operation e p = p
  kept_command v v' session cmd CommandType.join e (own, through, (d, may, found)) =
      (own, through, (d, may, ap (λ (m : DocumentManager). get_session m d) e ∙ found))
  kept_command v v' session cmd CommandType.leave e p = p
  kept_command v v' session cmd CommandType.delete e p = p
  kept_command v v' session cmd CommandType.shutdown e p = p

  kept_action :
      (v v' : World) (action : Action)
      → v'.manager ≡ v.manager
      → PermittedAction w v action
      → PermittedAction w v' action
  kept_action v v' (replied session_id r) e p = p
  kept_action v v' (enqueued session cmd) e p = kept_command v v' session cmd cmd.type e p
  kept_action v v' (disk effect) e p = p
  kept_action v v' (closed session_id) e p = p

  sending-Permitted :
      (v : World) (session_id : ℕ) (r : Reply) (thrown : Option Bytes)
      (after : List Action × Option Bytes)
      → PermittedActions w v after.0
      → PermittedActions w v (sending (replied session_id r) thrown after).0
  sending-Permitted v session_id r none after p = (tt, p)
  sending-Permitted v session_id r (some what) after p = tt

  until_thrown-Permitted :
      (throws : Reply → Option Bytes) (v : World) (actions : List Action)
      → PermittedActions w v actions
      → PermittedActions w v (until_thrown throws actions).0
  unfolding until_thrown
  until_thrown-Permitted throws v [] p = tt
  until_thrown-Permitted throws v (replied session_id r ∷ actions) p =
      sending-Permitted v session_id r (thrown_for throws r) (until_thrown throws actions)
        (until_thrown-Permitted throws v actions p.1)
  until_thrown-Permitted throws v (enqueued session cmd ∷ actions) p =
      (p.0, until_thrown-Permitted throws v actions p.1)
  until_thrown-Permitted throws v (disk effect ∷ actions) p =
      (p.0, until_thrown-Permitted throws v actions p.1)
  until_thrown-Permitted throws v (closed session_id ∷ actions) p =
      (tt, until_thrown-Permitted throws v actions p.1)

  append-Permitted :
      (v v' : World) (xs ys : List Action)
      → v'.manager ≡ v.manager
      → PermittedActions w v xs
      → PermittedActions w v' ys
      → PermittedActions w v' (xs ++ ys)
  append-Permitted v v' [] ys e p q = q
  append-Permitted v v' (x ∷ xs) ys e p q =
      (kept_action v v' x e p.0, append-Permitted v v' xs ys e p.1 q)

  send_error-manager :
      (v : World) (code message : Bytes) → (send_error v code message).0.manager ≡ v.manager
  unfolding send_error
  send_error-manager v code message = ground arith

  caught-Permitted :
      (v : World) (before : List Action) (thrown : Option Bytes)
      → PermittedActions w v before
      → Permitted w (caught v (before, thrown))
  caught-Permitted v before none p = p
  caught-Permitted v before (some what) p =
      let message = bytes "Malformed message: " ++ what in
      append-Permitted v (send_error v (bytes "invalid_message") message).0 before
        (send_error v (bytes "invalid_message") message).1
        (send_error-manager v (bytes "invalid_message") message) p
        (send_error-Permitted w v (bytes "invalid_message") message)

  handled-Permitted :
      (throws : Reply → Option Bytes) (result : World × List Action)
      → Permitted w result
      → Permitted w (handled throws result)
  unfolding handled
  handled-Permitted throws (v, actions) p =
      caught-Permitted v (until_thrown throws actions).0 (until_thrown throws actions).1
        (until_thrown-Permitted throws v actions p)

-- Whatever a message holds, it brings about only what the user of its client session may do: an
-- operation command is his own, in the document that he is in and may edit; a join command is his
-- own, for a document that he may read, and goes to the session that is found for that document from
-- then on; a leave command is his own; a delete command and the removal of files are for a document
-- that he owns; the files that are written are those of a new id.
pub handle_message-Permitted :
    (around : Surroundings) (json : Json) (w : World) (payload : Bytes)
    → Permitted w (handle_message around json w payload)
unfolding handle_message
handle_message-Permitted around json w payload = elim (Option-cases (json.parse payload)) [
  | inl e ↦
      rw (e, handle_message)
        (send_error-Permitted w w (bytes "invalid_message") (bytes "Invalid JSON"))
  | inr (j, e) ↦ elim (Option-cases (json.type_of j)) [
    | inl f ↦
        rw (e, f, handle_message)
          (send_error-Permitted w w (bytes "invalid_message") (bytes "Missing 'type' field"))
    | inr (name, f) ↦ elim (Bool-cases (check_auth w (parse_message_type name))) [
      | inl g ↦
          rw (e, f, g, handle_message)
            (handled-Permitted w json.throws (dispatch around json w (parse_message_type name) j)
              (dispatch-Permitted around json w (parse_message_type name) j))
      | inr g ↦
          rw (e, f, g, handle_message)
            (send_error-Permitted w w (bytes "not_authenticated") (bytes "Authentication required"))
    ]
  ]
]

-- What a client session is told that is not authenticated.
abbrev pub authentication_required : World → List Action
authentication_required w =
    replied w.session.session_id (
      error
        (record { code = bytes "not_authenticated"; message = bytes "Authentication required" }))
    ∷ []

only_auth : (type : MessageType) → type ≢ MessageType.auth_request → is_auth_request type ≡ false
only_auth MessageType.auth_request n = absurd (n refl)
only_auth MessageType.auth_response n = refl
only_auth MessageType.doc_list_request n = refl
only_auth MessageType.doc_list_response n = refl
only_auth MessageType.doc_create_request n = refl
only_auth MessageType.doc_create_response n = refl
only_auth MessageType.doc_join_request n = refl
only_auth MessageType.doc_join_response n = refl
only_auth MessageType.doc_leave_request n = refl
only_auth MessageType.doc_leave_response n = refl
only_auth MessageType.doc_delete_request n = refl
only_auth MessageType.doc_delete_response n = refl
only_auth MessageType.doc_share_request n = refl
only_auth MessageType.doc_share_response n = refl
only_auth MessageType.operation n = refl
only_auth MessageType.operation_ack n = refl
only_auth MessageType.operation_broadcast n = refl
only_auth MessageType.cursor_update n = refl
only_auth MessageType.cursor_broadcast n = refl
only_auth MessageType.user_joined n = refl
only_auth MessageType.user_left n = refl
only_auth MessageType.role_changed n = refl
only_auth MessageType.doc_deleted n = refl
only_auth MessageType.server_shutdown n = refl
only_auth MessageType.error n = refl
only_auth MessageType.undo_request n = refl
only_auth MessageType.redo_request n = refl
only_auth MessageType.snapshot_list_request n = refl
only_auth MessageType.snapshot_list_response n = refl
only_auth MessageType.snapshot_view_request n = refl
only_auth MessageType.snapshot_view_response n = refl
only_auth MessageType.snapshot_restore_request n = refl
only_auth MessageType.snapshot_restore_response n = refl
only_auth MessageType.rate_limit n = refl
only_auth MessageType.unknown n = refl

-- Without authentication a message of any type but an authentication request changes nothing and is
-- answered by one error.
pub handle_message-unauthenticated :
    (around : Surroundings) (json : Json) (w : World) (payload : Bytes) (j : json.Value)
    (name : Bytes)
    → w.session.authenticated ≡ false
    → json.parse payload ≡ some j
    → json.type_of j ≡ some name
    → parse_message_type name ≢ MessageType.auth_request
    → handle_message around json w payload ≡ (w, authentication_required w)
unfolding handle_message check_auth send_error bytes_eq
handle_message-unauthenticated around json w payload j name a e f n =
    let refused : check_auth w (parse_message_type name) ≡ false =
      ground (arith, a, only_auth (parse_message_type name) n) in
    rw (e, f, refused, handle_message) refl
