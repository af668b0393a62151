-- ===== src/Server/MessageHandler/Dispatch.antt =====
-- `handle_message` and `check_auth` (server/src/message_handler.cpp).
use collaborative_text_edito.Common.{
  ◌⊎◌, inl, inr, Bool, Option, none, some, List, [], ◌∷◌, ◌++◌, Bytes, bytes, if◌then◌else◌, ◌==◌,
  ◌||◌,
}
use collaborative_text_edito.Protocol.MessageType.{MessageType, value, parse_message_type}
use collaborative_text_edito.Server.MessageHandler.{
  Reply, error, Action, replied, World, Json, Surroundings, send_error,
}
use collaborative_text_edito.Server.MessageHandler.Handlers.{
  handle_auth_request, handle_doc_list, handle_doc_create, handle_doc_join, handle_doc_leave,
}
use collaborative_text_edito.Server.MessageHandler.Editing.{
  handle_doc_delete, handle_doc_share, handle_operation_message, handle_cursor_update,
}

-- A request that was read, or the text of the exception of the JSON library.
abbrev pub read_as :
    {A : Type 0} → World → (World → A → World × List Action) → Bytes ⊎ A → World × List Action
read_as w handler (inl what) =
    send_error w (bytes "invalid_message") (bytes "Malformed message: " ++ what)
read_as w handler (inr msg) = handler w msg

abbrev pub is_auth_request : MessageType → Bool
is_auth_request type = value type == 0

-- `check_auth`: whether the message goes on, and what is sent otherwise.
unfoldable pub check_auth : World → MessageType → Bool
check_auth w type = is_auth_request type || w.session.authenticated

abbrev pub thrown_for : (Reply → Option Bytes) → Reply → Option Bytes
thrown_for throws (error m) = none
thrown_for throws r = throws r

abbrev and_then : Action → List Action × Option Bytes → List Action × Option Bytes
and_then action (before, thrown) = (action ∷ before, thrown)

abbrev pub sending : Action → Option Bytes → List Action × Option Bytes → List Action × Option Bytes
sending action none after = and_then action after
sending action (some what) after = ([], some what)

-- What a handler does up to the first reply for which `serialize` throws, and what that throws.
unfoldable pub until_thrown : (Reply → Option Bytes) → List Action → List Action × Option Bytes
until_thrown throws [] = ([], none)
until_thrown throws (replied session_id r ∷ actions) =
    let after = until_thrown throws actions in
    sending (replied session_id r) (thrown_for throws r) after
until_thrown throws (action ∷ actions) = and_then action (until_thrown throws actions)

-- The `catch` around the handlers.
abbrev pub caught : World → List Action × Option Bytes → World × List Action
caught w (before, none) = (w, before)
caught w (before, some what) =
    let (w', told) = send_error w (bytes "invalid_message") (bytes "Malformed message: " ++ what) in
    (w', before ++ told)

unfoldable pub handled : (Reply → Option Bytes) → World × List Action → World × List Action
unfolding until_thrown send_error
handled throws (w, actions) = caught w (until_thrown throws actions)

module _ (around : Surroundings) (json : Json) where
  unfoldable pub dispatch : World → MessageType → json.Value → World × List Action
  unfolding handle_auth_request handle_doc_list handle_doc_create handle_doc_join handle_doc_leave
      handle_doc_delete handle_doc_share handle_operation_message handle_cursor_update send_error
  dispatch w MessageType.auth_request j =
      read_as w (handle_auth_request around) (json.auth_request j)
  dispatch w MessageType.doc_list_request j = handle_doc_list around w
  dispatch w MessageType.doc_create_request j =
      read_as w (handle_doc_create around) (json.doc_create_request j)
  dispatch w MessageType.doc_join_request j =
      read_as w (handle_doc_join around) (json.doc_join_request j)
  dispatch w MessageType.doc_leave_request j =
      read_as w (handle_doc_leave around) (json.doc_leave_request j)
  dispatch w MessageType.doc_delete_request j =
      read_as w (handle_doc_delete around) (json.doc_delete_request j)
  dispatch w MessageType.doc_share_request j =
      read_as w (handle_doc_share around) (json.doc_share_request j)
  dispatch w MessageType.operation j =
      read_as w (handle_operation_message around) (json.operation j)
  dispatch w MessageType.cursor_update j =
      read_as w (handle_cursor_update around) (json.cursor_update j)
  dispatch w MessageType.undo_request j =
      send_error w (bytes "not_implemented") (bytes "This feature is not available in MVP")
  dispatch w MessageType.redo_request j =
      send_error w (bytes "not_implemented") (bytes "This feature is not available in MVP")
  dispatch w MessageType.snapshot_list_request j =
      send_error w (bytes "not_implemented") (bytes "This feature is not available in MVP")
  dispatch w MessageType.snapshot_view_request j =
      send_error w (bytes "not_implemented") (bytes "This feature is not available in MVP")
  dispatch w MessageType.snapshot_restore_request j =
      send_error w (bytes "not_implemented") (bytes "This feature is not available in MVP")
  dispatch w _ j = send_error w (bytes "invalid_message") (bytes "Unknown message type")

  abbrev typed : World → json.Value → Option Bytes → World × List Action
  typed w j none = send_error w (bytes "invalid_message") (bytes "Missing 'type' field")
  typed w j (some name) =
      let type = parse_message_type name in
      if check_auth w type
      then handled json.throws (dispatch w type j)
      else send_error w (bytes "not_authenticated") (bytes "Authentication required")

  abbrev parsed : World → Option json.Value → World × List Action
  parsed w none = send_error w (bytes "invalid_message") (bytes "Invalid JSON")
  parsed w (some j) = typed w j (json.type_of j)

  unfoldable pub handle_message : World → Bytes → World × List Action
  unfolding dispatch handled parse_message_type check_auth send_error
  handle_message w payload = parsed w (json.parse payload)
