-- ===== src/Protocol/Responses/Events.antt =====
-- `from_json` and `to_json` of the messages that tell of an event (protocol/src/protocol.cpp).
use collaborative_text_edito.Common.{inr, [], ◌∷◌, map, bytes}
use collaborative_text_edito.Protocol.JsonLibrary.{
  Result, ◌>>=◌, JsonLibrary, read_u32, read_string, read_list, read_optional, optional,
}
use collaborative_text_edito.Protocol.Messages.{
  OperationAckMsg, OperationBroadcastMsg, CursorInfo, CursorBroadcastMsg, UserJoinedMsg,
  UserLeftMsg, RoleChangedMsg, DocDeletedMsg, ServerShutdownMsg, ErrorMsg,
}
use collaborative_text_edito.Protocol.Requests.{type_field, op_entry_from_json, op_entry_to_json}

module _ (J : JsonLibrary) where
  open J use {Value, number, string, array, object, assign}

  unfoldable pub operation_ack_from_json : Value → Result OperationAckMsg
  operation_ack_from_json j = do
    doc_id ← read_u32 J j (bytes "docId")
    revision ← read_u32 J j (bytes "revision")
    inr (record { doc_id = doc_id; revision = revision })

  unfoldable pub operation_broadcast_from_json : Value → Result OperationBroadcastMsg
  operation_broadcast_from_json j = do
    doc_id ← read_u32 J j (bytes "docId")
    user_id ← read_u32 J j (bytes "userId")
    username ← read_string J j (bytes "username")
    revision ← read_u32 J j (bytes "revision")
    ops ← read_list J (op_entry_from_json J) j (bytes "ops")
    inr (record {
      doc_id = doc_id;
      user_id = user_id;
      username = username;
      revision = revision;
      ops = ops;
    })

  unfoldable pub cursor_info_from_json : Value → Result CursorInfo
  cursor_info_from_json j = do
    user_id ← read_u32 J j (bytes "userId")
    username ← read_string J j (bytes "username")
    color ← read_string J j (bytes "color")
    position ← read_u32 J j (bytes "position")
    selection_start ← read_optional J j (bytes "selectionStart")
    selection_end ← read_optional J j (bytes "selectionEnd")
    inr (record {
      user_id = user_id;
      username = username;
      color = color;
      position = position;
      selection_start = selection_start;
      selection_end = selection_end;
    })

  unfoldable pub cursor_broadcast_from_json : Value → Result CursorBroadcastMsg
  unfolding cursor_info_from_json
  cursor_broadcast_from_json j = do
    doc_id ← read_u32 J j (bytes "docId")
    cursors ← read_list J cursor_info_from_json j (bytes "cursors")
    inr (record { doc_id = doc_id; cursors = cursors })

  unfoldable pub user_joined_from_json : Value → Result UserJoinedMsg
  user_joined_from_json j = do
    doc_id ← read_u32 J j (bytes "docId")
    user_id ← read_u32 J j (bytes "userId")
    username ← read_string J j (bytes "username")
    color ← read_string J j (bytes "color")
    inr (record { doc_id = doc_id; user_id = user_id; username = username; color = color })

  unfoldable pub user_left_from_json : Value → Result UserLeftMsg
  user_left_from_json j = do
    doc_id ← read_u32 J j (bytes "docId")
    user_id ← read_u32 J j (bytes "userId")
    username ← read_string J j (bytes "username")
    inr (record { doc_id = doc_id; user_id = user_id; username = username })

  unfoldable pub role_changed_from_json : Value → Result RoleChangedMsg
  role_changed_from_json j = do
    doc_id ← read_u32 J j (bytes "docId")
    new_role ← read_string J j (bytes "newRole")
    inr (record { doc_id = doc_id; new_role = new_role })

  unfoldable pub doc_deleted_from_json : Value → Result DocDeletedMsg
  doc_deleted_from_json j = do
    doc_id ← read_u32 J j (bytes "docId")
    inr (record { doc_id = doc_id })

  unfoldable pub server_shutdown_from_json : Value → Result ServerShutdownMsg
  server_shutdown_from_json j = do
    message ← read_string J j (bytes "message")
    inr (record { message = message })

  unfoldable pub error_from_json : Value → Result ErrorMsg
  error_from_json j = do
    code ← read_string J j (bytes "code")
    message ← read_string J j (bytes "message")
    inr (record { code = code; message = message })

  unfoldable pub operation_ack_to_json : OperationAckMsg → Value
  operation_ack_to_json m = object (
      type_field J (bytes "operation_ack")
      ∷ (bytes "docId", number m.doc_id)
      ∷ (bytes "revision", number m.revision)
      ∷ [])

  unfoldable pub operation_broadcast_to_json : OperationBroadcastMsg → Value
  operation_broadcast_to_json m = object (
      type_field J (bytes "operation_broadcast")
      ∷ (bytes "docId", number m.doc_id)
      ∷ (bytes "userId", number m.user_id)
      ∷ (bytes "username", string m.username)
      ∷ (bytes "revision", number m.revision)
      ∷ (bytes "ops", array (map (op_entry_to_json J) m.ops))
      ∷ [])

  unfoldable pub cursor_info_to_json : CursorInfo → Value
  cursor_info_to_json m =
      let j = object (
        (bytes "userId", number m.user_id)
        ∷ (bytes "username", string m.username)
        ∷ (bytes "color", string m.color)
        ∷ (bytes "position", number m.position)
        ∷ []) in
      assign (assign j (bytes "selectionStart") (optional J m.selection_start))
        (bytes "selectionEnd") (optional J m.selection_end)

  unfoldable pub cursor_broadcast_to_json : CursorBroadcastMsg → Value
  unfolding cursor_info_to_json
  cursor_broadcast_to_json m = object (
      type_field J (bytes "cursor_broadcast")
      ∷ (bytes "docId", number m.doc_id)
      ∷ (bytes "cursors", array (map cursor_info_to_json m.cursors))
      ∷ [])

  unfoldable pub user_joined_to_json : UserJoinedMsg → Value
  user_joined_to_json m = object (
      type_field J (bytes "user_joined")
      ∷ (bytes "docId", number m.doc_id)
      ∷ (bytes "userId", number m.user_id)
      ∷ (bytes "username", string m.username)
      ∷ (bytes "color", string m.color)
      ∷ [])

  unfoldable pub user_left_to_json : UserLeftMsg → Value
  user_left_to_json m = object (
      type_field J (bytes "user_left")
      ∷ (bytes "docId", number m.doc_id)
      ∷ (bytes "userId", number m.user_id)
      ∷ (bytes "username", string m.username)
      ∷ [])

  unfoldable pub role_changed_to_json : RoleChangedMsg → Value
  role_changed_to_json m = object (
      type_field J (bytes "role_changed")
      ∷ (bytes "docId", number m.doc_id)
      ∷ (bytes "newRole", string m.new_role)
      ∷ [])

  unfoldable pub doc_deleted_to_json : DocDeletedMsg → Value
  doc_deleted_to_json m =
      object (type_field J (bytes "doc_deleted") ∷ (bytes "docId", number m.doc_id) ∷ [])

  unfoldable pub server_shutdown_to_json : ServerShutdownMsg → Value
  server_shutdown_to_json m =
      object (type_field J (bytes "server_shutdown") ∷ (bytes "message", string m.message) ∷ [])

  unfoldable pub error_to_json : ErrorMsg → Value
  error_to_json m = object (
      type_field J (bytes "error")
      ∷ (bytes "code", string m.code)
      ∷ (bytes "message", string m.message)
      ∷ [])
