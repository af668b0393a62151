-- ===== src/Protocol/Requests.antt =====
-- `from_json` and `to_json` of the requests (protocol/src/protocol.cpp).
pub mod RoundTrip
use collaborative_text_edito.Common.{
  ℕ, inl, inr, Bool, List, [], ◌∷◌, map, Bytes, bytes, bytes_eq, if◌then◌else◌,
}
use collaborative_text_edito.Protocol.JsonLibrary.{
  Result, ◌>>=◌, JsonLibrary, read_u32, read_string, read_list, read_all, read_optional, optional,
}
use collaborative_text_edito.Protocol.Messages.{
  AuthRequestMsg, DocListRequestMsg, DocCreateRequestMsg, DocJoinRequestMsg, DocLeaveRequestMsg,
  DocDeleteRequestMsg, DocShareRequestMsg, OpEntry, OperationMsg, CursorUpdateMsg,
}

module _ (J : JsonLibrary) where
  open J use {Value, number, string, array, object, assign}

  unfoldable pub auth_request_from_json : Value → Result AuthRequestMsg
  auth_request_from_json j = do
    action ← read_string J j (bytes "action")
    username ← read_string J j (bytes "username")
    password ← read_string J j (bytes "password")
    inr (record { action = action; username = username; password = password })

  unfoldable pub doc_create_request_from_json : Value → Result DocCreateRequestMsg
  doc_create_request_from_json j = do
    title ← read_string J j (bytes "title")
    inr (record { title = title })

  unfoldable pub doc_join_request_from_json : Value → Result DocJoinRequestMsg
  doc_join_request_from_json j = do
    doc_id ← read_u32 J j (bytes "docId")
    inr (record { doc_id = doc_id })

  unfoldable pub doc_leave_request_from_json : Value → Result DocLeaveRequestMsg
  doc_leave_request_from_json j = do
    doc_id ← read_u32 J j (bytes "docId")
    inr (record { doc_id = doc_id })

  unfoldable pub doc_delete_request_from_json : Value → Result DocDeleteRequestMsg
  doc_delete_request_from_json j = do
    doc_id ← read_u32 J j (bytes "docId")
    inr (record { doc_id = doc_id })

  unfoldable pub doc_share_request_from_json : Value → Result DocShareRequestMsg
  doc_share_request_from_json j = do
    doc_id ← read_u32 J j (bytes "docId")
    target_username ← read_string J j (bytes "targetUsername")
    role ← read_string J j (bytes "role")
    inr (record { doc_id = doc_id; target_username = target_username; role = role })

  abbrev insertion_entry : Bytes → ℕ → Value → Result OpEntry
  insertion_entry op pos j = do
    text ← read_string J j (bytes "text")
    inr (record { op = op; pos = pos; text = text; len = 0 })

  abbrev deletion_entry : Bytes → ℕ → Value → Result OpEntry
  deletion_entry op pos j = do
    len ← read_u32 J j (bytes "len")
    inr (record { op = op; pos = pos; text = []; len = len })

  -- The members that the kind of the entry does not have keep their defaults.
  abbrev pub with_kind : Bytes → ℕ → Value → Result OpEntry
  with_kind op pos j =
      if bytes_eq op (bytes "insert")
      then insertion_entry op pos j
      else if bytes_eq op (bytes "delete")
      then deletion_entry op pos j
      else inr (record { op = op; pos = pos; text = []; len = 0 })

  unfoldable pub op_entry_from_json : Value → Result OpEntry
  op_entry_from_json j = do
    op ← read_string J j (bytes "op")
    pos ← read_u32 J j (bytes "pos")
    with_kind op pos j

  unfoldable pub operation_from_json : Value → Result OperationMsg
  unfolding op_entry_from_json
  operation_from_json j = do
    doc_id ← read_u32 J j (bytes "docId")
    revision ← read_u32 J j (bytes "revision")
    ops ← read_list J op_entry_from_json j (bytes "ops")
    inr (record { doc_id = doc_id; revision = revision; ops = ops })

  unfoldable pub cursor_update_from_json : Value → Result CursorUpdateMsg
  cursor_update_from_json j = do
    doc_id ← read_u32 J j (bytes "docId")
    position ← read_u32 J j (bytes "position")
    selection_start ← read_optional J j (bytes "selectionStart")
    selection_end ← read_optional J j (bytes "selectionEnd")
    inr (record {
      doc_id = doc_id;
      position = position;
      selection_start = selection_start;
      selection_end = selection_end;
    })

  abbrev pub type_field : Bytes → Bytes × Value
  type_field name = (bytes "type", string name)

  unfoldable pub auth_request_to_json : AuthRequestMsg → Value
  auth_request_to_json m = object (
      type_field (bytes "auth_request")
      ∷ (bytes "action", string m.action)
      ∷ (bytes "username", string m.username)
      ∷ (bytes "password", string m.password)
      ∷ [])

  unfoldable pub doc_list_request_to_json : DocListRequestMsg → Value
  doc_list_request_to_json m = object (type_field (bytes "doc_list_request") ∷ [])

  unfoldable pub doc_create_request_to_json : DocCreateRequestMsg → Value
  doc_create_request_to_json m =
      object (type_field (bytes "doc_create_request") ∷ (bytes "title", string m.title) ∷ [])

  unfoldable pub doc_join_request_to_json : DocJoinRequestMsg → Value
  doc_join_request_to_json m =
      object (type_field (bytes "doc_join_request") ∷ (bytes "docId", number m.doc_id) ∷ [])

  unfoldable pub doc_leave_request_to_json : DocLeaveRequestMsg → Value
  doc_leave_request_to_json m =
      object (type_field (bytes "doc_leave_request") ∷ (bytes "docId", number m.doc_id) ∷ [])

  unfoldable pub doc_delete_request_to_json : DocDeleteRequestMsg → Value
  doc_delete_request_to_json m =
      object (type_field (bytes "doc_delete_request") ∷ (bytes "docId", number m.doc_id) ∷ [])

  unfoldable pub doc_share_request_to_json : DocShareRequestMsg → Value
  doc_share_request_to_json m = object (
      type_field (bytes "doc_share_request")
      ∷ (bytes "docId", number m.doc_id)
      ∷ (bytes "targetUsername", string m.target_username)
      ∷ (bytes "role", string m.role)
      ∷ [])

  unfoldable pub op_entry_to_json : OpEntry → Value
  op_entry_to_json m =
      let j = object ((bytes "op", string m.op) ∷ (bytes "pos", number m.pos) ∷ []) in
      if bytes_eq m.op (bytes "insert")
      then assign j (bytes "text") (string m.text)
      else if bytes_eq m.op (bytes "delete")
      then assign j (bytes "len") (number m.len)
      else j

  unfoldable pub operation_to_json : OperationMsg → Value
  unfolding op_entry_to_json
  operation_to_json m = object (
      type_field (bytes "operation")
      ∷ (bytes "docId", number m.doc_id)
      ∷ (bytes "revision", number m.revision)
      ∷ (bytes "ops", array (map op_entry_to_json m.ops))
      ∷ [])

  unfoldable pub cursor_update_to_json : CursorUpdateMsg → Value
  cursor_update_to_json m =
      let j = object (
        type_field (bytes "cursor_update")
        ∷ (bytes "docId", number m.doc_id)
        ∷ (bytes "position", number m.position)
        ∷ []) in
      assign (assign j (bytes "selectionStart") (optional J m.selection_start))
        (bytes "selectionEnd") (optional J m.selection_end)
