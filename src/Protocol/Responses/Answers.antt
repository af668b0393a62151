-- ===== src/Protocol/Responses/Answers.antt =====
-- `from_json` and `to_json` of the answers to requests (protocol/src/protocol.cpp).
use collaborative_text_edito.Common.{
  inr, Bool, true, false, [], ◌∷◌, map, Bytes, bytes, if◌then◌else◌,
}
use collaborative_text_edito.Protocol.JsonLibrary.{
  Result, ◌>>=◌, JsonLibrary, read_u32, read_int, read_bool, read_string, read_list,
}
use collaborative_text_edito.Protocol.Messages.{
  AuthResponseMsg, DocListEntry, DocListResponseMsg, DocCreateResponseMsg, UserInfo,
  DocJoinResponseMsg, DocLeaveResponseMsg, DocDeleteResponseMsg, DocShareResponseMsg,
}
use collaborative_text_edito.Protocol.Requests.{type_field}

module _ (J : JsonLibrary) where
  open J use {Value, boolean, number, string, array, object, assign, contains}

  -- `m.error`, where the answer is a refusal; it may be missing.
  unfoldable pub read_error : Value → Result Bytes
  read_error j = if contains j (bytes "error") then read_string J j (bytes "error") else inr []

  abbrev pub auth_members : Value → Bool → Result AuthResponseMsg
  auth_members j true = do
    user_id ← read_u32 J j (bytes "userId")
    inr (record { success = true; user_id = user_id; error = [] })
  auth_members j false = do
    error ← read_error j
    inr (record { success = false; user_id = 0; error = error })

  unfoldable pub auth_response_from_json : Value → Result AuthResponseMsg
  unfolding read_error
  auth_response_from_json j = read_bool J j (bytes "success") >>= auth_members j

  unfoldable pub doc_list_entry_from_json : Value → Result DocListEntry
  doc_list_entry_from_json j = do
    doc_id ← read_u32 J j (bytes "docId")
    title ← read_string J j (bytes "title")
    role ← read_string J j (bytes "role")
    online_count ← read_int J j (bytes "onlineCount")
    inr (record { doc_id = doc_id; title = title; role = role; online_count = online_count })

  unfoldable pub doc_list_response_from_json : Value → Result DocListResponseMsg
  unfolding doc_list_entry_from_json
  doc_list_response_from_json j = do
    documents ← read_list J doc_list_entry_from_json j (bytes "documents")
    inr (record { documents = documents })

  abbrev pub create_members : Value → Bool → Result DocCreateResponseMsg
  create_members j true = do
    doc_id ← read_u32 J j (bytes "docId")
    inr (record { success = true; doc_id = doc_id })
  create_members j false = inr (record { success = false; doc_id = 0 })

  unfoldable pub doc_create_response_from_json : Value → Result DocCreateResponseMsg
  doc_create_response_from_json j = read_bool J j (bytes "success") >>= create_members j

  unfoldable pub user_info_from_json : Value → Result UserInfo
  user_info_from_json j = do
    user_id ← read_u32 J j (bytes "userId")
    username ← read_string J j (bytes "username")
    color ← read_string J j (bytes "color")
    inr (record { user_id = user_id; username = username; color = color })

  abbrev pub join_members : Value → Bool → Result DocJoinResponseMsg
  join_members j true = do
    doc_id ← read_u32 J j (bytes "docId")
    title ← read_string J j (bytes "title")
    content ← read_string J j (bytes "content")
    revision ← read_u32 J j (bytes "revision")
    role ← read_string J j (bytes "role")
    users ← read_list J user_info_from_json j (bytes "users")
    inr (record {
      success = true;
      doc_id = doc_id;
      title = title;
      content = content;
      revision = revision;
      role = role;
      users = users;
      error = [];
    })
  join_members j false = do
    error ← read_error j
    inr (record {
      success = false;
      doc_id = 0;
      title = [];
      content = [];
      revision = 0;
      role = [];
      users = [];
      error = error;
    })

  unfoldable pub doc_join_response_from_json : Value → Result DocJoinResponseMsg
  unfolding user_info_from_json read_error
  doc_join_response_from_json j = read_bool J j (bytes "success") >>= join_members j

  unfoldable pub doc_leave_response_from_json : Value → Result DocLeaveResponseMsg
  doc_leave_response_from_json j = do
    success ← read_bool J j (bytes "success")
    inr (record { success = success })

  unfoldable pub doc_delete_response_from_json : Value → Result DocDeleteResponseMsg
  doc_delete_response_from_json j = do
    success ← read_bool J j (bytes "success")
    inr (record { success = success })

  unfoldable pub doc_share_response_from_json : Value → Result DocShareResponseMsg
  doc_share_response_from_json j = do
    success ← read_bool J j (bytes "success")
    inr (record { success = success })

  -- An answer with its type and its success.
  abbrev pub answer : Bytes → Bool → Value
  answer name success = object (type_field J name ∷ (bytes "success", boolean success) ∷ [])

  unfoldable pub auth_response_to_json : AuthResponseMsg → Value
  auth_response_to_json m =
      let j = answer (bytes "auth_response") m.success in
      if m.success
      then assign j (bytes "userId") (number m.user_id)
      else assign j (bytes "error") (string m.error)

  unfoldable pub doc_list_entry_to_json : DocListEntry → Value
  doc_list_entry_to_json m = object (
      (bytes "docId", number m.doc_id)
      ∷ (bytes "title", string m.title)
      ∷ (bytes "role", string m.role)
      ∷ (bytes "onlineCount", number m.online_count)
      ∷ [])

  unfoldable pub doc_list_response_to_json : DocListResponseMsg → Value
  unfolding doc_list_entry_to_json
  doc_list_response_to_json m = object (
      type_field J (bytes "doc_list_response")
      ∷ (bytes "documents", array (map doc_list_entry_to_json m.documents))
      ∷ [])

  unfoldable pub doc_create_response_to_json : DocCreateResponseMsg → Value
  doc_create_response_to_json m =
      let j = answer (bytes "doc_create_response") m.success in
      if m.success then assign j (bytes "docId") (number m.doc_id) else j

  unfoldable pub user_info_to_json : UserInfo → Value
  user_info_to_json m = object (
      (bytes "userId", number m.user_id)
      ∷ (bytes "username", string m.username)
      ∷ (bytes "color", string m.color)
      ∷ [])

  unfoldable pub doc_join_response_to_json : DocJoinResponseMsg → Value
  unfolding user_info_to_json
  doc_join_response_to_json m =
      let j = answer (bytes "doc_join_response") m.success in
      if m.success
      then (let j = assign j (bytes "docId") (number m.doc_id) in
          let j = assign j (bytes "title") (string m.title) in
          let j = assign j (bytes "content") (string m.content) in
          let j = assign j (bytes "revision") (number m.revision) in
          let j = assign j (bytes "role") (string m.role) in
          assign j (bytes "users") (array (map user_info_to_json m.users)))
      else assign j (bytes "error") (string m.error)

  unfoldable pub doc_leave_response_to_json : DocLeaveResponseMsg → Value
  doc_leave_response_to_json m = answer (bytes "doc_leave_response") m.success

  unfoldable pub doc_delete_response_to_json : DocDeleteResponseMsg → Value
  doc_delete_response_to_json m = answer (bytes "doc_delete_response") m.success

  unfoldable pub doc_share_response_to_json : DocShareResponseMsg → Value
  doc_share_response_to_json m = answer (bytes "doc_share_response") m.success
