-- ===== src/Client/ProtocolCodec.antt =====
-- client/src/protocol_codec.cpp, client/include/client/protocol_codec.h: the texts that the client
-- sends and what it reads of the server's. A `QString` is its UTF-8 bytes, and what throws beyond
-- these functions returns the text of the exception on the left.
pub mod Responses
use collaborative_text_edito.Common.{ℕ, inl, inr, Option, none, some, Bytes}
use collaborative_text_edito.Protocol.MessageType.{MessageType, parse_message_type}
use collaborative_text_edito.Protocol.JsonLibrary.{
  Result, JsonLibrary, serialize, succeeded, type_name, ◌>>=◌,
}
use collaborative_text_edito.Protocol.Messages.{
  AuthResponseMsg, DocListResponseMsg, DocCreateResponseMsg, DocJoinResponseMsg,
  DocDeleteResponseMsg, CursorBroadcastMsg, UserJoinedMsg, UserLeftMsg, ServerShutdownMsg,
  DocDeletedMsg, RoleChangedMsg, ErrorMsg, doc_list_request_msg,
}
use collaborative_text_edito.Protocol.Requests.{
  auth_request_to_json, doc_list_request_to_json, doc_create_request_to_json,
  doc_join_request_to_json, doc_leave_request_to_json, doc_delete_request_to_json,
  doc_share_request_to_json, cursor_update_to_json,
}
use collaborative_text_edito.Protocol.Responses.Answers.{
  auth_response_from_json, doc_list_response_from_json, doc_create_response_from_json,
  doc_join_response_from_json, doc_delete_response_from_json,
}
use collaborative_text_edito.Protocol.Responses.Events.{
  cursor_broadcast_from_json, user_joined_from_json, user_left_from_json, server_shutdown_from_json,
  doc_deleted_from_json, role_changed_from_json, error_from_json,
}

pub record ParsedEnvelope : Type 0 where
  pub type : MessageType
  pub payload : Bytes

module _ (J : JsonLibrary) where
  open J use {Value}

  unfoldable pub encode_auth_request : Bytes → Bytes → Bytes → Result Bytes
  unfolding auth_request_to_json
  encode_auth_request action username password =
      serialize J (auth_request_to_json J)
        (record { action = action; username = username; password = password })

  unfoldable pub encode_doc_list_request : Result Bytes
  unfolding doc_list_request_to_json
  encode_doc_list_request = serialize J (doc_list_request_to_json J) doc_list_request_msg

  unfoldable pub encode_doc_create_request : Bytes → Result Bytes
  unfolding doc_create_request_to_json
  encode_doc_create_request title =
      serialize J (doc_create_request_to_json J) (record { title = title })

  unfoldable pub encode_doc_join_request : ℕ → Result Bytes
  unfolding doc_join_request_to_json
  encode_doc_join_request doc_id =
      serialize J (doc_join_request_to_json J) (record { doc_id = doc_id })

  unfoldable pub encode_doc_leave_request : ℕ → Result Bytes
  unfolding doc_leave_request_to_json
  encode_doc_leave_request doc_id =
      serialize J (doc_leave_request_to_json J) (record { doc_id = doc_id })

  unfoldable pub encode_doc_delete_request : ℕ → Result Bytes
  unfolding doc_delete_request_to_json
  encode_doc_delete_request doc_id =
      serialize J (doc_delete_request_to_json J) (record { doc_id = doc_id })

  unfoldable pub encode_doc_share_request : ℕ → Bytes → Bytes → Result Bytes
  unfolding doc_share_request_to_json
  encode_doc_share_request doc_id target_username role =
      serialize J (doc_share_request_to_json J)
        (record { doc_id = doc_id; target_username = target_username; role = role })

  unfoldable pub encode_cursor_update : ℕ → ℕ → Option ℕ → Option ℕ → Result Bytes
  unfolding cursor_update_to_json
  encode_cursor_update doc_id position selection_start selection_end =
      serialize J (cursor_update_to_json J) (record {
        doc_id = doc_id;
        position = position;
        selection_start = selection_start;
        selection_end = selection_end;
      })

  abbrev named : Bytes → Option Bytes → ParsedEnvelope
  named payload none = record { type = MessageType.unknown; payload = payload }
  named payload (some name) = record { type = parse_message_type name; payload = payload }

  abbrev envelope : Bytes → Result Value → ParsedEnvelope
  envelope payload (inl what) = record { type = MessageType.unknown; payload = payload }
  envelope payload (inr j) = named payload (type_name J j)

  unfoldable pub parse_envelope : Bytes → ParsedEnvelope
  unfolding parse_message_type type_name
  parse_envelope payload = envelope payload (J.parse payload)

  -- The exceptions of the parser and of `from_json` give no message.
  abbrev pub parse_as : {A : Type 0} → (Value → Result A) → Bytes → Option A
  parse_as from_json payload = succeeded J (J.parse payload >>= from_json)

  unfoldable pub parse_auth_response : Bytes → Option AuthResponseMsg
  unfolding auth_response_from_json
  parse_auth_response = parse_as (auth_response_from_json J)

  unfoldable pub parse_doc_list_response : Bytes → Option DocListResponseMsg
  unfolding doc_list_response_from_json
  parse_doc_list_response = parse_as (doc_list_response_from_json J)

  unfoldable pub parse_doc_create_response : Bytes → Option DocCreateResponseMsg
  unfolding doc_create_response_from_json
  parse_doc_create_response = parse_as (doc_create_response_from_json J)

  unfoldable pub parse_doc_join_response : Bytes → Option DocJoinResponseMsg
  unfolding doc_join_response_from_json
  parse_doc_join_response = parse_as (doc_join_response_from_json J)

  unfoldable pub parse_doc_delete_response : Bytes → Option DocDeleteResponseMsg
  unfolding doc_delete_response_from_json
  parse_doc_delete_response = parse_as (doc_delete_response_from_json J)

  unfoldable pub parse_cursor_broadcast : Bytes → Option CursorBroadcastMsg
  unfolding cursor_broadcast_from_json
  parse_cursor_broadcast = parse_as (cursor_broadcast_from_json J)

  unfoldable pub parse_user_joined : Bytes → Option UserJoinedMsg
  unfolding user_joined_from_json
  parse_user_joined = parse_as (user_joined_from_json J)

  unfoldable pub parse_user_left : Bytes → Option UserLeftMsg
  unfolding user_left_from_json
  parse_user_left = parse_as (user_left_from_json J)

  unfoldable pub parse_server_shutdown : Bytes → Option ServerShutdownMsg
  unfolding server_shutdown_from_json
  parse_server_shutdown = parse_as (server_shutdown_from_json J)

  unfoldable pub parse_doc_deleted : Bytes → Option DocDeletedMsg
  unfolding doc_deleted_from_json
  parse_doc_deleted = parse_as (doc_deleted_from_json J)

  unfoldable pub parse_role_changed : Bytes → Option RoleChangedMsg
  unfolding role_changed_from_json
  parse_role_changed = parse_as (role_changed_from_json J)

  unfoldable pub parse_error : Bytes → Option ErrorMsg
  unfolding error_from_json
  parse_error = parse_as (error_from_json J)
