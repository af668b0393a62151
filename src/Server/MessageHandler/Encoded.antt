-- ===== src/Server/MessageHandler/Encoded.antt =====
-- `handle_message` (server/src/message_handler.cpp) on the texts that a client encodes
-- (client/src/protocol_codec.cpp, client/src/ot_controller.cpp), with one JSON library on both sides.
use collaborative_text_edito.Common.{
  ◌^◌, ◌<◌, ◌≡◌, refl, ap, ◌∙◌, inl, inr, Option, none, some, List, Bytes, bytes, bytes_eq,
  if◌then◌else◌,
}
use collaborative_text_edito.Common.Assoc.{bytes_key, lookup, insert}
use collaborative_text_edito.Protocol.MessageType.{MessageType, parse_message_type}
use collaborative_text_edito.Protocol.JsonLibrary.{
  JsonLibrary, IsLawful, Result, serialize, succeeded, type_name,
}
use collaborative_text_edito.Protocol.JsonLibrary.Members.{
  All, OptionFits, type_member, assign_twice,
}
use collaborative_text_edito.Protocol.Messages.{
  Request, auth_request, doc_list_request, doc_create_request, doc_join_request, doc_leave_request,
  doc_delete_request, doc_share_request, operation, cursor_update,
}
use collaborative_text_edito.Protocol.Requests.{
  auth_request_from_json, auth_request_to_json, doc_create_request_from_json,
  doc_create_request_to_json, doc_join_request_from_json, doc_join_request_to_json,
  doc_leave_request_from_json, doc_leave_request_to_json, doc_delete_request_from_json,
  doc_delete_request_to_json, doc_share_request_from_json, doc_share_request_to_json,
  operation_from_json, operation_to_json, cursor_update_from_json, cursor_update_to_json,
  doc_list_request_to_json,
}
use collaborative_text_edito.Protocol.Responses.Answers.{
  auth_response_to_json, doc_list_response_to_json, doc_create_response_to_json,
  doc_join_response_to_json, doc_leave_response_to_json, doc_delete_response_to_json,
  doc_share_response_to_json,
}
use collaborative_text_edito.Protocol.Responses.Events.{role_changed_to_json, error_to_json}
use collaborative_text_edito.Protocol.Requests.RoundTrip
use collaborative_text_edito.Protocol.Requests.RoundTrip.{EntryFits}
use collaborative_text_edito.Client.ProtocolCodec.{
  encode_auth_request, encode_doc_list_request, encode_doc_create_request, encode_doc_join_request,
  encode_doc_leave_request, encode_doc_delete_request, encode_doc_share_request,
  encode_cursor_update,
}
use collaborative_text_edito.Server.MessageHandler.{
  Reply, Action, World, Json, Surroundings, send_error,
}
use collaborative_text_edito.Server.MessageHandler.Handlers.{
  handle_auth_request, handle_doc_list, handle_doc_create, handle_doc_join, handle_doc_leave,
}
use collaborative_text_edito.Server.MessageHandler.Editing.{
  handle_doc_delete, handle_doc_share, handle_operation_message, handle_cursor_update,
}
use collaborative_text_edito.Server.MessageHandler.Dispatch.{
  read_as, check_auth, dispatch, handled, handle_message,
}

module _ (J : JsonLibrary) where
  abbrev reply_to_json : Reply → J.Value
  reply_to_json (Reply.auth_response m) = auth_response_to_json J m
  reply_to_json (Reply.doc_list_response m) = doc_list_response_to_json J m
  reply_to_json (Reply.doc_create_response m) = doc_create_response_to_json J m
  reply_to_json (Reply.doc_join_response m) = doc_join_response_to_json J m
  reply_to_json (Reply.doc_leave_response m) = doc_leave_response_to_json J m
  reply_to_json (Reply.doc_delete_response m) = doc_delete_response_to_json J m
  reply_to_json (Reply.doc_share_response m) = doc_share_response_to_json J m
  reply_to_json (Reply.role_changed m) = role_changed_to_json J m
  reply_to_json (Reply.error m) = error_to_json J m

  abbrev what_thrown : Result Bytes → Option Bytes
  what_thrown (inl what) = some what
  what_thrown (inr text) = none

  abbrev pub throws_of : Reply → Option Bytes
  throws_of r = what_thrown (serialize J reply_to_json r)

-- What the handlers call of the JSON library.
abbrev pub json_of : JsonLibrary → Json
json_of J = record {
  Value = J.Value;
  parse = λ text. succeeded J (J.parse text);
  type_of = type_name J;
  auth_request = auth_request_from_json J;
  doc_create_request = doc_create_request_from_json J;
  doc_join_request = doc_join_request_from_json J;
  doc_leave_request = doc_leave_request_from_json J;
  doc_delete_request = doc_delete_request_from_json J;
  doc_share_request = doc_share_request_from_json J;
  operation = operation_from_json J;
  cursor_update = cursor_update_from_json J;
  throws = throws_of J;
}

abbrev pub type_of : Request → MessageType
type_of (auth_request m) = MessageType.auth_request
type_of (doc_list_request m) = MessageType.doc_list_request
type_of (doc_create_request m) = MessageType.doc_create_request
type_of (doc_join_request m) = MessageType.doc_join_request
type_of (doc_leave_request m) = MessageType.doc_leave_request
type_of (doc_delete_request m) = MessageType.doc_delete_request
type_of (doc_share_request m) = MessageType.doc_share_request
type_of (operation m) = MessageType.operation
type_of (cursor_update m) = MessageType.cursor_update

-- The numbers are uint32_t, and an entry has the members of its kind.
abbrev pub RequestFits : Request → Type 0
RequestFits (auth_request m) = Unit {0}
RequestFits (doc_list_request m) = Unit {0}
RequestFits (doc_create_request m) = Unit {0}
RequestFits (doc_join_request m) = m.doc_id < 2 ^ 32
RequestFits (doc_leave_request m) = m.doc_id < 2 ^ 32
RequestFits (doc_delete_request m) = m.doc_id < 2 ^ 32
RequestFits (doc_share_request m) = m.doc_id < 2 ^ 32
RequestFits (operation m) = (m.doc_id < 2 ^ 32) × (m.revision < 2 ^ 32) × All EntryFits m.ops
RequestFits (cursor_update m) =
    (m.doc_id < 2 ^ 32)
    × (m.position < 2 ^ 32)
    × OptionFits m.selection_start
    × OptionFits m.selection_end

-- The text of a request: the codec's, or that of an operation, which the controller serialises.
abbrev pub encode : JsonLibrary → Request → Result Bytes
encode J (auth_request m) = encode_auth_request J m.action m.username m.password
encode J (doc_list_request m) = encode_doc_list_request J
encode J (doc_create_request m) = encode_doc_create_request J m.title
encode J (doc_join_request m) = encode_doc_join_request J m.doc_id
encode J (doc_leave_request m) = encode_doc_leave_request J m.doc_id
encode J (doc_delete_request m) = encode_doc_delete_request J m.doc_id
encode J (doc_share_request m) = encode_doc_share_request J m.doc_id m.target_username m.role
encode J (operation m) = serialize J (operation_to_json J) m
encode J (cursor_update m) =
    encode_cursor_update J m.doc_id m.position m.selection_start m.selection_end

abbrev pub refused : World → World × List Action
refused w = send_error w (bytes "not_authenticated") (bytes "Authentication required")

module _ (around : Surroundings) (w : World) where
  -- The handler of a request, given the message itself.
  abbrev pub handle : Request → World × List Action
  handle (auth_request m) = handle_auth_request around w m
  handle (doc_list_request m) = handle_doc_list around w
  handle (doc_create_request m) = handle_doc_create around w m
  handle (doc_join_request m) = handle_doc_join around w m
  handle (doc_leave_request m) = handle_doc_leave around w m
  handle (doc_delete_request m) = handle_doc_delete around w m
  handle (doc_share_request m) = handle_doc_share around w m
  handle (operation m) = handle_operation_message around w m
  handle (cursor_update m) = handle_cursor_update around w m

  module _ {J : JsonLibrary} (L : IsLawful J) where
    dispatched :
        (j : J.Value) (name text : Bytes)
        → J.dump j ≡ inr text
        → type_name J j ≡ some name
        → handle_message around (json_of J) w text ≡ (
            if check_auth w (parse_message_type name)
            then handled (throws_of J) (dispatch around (json_of J) w (parse_message_type name) j)
            else refused w)
    unfolding handle_message
    dispatched j name text dumped typed = rw (L.parse-dump j text dumped) (rw typed refl)

    opened :
        (j : J.Value) (name text : Bytes) {done : World × List Action}
        → J.dump j ≡ inr text
        → type_name J j ≡ some name
        → dispatch around (json_of J) w (parse_message_type name) j ≡ done
        → handle_message around (json_of J) w text ≡ (
            if check_auth w (parse_message_type name)
            then handled (throws_of J) done
            else refused w)
    opened j name text dumped typed e =
        dispatched j name text dumped typed
        ∙ ap
            (λ (result : World × List Action).
              if check_auth w (parse_message_type name)
              then handled (throws_of J) result
              else refused w)
            e

    -- The text of a request that the client encodes has the effect of the request's handler on the
    -- message itself, if the client is authenticated or the request is one for authentication; else
    -- the client is told that it is not authenticated. A handler ends at the first reply that the
    -- library cannot write, and the client is then told of a malformed message. The numbers are below
    -- 2 ^ 32, and an entry of an operation is an insertion with no length or an erasure with no text.
    pub handle_message-encode :
        (r : Request) (text : Bytes)
        → RequestFits r
        → encode J r ≡ inr text
        → handle_message around (json_of J) w text
          ≡ (if check_auth w (type_of r) then handled (throws_of J) (handle r) else refused w)
    unfolding dispatch encode_auth_request encode_doc_list_request encode_doc_create_request
        encode_doc_join_request encode_doc_leave_request encode_doc_delete_request
        encode_doc_share_request operation_to_json encode_cursor_update lookup bytes_eq insert
        parse_message_type
    handle_message-encode (auth_request m) text fits e =
        opened (auth_request_to_json J m) (bytes "auth_request") text e (type_member L _ _ refl)
          (ap (read_as w (handle_auth_request around)) (RoundTrip.auth_request L m))
    handle_message-encode (doc_list_request m) text fits e =
        opened (doc_list_request_to_json J m) (bytes "doc_list_request") text e
          (type_member L _ _ refl) refl
    handle_message-encode (doc_create_request m) text fits e =
        opened (doc_create_request_to_json J m) (bytes "doc_create_request") text e
          (type_member L _ _ refl)
          (ap (read_as w (handle_doc_create around)) (RoundTrip.doc_create_request L m))
    handle_message-encode (doc_join_request m) text fits e =
        opened (doc_join_request_to_json J m) (bytes "doc_join_request") text e
          (type_member L _ _ refl)
          (ap (read_as w (handle_doc_join around)) (RoundTrip.doc_join_request L m fits))
    handle_message-encode (doc_leave_request m) text fits e =
        opened (doc_leave_request_to_json J m) (bytes "doc_leave_request") text e
          (type_member L _ _ refl)
          (ap (read_as w (handle_doc_leave around)) (RoundTrip.doc_leave_request L m fits))
    handle_message-encode (doc_delete_request m) text fits e =
        opened (doc_delete_request_to_json J m) (bytes "doc_delete_request") text e
          (type_member L _ _ refl)
          (ap (read_as w (handle_doc_delete around)) (RoundTrip.doc_delete_request L m fits))
    handle_message-encode (doc_share_request m) text fits e =
        opened (doc_share_request_to_json J m) (bytes "doc_share_request") text e
          (type_member L _ _ refl)
          (ap (read_as w (handle_doc_share around)) (RoundTrip.doc_share_request L m fits))
    handle_message-encode (operation m) text fits e =
        opened (operation_to_json J m) (bytes "operation") text e (type_member L _ _ refl) (
          ap (read_as w (handle_operation_message around))
            (RoundTrip.operation L m fits.0 fits.1 fits.2))
    handle_message-encode (cursor_update m) text fits e =
        opened (cursor_update_to_json J m) (bytes "cursor_update") text e
          (ap (type_name J) (assign_twice L _ _ _ _ _) ∙ type_member L _ _ refl)
          (ap (read_as w (handle_cursor_update around))
            (RoundTrip.cursor_update L m fits.0 fits.1 fits.2 fits.3))
