-- ===== src/Client/ProtocolCodec/Responses.antt =====
-- What the client reads (client/src/protocol_codec.cpp, client/src/ot_controller.cpp) of the texts
-- that the server serialises (protocol/src/protocol.cpp), with one JSON library on both sides.
use collaborative_text_edito.Common.{◌≡◌, refl, inr, some, Bytes}
use collaborative_text_edito.Common.Assoc.{bytes_key}
use collaborative_text_edito.Protocol.MessageType.{parse_message_type}
use collaborative_text_edito.Protocol.JsonLibrary.{
  JsonLibrary, IsLawful, Result, serialize, type_name,
}
use collaborative_text_edito.Protocol.Messages.{
  Response, auth_response, doc_list_response, doc_create_response, doc_join_response,
  doc_leave_response, doc_delete_response, doc_share_response, operation_ack, operation_broadcast,
  cursor_broadcast, user_joined, user_left, role_changed, doc_deleted, server_shutdown, error,
}
use collaborative_text_edito.Protocol.Responses.Answers.{
  auth_response_from_json, doc_list_response_from_json, doc_create_response_from_json,
  doc_join_response_from_json, doc_leave_response_from_json, doc_delete_response_from_json,
  doc_share_response_from_json,
}
use collaborative_text_edito.Protocol.Responses.Events.{
  operation_ack_from_json, operation_broadcast_from_json, cursor_broadcast_from_json,
  user_joined_from_json, user_left_from_json, role_changed_from_json, doc_deleted_from_json,
  server_shutdown_from_json, error_from_json,
}
use collaborative_text_edito.Protocol.Responses.Kinds.{
  type_of, ResponseFits, response_to_json, typed,
}
use collaborative_text_edito.Protocol.Responses.ReadAnswers
use collaborative_text_edito.Protocol.Responses.ReadAnswers.{
  AuthFits, CreateFits, EntryFits, JoinFits, accepted, refused, assign_all_lem, join_fields,
}
use collaborative_text_edito.Protocol.Responses.ReadEvents
use collaborative_text_edito.Protocol.Responses.ReadEvents.{CursorFits}
use collaborative_text_edito.Client.ProtocolCodec.{
  parse_envelope, parse_as, parse_auth_response, parse_doc_list_response, parse_doc_create_response,
  parse_doc_join_response, parse_doc_delete_response, parse_cursor_broadcast, parse_user_joined,
  parse_user_left, parse_server_shutdown, parse_doc_deleted, parse_role_changed, parse_error,
}

module _ (J : JsonLibrary) where
  -- The client has the message: by the codec, or, where the codec has no function for it, by
  -- `parse_as` of the controller.
  abbrev pub Parsed : Response → Bytes → Type 0
  Parsed (auth_response m) text = parse_auth_response J text ≡ some m
  Parsed (doc_list_response m) text = parse_doc_list_response J text ≡ some m
  Parsed (doc_create_response m) text = parse_doc_create_response J text ≡ some m
  Parsed (doc_join_response m) text = parse_doc_join_response J text ≡ some m
  Parsed (doc_leave_response m) text = parse_as J (doc_leave_response_from_json J) text ≡ some m
  Parsed (doc_delete_response m) text = parse_doc_delete_response J text ≡ some m
  Parsed (doc_share_response m) text = parse_as J (doc_share_response_from_json J) text ≡ some m
  Parsed (operation_ack m) text = parse_as J (operation_ack_from_json J) text ≡ some m
  Parsed (operation_broadcast m) text = parse_as J (operation_broadcast_from_json J) text ≡ some m
  Parsed (cursor_broadcast m) text = parse_cursor_broadcast J text ≡ some m
  Parsed (user_joined m) text = parse_user_joined J text ≡ some m
  Parsed (user_left m) text = parse_user_left J text ≡ some m
  Parsed (role_changed m) text = parse_role_changed J text ≡ some m
  Parsed (doc_deleted m) text = parse_doc_deleted J text ≡ some m
  Parsed (server_shutdown m) text = parse_server_shutdown J text ≡ some m
  Parsed (error m) text = parse_error J text ≡ some m

module _ {J : JsonLibrary} (L : IsLawful J) where
  read_text :
      {A : Type 0} (from_json : J.Value → Result A) (j : J.Value) (text : Bytes) (m : A)
      → J.dump j ≡ inr text
      → from_json j ≡ inr m
      → parse_as J from_json text ≡ some m
  read_text from_json j text m dumped e = rw (L.parse-dump j text dumped) (rw e refl)

  named_text :
      (j : J.Value) (name text : Bytes)
      → J.dump j ≡ inr text
      → type_name J j ≡ some name
      → parse_envelope J text ≡ record { type = parse_message_type name; payload = text }
  unfolding parse_envelope
  named_text j name text dumped e = rw (L.parse-dump j text dumped) (rw e refl)

  parsed :
      (r : Response) (text : Bytes)
      → ResponseFits r
      → J.dump (response_to_json J r) ≡ inr text
      → Parsed J r text
  unfolding parse_auth_response parse_doc_list_response parse_doc_create_response
      parse_doc_join_response parse_doc_delete_response parse_cursor_broadcast parse_user_joined
      parse_user_left parse_server_shutdown parse_doc_deleted parse_role_changed parse_error
  parsed (auth_response m) text fits e =
      read_text (auth_response_from_json J) _ text m e (ReadAnswers.auth_response L m fits)
  parsed (doc_list_response m) text fits e =
      read_text (doc_list_response_from_json J) _ text m e (ReadAnswers.doc_list_response L m fits)
  parsed (doc_create_response m) text fits e =
      read_text (doc_create_response_from_json J) _ text m e
        (ReadAnswers.doc_create_response L m fits)
  parsed (doc_join_response m) text fits e =
      read_text (doc_join_response_from_json J) _ text m e (ReadAnswers.doc_join_response L m fits)
  parsed (doc_leave_response m) text fits e =
      read_text (doc_leave_response_from_json J) _ text m e (ReadAnswers.doc_leave_response L m)
  parsed (doc_delete_response m) text fits e =
      read_text (doc_delete_response_from_json J) _ text m e (ReadAnswers.doc_delete_response L m)
  parsed (doc_share_response m) text fits e =
      read_text (doc_share_response_from_json J) _ text m e (ReadAnswers.doc_share_response L m)
  parsed (operation_ack m) text fits e =
      read_text (operation_ack_from_json J) _ text m e (ReadEvents.operation_ack L m fits.0 fits.1)
  parsed (operation_broadcast m) text fits e =
      read_text (operation_broadcast_from_json J) _ text m e
        (ReadEvents.operation_broadcast L m fits.0 fits.1 fits.2 fits.3)
  parsed (cursor_broadcast m) text fits e =
      read_text (cursor_broadcast_from_json J) _ text m e
        (ReadEvents.cursor_broadcast L m fits.0 fits.1)
  parsed (user_joined m) text fits e =
      read_text (user_joined_from_json J) _ text m e (ReadEvents.user_joined L m fits.0 fits.1)
  parsed (user_left m) text fits e =
      read_text (user_left_from_json J) _ text m e (ReadEvents.user_left L m fits.0 fits.1)
  parsed (role_changed m) text fits e =
      read_text (role_changed_from_json J) _ text m e (ReadEvents.role_changed L m fits)
  parsed (doc_deleted m) text fits e =
      read_text (doc_deleted_from_json J) _ text m e (ReadEvents.doc_deleted L m fits)
  parsed (server_shutdown m) text fits e =
      read_text (server_shutdown_from_json J) _ text m e (ReadEvents.server_shutdown L m)
  parsed (error m) text fits e = read_text (error_from_json J) _ text m e (ReadEvents.error L m)

  -- Of the text of a response that the server serialises, the client finds the type of the response,
  -- and reads the response itself. The numbers are below 2 ^ 32, an entry of a broadcast is an
  -- insertion with no length or an erasure with no text, and an answer has either an error or what
  -- it grants.
  pub parse-serialize :
      (r : Response) (text : Bytes)
      → ResponseFits r
      → serialize J (response_to_json J) r ≡ inr text
      → (parse_envelope J text ≡ record { type = type_of r; payload = text }) × Parsed J r text
  parse-serialize r text fits e =
      let (name, found, same) = typed L r fits in
      (rw (named_text _ name text e found) (rw same refl), parsed r text fits e)
