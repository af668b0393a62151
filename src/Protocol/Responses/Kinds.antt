-- ===== src/Protocol/Responses/Kinds.antt =====
-- Every response with its type, as `to_json` writes it (protocol/src/protocol.cpp).
use collaborative_text_edito.Common.{◌^◌, ◌<◌, ◌≡◌, refl, ap, ◌∙◌, some, Bytes, bytes, bytes_eq}
use collaborative_text_edito.Common.Assoc.{bytes_key, lookup, insert}
use collaborative_text_edito.Protocol.MessageType.{MessageType, parse_message_type}
use collaborative_text_edito.Protocol.JsonLibrary.{JsonLibrary, IsLawful, type_name}
use collaborative_text_edito.Protocol.JsonLibrary.Members.{All, type_member}
use collaborative_text_edito.Protocol.Messages.{
  Response, auth_response, doc_list_response, doc_create_response, doc_join_response,
  doc_leave_response, doc_delete_response, doc_share_response, operation_ack, operation_broadcast,
  cursor_broadcast, user_joined, user_left, role_changed, doc_deleted, server_shutdown, error,
}
use collaborative_text_edito.Protocol.Requests.RoundTrip.{EntryFits as OpEntryFits}
use collaborative_text_edito.Protocol.Responses.Answers.{
  auth_response_to_json, doc_list_response_to_json, doc_create_response_to_json,
  doc_join_response_to_json, doc_leave_response_to_json, doc_delete_response_to_json,
  doc_share_response_to_json,
}
use collaborative_text_edito.Protocol.Responses.Events.{
  operation_ack_to_json, operation_broadcast_to_json, cursor_broadcast_to_json, user_joined_to_json,
  user_left_to_json, role_changed_to_json, doc_deleted_to_json, server_shutdown_to_json,
  error_to_json,
}
use collaborative_text_edito.Protocol.Responses.ReadAnswers.{
  AuthFits, CreateFits, EntryFits, JoinFits, accepted, refused, assign_all_lem, join_fields,
}
use collaborative_text_edito.Protocol.Responses.ReadEvents.{CursorFits}

abbrev pub type_of : Response → MessageType
type_of (auth_response m) = MessageType.auth_response
type_of (doc_list_response m) = MessageType.doc_list_response
type_of (doc_create_response m) = MessageType.doc_create_response
type_of (doc_join_response m) = MessageType.doc_join_response
type_of (doc_leave_response m) = MessageType.doc_leave_response
type_of (doc_delete_response m) = MessageType.doc_delete_response
type_of (doc_share_response m) = MessageType.doc_share_response
type_of (operation_ack m) = MessageType.operation_ack
type_of (operation_broadcast m) = MessageType.operation_broadcast
type_of (cursor_broadcast m) = MessageType.cursor_broadcast
type_of (user_joined m) = MessageType.user_joined
type_of (user_left m) = MessageType.user_left
type_of (role_changed m) = MessageType.role_changed
type_of (doc_deleted m) = MessageType.doc_deleted
type_of (server_shutdown m) = MessageType.server_shutdown
type_of (error m) = MessageType.error

-- The numbers are uint32_t, an entry of a broadcast has the members of its kind, and a refusal has
-- its error only.
abbrev pub ResponseFits : Response → Type 0
ResponseFits (auth_response m) = AuthFits m
ResponseFits (doc_list_response m) = All EntryFits m.documents
ResponseFits (doc_create_response m) = CreateFits m
ResponseFits (doc_join_response m) = JoinFits m
ResponseFits (doc_leave_response m) = Unit {0}
ResponseFits (doc_delete_response m) = Unit {0}
ResponseFits (doc_share_response m) = Unit {0}
ResponseFits (operation_ack m) = (m.doc_id < 2 ^ 32) × (m.revision < 2 ^ 32)
ResponseFits (operation_broadcast m) =
    (m.doc_id < 2 ^ 32) × (m.user_id < 2 ^ 32) × (m.revision < 2 ^ 32) × All OpEntryFits m.ops
ResponseFits (cursor_broadcast m) = (m.doc_id < 2 ^ 32) × All CursorFits m.cursors
ResponseFits (user_joined m) = (m.doc_id < 2 ^ 32) × (m.user_id < 2 ^ 32)
ResponseFits (user_left m) = (m.doc_id < 2 ^ 32) × (m.user_id < 2 ^ 32)
ResponseFits (role_changed m) = m.doc_id < 2 ^ 32
ResponseFits (doc_deleted m) = m.doc_id < 2 ^ 32
ResponseFits (server_shutdown m) = Unit {0}
ResponseFits (error m) = Unit {0}

module _ (J : JsonLibrary) where
  abbrev pub response_to_json : Response → J.Value
  response_to_json (auth_response m) = auth_response_to_json J m
  response_to_json (doc_list_response m) = doc_list_response_to_json J m
  response_to_json (doc_create_response m) = doc_create_response_to_json J m
  response_to_json (doc_join_response m) = doc_join_response_to_json J m
  response_to_json (doc_leave_response m) = doc_leave_response_to_json J m
  response_to_json (doc_delete_response m) = doc_delete_response_to_json J m
  response_to_json (doc_share_response m) = doc_share_response_to_json J m
  response_to_json (operation_ack m) = operation_ack_to_json J m
  response_to_json (operation_broadcast m) = operation_broadcast_to_json J m
  response_to_json (cursor_broadcast m) = cursor_broadcast_to_json J m
  response_to_json (user_joined m) = user_joined_to_json J m
  response_to_json (user_left m) = user_left_to_json J m
  response_to_json (role_changed m) = role_changed_to_json J m
  response_to_json (doc_deleted m) = doc_deleted_to_json J m
  response_to_json (server_shutdown m) = server_shutdown_to_json J m
  response_to_json (error m) = error_to_json J m

module _ {J : JsonLibrary} (L : IsLawful J) where
  pub typed :
      (r : Response)
      → ResponseFits r
      → (name : Bytes) × (type_name J (response_to_json J r) ≡ some name)
        × (parse_message_type name ≡ type_of r)
  unfolding auth_response_to_json doc_list_response_to_json doc_create_response_to_json
      doc_join_response_to_json doc_leave_response_to_json doc_delete_response_to_json
      doc_share_response_to_json operation_ack_to_json operation_broadcast_to_json
      cursor_broadcast_to_json user_joined_to_json user_left_to_json role_changed_to_json
      doc_deleted_to_json server_shutdown_to_json error_to_json lookup insert bytes_eq
      parse_message_type
  typed (auth_response _) (accepted k h) = (
    bytes "auth_response",
    ap (type_name J) (L.assign-object _ _ _) ∙ type_member L _ _ refl,
    refl,
  )
  typed (auth_response _) (refused what) = (
    bytes "auth_response",
    ap (type_name J) (L.assign-object _ _ _) ∙ type_member L _ _ refl,
    refl,
  )
  typed (doc_list_response m) fits = (bytes "doc_list_response", type_member L _ _ refl, refl)
  typed (doc_create_response _) (accepted k h) = (
    bytes "doc_create_response",
    ap (type_name J) (L.assign-object _ _ _) ∙ type_member L _ _ refl,
    refl,
  )
  typed (doc_create_response _) refused =
      (bytes "doc_create_response", type_member L _ _ refl, refl)
  typed (doc_join_response _) (accepted m d r users) = (
    bytes "doc_join_response",
    ap (type_name J) (assign_all_lem L _ (join_fields L m)) ∙ type_member L _ _ refl,
    refl,
  )
  typed (doc_join_response _) (refused what) = (
    bytes "doc_join_response",
    ap (type_name J) (L.assign-object _ _ _) ∙ type_member L _ _ refl,
    refl,
  )
  typed (doc_leave_response m) fits = (bytes "doc_leave_response", type_member L _ _ refl, refl)
  typed (doc_delete_response m) fits = (bytes "doc_delete_response", type_member L _ _ refl, refl)
  typed (doc_share_response m) fits = (bytes "doc_share_response", type_member L _ _ refl, refl)
  typed (operation_ack m) fits = (bytes "operation_ack", type_member L _ _ refl, refl)
  typed (operation_broadcast m) fits = (bytes "operation_broadcast", type_member L _ _ refl, refl)
  typed (cursor_broadcast m) fits = (bytes "cursor_broadcast", type_member L _ _ refl, refl)
  typed (user_joined m) fits = (bytes "user_joined", type_member L _ _ refl, refl)
  typed (user_left m) fits = (bytes "user_left", type_member L _ _ refl, refl)
  typed (role_changed m) fits = (bytes "role_changed", type_member L _ _ refl, refl)
  typed (doc_deleted m) fits = (bytes "doc_deleted", type_member L _ _ refl, refl)
  typed (server_shutdown m) fits = (bytes "server_shutdown", type_member L _ _ refl, refl)
  typed (error m) fits = (bytes "error", type_member L _ _ refl, refl)
