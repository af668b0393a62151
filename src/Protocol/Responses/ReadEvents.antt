-- ===== src/Protocol/Responses/ReadEvents.antt =====
-- What `from_json` reads of what `to_json` of an event has written (protocol/src/protocol.cpp).
use collaborative_text_edito.Common.{◌^◌, ◌<◌, ◌≡◌, refl, inr, bytes_eq}
use collaborative_text_edito.Common.Assoc.{bytes_key, lookup, insert}
use collaborative_text_edito.Protocol.JsonLibrary.{JsonLibrary, IsLawful}
use collaborative_text_edito.Protocol.JsonLibrary.Members.{
  All, OptionFits, step, read_equal, string_member, u32_member, optional_member, list_member,
  assign_twice,
}
use collaborative_text_edito.Protocol.Messages.{
  OperationAckMsg, OperationBroadcastMsg, CursorInfo, CursorBroadcastMsg, UserJoinedMsg,
  UserLeftMsg, RoleChangedMsg, DocDeletedMsg, ServerShutdownMsg, ErrorMsg,
}
use collaborative_text_edito.Protocol.Requests.{op_entry_from_json, op_entry_to_json}
use collaborative_text_edito.Protocol.Requests.RoundTrip.{EntryFits, op_entry}
use collaborative_text_edito.Protocol.Responses.Events.{
  operation_ack_from_json, operation_ack_to_json, operation_broadcast_from_json,
  operation_broadcast_to_json, cursor_info_from_json, cursor_info_to_json,
  cursor_broadcast_from_json, cursor_broadcast_to_json, user_joined_from_json, user_joined_to_json,
  user_left_from_json, user_left_to_json, role_changed_from_json, role_changed_to_json,
  doc_deleted_from_json, doc_deleted_to_json, server_shutdown_from_json, server_shutdown_to_json,
  error_from_json, error_to_json,
}

abbrev pub CursorFits : CursorInfo → Type 0
CursorFits m =
    (m.user_id < 2 ^ 32)
    × (m.position < 2 ^ 32)
    × OptionFits m.selection_start
    × OptionFits m.selection_end

module _ {J : JsonLibrary} (L : IsLawful J) where
  open J use {Value, number, string, array, object}

  pub operation_ack :
      (m : OperationAckMsg)
      → m.doc_id < 2 ^ 32
      → m.revision < 2 ^ 32
      → operation_ack_from_json J (operation_ack_to_json J m) ≡ inr m
  unfolding operation_ack_from_json operation_ack_to_json lookup bytes_eq
  operation_ack m d r =
      step _ _ (u32_member L _ _ m.doc_id d refl)
        (step _ _ (u32_member L _ _ m.revision r refl) refl)

  pub operation_broadcast :
      (m : OperationBroadcastMsg)
      → m.doc_id < 2 ^ 32
      → m.user_id < 2 ^ 32
      → m.revision < 2 ^ 32
      → All EntryFits m.ops
      → operation_broadcast_from_json J (operation_broadcast_to_json J m) ≡ inr m
  unfolding operation_broadcast_from_json operation_broadcast_to_json lookup bytes_eq
  operation_broadcast m d u r fits = step _ _ (u32_member L _ _ m.doc_id d refl) (
      step _ _ (u32_member L _ _ m.user_id u refl) (
        step _ _ (string_member L _ _ m.username refl) (
          step _ _ (u32_member L _ _ m.revision r refl) (
            step _ _
              (list_member L (op_entry_from_json J) (op_entry_to_json J) EntryFits (op_entry L) _ _
                m.ops fits refl)
              refl))))

  cursor_info :
      (m : CursorInfo) → CursorFits m → cursor_info_from_json J (cursor_info_to_json J m) ≡ inr m
  unfolding cursor_info_from_json cursor_info_to_json lookup insert bytes_eq
  cursor_info m fits = read_equal (cursor_info_from_json J) (assign_twice L _ _ _ _ _) (
      step _ _ (u32_member L _ _ m.user_id fits.0 refl) (
        step _ _ (string_member L _ _ m.username refl) (
          step _ _ (string_member L _ _ m.color refl) (
            step _ _ (u32_member L _ _ m.position fits.1 refl) (
              step _ _ (optional_member L _ _ m.selection_start fits.2 refl)
                (step _ _ (optional_member L _ _ m.selection_end fits.3 refl) refl))))))

  pub cursor_broadcast :
      (m : CursorBroadcastMsg)
      → m.doc_id < 2 ^ 32
      → All CursorFits m.cursors
      → cursor_broadcast_from_json J (cursor_broadcast_to_json J m) ≡ inr m
  unfolding cursor_broadcast_from_json cursor_broadcast_to_json lookup bytes_eq
  cursor_broadcast m d fits = step _ _ (u32_member L _ _ m.doc_id d refl) (
      step _ _
        (list_member L (cursor_info_from_json J) (cursor_info_to_json J) CursorFits cursor_info _ _
          m.cursors fits refl)
        refl)

  pub user_joined :
      (m : UserJoinedMsg)
      → m.doc_id < 2 ^ 32
      → m.user_id < 2 ^ 32
      → user_joined_from_json J (user_joined_to_json J m) ≡ inr m
  unfolding user_joined_from_json user_joined_to_json lookup bytes_eq
  user_joined m d u = step _ _ (u32_member L _ _ m.doc_id d refl) (
      step _ _ (u32_member L _ _ m.user_id u refl) (
        step _ _ (string_member L _ _ m.username refl)
          (step _ _ (string_member L _ _ m.color refl) refl)))

  pub user_left :
      (m : UserLeftMsg)
      → m.doc_id < 2 ^ 32
      → m.user_id < 2 ^ 32
      → user_left_from_json J (user_left_to_json J m) ≡ inr m
  unfolding user_left_from_json user_left_to_json lookup bytes_eq
  user_left m d u = step _ _ (u32_member L _ _ m.doc_id d refl) (
      step _ _ (u32_member L _ _ m.user_id u refl)
        (step _ _ (string_member L _ _ m.username refl) refl))

  pub role_changed :
      (m : RoleChangedMsg)
      → m.doc_id < 2 ^ 32
      → role_changed_from_json J (role_changed_to_json J m) ≡ inr m
  unfolding role_changed_from_json role_changed_to_json lookup bytes_eq
  role_changed m d =
      step _ _ (u32_member L _ _ m.doc_id d refl)
        (step _ _ (string_member L _ _ m.new_role refl) refl)

  pub doc_deleted :
      (m : DocDeletedMsg)
      → m.doc_id < 2 ^ 32
      → doc_deleted_from_json J (doc_deleted_to_json J m) ≡ inr m
  unfolding doc_deleted_from_json doc_deleted_to_json lookup bytes_eq
  doc_deleted m d = step _ _ (u32_member L _ _ m.doc_id d refl) refl

  pub server_shutdown :
      (m : ServerShutdownMsg) → server_shutdown_from_json J (server_shutdown_to_json J m) ≡ inr m
  unfolding server_shutdown_from_json server_shutdown_to_json lookup bytes_eq
  server_shutdown m = step _ _ (string_member L _ _ m.message refl) refl

  pub error : (m : ErrorMsg) → error_from_json J (error_to_json J m) ≡ inr m
  unfolding error_from_json error_to_json lookup bytes_eq
  error m =
      step _ _ (string_member L _ _ m.code refl)
        (step _ _ (string_member L _ _ m.message refl) refl)
