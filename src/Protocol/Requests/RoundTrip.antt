-- ===== src/Protocol/Requests/RoundTrip.antt =====
-- What `from_json` reads of what `to_json` of a request has written.
use collaborative_text_edito.Common.{ℕ, ◌^◌, ◌<◌, ◌≡◌, inr, refl, [], Bytes, bytes, bytes_eq}
use collaborative_text_edito.Common.Assoc.{bytes_key, lookup, insert}
use collaborative_text_edito.Protocol.JsonLibrary.{JsonLibrary, IsLawful}
use collaborative_text_edito.Protocol.JsonLibrary.Members.{
  All, OptionFits, step, read_equal, string_member, u32_member, optional_member, list_member,
  assign_twice,
}
use collaborative_text_edito.Protocol.Messages.{
  AuthRequestMsg, DocCreateRequestMsg, DocJoinRequestMsg, DocLeaveRequestMsg, DocDeleteRequestMsg,
  DocShareRequestMsg, OpEntry, OperationMsg, CursorUpdateMsg,
}
use collaborative_text_edito.Protocol.Requests.{
  auth_request_from_json, auth_request_to_json, doc_create_request_from_json,
  doc_create_request_to_json, doc_join_request_from_json, doc_join_request_to_json,
  doc_leave_request_from_json, doc_leave_request_to_json, doc_delete_request_from_json,
  doc_delete_request_to_json, doc_share_request_from_json, doc_share_request_to_json,
  op_entry_from_json, op_entry_to_json, operation_from_json, operation_to_json,
  cursor_update_from_json, cursor_update_to_json,
}

-- An entry as the program makes it: it has the members of its kind only.
pub data EntryFits : OpEntry → Type 0 where
  insertion :
      (pos : ℕ) (text : Bytes)
      → pos < 2 ^ 32
      → EntryFits (record { op = bytes "insert"; pos = pos; text = text; len = 0 })
  deletion :
      (pos len : ℕ)
      → pos < 2 ^ 32
      → len < 2 ^ 32
      → EntryFits (record { op = bytes "delete"; pos = pos; text = []; len = len })

module _ {J : JsonLibrary} (L : IsLawful J) where
  open J use {Value, number, string, array, object, assign}

  pub auth_request :
      (m : AuthRequestMsg) → auth_request_from_json J (auth_request_to_json J m) ≡ inr m
  unfolding auth_request_from_json auth_request_to_json lookup bytes_eq
  auth_request m = step _ _ (string_member L _ _ m.action refl) (
      step _ _ (string_member L _ _ m.username refl)
        (step _ _ (string_member L _ _ m.password refl) refl))

  pub doc_create_request :
      (m : DocCreateRequestMsg)
      → doc_create_request_from_json J (doc_create_request_to_json J m) ≡ inr m
  unfolding doc_create_request_from_json doc_create_request_to_json lookup bytes_eq
  doc_create_request m = step _ _ (string_member L _ _ m.title refl) refl

  pub doc_join_request :
      (m : DocJoinRequestMsg)
      → m.doc_id < 2 ^ 32
      → doc_join_request_from_json J (doc_join_request_to_json J m) ≡ inr m
  unfolding doc_join_request_from_json doc_join_request_to_json lookup bytes_eq
  doc_join_request m d = step _ _ (u32_member L _ _ m.doc_id d refl) refl

  pub doc_leave_request :
      (m : DocLeaveRequestMsg)
      → m.doc_id < 2 ^ 32
      → doc_leave_request_from_json J (doc_leave_request_to_json J m) ≡ inr m
  unfolding doc_leave_request_from_json doc_leave_request_to_json lookup bytes_eq
  doc_leave_request m d = step _ _ (u32_member L _ _ m.doc_id d refl) refl

  pub doc_delete_request :
      (m : DocDeleteRequestMsg)
      → m.doc_id < 2 ^ 32
      → doc_delete_request_from_json J (doc_delete_request_to_json J m) ≡ inr m
  unfolding doc_delete_request_from_json doc_delete_request_to_json lookup bytes_eq
  doc_delete_request m d = step _ _ (u32_member L _ _ m.doc_id d refl) refl

  pub doc_share_request :
      (m : DocShareRequestMsg)
      → m.doc_id < 2 ^ 32
      → doc_share_request_from_json J (doc_share_request_to_json J m) ≡ inr m
  unfolding doc_share_request_from_json doc_share_request_to_json lookup bytes_eq
  doc_share_request m d = step _ _ (u32_member L _ _ m.doc_id d refl) (
      step _ _ (string_member L _ _ m.target_username refl)
        (step _ _ (string_member L _ _ m.role refl) refl))

  pub op_entry : (m : OpEntry) → EntryFits m → op_entry_from_json J (op_entry_to_json J m) ≡ inr m
  unfolding op_entry_from_json op_entry_to_json lookup insert bytes_eq
  op_entry _ (insertion pos text h) = rw (L.assign-object _ _ _) (
      step _ _ (string_member L _ _ _ refl)
        (step _ _ (u32_member L _ _ pos h refl) (step _ _ (string_member L _ _ _ refl) refl)))
  op_entry _ (deletion pos len h k) = rw (L.assign-object _ _ _) (
      step _ _ (string_member L _ _ _ refl)
        (step _ _ (u32_member L _ _ pos h refl) (step _ _ (u32_member L _ _ len k refl) refl)))

  pub operation :
      (m : OperationMsg)
      → m.doc_id < 2 ^ 32
      → m.revision < 2 ^ 32
      → All EntryFits m.ops
      → operation_from_json J (operation_to_json J m) ≡ inr m
  unfolding operation_from_json operation_to_json lookup bytes_eq
  operation m d r fits = step _ _ (u32_member L _ _ m.doc_id d refl) (
      step _ _ (u32_member L _ _ m.revision r refl) (
        step _ _
          (list_member L (op_entry_from_json J) (op_entry_to_json J) EntryFits op_entry _ _ m.ops
            fits refl)
          refl))

  pub cursor_update :
      (m : CursorUpdateMsg)
      → m.doc_id < 2 ^ 32
      → m.position < 2 ^ 32
      → OptionFits m.selection_start
      → OptionFits m.selection_end
      → cursor_update_from_json J (cursor_update_to_json J m) ≡ inr m
  unfolding cursor_update_from_json cursor_update_to_json lookup insert bytes_eq
  cursor_update m d p s e = read_equal (cursor_update_from_json J) (assign_twice L _ _ _ _ _) (
      step _ _ (u32_member L _ _ m.doc_id d refl) (
        step _ _ (u32_member L _ _ m.position p refl) (
          step _ _ (optional_member L _ _ m.selection_start s refl)
            (step _ _ (optional_member L _ _ m.selection_end e refl) refl))))
