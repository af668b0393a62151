-- ===== src/Protocol/Responses/ReadAnswers.antt =====
-- What `from_json` reads of what `to_json` of an answer has written (protocol/src/protocol.cpp).
use collaborative_text_edito.Common.{
  ℕ, ◌^◌, ◌<◌, ◌≡◌, refl, ap, ◌∙◌, inr, true, false, some, List, [], ◌∷◌, map, Bytes, bytes,
  bytes_eq,
}
use collaborative_text_edito.Common.Assoc.{bytes_key, lookup, insert}
use collaborative_text_edito.Protocol.JsonLibrary.{JsonLibrary, IsLawful}
use collaborative_text_edito.Protocol.JsonLibrary.Members.{
  All, step, read_equal, string_member, bool_member, u32_member, int_member, list_member,
}
use collaborative_text_edito.Protocol.Messages.{
  AuthResponseMsg, DocListEntry, DocListResponseMsg, DocCreateResponseMsg, UserInfo,
  DocJoinResponseMsg, DocLeaveResponseMsg, DocDeleteResponseMsg, DocShareResponseMsg,
}
use collaborative_text_edito.Protocol.Responses.Answers.{
  read_error, auth_response_from_json, auth_response_to_json, doc_list_entry_from_json,
  doc_list_entry_to_json, doc_list_response_from_json, doc_list_response_to_json,
  doc_create_response_from_json, doc_create_response_to_json, user_info_from_json,
  user_info_to_json, doc_join_response_from_json, doc_join_response_to_json,
  doc_leave_response_from_json, doc_leave_response_to_json, doc_delete_response_from_json,
  doc_delete_response_to_json, doc_share_response_from_json, doc_share_response_to_json,
}

-- The answers as the program makes them: a refusal has no members but its error.
pub data AuthFits : AuthResponseMsg → Type 0 where
  accepted :
      (user_id : ℕ)
      → user_id < 2 ^ 32
      → AuthFits (record { success = true; user_id = user_id; error = [] })
  refused : (error : Bytes) → AuthFits (record { success = false; user_id = 0; error = error })

pub data CreateFits : DocCreateResponseMsg → Type 0 where
  accepted :
      (doc_id : ℕ) → doc_id < 2 ^ 32 → CreateFits (record { success = true; doc_id = doc_id })
  refused : CreateFits (record { success = false; doc_id = 0 })

abbrev pub EntryFits : DocListEntry → Type 0
EntryFits m = (m.doc_id < 2 ^ 32) × (m.online_count < 2 ^ 31)

abbrev pub UserFits : UserInfo → Type 0
UserFits m = m.user_id < 2 ^ 32

pub data JoinFits : DocJoinResponseMsg → Type 0 where
  accepted :
      (m : DocJoinResponseMsg)
      → m.doc_id < 2 ^ 32
      → m.revision < 2 ^ 32
      → All UserFits m.users
      → JoinFits (record m { success = true; error = [] })
  refused :
      (error : Bytes)
      → JoinFits (record {
        success = false;
        doc_id = 0;
        title = [];
        content = [];
        revision = 0;
        role = [];
        users = [];
        error = error;
      })

module _ {J : JsonLibrary} (L : IsLawful J) where
  open J use {Value, boolean, number, string, array, object, assign}

  read_error_member :
      (fields : List (Bytes × Value)) (s : Bytes)
      → lookup (bytes "error") fields ≡ some (string s)
      → read_error J (object fields) ≡ inr s
  unfolding read_error
  read_error_member fields s e =
      rw (L.contains-object fields _) (rw e (string_member L fields _ s e))

  pub auth_response :
      (m : AuthResponseMsg)
      → AuthFits m
      → auth_response_from_json J (auth_response_to_json J m) ≡ inr m
  unfolding auth_response_from_json auth_response_to_json lookup insert bytes_eq
  auth_response _ (accepted user_id h) =
      read_equal (auth_response_from_json J) (L.assign-object _ _ _)
        (step _ _ (bool_member L _ _ true refl) (step _ _ (u32_member L _ _ user_id h refl) refl))
  auth_response _ (refused error) =
      read_equal (auth_response_from_json J) (L.assign-object _ _ _)
        (step _ _ (bool_member L _ _ false refl) (step _ _ (read_error_member _ error refl) refl))

  doc_list_entry :
      (m : DocListEntry)
      → EntryFits m
      → doc_list_entry_from_json J (doc_list_entry_to_json J m) ≡ inr m
  unfolding doc_list_entry_from_json doc_list_entry_to_json lookup bytes_eq
  doc_list_entry m h = step _ _ (u32_member L _ _ m.doc_id h.0 refl) (
      step _ _ (string_member L _ _ m.title refl) (
        step _ _ (string_member L _ _ m.role refl)
          (step _ _ (int_member L _ _ m.online_count h.1 refl) refl)))

  pub doc_list_response :
      (m : DocListResponseMsg)
      → All EntryFits m.documents
      → doc_list_response_from_json J (doc_list_response_to_json J m) ≡ inr m
  unfolding doc_list_response_from_json doc_list_response_to_json lookup bytes_eq
  doc_list_response m h =
      step _ _
        (list_member L (doc_list_entry_from_json J) (doc_list_entry_to_json J) EntryFits
          doc_list_entry _ _ m.documents h refl)
        refl

  pub doc_create_response :
      (m : DocCreateResponseMsg)
      → CreateFits m
      → doc_create_response_from_json J (doc_create_response_to_json J m) ≡ inr m
  unfolding doc_create_response_from_json doc_create_response_to_json lookup insert bytes_eq
  doc_create_response _ (accepted doc_id h) =
      read_equal (doc_create_response_from_json J) (L.assign-object _ _ _)
        (step _ _ (bool_member L _ _ true refl) (step _ _ (u32_member L _ _ doc_id h refl) refl))
  doc_create_response _ refused = step _ _ (bool_member L _ _ false refl) refl

  user_info : (m : UserInfo) → UserFits m → user_info_from_json J (user_info_to_json J m) ≡ inr m
  unfolding user_info_from_json user_info_to_json lookup bytes_eq
  user_info m h = step _ _ (u32_member L _ _ m.user_id h refl) (
      step _ _ (string_member L _ _ m.username refl)
        (step _ _ (string_member L _ _ m.color refl) refl))

  -- `j[key] = v` again and again.
  abbrev pub assign_all : Value → List (Bytes × Value) → Value
  assign_all j [] = j
  assign_all j ((k, v) ∷ rest) = assign_all (assign j k v) rest

  abbrev pub insert_all : List (Bytes × Value) → List (Bytes × Value) → List (Bytes × Value)
  insert_all fields [] = fields
  insert_all fields ((k, v) ∷ rest) = insert_all (insert k v fields) rest

  pub assign_all_lem :
      (fields rest : List (Bytes × Value))
      → assign_all (object fields) rest ≡ object (insert_all fields rest)
  assign_all_lem fields [] = refl
  assign_all_lem fields ((k, v) ∷ rest) =
      ap (λ j. assign_all j rest) (L.assign-object fields k v)
      ∙ assign_all_lem (insert k v fields) rest

  abbrev pub join_fields : DocJoinResponseMsg → List (Bytes × Value)
  join_fields m =
      (bytes "docId", number m.doc_id)
      ∷ (bytes "title", string m.title)
      ∷ (bytes "content", string m.content)
      ∷ (bytes "revision", number m.revision)
      ∷ (bytes "role", string m.role)
      ∷ (bytes "users", array (map (user_info_to_json J) m.users))
      ∷ []

  pub doc_join_response :
      (m : DocJoinResponseMsg)
      → JoinFits m
      → doc_join_response_from_json J (doc_join_response_to_json J m) ≡ inr m
  unfolding doc_join_response_from_json doc_join_response_to_json lookup insert bytes_eq
  doc_join_response _ (accepted m d r users) =
      read_equal (doc_join_response_from_json J) (assign_all_lem _ (join_fields m)) (
        step _ _ (bool_member L _ _ true refl) (
          step _ _ (u32_member L _ _ m.doc_id d refl) (
            step _ _ (string_member L _ _ m.title refl) (
              step _ _ (string_member L _ _ m.content refl) (
                step _ _ (u32_member L _ _ m.revision r refl) (
                  step _ _ (string_member L _ _ m.role refl) (
                    step _ _
                      (list_member L (user_info_from_json J) (user_info_to_json J) UserFits
                        user_info _ _ m.users users refl)
                      refl)))))))
  doc_join_response _ (refused error) =
      read_equal (doc_join_response_from_json J) (L.assign-object _ _ _)
        (step _ _ (bool_member L _ _ false refl) (step _ _ (read_error_member _ error refl) refl))

  pub doc_leave_response :
      (m : DocLeaveResponseMsg)
      → doc_leave_response_from_json J (doc_leave_response_to_json J m) ≡ inr m
  unfolding doc_leave_response_from_json doc_leave_response_to_json lookup bytes_eq
  doc_leave_response m = step _ _ (bool_member L _ _ m.success refl) refl

  pub doc_delete_response :
      (m : DocDeleteResponseMsg)
      → doc_delete_response_from_json J (doc_delete_response_to_json J m) ≡ inr m
  unfolding doc_delete_response_from_json doc_delete_response_to_json lookup bytes_eq
  doc_delete_response m = step _ _ (bool_member L _ _ m.success refl) refl

  pub doc_share_response :
      (m : DocShareResponseMsg)
      → doc_share_response_from_json J (doc_share_response_to_json J m) ≡ inr m
  unfolding doc_share_response_from_json doc_share_response_to_json lookup bytes_eq
  doc_share_response m = step _ _ (bool_member L _ _ m.success refl) refl
