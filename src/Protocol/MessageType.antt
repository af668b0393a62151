-- ===== src/Protocol/MessageType.antt =====
-- The types of messages and their names (protocol/src/protocol.cpp,
-- protocol/include/collab_protocol/protocol.h).
use collaborative_text_edito.Common.{
  ℕ, ◌≡◌, ◌≢◌, refl, arith, List, [], ◌∷◌, Bytes, bytes, bytes_eq, bytes_eq_iff, none, some, foldl,
  Option-cases, inl, inr,
}
use collaborative_text_edito.Common.Assoc.{bytes_key, nat_key, lookup, insert}

pub data MessageType : Type 0 where
  auth_request auth_response doc_list_request doc_list_response doc_create_request : MessageType
  doc_create_response doc_join_request doc_join_response doc_leave_request : MessageType
  doc_leave_response doc_delete_request doc_delete_response doc_share_request : MessageType
  doc_share_response operation operation_ack operation_broadcast cursor_update : MessageType
  cursor_broadcast user_joined user_left role_changed doc_deleted server_shutdown error :
      MessageType
  undo_request redo_request snapshot_list_request snapshot_list_response : MessageType
  snapshot_view_request snapshot_view_response snapshot_restore_request : MessageType
  snapshot_restore_response rate_limit unknown : MessageType

-- `kStringToType`
string_to_type : List (Bytes × MessageType)
string_to_type =
    (bytes "auth_request", MessageType.auth_request)
    ∷ (bytes "auth_response", MessageType.auth_response)
    ∷ (bytes "doc_list_request", MessageType.doc_list_request)
    ∷ (bytes "doc_list_response", MessageType.doc_list_response)
    ∷ (bytes "doc_create_request", MessageType.doc_create_request)
    ∷ (bytes "doc_create_response", MessageType.doc_create_response)
    ∷ (bytes "doc_join_request", MessageType.doc_join_request)
    ∷ (bytes "doc_join_response", MessageType.doc_join_response)
    ∷ (bytes "doc_leave_request", MessageType.doc_leave_request)
    ∷ (bytes "doc_leave_response", MessageType.doc_leave_response)
    ∷ (bytes "doc_delete_request", MessageType.doc_delete_request)
    ∷ (bytes "doc_delete_response", MessageType.doc_delete_response)
    ∷ (bytes "doc_share_request", MessageType.doc_share_request)
    ∷ (bytes "doc_share_response", MessageType.doc_share_response)
    ∷ (bytes "operation", MessageType.operation)
    ∷ (bytes "operation_ack", MessageType.operation_ack)
    ∷ (bytes "operation_broadcast", MessageType.operation_broadcast)
    ∷ (bytes "cursor_update", MessageType.cursor_update)
    ∷ (bytes "cursor_broadcast", MessageType.cursor_broadcast)
    ∷ (bytes "user_joined", MessageType.user_joined)
    ∷ (bytes "user_left", MessageType.user_left)
    ∷ (bytes "role_changed", MessageType.role_changed)
    ∷ (bytes "doc_deleted", MessageType.doc_deleted)
    ∷ (bytes "server_shutdown", MessageType.server_shutdown)
    ∷ (bytes "error", MessageType.error)
    ∷ (bytes "undo_request", MessageType.undo_request)
    ∷ (bytes "redo_request", MessageType.redo_request)
    ∷ (bytes "snapshot_list_request", MessageType.snapshot_list_request)
    ∷ (bytes "snapshot_list_response", MessageType.snapshot_list_response)
    ∷ (bytes "snapshot_view_request", MessageType.snapshot_view_request)
    ∷ (bytes "snapshot_view_response", MessageType.snapshot_view_response)
    ∷ (bytes "snapshot_restore_request", MessageType.snapshot_restore_request)
    ∷ (bytes "snapshot_restore_response", MessageType.snapshot_restore_response)
    ∷ (bytes "rate_limit", MessageType.rate_limit)
    ∷ []

unfoldable pub parse_message_type : Bytes → MessageType
unfolding string_to_type lookup
parse_message_type s = elim (lookup s string_to_type) [
  | none ↦ MessageType.unknown
  | some type ↦ type
]

-- The value of an enumerator.
abbrev pub value : MessageType → ℕ
value MessageType.auth_request = 0
value MessageType.auth_response = 1
value MessageType.doc_list_request = 2
value MessageType.doc_list_response = 3
value MessageType.doc_create_request = 4
value MessageType.doc_create_response = 5
value MessageType.doc_join_request = 6
value MessageType.doc_join_response = 7
value MessageType.doc_leave_request = 8
value MessageType.doc_leave_response = 9
value MessageType.doc_delete_request = 10
value MessageType.doc_delete_response = 11
value MessageType.doc_share_request = 12
value MessageType.doc_share_response = 13
value MessageType.operation = 14
value MessageType.operation_ack = 15
value MessageType.operation_broadcast = 16
value MessageType.cursor_update = 17
value MessageType.cursor_broadcast = 18
value MessageType.user_joined = 19
value MessageType.user_left = 20
value MessageType.role_changed = 21
value MessageType.doc_deleted = 22
value MessageType.server_shutdown = 23
value MessageType.error = 24
value MessageType.undo_request = 25
value MessageType.redo_request = 26
value MessageType.snapshot_list_request = 27
value MessageType.snapshot_list_response = 28
value MessageType.snapshot_view_request = 29
value MessageType.snapshot_view_response = 30
value MessageType.snapshot_restore_request = 31
value MessageType.snapshot_restore_response = 32
value MessageType.rate_limit = 33
value MessageType.unknown = 34

-- `kTypeToString`, made by a loop over `kStringToType`.
type_to_string : List (ℕ × Bytes)
unfolding string_to_type insert
type_to_string = foldl (λ m entry. insert (value entry.1) entry.0 m) [] string_to_type

unfoldable pub message_type_to_string : MessageType → Bytes
unfolding type_to_string lookup
message_type_to_string type = elim (lookup (value type) type_to_string) [
  | none ↦ bytes "unknown"
  | some s ↦ s
]

-- Every message type, `unknown` included, is read back from its name.
pub parse-to_string : (t : MessageType) → parse_message_type (message_type_to_string t) ≡ t
unfolding parse_message_type message_type_to_string bytes_eq
parse-to_string MessageType.auth_request = refl
parse-to_string MessageType.auth_response = refl
parse-to_string MessageType.doc_list_request = refl
parse-to_string MessageType.doc_list_response = refl
parse-to_string MessageType.doc_create_request = refl
parse-to_string MessageType.doc_create_response = refl
parse-to_string MessageType.doc_join_request = refl
parse-to_string MessageType.doc_join_response = refl
parse-to_string MessageType.doc_leave_request = refl
parse-to_string MessageType.doc_leave_response = refl
parse-to_string MessageType.doc_delete_request = refl
parse-to_string MessageType.doc_delete_response = refl
parse-to_string MessageType.doc_share_request = refl
parse-to_string MessageType.doc_share_response = refl
parse-to_string MessageType.operation = refl
parse-to_string MessageType.operation_ack = refl
parse-to_string MessageType.operation_broadcast = refl
parse-to_string MessageType.cursor_update = refl
parse-to_string MessageType.cursor_broadcast = refl
parse-to_string MessageType.user_joined = refl
parse-to_string MessageType.user_left = refl
parse-to_string MessageType.role_changed = refl
parse-to_string MessageType.doc_deleted = refl
parse-to_string MessageType.server_shutdown = refl
parse-to_string MessageType.error = refl
parse-to_string MessageType.undo_request = refl
parse-to_string MessageType.redo_request = refl
parse-to_string MessageType.snapshot_list_request = refl
parse-to_string MessageType.snapshot_list_response = refl
parse-to_string MessageType.snapshot_view_request = refl
parse-to_string MessageType.snapshot_view_response = refl
parse-to_string MessageType.snapshot_restore_request = refl
parse-to_string MessageType.snapshot_restore_response = refl
parse-to_string MessageType.rate_limit = refl
parse-to_string MessageType.unknown = refl

-- A table whose entries all name their types.
abbrev Named : List (Bytes × MessageType) → Type 0
Named [] = Unit {0}
Named ((s, t) ∷ table) = (message_type_to_string t ≡ s) × Named table

lookup-Named :
    (s : Bytes) (table : List (Bytes × MessageType)) (t : MessageType)
    → Named table
    → lookup s table ≡ some t
    → message_type_to_string t ≡ s
unfolding lookup
lookup-Named s [] t n e = cc
lookup-Named s ((s', t') ∷ table) t n e =
    ground (arith, bytes_eq_iff s' s, lookup-Named s table t n.1)

table-Named : Named string_to_type
unfolding string_to_type message_type_to_string
table-Named = assumption refl

-- A text that is not read as `unknown` is the name of the type that it is read as.
pub to_string-parse :
    (s : Bytes)
    → parse_message_type s ≢ MessageType.unknown
    → message_type_to_string (parse_message_type s) ≡ s
unfolding parse_message_type
to_string-parse s h = elim (Option-cases (lookup s string_to_type)) [
  | inl e ↦ absurd (h (rw (e, parse_message_type)))
  | inr (t, e) ↦ rw (e, parse_message_type) (lookup-Named s string_to_type t table-Named e)
]
