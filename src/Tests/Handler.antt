-- ===== src/Tests/Handler.antt =====
-- The document manager and the message handler at concrete inputs (server/src).
use collaborative_text_edito.Protocol.Requests.{operation_to_json}
use collaborative_text_edito.Protocol.Requests.RoundTrip.{deletion}
use collaborative_text_edito.Protocol.Messages.{operation}
use collaborative_text_edito.Server.MessageHandler.Dispatch.{check_auth}
use collaborative_text_edito.Server.MessageHandler.Encoded.{
  json_of, throws_of, type_of, handle, refused, handle_message-encode,
}
use collaborative_text_edito.Tests.JsonText.{json_text, json_text-IsLawful}
use collaborative_text_edito.Common.{
  ℕ, ◌+◌, ◌*◌, ◌^◌, ◌<◌, ◌≡◌, ◌≢◌, ◌⊎◌, inl, inr, refl, arith, true, false, none, some, [], ◌∷◌,
  Bytes, bytes, bytes_eq, if◌then◌else◌,
}
use collaborative_text_edito.Common.Assoc.{nat_key, lookup}
use collaborative_text_edito.Core.Access.{Role, get_role, can_share}
use collaborative_text_edito.Core.Auth.{find_user_id}
use collaborative_text_edito.Core.Document
use collaborative_text_edito.Protocol.MessageType.{MessageType, parse_message_type}
use collaborative_text_edito.Protocol.Messages.{OperationMsg, DocShareRequestMsg}
use collaborative_text_edito.Server.DocumentManager.{
  DocumentManager, create_document, get_document, delete_document, get_or_create_session,
  remove_session,
}
use collaborative_text_edito.Server.DocumentManager.Pointers.{IsValid, methods-IsValid}
use collaborative_text_edito.Server.MessageHandler.{ClientSession, World, Json, Surroundings}
use collaborative_text_edito.Server.MessageHandler.Editing.{handle_doc_share}
use collaborative_text_edito.Server.MessageHandler.Dispatch.{handled, handle_message}
use collaborative_text_edito.Server.MessageHandler.Rights.{Permitted}
use collaborative_text_edito.Server.MessageHandler.Safety.{
  authentication_required, handle_message-Permitted, handle_message-unauthenticated,
}
use collaborative_text_edito.Server.MessageHandler.Sharing.{handle_doc_share-roles}

-- One document, of user 1, with a session.
abbrev manager : DocumentManager
manager = record {
  access = record { rights = (1 * 2 ^ 32 + 1, Role.owner) ∷ [] };
  store = Document.init 1 (bytes "notes") ∷ [];
  documents = (1, 0) ∷ [];
  titles = (1, bytes "notes") ∷ [];
  sessions = (1, 0) ∷ [];
  cursor_buffers = [];
  next_doc_id = 2;
}

manager-IsValid : IsValid manager
unfolding lookup
manager-IsValid = record {
  shared = λ d a e. e;
  below = λ d a e. ground arith;
  stored = λ d a e. ground arith;
}

methods-IsValid_example :
    IsValid (create_document manager (bytes "plan") 1).0
    × IsValid (get_document manager (some []) (bytes "plan") 9).0
    × IsValid (delete_document manager 9).0
    × IsValid (get_or_create_session manager 9).0
    × IsValid (remove_session manager 9)
methods-IsValid_example =
    methods-IsValid manager (bytes "plan") 1 (some []) 9 manager-IsValid (omega arith) (omega arith)

abbrev ann : ClientSession
ann = record {
  session_id = 11;
  authenticated = true;
  user_id = 1;
  username = bytes "ann";
  color = bytes "#FF0000";
  current_doc_id = 1;
  error_count = 0;
}

abbrev world : World
world = record {
  auth = record {
    users =
        (bytes "bob", record { id = 2; username = bytes "bob"; password_hash = []; salt = [] })
        ∷ [];
    next_id = 3;
  };
  manager = manager;
  session = ann;
}

abbrev around : Surroundings
around = record {
  digest = record { cc_sha256 = λ x. [] };
  random = [];
  generate_color = λ u. bytes "#000000";
  text = λ d. none;
  title = λ d. [];
  connected_users = λ a. [];
  find_session_by_user_id = λ u. none;
}

abbrev edit : OperationMsg
edit = record {
  doc_id = 1;
  revision = 0;
  ops = record { op = bytes "delete"; pos = 0; text = []; len = 1 } ∷ [];
}

-- Every text is an operation.
abbrev json : Json
json = record {
  Value = Bytes;
  parse = λ x. some x;
  type_of = λ x. some (bytes "operation");
  auth_request = λ x. inl [];
  doc_create_request = λ x. inl [];
  doc_join_request = λ x. inl [];
  doc_leave_request = λ x. inl [];
  doc_delete_request = λ x. inl [];
  doc_share_request = λ x. inl [];
  operation = λ x. inr edit;
  cursor_update = λ x. inl [];
  throws = λ r. none;
}

-- Every text joins the document.
abbrev joins : Json
joins = record json {
  type_of = λ x. some (bytes "doc_join_request");
  doc_join_request = λ x. inr (record { doc_id = 1 });
}

handle_message-Permitted_example : Permitted world (handle_message around joins world [])
handle_message-Permitted_example = handle_message-Permitted around joins world []

abbrev stranger : World
stranger = record world { session = record ann { authenticated = false } }

is_operation : parse_message_type (bytes "operation") ≢ MessageType.auth_request
unfolding parse_message_type bytes_eq lookup
is_operation e = cc

handle_message-unauthenticated_example :
    handle_message around json stranger [] ≡ (stranger, authentication_required stranger)
handle_message-unauthenticated_example =
    handle_message-unauthenticated around json stranger [] [] (bytes "operation") refl refl refl
      is_operation

abbrev share : DocShareRequestMsg
share = record { doc_id = 1; target_username = bytes "bob"; role = bytes "editor" }

small : (t : ℕ) → find_user_id world.auth share.target_username ≡ some t → t < 2 ^ 32
unfolding find_user_id lookup bytes_eq
small t e = ground arith

handle_doc_share-roles_example :
    (get_role (handle_doc_share around world share).0.manager.access 1 2
      ≡ get_role world.manager.access 1 2)
    ⊎ ((◌≡◌ {A = ℕ} 1 1)
        × (find_user_id world.auth share.target_username ≡ some 2)
        × (◌≢◌ {A = ℕ} 2 1)
        × (can_share world.manager.access 1 1 ≡ true)
        × (get_role (handle_doc_share around world share).0.manager.access 1 2 ≢ some Role.owner))
handle_doc_share-roles_example =
    handle_doc_share-roles around world share 1 2 (omega arith) small (omega arith) (omega arith)

edit_text : Bytes
edit_text = operation_to_json json_text edit

handle_message-encode_example : handle_message around (json_of json_text) world edit_text ≡ (
    if check_auth world (type_of (operation edit))
    then handled (throws_of json_text) (handle around world (operation edit))
    else refused world)
unfolding edit_text
handle_message-encode_example =
    handle_message-encode around world json_text-IsLawful (operation edit) edit_text
      (omega arith, omega arith, (deletion 0 1 (omega arith) (omega arith), tt)) refl
