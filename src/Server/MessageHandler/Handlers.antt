-- ===== src/Server/MessageHandler/Handlers.antt =====
-- The handlers of server/src/message_handler.cpp for accounts, and for the list, the creation, the
-- opening and the leaving of documents.
use collaborative_text_edito.Common.{
  ℕ, true, false, not, ◌&&◌, Option, none, some, List, [], ◌∷◌, ◌++◌, map, Bytes, bytes, bytes_eq,
  if◌then◌else◌, get_elem?,
}
use collaborative_text_edito.Core.Operation.{OpType, Operation}
use collaborative_text_edito.Core.Document.{Document}
use collaborative_text_edito.Core.Access.{can_read}
use collaborative_text_edito.Core.Auth.{AuthResult, AuthManager, register_user, login}
use collaborative_text_edito.Protocol.Messages.{
  AuthRequestMsg, DocCreateRequestMsg, DocJoinRequestMsg, DocJoinResponseMsg, DocLeaveRequestMsg,
}
use collaborative_text_edito.Server.DocumentSession.{ConnectedUser, CommandType, DocCommand}
use collaborative_text_edito.Server.DocumentManager.{
  DocListItem, create_document, get_document, list_documents, get_or_create_session, get_session,
  role_to_string,
}
use collaborative_text_edito.Server.MessageHandler.{
  Reply, auth_response, doc_list_response, doc_create_response, doc_join_response,
  doc_leave_response, Action, enqueued, disk, World, Surroundings, reply, send_error,
}

abbrev no_operation : Operation
no_operation = record {
  type = OpType.insert;
  position = 0;
  text = [];
  length = 0;
  user_id = 0;
  revision = 0;
}

-- A command with the user's id and name, its other members as they are by default.
abbrev pub command : World → CommandType → DocCommand
command w type = record {
  type = type;
  operation = no_operation;
  user_id = w.session.user_id;
  username = w.session.username;
  color = [];
  session = 0;
}

abbrev error_name : Bytes → Bytes
error_name name =
    if bytes_eq name (bytes "duplicate_username") then bytes "username_taken" else name

abbrev with_current_doc : World → ℕ → World
with_current_doc w doc_id = record w { session = record w.session { current_doc_id = doc_id } }

-- `DocJoinResponseMsg{.success = false, .error = why}`
abbrev not_joined : Bytes → Reply
not_joined why = doc_join_response (record {
  success = false;
  doc_id = 0;
  title = [];
  content = [];
  revision = 0;
  role = [];
  users = [];
  error = why;
})

module _ (around : Surroundings) where
  open around use {digest, random, generate_color, text, title, connected_users}

  -- The result of `register_user` or `login`, with the accounts behind it.
  abbrev pub authenticated : World → Bytes → AuthManager × AuthResult → World × List Action
  authenticated w username (auth, result) =
      let session = record w.session {
        user_id = result.user_id;
        username = username;
        color = generate_color result.user_id;
        authenticated = true;
      } in
      if result.success
      then (
        record w { auth = auth; session = session },
        reply w (auth_response (record { success = true; user_id = result.user_id; error = [] })),
      )
      else (
        record w { auth = auth },
        reply w (
            auth_response
              (record { success = false; user_id = 0; error = error_name result.error })),
      )

  unfoldable pub handle_auth_request : World → AuthRequestMsg → World × List Action
  unfolding bytes_eq send_error register_user login
  handle_auth_request w msg =
      if not (bytes_eq msg.action (bytes "login")) && not (bytes_eq msg.action (bytes "register"))
      then send_error w (bytes "invalid_message") (bytes "Invalid action")
      else if bytes_eq msg.action (bytes "register")
      then authenticated w msg.username
          (register_user digest w.auth msg.username msg.password random)
      else authenticated w msg.username (w.auth, login digest w.auth msg.username msg.password)

  unfoldable pub handle_doc_list : World → World × List Action
  unfolding list_documents
  handle_doc_list w = (
    w,
    reply w (
        doc_list_response (record {
          documents =
              map
                (λ (item : DocListItem). record {
                  doc_id = item.doc_id;
                  title = item.title;
                  role = item.role;
                  online_count = item.online_count;
                })
                (list_documents w.manager w.session.user_id);
        })),
  )

  unfoldable pub handle_doc_create : World → DocCreateRequestMsg → World × List Action
  unfolding create_document
  handle_doc_create w msg =
      let (manager, doc_id, effects) = create_document w.manager msg.title w.session.user_id in
      (
        record w { manager = manager },
        map disk effects
            ++ reply w (doc_create_response (record { success = true; doc_id = doc_id })),
      )

  abbrev pub join_command : World → DocCommand
  join_command w = record (command w CommandType.join) {
    color = w.session.color;
    session = w.session.session_id;
  }

  abbrev pub join_response : World → ℕ → ℕ → Document → DocJoinResponseMsg
  join_response w doc_id session doc = record {
    success = true;
    doc_id = doc_id;
    title = doc.title;
    content = doc.content;
    revision = doc.revision;
    role = role_to_string w.manager doc_id w.session.user_id;
    users =
        map
          (λ (user : ConnectedUser). record {
            user_id = user.user_id;
            username = user.username;
            color = user.color;
          })
          (connected_users session);
    error = [];
  }

  -- `handle_doc_join` with the document and its session.
  abbrev pub joined : World → ℕ → ℕ → Document → World × List Action
  joined w doc_id session doc = (
    with_current_doc w doc_id,
    reply w (doc_join_response (join_response w doc_id session doc))
        ++ enqueued session (join_command w) ∷ [],
  )

  -- With the session, if there is one; a document that is loaded is in the store.
  abbrev pub join_session : World → ℕ → ℕ → Option ℕ → World × List Action
  join_session w doc_id doc none = (w, reply w (not_joined (bytes "doc_not_found")))
  join_session w doc_id doc (some session) = elim (get_elem? w.manager.store doc) [
    | none ↦ (w, reply w (not_joined (bytes "doc_not_found")))
    | some document ↦ joined w doc_id session document
  ]

  abbrev pub join_document : World → ℕ → Option ℕ → World × List Action
  join_document w doc_id none = (w, reply w (not_joined (bytes "doc_not_found")))
  join_document w doc_id (some doc) =
      let (manager, session) = get_or_create_session w.manager doc_id in
      join_session (record w { manager = manager }) doc_id doc session

  unfoldable pub handle_doc_join : World → DocJoinRequestMsg → World × List Action
  unfolding can_read get_document get_or_create_session role_to_string
  handle_doc_join w msg =
      if not (can_read w.manager.access msg.doc_id w.session.user_id)
      then (w, reply w (not_joined (bytes "access_denied")))
      else (let (manager, doc) =
            get_document w.manager (text msg.doc_id) (title msg.doc_id) msg.doc_id in
          join_document (record w { manager = manager }) msg.doc_id doc)

  abbrev leaving : World → Option ℕ → List Action
  leaving w none = []
  leaving w (some session) = enqueued session (command w CommandType.leave) ∷ []

  unfoldable pub handle_doc_leave : World → DocLeaveRequestMsg → World × List Action
  unfolding get_session
  handle_doc_leave w msg = (
    with_current_doc w 0,
    leaving w (get_session w.manager msg.doc_id)
        ++ reply w (doc_leave_response (record { success = true })),
  )
