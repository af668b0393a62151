-- ===== src/Server/MessageHandler/Editing.antt =====
-- The handlers of server/src/message_handler.cpp that need a right to change a document: deletion,
-- sharing, operations; and the cursor.
use collaborative_text_edito.Common.{
  ℕ, true, false, not, ◌==◌, ltb, Option, none, some, List, [], ◌∷◌, ◌++◌, map, bytes, bytes_eq,
  if◌then◌else◌, length,
}
use collaborative_text_edito.Core.Operation.{Operation, make_insert, make_delete}
use collaborative_text_edito.Core.Access.{
  Role, AccessControl, can_edit, can_share, can_delete, grant, revoke,
}
use collaborative_text_edito.Core.Auth.{find_user_id}
use collaborative_text_edito.Protocol.Messages.{
  DocDeleteRequestMsg, DocShareRequestMsg, OperationMsg, OpEntry, CursorUpdateMsg,
}
use collaborative_text_edito.Server.DocumentSession.{CommandType}
use collaborative_text_edito.Server.DocumentManager.{delete_document, get_session, update_cursor}
use collaborative_text_edito.Server.MessageHandler.{
  ClientSession, doc_delete_response, doc_share_response, role_changed, Action, replied, enqueued,
  disk, World, Surroundings, reply, send_error,
}
use collaborative_text_edito.Server.MessageHandler.Handlers.{command}

abbrev with_access : World → AccessControl → World
with_access w access = record w { manager = record w.manager { access = access } }

module _ (around : Surroundings) where
  open around use {find_session_by_user_id}

  -- The command as it is by default, but for its type.
  abbrev deleting : World → Option ℕ → List Action
  deleting w none = []
  deleting w (some session) =
      enqueued session (record (command w CommandType.delete) { user_id = 0; username = [] }) ∷ []

  unfoldable pub handle_doc_delete : World → DocDeleteRequestMsg → World × List Action
  unfolding can_delete send_error get_session delete_document
  handle_doc_delete w msg =
      if not (can_delete w.manager.access msg.doc_id w.session.user_id)
      then (let (w', told) =
            send_error w (bytes "access_denied") (bytes "Only owner can delete documents") in
          (w', told ++ reply w' (doc_delete_response (record { success = false }))))
      else (let (manager, effects) = delete_document w.manager msg.doc_id in
          (
            record w { manager = manager },
            deleting w (get_session w.manager msg.doc_id)
                ++ map disk effects
                ++ reply w (doc_delete_response (record { success = true })),
          ))

  -- The target is told, if he is in the document.
  abbrev told_target : DocShareRequestMsg → Option ClientSession → List Action
  told_target msg none = []
  told_target msg (some target) =
      if target.current_doc_id == msg.doc_id
      then replied target.session_id
          (role_changed (record { doc_id = msg.doc_id; new_role = msg.role }))
        ∷ []
      else []

  abbrev shared : World → DocShareRequestMsg → ℕ → AccessControl → World × List Action
  shared w msg target access = (
    with_access w access,
    reply w (doc_share_response (record { success = true }))
        ++ told_target msg (find_session_by_user_id target),
  )

  abbrev pub share_with : World → DocShareRequestMsg → Option ℕ → World × List Action
  share_with w msg none = send_error w (bytes "user_not_found") (bytes "Target user not found")
  share_with w msg (some target) =
      if target == w.session.user_id
      then send_error w (bytes "cannot_modify_own_role") (bytes "Cannot modify own role")
      else if bytes_eq msg.role (bytes "none")
      then shared w msg target (revoke w.manager.access msg.doc_id target)
      else if bytes_eq msg.role (bytes "editor")
      then shared w msg target (grant w.manager.access msg.doc_id target Role.editor)
      else if bytes_eq msg.role (bytes "viewer")
      then shared w msg target (grant w.manager.access msg.doc_id target Role.viewer)
      else send_error w (bytes "invalid_message") (bytes "Invalid role")

  unfoldable pub handle_doc_share : World → DocShareRequestMsg → World × List Action
  unfolding can_share send_error find_user_id grant revoke bytes_eq
  handle_doc_share w msg =
      if not (can_share w.manager.access msg.doc_id w.session.user_id)
      then send_error w (bytes "access_denied") (bytes "Only owner can manage access")
      else share_with w msg (find_user_id w.auth msg.target_username)

  abbrev pub operation_of : World → ℕ → OpEntry → Operation
  operation_of w revision entry =
      if bytes_eq entry.op (bytes "insert")
      then make_insert entry.pos entry.text w.session.user_id revision
      else make_delete entry.pos entry.len [] w.session.user_id revision

  -- The loop over the operations.
  unfoldable pub enqueue_all : World → ℕ → ℕ → List OpEntry → List Action
  enqueue_all w session revision [] = []
  enqueue_all w session revision (entry ∷ entries) =
      enqueued session
        (record (command w CommandType.operation) { operation = operation_of w revision entry })
      ∷ enqueue_all w session revision entries

  abbrev enqueue_to : World → OperationMsg → Option ℕ → World × List Action
  enqueue_to w msg none = send_error w (bytes "doc_not_found") (bytes "Document not active")
  enqueue_to w msg (some session) = (w, enqueue_all w session msg.revision msg.ops)

  unfoldable pub handle_operation_message : World → OperationMsg → World × List Action
  unfolding can_edit send_error get_session enqueue_all
  handle_operation_message w msg =
      if not (w.session.current_doc_id == msg.doc_id)
      then send_error w (bytes "not_in_document") (bytes "Not in this document")
      else if not (can_edit w.manager.access msg.doc_id w.session.user_id)
      then send_error w (bytes "access_denied") (bytes "No edit permission")
      else if ltb 1000 (length msg.ops)
      then send_error w (bytes "invalid_message") (bytes "Too many operations (max 1000)")
      else enqueue_to w msg (get_session w.manager msg.doc_id)

  abbrev cursor_in : World → CursorUpdateMsg → Option ℕ → World × List Action
  cursor_in w msg none = (w, [])
  cursor_in w msg (some session) = (
    record w {
      manager = update_cursor w.manager msg.doc_id (record {
        user_id = w.session.user_id;
        username = w.session.username;
        color = w.session.color;
        position = msg.position;
        selection_start = msg.selection_start;
        selection_end = msg.selection_end;
      });
    },
    [],
  )

  unfoldable pub handle_cursor_update : World → CursorUpdateMsg → World × List Action
  unfolding get_session update_cursor
  handle_cursor_update w msg =
      if not (w.session.current_doc_id == msg.doc_id)
      then (w, [])
      else cursor_in w msg (get_session w.manager msg.doc_id)
