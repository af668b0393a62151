-- ===== src/Server/MessageHandler/Rights.antt =====
-- What a message may bring about (server/src/message_handler.cpp with
-- core/src/access_control.cpp).
use collaborative_text_edito.Common.{
  ℕ, ◌≡◌, refl, sym, ap, ◌∙◌, arith, inl, inr, true, false, Bool-cases, ◌==◌, ==_iff, ==_refl,
  Option, none, some, Option-cases, List, [], ◌∷◌, ◌++◌, Bytes, bytes, ltb, length, get_elem?,
}
use collaborative_text_edito.Common.Assoc.{nat_key, lookup, lookup-insert}
use collaborative_text_edito.Core.Operation.{make_insert, make_delete}
use collaborative_text_edito.Core.Access.{can_read, can_edit, can_delete}
use collaborative_text_edito.Protocol.Messages.{
  OpEntry, OperationMsg, DocDeleteRequestMsg, DocJoinRequestMsg, AuthRequestMsg,
  DocCreateRequestMsg, DocLeaveRequestMsg, DocShareRequestMsg, CursorUpdateMsg,
}
use collaborative_text_edito.Server.DocumentSession.{CommandType, DocCommand}
use collaborative_text_edito.Server.DocumentManager.{
  DocumentManager, DiskEffect, truncate_text, write_meta, remove_text, remove_meta, get_session,
  create_document, delete_document, get_document, get_or_create_session,
}
use collaborative_text_edito.Server.MessageHandler.{
  ClientSession, Action, Reply, doc_delete_response, replied, enqueued, disk, closed, World,
  Surroundings, send_error,
}
use collaborative_text_edito.Server.MessageHandler.Handlers.{
  handle_auth_request, handle_doc_create, handle_doc_join, handle_doc_leave, join_session,
  join_document,
}
use collaborative_text_edito.Server.MessageHandler.Editing.{
  handle_doc_delete, handle_doc_share, handle_operation_message, handle_cursor_update, enqueue_all,
}

-- A command is the session's user's, he has the right that it needs, and it goes to the session of
-- the document for which he has it: to edit the document that he is in, to read the one that he
-- joins (its session stands in `v`, the world after the message), to delete the one that is deleted.
-- A leave is only the user's.
abbrev pub PermittedCommand : World → World → ℕ → DocCommand → CommandType → Type 0
PermittedCommand w v session cmd CommandType.operation =
    (cmd.user_id ≡ w.session.user_id)
    × (cmd.operation.user_id ≡ w.session.user_id)
    × (can_edit w.manager.access w.session.current_doc_id w.session.user_id ≡ true)
    × (get_session w.manager w.session.current_doc_id ≡ some session)
PermittedCommand w v session cmd CommandType.join =
    (cmd.user_id ≡ w.session.user_id)
    × (cmd.session ≡ w.session.session_id)
    × ((d : ℕ) × (can_read w.manager.access d w.session.user_id ≡ true)
        × (get_session v.manager d ≡ some session))
PermittedCommand w v session cmd CommandType.leave = cmd.user_id ≡ w.session.user_id
PermittedCommand w v session cmd CommandType.delete =
    (d : ℕ) × (can_delete w.manager.access d w.session.user_id ≡ true)
    × (get_session w.manager d ≡ some session)
PermittedCommand w v session cmd CommandType.shutdown = ⊥

abbrev pub PermittedEffect : World → DiskEffect → Type 0
PermittedEffect w (truncate_text d) = d ≡ w.manager.next_doc_id
PermittedEffect w (write_meta d title) = d ≡ w.manager.next_doc_id
PermittedEffect w (remove_text d) = can_delete w.manager.access d w.session.user_id ≡ true
PermittedEffect w (remove_meta d) = can_delete w.manager.access d w.session.user_id ≡ true

abbrev pub PermittedAction : World → World → Action → Type 0
PermittedAction w v (replied session_id r) = Unit {0}
PermittedAction w v (enqueued session cmd) = PermittedCommand w v session cmd cmd.type
PermittedAction w v (disk effect) = PermittedEffect w effect
PermittedAction w v (closed session_id) = Unit {0}

abbrev pub PermittedActions : World → World → List Action → Type 0
PermittedActions w v [] = Unit {0}
PermittedActions w v (action ∷ actions) = PermittedAction w v action × PermittedActions w v actions

-- In the world `w`, with the world and the actions that result.
abbrev pub Permitted : World → World × List Action → Type 0
Permitted w (v, actions) = PermittedActions w v actions

then_reply :
    (w v : World) (xs : List Action)
    → PermittedActions w v xs
    → (session_id : ℕ) (r : Reply) → PermittedActions w v (xs ++ replied session_id r ∷ [])
then_reply w v [] p session_id r = (tt, tt)
then_reply w v (x ∷ xs) p session_id r = (p.0, then_reply w v xs p.1 session_id r)

pub send_error-Permitted :
    (w w' : World) (code message : Bytes) → Permitted w (send_error w' code message)
unfolding send_error
send_error-Permitted w w' code message = ground arith

enqueue_all-Permitted :
    (w : World) (around : Surroundings) (session revision : ℕ) (entries : List OpEntry)
    → can_edit w.manager.access w.session.current_doc_id w.session.user_id ≡ true
    → get_session w.manager w.session.current_doc_id ≡ some session
    → PermittedActions w w (enqueue_all around w session revision entries)
unfolding enqueue_all make_insert make_delete
enqueue_all-Permitted w around session revision [] e s = tt
enqueue_all-Permitted w around session revision (entry ∷ entries) e s =
    ((refl, ground arith, e, s), enqueue_all-Permitted w around session revision entries e s)

abbrev user_of : ClientSession → ℕ
user_of session = session.user_id

abbrev id_of : ClientSession → ℕ
id_of session = session.session_id

-- The session of a document is the one that is found from then on.
get_session-get_or_create :
    (m : DocumentManager) (d session : ℕ)
    → (get_or_create_session m d).1 ≡ some session
    → get_session (get_or_create_session m d).0 d ≡ some session
unfolding get_or_create_session get_session
get_session-get_or_create m d session e = elim (Option-cases (lookup d m.sessions)) [
  | inr (found, f) ↦ ground (arith, f, e)
  | inl f ↦ elim (Option-cases (lookup d m.documents)) [
    | inl g ↦ ground (arith, f, g, e)
    | inr (doc, g) ↦ ground (arith, f, g, e, lookup-insert d d doc m.sessions, ==_refl d)
  ]
]

module _ (around : Surroundings) (w : World) where
  pub operation-Permitted :
      (msg : OperationMsg) → Permitted w (handle_operation_message around w msg)
  unfolding handle_operation_message
  operation-Permitted msg =
      let doc_id = w.session.current_doc_id in
      elim (Bool-cases (doc_id == msg.doc_id)) [
        | inr e ↦
            rw (e, handle_operation_message)
              (send_error-Permitted w w (bytes "not_in_document") (bytes "Not in this document"))
        | inl e ↦
            let here : msg.doc_id ≡ doc_id = sym ((==_iff doc_id msg.doc_id).0 e) in
            elim (Bool-cases (can_edit w.manager.access msg.doc_id w.session.user_id)) [
              | inr f ↦
                  rw (e, f, handle_operation_message)
                    (send_error-Permitted w w (bytes "access_denied") (bytes "No edit permission"))
              | inl may ↦ elim (Bool-cases (ltb 1000 (length msg.ops))) [
                | inl g ↦
                    rw (e, may, g, handle_operation_message)
                      (send_error-Permitted w w (bytes "invalid_message")
                        (bytes "Too many operations (max 1000)"))
                | inr g ↦ elim (Option-cases (get_session w.manager msg.doc_id)) [
                  | inl i ↦
                      rw (e, may, g, i, handle_operation_message)
                        (send_error-Permitted w w (bytes "doc_not_found")
                          (bytes "Document not active"))
                  | inr (session, i) ↦
                      rw (e, may, g, i, handle_operation_message)
                        (enqueue_all-Permitted w around session msg.revision msg.ops
                          (ap (λ (d : ℕ). can_edit w.manager.access d w.session.user_id) (sym here)
                            ∙ may)
                          (ap (λ (d : ℕ). get_session w.manager d) (sym here) ∙ i))
                ]
              ]
            ]
      ]

  pub delete-Permitted : (msg : DocDeleteRequestMsg) → Permitted w (handle_doc_delete around w msg)
  unfolding handle_doc_delete delete_document
  delete-Permitted msg =
      elim (Bool-cases (can_delete w.manager.access msg.doc_id w.session.user_id)) [
        | inr e ↦
            let refusal =
              send_error w (bytes "access_denied") (bytes "Only owner can delete documents") in
            rw (e, handle_doc_delete)
              (then_reply w refusal.0 refusal.1
                (send_error-Permitted w w (bytes "access_denied")
                  (bytes "Only owner can delete documents"))
                refusal.0.session.session_id (doc_delete_response (record { success = false })))
        | inl may ↦ elim (Option-cases (get_session w.manager msg.doc_id)) [
          | inl i ↦ rw (may, i, handle_doc_delete) (may, (may, (tt, tt)))
          | inr (session, i) ↦
              rw (may, i, handle_doc_delete) ((msg.doc_id, may, i), (may, (may, (tt, tt))))
        ]
      ]

  session-Permitted :
      (w' : World) (d doc : ℕ) (found : Option ℕ)
      → w'.session ≡ w.session
      → can_read w.manager.access d w.session.user_id ≡ true
      → ((session : ℕ) → found ≡ some session → get_session w'.manager d ≡ some session)
      → Permitted w (join_session around w' d doc found)
  session-Permitted w' d doc none e may g = (tt, tt)
  session-Permitted w' d doc (some session) e may g =
      elim (Option-cases (get_elem? w'.manager.store doc)) [
        | inl i ↦ rw (i, join_session) (tt, tt)
        | inr (document, i) ↦
            rw (i, join_session) (tt, ((ap user_of e, ap id_of e, (d, may, g session refl)), tt))
      ]

  document-Permitted :
      (w' : World) (d : ℕ) (found : Option ℕ)
      → w'.session ≡ w.session
      → can_read w.manager.access d w.session.user_id ≡ true
      → Permitted w (join_document around w' d found)
  unfolding get_or_create_session
  document-Permitted w' d none e may = (tt, tt)
  document-Permitted w' d (some doc) e may =
      session-Permitted (record w' { manager = (get_or_create_session w'.manager d).0 }) d doc
        (get_or_create_session w'.manager d).1 e may (get_session-get_or_create w'.manager d)

  pub join-Permitted : (msg : DocJoinRequestMsg) → Permitted w (handle_doc_join around w msg)
  unfolding handle_doc_join
  join-Permitted msg = elim (Bool-cases (can_read w.manager.access msg.doc_id w.session.user_id)) [
    | inr e ↦ rw (e, handle_doc_join) (tt, tt)
    | inl may ↦
        let (manager, doc) =
          get_document w.manager (around.text msg.doc_id) (around.title msg.doc_id) msg.doc_id in
        rw (may, handle_doc_join)
          (document-Permitted (record w { manager = manager }) msg.doc_id doc refl may)
  ]

  pub auth-Permitted : (msg : AuthRequestMsg) → Permitted w (handle_auth_request around w msg)
  unfolding handle_auth_request
  auth-Permitted msg = ground (arith, send_error-Permitted w w)

  pub create-Permitted : (msg : DocCreateRequestMsg) → Permitted w (handle_doc_create around w msg)
  unfolding handle_doc_create create_document
  create-Permitted msg = (refl, (refl, (tt, tt)))

  pub leave-Permitted : (msg : DocLeaveRequestMsg) → Permitted w (handle_doc_leave around w msg)
  unfolding handle_doc_leave
  leave-Permitted msg = ground arith

  pub share-Permitted : (msg : DocShareRequestMsg) → Permitted w (handle_doc_share around w msg)
  unfolding handle_doc_share
  share-Permitted msg = ground (arith, send_error-Permitted w w)

  pub cursor-Permitted : (msg : CursorUpdateMsg) → Permitted w (handle_cursor_update around w msg)
  unfolding handle_cursor_update
  cursor-Permitted msg = ground arith
