-- ===== src/Server/DocumentSession/Observer.antt =====
-- A client without edits of its own (client/src/ot_controller.cpp) that listens to a document
-- session (server/src/document_session.cpp).
use collaborative_text_edito.Common.{
  if◌then◌else◌, ℕ, ◌≡◌, ◌≢◌, refl, sym, ap, subst, ◌∙◌, arith, Bool, true, false, Bool-cases, ◌==◌,
  ==_iff, inl, inr, List, [], ◌∷◌, Bytes, bytes_eq, foldl, foldl-append_all,
}
use collaborative_text_edito.Core.Operation.{OpType-cases, Operation, make_insert, make_delete}
use collaborative_text_edito.Core.Ot.{apply}
use collaborative_text_edito.Core.Document.{Document, apply_with_ot, commit}
use collaborative_text_edito.Client.OtController.{
  State, OtController, from_entry, handle_broadcast, handle_ack, remote_operations,
  remote_operation,
}
use collaborative_text_edito.Server.DocumentSession.{
  CommandType, DocCommand, DocumentSession, Payload, user_joined, user_left, operation_ack,
  operation_broadcast, doc_deleted, error, entry_of, handle_operation, process_command,
  process_commands,
}
use collaborative_text_edito.Server.DocumentSession.Delivery.{
  inbox, inbox-append, Connected, news_of, told, handle_operation-told,
}

-- `onNetworkMessage`, behind the parsing: what a message makes of the controller. An error changes
-- nothing of it.
unfoldable pub hear : OtController → Payload → OtController
unfolding handle_broadcast handle_ack
hear c (user_joined msg) = c
hear c (user_left msg) = c
hear c (operation_ack msg) = if msg.doc_id == c.doc_id then (handle_ack c msg).0 else c
hear c (operation_broadcast msg) = if msg.doc_id == c.doc_id then (handle_broadcast c msg).0 else c
hear c (doc_deleted msg) = c
hear c (error msg) = c

-- The client of the user `u` has nothing in flight and shows the document.
pub record Follows (c : OtController) (u : ℕ) (d : Document) : Type 0 where
  pub user : c.user_id ≡ u
  pub document : c.doc_id ≡ d.id
  pub idle : c.state ≡ State.synchronized
  pub content : c.doc.content ≡ d.content
  pub revision : c.revision ≡ d.revision

-- What a message says of an operation is all that the document needs.
pub apply-from_entry :
    (text : Bytes) (op : Operation) (user revision : ℕ)
    → apply text (from_entry (entry_of op) user revision) ≡ apply text op
unfolding apply from_entry make_insert make_delete bytes_eq
apply-from_entry text op user revision = elim (OpType-cases op.type) [
  | inl e ↦ ground (arith, e)
  | inr e ↦ ground (arith, e)
]

-- Every command is an operation of another user.
abbrev pub ByOthers : ℕ → List DocCommand → Type 0
ByOthers u [] = Unit {0}
ByOthers u (cmd ∷ cmds) = (cmd.type ≡ CommandType.operation) × (cmd.user_id ≢ u) × ByOthers u cmds

hear-news :
    (c : OtController) (u : ℕ) (d d' : Document) (op : Operation) (cmd : DocCommand)
    → Follows c u d
    → cmd.user_id ≢ u
    → d'.id ≡ d.id
    → d'.content ≡ apply d.content op
    → Follows (hear c (news_of d' cmd op)) u d'
unfolding hear handle_broadcast remote_operations remote_operation
hear-news c u d d' op cmd f n i e =
    let other : (cmd.user_id == c.user_id) ≡ false =
      ground (arith, f.user, ==_iff cmd.user_id c.user_id) in
    let text = apply-from_entry c.doc.content op cmd.user_id d'.revision in
    let here : (d'.id == c.doc_id) ≡ true = ground (arith, f.document, i, ==_iff d'.id c.doc_id) in
    record {
      user = rw (here, other, hear, handle_broadcast, f.idle, remote_operation) f.user;
      document =
          rw (here, other, hear, handle_broadcast, f.idle, remote_operation) (f.document ∙ sym i);
      idle = rw (here, other, hear, handle_broadcast, f.idle, remote_operation) f.idle;
      content =
          rw (here, other, hear, handle_broadcast, f.idle, remote_operation)
            (text ∙ ap (λ t. apply t op) f.content ∙ sym e);
      revision = rw (here, other, hear, handle_broadcast) refl;
    }

pub accepted-content :
    (d : Document) (op : Operation)
    → (apply_with_ot d op).1.success ≡ true
    → (apply_with_ot d op).0.content ≡ apply d.content (apply_with_ot d op).1.transformed_op
unfolding apply_with_ot commit
accepted-content d op e = ground arith

accepted-id : (d : Document) (op : Operation) → (apply_with_ot d op).0.id ≡ d.id
unfolding apply_with_ot commit
accepted-id d op = ground arith

refused-same :
    (d : Document) (op : Operation)
    → (apply_with_ot d op).1.success ≡ false
    → (apply_with_ot d op).0 ≡ d
unfolding apply_with_ot commit
refused-same d op e = ground arith

module _ (alive : ℕ → Bool) (u k : ℕ) where
  operation-doc :
      (s : DocumentSession) (cmd : DocCommand)
      → ((handle_operation alive s cmd).0.doc ≡ (apply_with_ot s.doc cmd.operation).0)
        × ((handle_operation alive s cmd).0.connected_users ≡ s.connected_users)
  unfolding handle_operation
  operation-doc s cmd = ground arith

  told_other :
      (c : OtController) (s : DocumentSession) (cmd : DocCommand)
      → Follows c u s.doc
      → cmd.user_id ≢ u
      → Follows (foldl hear c (told s cmd u)) u (apply_with_ot s.doc cmd.operation).0
  told_other c s cmd f n =
      let other : (u == cmd.user_id) ≡ false = ground (arith, ==_iff u cmd.user_id) in
      let (doc, result) = apply_with_ot s.doc cmd.operation in
      elim (Bool-cases result.success) [
        | inl e ↦
            rw (e, other)
              (hear-news c u s.doc doc result.transformed_op cmd f n
                (accepted-id s.doc cmd.operation) (accepted-content s.doc cmd.operation e))
        | inr e ↦ rw (e, other) (subst (Follows c u) (sym (refused-same s.doc cmd.operation e)) f)
      ]

  observe_one :
      (c : OtController) (s : DocumentSession) (cmd : DocCommand)
      → alive k ≡ true
      → Connected s.connected_users u k
      → Follows c u s.doc
      → cmd.user_id ≢ u
      → Follows
          (foldl hear c (inbox k (handle_operation alive s cmd).1))
          u
          (handle_operation alive s cmd).0.doc
  observe_one c s cmd a j f n = subst (Follows _ u) (sym (operation-doc s cmd).0) (
      subst (λ ps. Follows (foldl hear c ps) u (apply_with_ot s.doc cmd.operation).0)
        (sym (handle_operation-told alive s cmd u k a j)) (told_other c s cmd f n))

  observe :
      (c : OtController) (s : DocumentSession) (cmds : List DocCommand)
      → alive k ≡ true
      → Connected s.connected_users u k
      → Follows c u s.doc
      → ByOthers u cmds
      → Follows
          (foldl hear c (inbox k (process_commands alive s cmds).1))
          u
          (process_commands alive s cmds).0.doc
  unfolding process_commands process_command inbox
  observe c s [] a j f o = f
  observe c s (cmd ∷ cmds) a j f o =
      let s' = (handle_operation alive s cmd).0 in
      let first = (handle_operation alive s cmd).1 in
      let c' = foldl hear c (inbox k first) in
      let j' : Connected s'.connected_users u k =
        subst (λ users. Connected users u k) (sym (operation-doc s cmd).1) j in
      rw (o.0) (
        subst (λ d. Follows d u (process_commands alive s' cmds).0.doc)
          (sym (
            ap (foldl hear c) (inbox-append k first (process_commands alive s' cmds).1)
            ∙ foldl-append_all hear c (inbox k first) (inbox k (process_commands alive s' cmds).1)))
          (observe c' s' cmds a j' (observe_one c s cmd a j f o.1) o.2))

-- A connected user without edits of his own, whose client shows the document, shows it again after
-- any number of operations of other users, once it has taken the messages that it is sent, those
-- that the server refuses included; and it knows the document's revision.
pub process_commands-Follows :
    (alive : ℕ → Bool) (u k : ℕ) (c : OtController) (s : DocumentSession) (cmds : List DocCommand)
    → alive k ≡ true
    → Connected s.connected_users u k
    → Follows c u s.doc
    → ByOthers u cmds
    → Follows
        (foldl hear c (inbox k (process_commands alive s cmds).1))
        u
        (process_commands alive s cmds).0.doc
process_commands-Follows alive u k c s cmds a j f o = observe alive u k c s cmds a j f o
