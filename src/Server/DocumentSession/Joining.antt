-- ===== src/Server/DocumentSession/Joining.antt =====
-- A user who joins while operations wait (server/src/document_session.cpp, `handle_doc_join` of
-- server/src/message_handler.cpp).
use collaborative_text_edito.Common.{
  ℕ, ◌≡◌, ◌≢◌, refl, sym, ◌∙◌, arith, Bool, true, Option, none, Bytes, [], ◌∷◌, ◌++◌,
}
use collaborative_text_edito.Common.Assoc.{nat_key}
use collaborative_text_edito.Core.Document.{apply_with_ot, subscribe}
use collaborative_text_edito.Protocol.Messages.{DocJoinResponseMsg}
use collaborative_text_edito.Server.DocumentSession.{
  CommandType, DocCommand, DocumentSession, handle_join, handle_operation, process_command,
  process_commands,
}
use collaborative_text_edito.Server.DocumentSession.Delivery.{
  inbox, inbox-append, users_of, operation-silent,
}
use collaborative_text_edito.Server.DocumentSession.Connections.{join-silent}
use collaborative_text_edito.Server.MessageHandler.{
  Reply, World, Surroundings, replied, enqueued, doc_join_response,
}
use collaborative_text_edito.Server.MessageHandler.Handlers.{joined, join_command, join_response}
use collaborative_text_edito.Server.MessageHandler.Dispatch.{handled, until_thrown}

-- A join command behind an operation: what the document has become, and nothing for the session.
behind :
    (alive : ℕ → Bool) (s : DocumentSession) (cmd join : DocCommand)
    → alive join.session ≡ true
    → cmd.type ≡ CommandType.operation
    → join.type ≡ CommandType.join
    → users_of join.session s.connected_users ≡ []
    → (inbox join.session (process_commands alive s (cmd ∷ join ∷ [])).1 ≡ [])
      × ((process_commands alive s (cmd ∷ join ∷ [])).0.doc.content
          ≡ (apply_with_ot s.doc cmd.operation).0.content)
unfolding process_commands process_command handle_join handle_operation subscribe inbox
behind alive s cmd join a t t' fresh =
    let k = join.session in
    let first = (handle_operation alive s cmd).1 in
    let s' = (handle_operation alive s cmd).0 in
    let arrival = (handle_join alive s' join).1 in
    let silent = operation-silent alive s cmd k a fresh in
    let same : s'.connected_users ≡ s.connected_users = ground arith in
    let unheard : inbox k arrival ≡ [] = join-silent alive s' join a (rw same fresh) in
    (
      rw (t, t')
          (inbox-append k first (arrival ++ [])
            ∙ rw silent (inbox-append k arrival [] ∙ rw unheard refl)),
      rw (t, t') (ground arith),
    )

-- A user joins through a client session that is there and that nobody uses yet, while an operation
-- that changes the document's text waits in the queue. If `serialize` does not throw for the response,
-- the handler responds with a content and puts the join command behind the operation. When the two
-- commands have been processed, the document has another content than the response, and the client
-- session has been sent nothing, neither of the operation nor of its own arrival.
pub join-misses :
    (throws : Reply → Option Bytes) (around : Surroundings) (w : World) (doc_id address : ℕ)
    (alive : ℕ → Bool) (s : DocumentSession) (cmd : DocCommand)
    → throws (doc_join_response (join_response around w doc_id address s.doc)) ≡ none
    → alive w.session.session_id ≡ true
    → cmd.type ≡ CommandType.operation
    → (apply_with_ot s.doc cmd.operation).0.content ≢ s.doc.content
    → users_of w.session.session_id s.connected_users ≡ []
    → (response : DocJoinResponseMsg) × (join : DocCommand) × ((handled throws
          (joined around w doc_id address s.doc)).1
        ≡ replied w.session.session_id (doc_join_response response) ∷ enqueued address join ∷ [])
      × ((process_commands alive s (cmd ∷ join ∷ [])).0.doc.content ≢ response.content)
      × (inbox w.session.session_id (process_commands alive s (cmd ∷ join ∷ [])).1 ≡ [])
unfolding handled until_thrown
join-misses throws around w doc_id address alive s cmd written a t changed fresh =
    let (silent, content) = behind alive s cmd (join_command around w) a t refl fresh in
    (
      join_response around w doc_id address s.doc,
      join_command around w,
      rw written refl,
      (λ e. changed (sym content ∙ e)),
      silent,
    )
