-- ===== src/Server/CursorAggregator.antt =====
-- server/src/cursor_aggregator.cpp: one round of `broadcast_loop`. The users of the session at an
-- address are a parameter, and so is whether the weak pointer to a client session still finds one; a
-- payload is the message that is serialised.
pub mod Reached
pub mod Shown
use collaborative_text_edito.Common.{
  ℕ, Bool, Option, none, some, List, [], ◌∷◌, ◌++◌, map, if◌then◌else◌,
}
use collaborative_text_edito.Protocol.Messages.{CursorInfo, CursorBroadcastMsg}
use collaborative_text_edito.Server.DocumentSession.{ConnectedUser}
use collaborative_text_edito.Server.DocumentManager.{
  CursorState, DocumentManager, all_active_doc_ids, get_cursors, get_session,
}

-- `session->send(payload)`
pub record CursorSend : Type 0 where
  pub session : ℕ
  pub payload : CursorBroadcastMsg

abbrev pub cursor_info : ℕ × CursorState → CursorInfo
cursor_info (user_id, state) = record {
  user_id = state.user_id;
  username = state.username;
  color = state.color;
  position = state.position;
  selection_start = state.selection_start;
  selection_end = state.selection_end;
}

abbrev pub message_of : ℕ → List (ℕ × CursorState) → CursorBroadcastMsg
message_of doc_id cursors = record { doc_id = doc_id; cursors = map cursor_info cursors }

module _ (connected_users : ℕ → List ConnectedUser) (alive : ℕ → Bool) where
  unfoldable pub send_all : List ConnectedUser → CursorBroadcastMsg → List CursorSend
  send_all [] msg = []
  send_all (user ∷ users) msg =
      (if alive user.session then record { session = user.session; payload = msg } ∷ [] else [])
      ++ send_all users msg

  abbrev pub in_session : ℕ → List (ℕ × CursorState) → Option ℕ → List CursorSend
  in_session doc_id cursors none = []
  in_session doc_id cursors (some session) =
      send_all (connected_users session) (message_of doc_id cursors)

  abbrev pub to_document : DocumentManager → ℕ → List (ℕ × CursorState) → List CursorSend
  to_document m doc_id [] = []
  to_document m doc_id (c ∷ cs) = in_session doc_id (c ∷ cs) (get_session m doc_id)

  unfoldable pub to_documents : DocumentManager → List ℕ → List CursorSend
  unfolding send_all get_session get_cursors
  to_documents m [] = []
  to_documents m (doc_id ∷ ids) = to_document m doc_id (get_cursors m doc_id) ++ to_documents m ids

  unfoldable pub round : DocumentManager → List CursorSend
  unfolding to_documents
  round m = to_documents m (all_active_doc_ids m)
