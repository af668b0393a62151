-- ===== src/Server/CursorAggregator/Reached.antt =====
-- From an update of a cursor (server/src/document_manager.cpp) over the next round of
-- server/src/cursor_aggregator.cpp to what the clients of the document show.
use collaborative_text_edito.Common.{
  ℕ, ◌≡◌, ◌≢◌, ◌⊎◌, inl, inr, refl, ap, sym, subst, ◌∙◌, arith, ◌==◌, ==_iff, ==_refl, Bool-cases,
  Bool, true, none, some, List, [], ◌∷◌, ◌++◌, map, Bytes, if◌then◌else◌,
}
use collaborative_text_edito.Common.Assoc.{nat_key, lookup, insert, lookup-insert}
use collaborative_text_edito.Protocol.Messages.{CursorBroadcastMsg}
use collaborative_text_edito.Client.RemoteCursors.{RemoteCursorsModel, apply_broadcast}
use collaborative_text_edito.Server.DocumentSession.{ConnectedUser}
use collaborative_text_edito.Server.DocumentManager.{
  CursorState, DocumentManager, all_active_doc_ids, get_cursors, get_session, update_cursor,
}
use collaborative_text_edito.Server.CursorAggregator.{
  message_of, send_all, to_document, to_documents, round,
}
use collaborative_text_edito.Server.CursorAggregator.Shown.{
  Keyed, shown, insert-Keyed, broadcast-shown,
}

abbrev pub In : {A : Type 0} → A → List A → Type 0
In a [] = ⊥
In a (b ∷ bs) = (b ≡ a) ⊎ In a bs

In-append_left : {A : Type 0} (a : A) (bs cs : List A) → In a bs → In a (bs ++ cs)
In-append_left a [] cs h = absurd h
In-append_left a (b ∷ bs) cs (inl e) = inl e
In-append_left a (b ∷ bs) cs (inr h) = inr (In-append_left a bs cs h)

In-append_right : {A : Type 0} (a : A) (bs cs : List A) → In a cs → In a (bs ++ cs)
In-append_right a [] cs h = h
In-append_right a (b ∷ bs) cs h = inr (In-append_right a bs cs h)

module _ (connected_users : ℕ → List ConnectedUser) (alive : ℕ → Bool) where
  send_all-In :
      (user : ConnectedUser) (users : List ConnectedUser) (msg : CursorBroadcastMsg)
      → In user users
      → alive user.session ≡ true
      → In
          (record { session = user.session; payload = msg })
          (send_all connected_users alive users msg)
  unfolding send_all
  send_all-In user [] msg h l = absurd h
  send_all-In user (other ∷ users) msg (inl e) l =
      let l' : alive other.session ≡ true = ap (λ (u : ConnectedUser). alive u.session) e ∙ l in
      rw l' (inl (ap (λ (u : ConnectedUser). record { session = u.session; payload = msg }) e))
  send_all-In user (other ∷ users) msg (inr h) l =
      In-append_right _
        (if alive other.session then record { session = other.session; payload = msg } ∷ [] else [])
        _ (send_all-In user users msg h l)

  to_document-In :
      (m : DocumentManager) (doc_id session : ℕ) (c : ℕ × CursorState) (cs : List (ℕ × CursorState))
      (user : ConnectedUser)
      → get_session m doc_id ≡ some session
      → In user (connected_users session)
      → alive user.session ≡ true
      → In
          (record { session = user.session; payload = message_of doc_id (c ∷ cs) })
          (to_document connected_users alive m doc_id (c ∷ cs))
  to_document-In m doc_id session c cs user s u l =
      rw s (send_all-In user (connected_users session) (message_of doc_id (c ∷ cs)) u l)

  to_documents-In :
      (m : DocumentManager) (doc_id session : ℕ) (ids : List ℕ) (c : ℕ × CursorState)
      (cs : List (ℕ × CursorState)) (user : ConnectedUser)
      → In doc_id ids
      → get_session m doc_id ≡ some session
      → get_cursors m doc_id ≡ c ∷ cs
      → In user (connected_users session)
      → alive user.session ≡ true
      → In
          (record { session = user.session; payload = message_of doc_id (get_cursors m doc_id) })
          (to_documents connected_users alive m ids)
  unfolding to_documents
  to_documents-In m doc_id session [] c cs user h s e u l = absurd h
  to_documents-In m doc_id session (other ∷ ids) c cs user (inl same) s e u l =
      In-append_left
        (record { session = user.session; payload = message_of doc_id (get_cursors m doc_id) })
        (to_document connected_users alive m other (get_cursors m other))
        (to_documents connected_users alive m ids)
        (rw same (rw e (to_document-In m doc_id session c cs user s u l)))
  to_documents-In m doc_id session (other ∷ ids) c cs user (inr h) s e u l =
      In-append_right _ _ _ (to_documents-In m doc_id session ids c cs user h s e u l)

lookup-In :
    {V : Type 0} (k : ℕ) (v : V) (m : List (ℕ × V))
    → lookup k m ≡ some v
    → In k (map (λ (e : ℕ × V). e.0) m)
unfolding lookup
lookup-In k v [] e = cc
lookup-In k v ((j, w) ∷ m) e = elim (Bool-cases (j == k)) [
  | inl same ↦ inl ((==_iff j k).0 same)
  | inr other ↦ inr (lookup-In k v m (ground arith))
]

insert-cons :
    (k : ℕ) (v : CursorState) (m : List (ℕ × CursorState))
    → (c : ℕ × CursorState) × (cs : List (ℕ × CursorState)) × (insert k v m ≡ c ∷ cs)
unfolding insert
insert-cons k v [] = (_, _, refl)
insert-cons k v ((j, w) ∷ m) = elim (Bool-cases (j == k)) [
  | inl same ↦ ((k, v), m, rw same refl)
  | inr other ↦ ((j, w), insert k v m, rw other refl)
]

get_cursors-update :
    (m : DocumentManager) (doc_id : ℕ) (state : CursorState)
    → get_cursors (update_cursor m doc_id state) doc_id
      ≡ insert state.user_id state (get_cursors m doc_id)
unfolding get_cursors update_cursor
get_cursors-update m doc_id state =
    rw
      (lookup-insert doc_id doc_id (insert state.user_id state (get_cursors m doc_id))
        m.cursor_buffers)
      (rw (==_refl doc_id) refl)

get_session-update :
    (m : DocumentManager) (doc_id : ℕ) (state : CursorState)
    → get_session (update_cursor m doc_id state) doc_id ≡ get_session m doc_id
unfolding get_session update_cursor
get_session-update m doc_id state = refl

-- A cursor update reaches the others: in the round after it, each user of the document whose
-- client session is there is sent a message, and when the client of a user other than the cursor's
-- applies it, it shows the cursor as it was in the update. The document has a session, and its
-- cursors stand under the users that they belong to.
pub update_cursor-shown :
    (is_valid : Bytes → Bool) (connected_users : ℕ → List ConnectedUser) (alive : ℕ → Bool)
    (m : DocumentManager) (doc_id session : ℕ) (state : CursorState) (user : ConnectedUser)
    (model : RemoteCursorsModel)
    → Keyed (get_cursors m doc_id)
    → get_session m doc_id ≡ some session
    → In user (connected_users session)
    → alive user.session ≡ true
    → model.local_user_id ≢ state.user_id
    → (msg : CursorBroadcastMsg) × In
        (record { session = user.session; payload = msg })
        (round connected_users alive (update_cursor m doc_id state))
      × (lookup state.user_id (apply_broadcast is_valid model msg).0.cursors
          ≡ shown is_valid (some state))
unfolding round get_session
update_cursor-shown is_valid connected_users alive m doc_id session state user model k s u l other =
    let m' = update_cursor m doc_id state in
    let cursors = get_cursors m' doc_id in
    let (c, cs, e) = insert-cons state.user_id state (get_cursors m doc_id) in
    let s' : get_session m' doc_id ≡ some session = get_session-update m doc_id state ∙ s in
    (
      message_of doc_id cursors,
      to_documents-In connected_users alive m' doc_id session (all_active_doc_ids m') c cs user
          (lookup-In doc_id session m'.sessions s') s' (get_cursors-update m doc_id state ∙ e) u l,
      broadcast-shown is_valid model doc_id state.user_id cursors (
            subst Keyed (sym (get_cursors-update m doc_id state))
              (insert-Keyed state (get_cursors m doc_id) k))
          ∙ found,
    )
  where
    found :
        (if state.user_id == model.local_user_id
          then none
          else shown is_valid
              (lookup state.user_id (get_cursors (update_cursor m doc_id state) doc_id)))
        ≡ shown is_valid (some state)
    found =
        rw (get_cursors-update m doc_id state) (
          rw (lookup-insert state.user_id state.user_id state (get_cursors m doc_id))
            (ground arith))
