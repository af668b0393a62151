-- ===== src/Server/CursorAggregator/Shown.antt =====
-- From the server's cursors (server/src/document_manager.cpp, server/src/cursor_aggregator.cpp) to
-- those that a client shows (client/src/remote_cursors_model.cpp).
use collaborative_text_edito.Common.{
  ℕ, ◌≡◌, inl, inr, refl, ap, ◌∙◌, arith, ◌==◌, Bool-cases, Bool, true, false, Option, none, some,
  List, [], ◌∷◌, map, Bytes, bytes, if◌then◌else◌,
}
use collaborative_text_edito.Common.Assoc.{nat_key, lookup, insert, lookup-insert}
use collaborative_text_edito.Client.RemoteCursors.{
  RemoteCursor, RemoteCursorsModel, emplace, remote_cursor, collect, apply_broadcast,
}
use collaborative_text_edito.Server.DocumentManager.{CursorState}
use collaborative_text_edito.Server.CursorAggregator.{cursor_info, message_of}

-- The cursors of a document stand under the users that they belong to.
abbrev pub Keyed : List (ℕ × CursorState) → Type 0
Keyed [] = Unit {0}
Keyed ((user_id, state) ∷ cursors) = (state.user_id ≡ user_id) × Keyed cursors

pub insert-Keyed :
    (state : CursorState) (cursors : List (ℕ × CursorState))
    → Keyed cursors
    → Keyed (insert state.user_id state cursors)
unfolding insert
insert-Keyed state [] k = (refl, tt)
insert-Keyed state ((user_id, other) ∷ cursors) k = elim (Bool-cases (user_id == state.user_id)) [
  | inl same ↦ rw same (refl, k.1)
  | inr different ↦ rw different (k.0, insert-Keyed state cursors k.1)
]

abbrev or_else : Option RemoteCursor → Option RemoteCursor → Option RemoteCursor
or_else none other = other
or_else (some c) other = some c

module _ (is_valid : Bytes → Bool) where
  -- What a client shows of a cursor of another user.
  abbrev pub shown : Option CursorState → Option RemoteCursor
  shown none = none
  shown (some state) = some (record {
    user_id = state.user_id;
    username = state.username;
    color = if is_valid state.color then state.color else bytes "#808080";
    position = state.position;
    selection_start = state.selection_start;
    selection_end = state.selection_end;
  })

  emplaced :
      (v k : ℕ) (c : RemoteCursor) (m : List (ℕ × RemoteCursor)) (at_k at_v : Option RemoteCursor)
      → lookup k m ≡ at_k
      → lookup v m ≡ at_v
      → lookup v (emplace k c m) ≡ or_else at_v (if k == v then some c else none)
  unfolding emplace
  emplaced v k c m none none e f = rw (e, emplace) (ground (arith, lookup-insert k v c m))
  emplaced v k c m none (some d) e f = rw (e, emplace) (ground (arith, lookup-insert k v c m))
  emplaced v k c m (some d) none e f = rw (e, emplace) (ground arith)
  emplaced v k c m (some d) (some d') e f = rw (e, emplace) f

  or_else_assoc : (a b c : Option RemoteCursor) → or_else (or_else a b) c ≡ or_else a (or_else b c)
  or_else_assoc none b c = refl
  or_else_assoc (some a) b c = refl

  or_else-none : (a : Option RemoteCursor) → or_else a none ≡ a
  or_else-none none = refl
  or_else-none (some a) = refl

  -- One round of the loop, in terms of what is found under `v`.
  skipped :
      (own v k : ℕ) (state : CursorState) (rest : Option CursorState)
      → (k == own) ≡ true
      → (if v == own then none else shown rest)
        ≡ (if v == own then none else shown (if k == v then some state else rest))
  skipped own v k state rest e = ground arith

  placed :
      (own v k : ℕ) (state : CursorState) (rest : Option CursorState)
      → (k == own) ≡ false
      → or_else
          (if k == v then shown (some state) else none)
          (if v == own then none else shown rest)
        ≡ (if v == own then none else shown (if k == v then some state else rest))
  placed own v k state rest e = elim (Bool-cases (k == v)) [
    | inl same ↦ rw same (let w : (v == own) ≡ false = ground arith in rw w refl)
    | inr other ↦ rw other refl
  ]

  collect-Keyed :
      (own v : ℕ) (cursors : List (ℕ × CursorState)) (next : List (ℕ × RemoteCursor))
      → Keyed cursors
      → lookup v (collect is_valid own (map cursor_info cursors) next)
        ≡ or_else (lookup v next) (if v == own then none else shown (lookup v cursors))
  unfolding collect lookup
  collect-Keyed own v [] next k = ground (arith, or_else-none (lookup v next))
  collect-Keyed own v ((user_id, state) ∷ cursors) next k =
      let c = remote_cursor is_valid (cursor_info (user_id, state)) in
      let start = λ (b : Bool). lookup v (
        collect is_valid own (map cursor_info cursors)
          (if b then next else emplace state.user_id c next)) in
      let key : (state.user_id == own) ≡ (user_id == own) = ap (λ (n : ℕ). n == own) k.0 in
      elim (Bool-cases (user_id == own)) [
        | inl same ↦
            ap start (key ∙ same)
            ∙ collect-Keyed own v cursors next k.1
            ∙ ap (or_else (lookup v next)) (skipped own v user_id state (lookup v cursors) same)
        | inr other ↦
            ap start (key ∙ other)
            ∙ collect-Keyed own v cursors (emplace state.user_id c next) k.1
            ∙ ap (λ o. or_else o (if v == own then none else shown (lookup v cursors)))
                (emplaced v state.user_id c next _ _ refl refl)
            ∙ or_else_assoc (lookup v next) _ _
            ∙ ap
                (λ (n : ℕ). or_else (lookup v next) (
                  or_else (if n == v then shown (some state) else none)
                    (if v == own then none else shown (lookup v cursors))))
                k.0
            ∙ ap (or_else (lookup v next)) (placed own v user_id state (lookup v cursors) other)
      ]

  -- What a client shows after a broadcast of a document's cursors is, for every user but its own,
  -- what the server has for that user, and nothing for its own user and for others.
  pub broadcast-shown :
      (model : RemoteCursorsModel) (doc_id v : ℕ) (cursors : List (ℕ × CursorState))
      → Keyed cursors
      → lookup v (apply_broadcast is_valid model (message_of doc_id cursors)).0.cursors
        ≡ (if v == model.local_user_id then none else shown (lookup v cursors))
  unfolding apply_broadcast
  broadcast-shown model doc_id v cursors k = collect-Keyed model.local_user_id v cursors [] k
