-- ===== src/Client/OtController/Rebase.antt =====
-- The client's document while operations are in flight (client/src/ot_controller.cpp): it is the
-- server's document with the client's own operations, in flight and waiting, applied on top.
use collaborative_text_edito.Common.{
  ◌≡◌, refl, sym, ap, subst, ◌∙◌, arith, Option, none, some, Option-cases, inl, inr, false, List,
  [], ◌∷◌, ◌++◌, Bytes, get_elem?, take, drop, map, foldl, foldl-append, ◌≢◌,
}
use collaborative_text_edito.Core.Operation.{Operation, is_noop}
use collaborative_text_edito.Core.Ot.{transform, apply}
use collaborative_text_edito.Core.Ot.Converge.{Fits, Distinct, transform-converges}
use collaborative_text_edito.Protocol.Messages.{OperationAckMsg}
use collaborative_text_edito.Client.LocalDocument.{LocalDocument}
use collaborative_text_edito.Client.OtController.{
  OtController, transform_buffer, remote_operation, local_operation, local_edit, next_pending,
  at_revision, acknowledged, handle_ack, Effect, State, send_op, revision_changed, emit_state_label,
}
use collaborative_text_edito.Client.OtController.Coherent.{Agrees, IsCoherent}

abbrev pub outstanding_of : Option Operation → List Operation → List Operation
outstanding_of none buffer = buffer
outstanding_of (some op) buffer = op ∷ buffer

-- The client's operations that the server has not acknowledged, the oldest first.
abbrev pub outstanding : OtController → List Operation
outstanding c = outstanding_of c.pending_op c.buffer

-- `o` meets each of the operations in turn within the limits of `transform`.
abbrev pub Meets : Bytes → List Operation → Operation → Type 0
Meets s [] o = Unit {0}
Meets s (op ∷ ops) o = Fits s op o × Distinct op o × Meets (apply s op) ops (transform op o).1

-- The client shows the server's document `s` with its own operations applied.
pub record Shows (c : OtController) (s : Bytes) : Type 0 where
  pub shown : c.doc.content ≡ foldl apply s (outstanding c)

transform_buffer-converges :
    (s : Bytes) (ops : List Operation) (o : Operation)
    → Meets s ops o
    → foldl apply (apply s o) (transform_buffer ops o).0
      ≡ apply (foldl apply s ops) (transform_buffer ops o).1
unfolding transform_buffer
transform_buffer-converges s [] o m = refl
transform_buffer-converges s (op ∷ ops) o m =
    ap (λ d. foldl apply d (transform_buffer ops (transform op o).1).0)
      (sym (transform-converges s op o m.0 m.1))
    ∙ transform_buffer-converges (apply s op) ops (transform op o).1 m.2

remote_shown :
    (c : OtController) (s : Bytes) (o : Operation)
    → IsCoherent c
    → c.doc.content ≡ foldl apply s (outstanding c)
    → Meets s (outstanding c) o
    → (remote_operation c o).0.doc.content
      ≡ foldl apply (apply s o) (outstanding (remote_operation c o).0)
unfolding remote_operation transform_buffer
remote_shown c s o h v m = elim (Option-cases c.pending_op) [
  | inl e ↦ ground arith
  | inr (p, e) ↦ ground (
    arith,
    transform_buffer-converges s (p ∷ c.buffer) o
        (subst (λ q. Meets s (outstanding_of q c.buffer) o) e m),
    ap (λ q. foldl apply s (outstanding_of q c.buffer)) e,
  )
]

-- A remote operation that meets the outstanding ones within the limits of `transform` moves the
-- server's document on, and the client shows the new one with its own operations, transformed, on
-- top.
pub remote_operation-Shows :
    (c : OtController) (s : Bytes) (o : Operation)
    → IsCoherent c
    → Shows c s
    → Meets s (outstanding c) o
    → Shows (remote_operation c o).0 (apply s o)
remote_operation-Shows c s o h v m = record { shown = remote_shown c s o h v.shown m }

outstanding-local :
    (c : OtController) (op : Operation)
    → IsCoherent c
    → is_noop op ≡ false
    → outstanding (local_operation c op).0
      ≡ outstanding c ++ record op { user_id = c.user_id; revision = c.revision } ∷ []
unfolding local_operation local_edit
outstanding-local c op h n = ground arith

local-content :
    (c : OtController) (op : Operation)
    → is_noop op ≡ false
    → (local_operation c op).0.doc.content
      ≡ apply c.doc.content (record op { user_id = c.user_id; revision = c.revision })
unfolding local_operation local_edit
local-content c op n = ground arith

-- An edit of the user that is no no-op is shown at once and put behind the outstanding operations,
-- under the user's id and the last revision known; of the server's document nothing changes.
pub local_operation-Shows :
    (c : OtController) (s : Bytes) (op : Operation)
    → IsCoherent c
    → is_noop op ≡ false
    → Shows c s
    → Shows (local_operation c op).0 s
      × (outstanding (local_operation c op).0
          ≡ outstanding c ++ record op { user_id = c.user_id; revision = c.revision } ∷ [])
local_operation-Shows c s op h n v =
    let behind = outstanding-local c op h n in
    let op' : Operation = record op { user_id = c.user_id; revision = c.revision } in
    (
      record {
        shown =
            local-content c op n
            ∙ ap (λ d. apply d op') v.shown
            ∙ sym (foldl-append apply s (outstanding c) op')
            ∙ sym (ap (foldl apply s) behind);
      },
      behind,
    )

-- With `ops` in the buffer and nothing in flight any more, the first of them is in flight.
record Advanced (c : OtController) (ops : List Operation) (next : OtController × List Effect)
    : Type 0 where
  pending : next.0.pending_op ≡ get_elem? ops 0
  rest : next.0.buffer ≡ drop 1 ops
  sends : next.1 ≡ map (send_op c) (take 1 ops)
  same_doc : next.0.doc ≡ c.doc
  same_revision : next.0.revision ≡ c.revision

next-Advanced :
    (c : OtController) (ops : List Operation) → ops ≢ [] → Advanced c ops (next_pending c ops)
unfolding next_pending
next-Advanced c [] n = absurd (n refl)
next-Advanced c (op ∷ []) n = record {
  pending = refl;
  rest = refl;
  sends = refl;
  same_doc = refl;
  same_revision = refl;
}
next-Advanced c (op ∷ op' ∷ ops) n = record {
  pending = refl;
  rest = refl;
  sends = refl;
  same_doc = refl;
  same_revision = refl;
}

nothing-Advanced :
    (c : OtController) (ops : List Operation) (state : State)
    → ops ≡ []
    → c.buffer ≡ []
    → Advanced c ops (record c { pending_op = none; state = state }, [])
nothing-Advanced c [] state e b = record {
  pending = refl;
  rest = b;
  sends = refl;
  same_doc = refl;
  same_revision = refl;
}
nothing-Advanced c (op ∷ ops) state e b = cc

acknowledged_last :
    (c : OtController)
    → c.state ≡ State.awaiting_ack
    → acknowledged c ≡ (record c { pending_op = none; state = State.synchronized }, [])
unfolding acknowledged
acknowledged_last c e = rw (e, acknowledged) refl

acknowledged_buffered :
    (c : OtController)
    → c.state ≡ State.awaiting_ack_with_buffer
    → acknowledged c ≡ next_pending c c.buffer
unfolding acknowledged
acknowledged_buffered c e =
    ap
      (λ (state : State). elim state [
        | State.synchronized ↦ (c, [])
        | State.awaiting_ack ↦ (record c { pending_op = none; state = State.synchronized }, [])
        | State.awaiting_ack_with_buffer ↦ next_pending c c.buffer
      ])
      e

acknowledged-Advanced :
    (c : OtController) (op : Operation)
    → IsCoherent c
    → c.pending_op ≡ some op
    → Advanced c c.buffer (acknowledged c)
acknowledged-Advanced c op h e = by_state c.state refl h
  where
    by_state :
        (state : State)
        → c.state ≡ state
        → Agrees state c.pending_op c.buffer
        → Advanced c c.buffer (acknowledged c)
    by_state State.synchronized at k = cc
    by_state State.awaiting_ack at k =
        subst (Advanced c c.buffer) (sym (acknowledged_last c at))
          (nothing-Advanced c c.buffer State.synchronized k.1 k.1)
    by_state State.awaiting_ack_with_buffer at k =
        subst (Advanced c c.buffer) (sym (acknowledged_buffered c at))
          (next-Advanced c c.buffer k.1)

outstanding-rest :
    (p : Option Operation) (rest ops : List Operation)
    → p ≡ get_elem? ops 0
    → rest ≡ drop 1 ops
    → outstanding_of p rest ≡ ops
outstanding-rest p rest [] e f = rw e (rw f refl)
outstanding-rest p rest (op ∷ ops) e f = rw e (rw f refl)

-- An acknowledgement passes the operation in flight, as it stands by now, on to the server's
-- document; the client shows what it showed. The first operation that waits, if there is one, is in
-- flight and has been sent with the new revision, and the others wait; nothing else is sent.
pub handle_ack-Shows :
    (c : OtController) (s : Bytes) (op : Operation) (msg : OperationAckMsg)
    → IsCoherent c
    → c.pending_op ≡ some op
    → Shows c s
    → Shows (handle_ack c msg).0 (apply s op)
      × ((handle_ack c msg).0.doc.content ≡ c.doc.content)
      × (outstanding (handle_ack c msg).0 ≡ c.buffer)
      × ((handle_ack c msg).0.revision ≡ msg.revision)
      × ((handle_ack c msg).0.pending_op ≡ get_elem? c.buffer 0)
      × ((handle_ack c msg).0.buffer ≡ drop 1 c.buffer)
      × ((handle_ack c msg).1
          ≡ revision_changed msg.revision
            ∷ (map (send_op (at_revision c msg.revision)) (take 1 c.buffer)
                ++ emit_state_label (handle_ack c msg).0.state ∷ []))
unfolding handle_ack
handle_ack-Shows c s op msg h e v =
    let c' = at_revision c msg.revision in
    let next = acknowledged-Advanced c' op h e in
    let left = outstanding-rest _ _ c.buffer next.pending next.rest in
    let content = ap (λ (x : LocalDocument). x.content) next.same_doc in
    (
      record {
        shown =
            content
            ∙ v.shown
            ∙ ap (λ q. foldl apply s (outstanding_of q c.buffer)) e
            ∙ sym (ap (foldl apply (apply s op)) left);
      },
      content,
      left,
      next.same_revision,
      next.pending,
      next.rest,
      ap
          (λ (es : List Effect).
            revision_changed msg.revision ∷ (es ++ emit_state_label (acknowledged c').0.state ∷ []))
          next.sends,
    )
