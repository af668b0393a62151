-- ===== src/Server/DocumentSession/InFlight.antt =====
-- An operation in flight on both sides: at its author's client (client/src/ot_controller.cpp), which
-- moves it over the broadcasts that arrive, and at the server (core/src/document.cpp), which moves
-- it over the history.
use collaborative_text_edito.Common.{
  ℕ, ◌+◌, ◌^◌, ◌≤◌, ◌<◌, ◌≡◌, ◌≢◌, refl, sym, ap, subst, ◌∙◌, arith, false, ◌==◌, ==_iff, inl, inr,
  some, List, [], ◌∷◌, Bytes, bytes_eq, foldl, drop, length, u32,
}
use collaborative_text_edito.Core.Operation.{
  OpType, OpType-cases, Operation, make_insert, make_delete,
}
use collaborative_text_edito.Core.Ot.{
  transform, transform_insert_insert, transform_insert_delete, transform_delete_delete,
}
use collaborative_text_edito.Core.Document.{Document, apply_with_ot}
use collaborative_text_edito.Core.Document.Log.{Represents, rebased, apply_with_ot-Represents}
use collaborative_text_edito.Protocol.Messages.{OperationAckMsg, OperationBroadcastMsg}
use collaborative_text_edito.Client.OtController.{
  OtController, to_entry, from_entry, local_operations, local_operation, local_edit,
  on_local_operations, handle_broadcast, handle_ack, remote_operations, remote_operation,
  against_pending,
}
use collaborative_text_edito.Client.OtController.Coherent.{
  IsCoherent, local-IsCoherent, locals-IsCoherent, remotes-IsCoherent,
}
use collaborative_text_edito.Client.OtController.Rebase.{Shows, handle_ack-Shows}
use collaborative_text_edito.Server.DocumentSession.{entry_of}
use collaborative_text_edito.Server.DocumentSession.Observer.{accepted-content}

-- What the server makes of an operation, and a client of a broadcast: an insertion has its text's
-- length, an erasure has no text.
pub record Measured (op : Operation) : Type 0 where
  pub inserts : op.type ≡ OpType.insert → op.length ≡ u32 (length op.text)
  pub deletes : op.type ≡ OpType.delete → op.text ≡ []

-- An operation that is measured arrives at the server as it was in the client.
pub from_entry-to_entry :
    (op : Operation) → Measured op → from_entry (to_entry op) op.user_id op.revision ≡ op
unfolding from_entry to_entry make_insert make_delete bytes_eq
from_entry-to_entry op m = elim (OpType-cases op.type) [
  | inl e ↦ ground (arith, e, m.inserts e)
  | inr e ↦ ground (arith, e, m.deletes e)
]

-- What a broadcast leaves out of an operation does not matter to `transform`.
transform-from_entry :
    (op past : Operation) (revision : ℕ)
    → Measured past
    → (transform op (from_entry (entry_of past) past.user_id revision)).0 ≡ (transform op past).0
unfolding transform transform_insert_insert transform_insert_delete transform_delete_delete
    from_entry make_insert make_delete bytes_eq
transform-from_entry op past revision m = elim (OpType-cases past.type) [
  | inl e ↦ ground (arith, e, m.inserts e)
  | inr e ↦ ground (arith, e)
]

-- What happens to the author's client meanwhile: it takes a broadcast for its document, or the user
-- edits.
pub data Turn : Type 0 where
  hears : OperationBroadcastMsg → Turn
  edits : List Operation → Turn

unfoldable pub turn : OtController → Turn → OtController
turn c (hears msg) = (handle_broadcast c msg).0
turn c (edits ops) = (on_local_operations c ops).0

-- The broadcasts among the turns are those of the operations, in their order, and none is of the
-- user `u`.
abbrev pub Carries : ℕ → List Turn → List Operation → Type 0
Carries u [] [] = Unit {0}
Carries u [] (past ∷ pasts) = ⊥
Carries u (edits ops ∷ turns) pasts = Carries u turns pasts
Carries u (hears msg ∷ turns) [] = ⊥
Carries u (hears msg ∷ turns) (past ∷ pasts) =
    (msg.ops ≡ entry_of past ∷ [])
    × (msg.user_id ≡ past.user_id)
    × (past.user_id ≢ u)
    × Measured past
    × Carries u turns pasts

-- The user `u` has the operation in flight.
pub record InFlight (c : OtController) (u : ℕ) (op : Operation) : Type 0 where
  pub user : c.user_id ≡ u
  pub coherent : IsCoherent c
  pub pending : c.pending_op ≡ some op

edits-user :
    (c : OtController) (ops : List Operation) → (local_operations c ops).0.user_id ≡ c.user_id
unfolding local_operations local_operation local_edit
edits-user c [] = refl
edits-user c (op ∷ ops) =
    let here : (local_operation c op).0.user_id ≡ c.user_id = ground arith in
    edits-user (local_operation c op).0 ops ∙ here

edit-pending :
    (c : OtController) (op edit : Operation)
    → IsCoherent c
    → c.pending_op ≡ some op
    → (local_operation c edit).0.pending_op ≡ some op
unfolding local_operation local_edit
edit-pending c op edit h e = ground arith

edits-pending :
    (c : OtController) (op : Operation) (ops : List Operation)
    → IsCoherent c
    → c.pending_op ≡ some op
    → (local_operations c ops).0.pending_op ≡ some op
unfolding local_operations
edits-pending c op [] h e = e
edits-pending c op (edit ∷ ops) h e =
    edits-pending (local_operation c edit).0 op ops (local-IsCoherent c edit h)
      (edit-pending c op edit h e)

pub turn-edits :
    (c : OtController) (u : ℕ) (op : Operation) (ops : List Operation)
    → InFlight c u op
    → InFlight (turn c (edits ops)) u op
unfolding turn on_local_operations
turn-edits c u op ops f = record {
  user = edits-user c ops ∙ f.user;
  coherent = locals-IsCoherent c ops f.coherent;
  pending = edits-pending c op ops f.coherent f.pending;
}

remote-pending :
    (c : OtController) (op o : Operation)
    → IsCoherent c
    → c.pending_op ≡ some op
    → ((remote_operation c o).0.pending_op ≡ some (transform op o).0)
      × ((remote_operation c o).0.user_id ≡ c.user_id)
unfolding remote_operation against_pending
remote-pending c op o h e = ground arith

pub turn-hears :
    (c : OtController) (u : ℕ) (op past : Operation) (msg : OperationBroadcastMsg)
    → InFlight c u op
    → msg.ops ≡ entry_of past ∷ []
    → msg.user_id ≡ past.user_id
    → past.user_id ≢ u
    → Measured past
    → InFlight (turn c (hears msg)) u (transform op past).0
unfolding turn handle_broadcast remote_operations
turn-hears c u op past msg f ops author other m =
    let o = from_entry (entry_of past) past.user_id msg.revision in
    let foreign : (msg.user_id == c.user_id) ≡ false =
      ground (arith, author, f.user, ==_iff msg.user_id c.user_id) in
    let (moved, same) = remote-pending c op o f.coherent f.pending in
    rw (foreign, turn, handle_broadcast, ops, author, remote_operations)
      (record {
        user = same ∙ f.user;
        coherent = remotes-IsCoherent c (entry_of past ∷ []) past.user_id msg.revision f.coherent;
        pending = moved ∙ ap some (transform-from_entry op past msg.revision m);
      })

turns-InFlight :
    (c : OtController) (u : ℕ) (op : Operation) (turns : List Turn) (pasts : List Operation)
    → InFlight c u op
    → Carries u turns pasts
    → InFlight (foldl turn c turns) u (foldl (λ o past. (transform o past).0) op pasts)
turns-InFlight c u op [] [] f k = f
turns-InFlight c u op [] (past ∷ pasts) f k = absurd k
turns-InFlight c u op (edits ops ∷ turns) pasts f k =
    turns-InFlight (turn c (edits ops)) u op turns pasts (turn-edits c u op ops f) k
turns-InFlight c u op (hears msg ∷ turns) [] f k = absurd k
turns-InFlight c u op (hears msg ∷ turns) (past ∷ pasts) f k =
    turns-InFlight (turn c (hears msg)) u (transform op past).0 turns pasts
      (turn-hears c u op past msg f k.0 k.1 k.2 k.3) k.4

transform-Measured : (op past : Operation) → Measured op → Measured (transform op past).0
unfolding transform transform_insert_insert transform_insert_delete transform_delete_delete
transform-Measured op past m = elim (OpType-cases op.type) [
  | inl e ↦ elim (OpType-cases past.type) [
    | inl e' ↦ record {
      inserts = λ _. ground (arith, e, e', m.inserts e);
      deletes = λ d. ground (arith, e, e');
    }
    | inr e' ↦ record {
      inserts = λ _. ground (arith, e, e', m.inserts e);
      deletes = λ d. ground (arith, e, e');
    }
  ]
  | inr e ↦ elim (OpType-cases past.type) [
    | inl e' ↦ record {
      inserts = λ d. ground (arith, e, e');
      deletes = λ _. ground (arith, e, e', m.deletes e);
    }
    | inr e' ↦ record {
      inserts = λ d. ground (arith, e, e');
      deletes = λ _. ground (arith, e, e', m.deletes e);
    }
  ]
]

rebased-Measured :
    (op : Operation) (pasts : List Operation)
    → Measured op
    → Measured (foldl (λ o past. (transform o past).0) op pasts)
rebased-Measured op [] m = m
rebased-Measured op (past ∷ pasts) m =
    rebased-Measured (transform op past).0 pasts (transform-Measured op past m)

-- A client that has an operation in flight takes broadcasts and goes on editing. When it has taken
-- exactly the broadcasts of what the server applied since the operation's revision, all of it by
-- other users, then the operation in flight, as the client has moved it, is the one that the server
-- applies and acknowledges, and it has the form that the next broadcast needs.
pub turns-agree :
    (d : Document) (base : Bytes) (log : List Operation) (c : OtController) (u : ℕ) (op : Operation)
    (turns : List Turn)
    → Represents d base log
    → d.oldest_revision ≤ op.revision
    → length log + 1 < 2 ^ 32
    → InFlight c u op
    → Measured op
    → Carries u turns (drop op.revision log)
    → InFlight (foldl turn c turns) u (apply_with_ot d op).1.transformed_op
      × Measured (apply_with_ot d op).1.transformed_op
unfolding rebased
turns-agree d base log c u op turns r old room f m k =
    let (_, same, _) = apply_with_ot-Represents d base log op r old room in
    (
      subst (InFlight (foldl turn c turns) u) (sym same)
          (turns-InFlight c u op turns (drop op.revision log) f k),
      subst Measured (sym same) (rebased-Measured op (drop op.revision log) m),
    )

-- If the client then shows the server's document, with its own operations applied on top, it does
-- so again once the server has applied the operation and the client has taken the
-- acknowledgement: nothing changes in what the user sees.
pub turns_acknowledged-Shows :
    (d : Document) (base : Bytes) (log : List Operation) (c : OtController) (u : ℕ) (op : Operation)
    (turns : List Turn) (ack : OperationAckMsg)
    → Represents d base log
    → d.oldest_revision ≤ op.revision
    → length log + 1 < 2 ^ 32
    → InFlight c u op
    → Measured op
    → Carries u turns (drop op.revision log)
    → Shows (foldl turn c turns) d.content
    → Shows (handle_ack (foldl turn c turns) ack).0 (apply_with_ot d op).0.content
      × ((handle_ack (foldl turn c turns) ack).0.doc.content ≡ (foldl turn c turns).doc.content)
turns_acknowledged-Shows d base log c u op turns ack r old room f m k v =
    let (flight, _) = turns-agree d base log c u op turns r old room f m k in
    let c' = foldl turn c turns in
    let op' = (apply_with_ot d op).1.transformed_op in
    let (shows, same, _, _, _, _, _) =
      handle_ack-Shows c' d.content op' ack flight.coherent flight.pending v in
    let (accepted, _, _) = apply_with_ot-Represents d base log op r old room in
    (subst (Shows (handle_ack c' ack).0) (sym (accepted-content d op accepted)) shows, same)
