-- ===== src/Client/OtController/Coherent.antt =====
-- The state of the controller (client/src/ot_controller.cpp) says what is in flight and what waits.
use collaborative_text_edito.Common.{
  ℕ, ◌≡◌, ◌≢◌, ◌↔◌, refl, arith, Option, none, Option-cases, Bool-cases, inl, inr, ◌==◌, List, [],
  ◌∷◌, ◌++◌,
}
use collaborative_text_edito.Core.Operation.{Operation}
use collaborative_text_edito.Core.Ot.{transform}
use collaborative_text_edito.Protocol.Messages.{OperationAckMsg, OperationBroadcastMsg, OpEntry}
use collaborative_text_edito.Client.LocalDocument.{LocalDocument}
use collaborative_text_edito.Client.OtController.{
  State, OtController, init, local_edit, local_operation, local_operations, on_local_operations,
  next_pending, acknowledged, handle_ack, transform_buffer, against_pending, from_entry,
  remote_operation, remote_operations, handle_broadcast,
}

-- What is in flight and what waits, as the state has it.
abbrev pub Agrees : State → Option Operation → List Operation → Type 0
Agrees State.synchronized pending buffer = (pending ≡ none) × (buffer ≡ [])
Agrees State.awaiting_ack pending buffer = (pending ≢ none) × (buffer ≡ [])
Agrees State.awaiting_ack_with_buffer pending buffer = (pending ≢ none) × (buffer ≢ [])

abbrev pub IsCoherent : OtController → Type 0
IsCoherent c = Agrees c.state c.pending_op c.buffer

pub init-IsCoherent :
    (doc : LocalDocument) (doc_id user_id revision : ℕ)
    → IsCoherent (init doc doc_id user_id revision)
unfolding init
init-IsCoherent doc doc_id user_id revision = (refl, refl)

append_ne : (xs : List Operation) (x : Operation) → xs ++ x ∷ [] ≢ []
append_ne [] x e = cc
append_ne (y ∷ ys) x e = cc

pub local-IsCoherent :
    (c : OtController) (op : Operation) → IsCoherent c → IsCoherent (local_operation c op).0
unfolding local_operation local_edit
local-IsCoherent c op h = ground (arith, append_ne c.buffer)

pub locals-IsCoherent :
    (c : OtController) (ops : List Operation) → IsCoherent c → IsCoherent (local_operations c ops).0
unfolding local_operations
locals-IsCoherent c [] h = h
locals-IsCoherent c (op ∷ ops) h =
    locals-IsCoherent (local_operation c op).0 ops (local-IsCoherent c op h)

next-IsCoherent :
    (c : OtController) (ops : List Operation)
    → ops ≢ []
    → c.state ≡ State.awaiting_ack_with_buffer
    → IsCoherent (next_pending c ops).0
unfolding next_pending
next-IsCoherent c [] n e = absurd (n refl)
next-IsCoherent c (op ∷ []) n e = ground arith
next-IsCoherent c (op ∷ op' ∷ ops) n e = ground arith

acknowledged-IsCoherent : (c : OtController) → IsCoherent c → IsCoherent (acknowledged c).0
unfolding acknowledged
acknowledged-IsCoherent c h = ground (arith, next-IsCoherent c c.buffer)

transform_buffer-nil :
    (ops : List Operation) (o : Operation) → ((transform_buffer ops o).0 ≡ []) ↔ (ops ≡ [])
unfolding transform_buffer
transform_buffer-nil [] o = (λ e. refl, λ e. refl)
transform_buffer-nil (op ∷ ops) o = (λ e. cc, λ e. cc)

remote-IsCoherent :
    (c : OtController) (o : Operation) → IsCoherent c → IsCoherent (remote_operation c o).0
unfolding remote_operation against_pending
remote-IsCoherent c o h = elim (Option-cases c.pending_op) [
  | inl e ↦ ground arith
  | inr (p, e) ↦ ground (arith, transform_buffer-nil c.buffer (transform p o).1)
]

pub remotes-IsCoherent :
    (c : OtController) (entries : List OpEntry) (user_id revision : ℕ)
    → IsCoherent c
    → IsCoherent (remote_operations c entries user_id revision).0
unfolding remote_operations
remotes-IsCoherent c [] user_id revision h = h
remotes-IsCoherent c (entry ∷ entries) user_id revision h =
    remotes-IsCoherent (remote_operation c (from_entry entry user_id revision)).0 entries user_id
      revision (remote-IsCoherent c (from_entry entry user_id revision) h)

-- Every slot keeps the state coherent: `Synchronized` with nothing in flight and nothing waiting,
-- `AwaitingAck` with an operation in flight and nothing waiting, `AwaitingAckWithBuffer` with both.
pub slots-IsCoherent :
    (c : OtController) (ops : List Operation) (ack : OperationAckMsg) (msg : OperationBroadcastMsg)
    → IsCoherent c
    → IsCoherent (on_local_operations c ops).0
      × IsCoherent (handle_ack c ack).0
      × IsCoherent (handle_broadcast c msg).0
unfolding on_local_operations handle_ack handle_broadcast
slots-IsCoherent c ops ack msg h = (
  locals-IsCoherent c ops h,
  acknowledged-IsCoherent _ h,
  elim (Bool-cases (msg.user_id == c.user_id)) [
    | inl own ↦ rw own h
    | inr other ↦ rw other (remotes-IsCoherent c msg.ops msg.user_id msg.revision h)
  ],
)
