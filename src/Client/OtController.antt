-- ===== src/Client/OtController.antt =====
-- client/include/client/ot_controller.h, client/src/ot_controller.cpp: what the client does with the
-- user's operations and with the server's messages. The user's id is that of the network manager; a
-- slot returns the new state, the messages that it sends and the signals that it emits.
pub mod Coherent
pub mod Rebase
use collaborative_text_edito.Common.{
  ℕ, Bool, true, false, ◌||◌, ◌==◌, Option, none, some, List, [], ◌∷◌, ◌++◌, Bytes, bytes, bytes_eq,
  if◌then◌else◌,
}
use collaborative_text_edito.Core.Operation.{OpType, Operation, is_noop, make_insert, make_delete}
use collaborative_text_edito.Core.Ot.{transform}
use collaborative_text_edito.Protocol.Messages.{
  OpEntry, OperationMsg, OperationAckMsg, OperationBroadcastMsg, ErrorMsg,
}
use collaborative_text_edito.Client.LocalDocument
use collaborative_text_edito.Client.LocalDocument.{LocalDocument}

pub data State : Type 0 where
  synchronized awaiting_ack awaiting_ack_with_buffer : State

pub record OtController : Type 0 where
  pub doc : LocalDocument
  pub doc_id : ℕ
  pub user_id : ℕ
  pub revision : ℕ
  pub state : State
  pub pending_op : Option Operation
  pub buffer : List Operation

pub data Effect : Type 0 where
  sent : OperationMsg → Effect
  revision_changed : ℕ → Effect
  remote_operation_applied : Operation → Effect
  state_changed : Bytes → Effect
  fatal_error : Bytes → Effect

unfoldable pub init : LocalDocument → ℕ → ℕ → ℕ → OtController
init doc doc_id user_id initial_revision = record {
  doc = doc;
  doc_id = doc_id;
  user_id = user_id;
  revision = initial_revision;
  state = State.synchronized;
  pending_op = none;
  buffer = [];
}

unfoldable pub to_entry : Operation → OpEntry
to_entry op = elim op.type [
  | OpType.insert ↦ record { op = bytes "insert"; pos = op.position; text = op.text; len = 0 }
  | OpType.delete ↦ record { op = bytes "delete"; pos = op.position; text = []; len = op.length }
]

unfoldable pub from_entry : OpEntry → ℕ → ℕ → Operation
unfolding make_insert make_delete bytes_eq
from_entry entry user_id revision =
    if bytes_eq entry.op (bytes "insert")
    then make_insert entry.pos entry.text user_id revision
    else make_delete entry.pos entry.len [] user_id revision

unfoldable pub send_op : OtController → Operation → Effect
unfolding to_entry
send_op c op = sent (record { doc_id = c.doc_id; revision = c.revision; ops = to_entry op ∷ [] })

unfoldable pub emit_state_label : State → Effect
emit_state_label State.synchronized = state_changed (bytes "SYN")
emit_state_label State.awaiting_ack = state_changed (bytes "ACK")
emit_state_label State.awaiting_ack_with_buffer = state_changed (bytes "BUF")

abbrev signed : OtController → Operation → Operation
signed c op = record op { user_id = c.user_id; revision = c.revision }

-- `doc_->apply(op)`
abbrev with_applied : OtController → Operation → OtController
with_applied c op = record c { doc = LocalDocument.apply c.doc op }

-- One round of the loop of `onLocalOperations` for an operation that is no no-op; the last part says
-- whether the state changed.
unfoldable pub local_edit : OtController → Operation → OtController × List Effect × Bool
local_edit c op = elim c.state [
  | State.synchronized ↦ (
    record (with_applied c op) { pending_op = some op; state = State.awaiting_ack },
    send_op c op ∷ [],
    true,
  )
  | State.awaiting_ack ↦ (
    record (with_applied c op) {
      buffer = c.buffer ++ op ∷ [];
      state = State.awaiting_ack_with_buffer;
    },
    [],
    true,
  )
  | State.awaiting_ack_with_buffer ↦
      (record (with_applied c op) { buffer = c.buffer ++ op ∷ [] }, [], false)
]

unfoldable pub local_operation : OtController → Operation → OtController × List Effect × Bool
unfolding local_edit
local_operation c op = if is_noop op then (c, [], false) else local_edit c (signed c op)

unfoldable pub local_operations : OtController → List Operation → OtController × List Effect × Bool
local_operations c [] = (c, [], false)
local_operations c (op ∷ ops) =
    let (c', effects, changed) = local_operation c op in
    let (c'', effects', changed') = local_operations c' ops in
    (c'', effects ++ effects', changed || changed')

unfoldable pub on_local_operations : OtController → List Operation → OtController × List Effect
unfolding local_operations local_operation
on_local_operations c ops =
    let (c', effects, changed) = local_operations c ops in
    (c', effects ++ (if changed then emit_state_label c'.state ∷ [] else []))

abbrev pub at_revision : OtController → ℕ → OtController
at_revision c revision = record c {
  revision = revision;
  doc = LocalDocument.set_revision c.doc revision;
}

-- `front` and `erase(begin)` of the buffer, and the message that follows. In
-- `AwaitingAckWithBuffer` the buffer is never empty.
pub next_pending : OtController → List Operation → OtController × List Effect
next_pending c [] = (c, [])
next_pending c (op ∷ []) =
    (record c { pending_op = some op; buffer = []; state = State.awaiting_ack }, send_op c op ∷ [])
next_pending c (op ∷ op' ∷ ops) =
    (record c { pending_op = some op; buffer = op' ∷ ops }, send_op c op ∷ [])

pub acknowledged : OtController → OtController × List Effect
unfolding next_pending
acknowledged c = elim c.state [
  | State.synchronized ↦ (c, [])
  | State.awaiting_ack ↦ (record c { pending_op = none; state = State.synchronized }, [])
  | State.awaiting_ack_with_buffer ↦ next_pending c c.buffer
]

unfoldable pub handle_ack : OtController → OperationAckMsg → OtController × List Effect
unfolding acknowledged
handle_ack c msg =
    let (c', effects) = acknowledged (at_revision c msg.revision) in
    (c', revision_changed msg.revision ∷ (effects ++ emit_state_label c'.state ∷ []))

-- The loop over the buffer: the buffered operations transformed, and what the server's operation
-- has become behind them.
pub transform_buffer : List Operation → Operation → List Operation × Operation
transform_buffer [] evolved = ([], evolved)
transform_buffer (buffered ∷ rest) evolved =
    let (buffered', next_evolved) = transform buffered evolved in
    let (rest', last) = transform_buffer rest next_evolved in (buffered' ∷ rest', last)

-- With an operation in flight; outside `Synchronized` there is one.
unfoldable pub against_pending :
    OtController → Option Operation → Operation → OtController × List Effect
unfolding transform_buffer
against_pending c none server_op = (c, [])
against_pending c (some pending) server_op =
    let (pending', evolved) = transform pending server_op in
    let (buffer', last) = transform_buffer c.buffer evolved in
    (
      record (with_applied c last) { pending_op = some pending'; buffer = buffer' },
      remote_operation_applied last ∷ [],
    )

unfoldable pub remote_operation : OtController → Operation → OtController × List Effect
unfolding against_pending
remote_operation c server_op = elim c.state [
  | State.synchronized ↦ (with_applied c server_op, remote_operation_applied server_op ∷ [])
  | State.awaiting_ack ↦ against_pending c c.pending_op server_op
  | State.awaiting_ack_with_buffer ↦ against_pending c c.pending_op server_op
]

unfoldable pub remote_operations : OtController → List OpEntry → ℕ → ℕ → OtController × List Effect
remote_operations c [] user_id revision = (c, [])
remote_operations c (entry ∷ entries) user_id revision =
    let (c', effects) = remote_operation c (from_entry entry user_id revision) in
    let (c'', effects') = remote_operations c' entries user_id revision in
    (c'', effects ++ effects')

unfoldable pub handle_broadcast : OtController → OperationBroadcastMsg → OtController × List Effect
unfolding remote_operations remote_operation
handle_broadcast c msg =
    if msg.user_id == c.user_id
    then (c, [])
    else (let (c', effects) = remote_operations c msg.ops msg.user_id msg.revision in
        (at_revision c' msg.revision, effects ++ revision_changed msg.revision ∷ []))

unfoldable pub handle_error : OtController → ErrorMsg → List Effect
unfolding bytes_eq
handle_error c msg =
    if bytes_eq msg.code (bytes "revision_too_old")
    then fatal_error (bytes "Document out of sync — reopen it.") ∷ []
    else []
