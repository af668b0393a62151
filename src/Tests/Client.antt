-- ===== src/Tests/Client.antt =====
-- The client at concrete inputs (client/src).
use collaborative_text_edito.Common.{
  ◌≡◌, refl, arith, some, none, List, [], ◌∷◌, ◌++◌, map, Bytes, bytes, length, get_elem?,
}
use collaborative_text_edito.Core.Operation.{OpType, Operation}
use collaborative_text_edito.Core.Ot.{apply}
use collaborative_text_edito.Core.Ot.Apply.{IsWellFormed}
use collaborative_text_edito.Core.Ot.Converge
use collaborative_text_edito.Protocol.Frame.{encode_frame}
use collaborative_text_edito.Protocol.Messages.{OperationAckMsg, OperationBroadcastMsg}
use collaborative_text_edito.Client.Network.{NetworkManager, SocketState, message_received}
use collaborative_text_edito.Client.Network.Stream.{stream, joined, receive, receive-stream}
use collaborative_text_edito.Client.CursorTranslator.{translate}
use collaborative_text_edito.Client.CursorTranslator.Anchors
use collaborative_text_edito.Client.CursorTranslator.Anchors.{
  anchor, translate-anchors, translate-le-length, translate_mono,
}
use collaborative_text_edito.Common.Assoc.{nat_key, lookup}
use collaborative_text_edito.Protocol.Messages.{CursorBroadcastMsg}
use collaborative_text_edito.Client.RemoteCursors.{RemoteCursorsModel, apply_remote_operation}
use collaborative_text_edito.Client.RemoteCursors.Within.{Within, apply_remote_operation-Within}
use collaborative_text_edito.Client.OtController
use collaborative_text_edito.Client.OtController.{
  OtController, on_local_operations, local_operation, local_operations, local_edit,
  remote_operation, handle_ack, handle_broadcast, send_op, at_revision, emit_state_label,
  revision_changed,
}
use collaborative_text_edito.Client.OtController.Coherent.{IsCoherent, slots-IsCoherent}
use collaborative_text_edito.Client.OtController.Rebase.{
  outstanding, Shows, remote_operation-Shows, local_operation-Shows, handle_ack-Shows,
}

abbrev online : NetworkManager
online = record {
  socket = some SocketState.established;
  rx_buffer = [];
  user_id = 1;
  username = bytes "ann";
}

-- Two messages, cut within the header of the second.
abbrev payloads : List Bytes
payloads = bytes "{}" ∷ bytes "[1]" ∷ []

abbrev pieces : List Bytes
pieces = (0 ∷ 0 ∷ 0 ∷ 2 ∷ bytes "{}" ++ 0 ∷ 0 ∷ []) ∷ [] ∷ (0 ∷ 3 ∷ bytes "[1]") ∷ []

pieces_join : joined pieces ≡ stream payloads
unfolding joined stream encode_frame
pieces_join = refl

receive-stream_example :
    ((receive online pieces).1 ≡ map message_received payloads)
    × ((receive online pieces).0.rx_buffer ≡ [])
receive-stream_example =
    receive-stream online SocketState.established pieces payloads refl refl
      (omega arith, (omega arith, tt)) pieces_join

abbrev text : Bytes
text = bytes "hello world"

abbrev cut : Operation
cut = record {
  type = OpType.delete;
  position = 4;
  text = [];
  length = 4;
  user_id = 2;
  revision = 0;
}

cut-IsWellFormed : IsWellFormed cut
cut-IsWellFormed = record { in_range = omega arith; measured = λ e. cc }

cut-Fits : Anchors.Fits text cut
cut-Fits = record { well = cut-IsWellFormed; room = omega arith; inside = λ e. cc }

translate-anchors_example :
    get_elem? (apply text cut) (translate 5 cut) ≡ get_elem? text (anchor 5 cut)
translate-anchors_example = translate-anchors text cut 5 cut-Fits (omega arith)

abbrev sea : Operation
sea = record {
  type = OpType.insert;
  position = 6;
  text = bytes "sea ";
  length = 4;
  user_id = 1;
  revision = 0;
}

-- The user has the insertion in flight.
abbrev editing : OtController
editing = record {
  doc = record { content = bytes "hello sea world"; revision = 3 };
  doc_id = 7;
  user_id = 1;
  revision = 3;
  state = OtController.State.awaiting_ack;
  pending_op = some sea;
  buffer = [];
}

editing-IsCoherent : IsCoherent editing
editing-IsCoherent = (λ e. cc, refl)

editing-Shows : Shows editing text
unfolding apply
editing-Shows = record { shown = refl }

sea-cut-Fits : Converge.Fits text sea cut
sea-cut-Fits = record {
  well = record { in_range = omega arith; measured = λ e. refl };
  well' = cut-IsWellFormed;
  room = omega arith;
  inside = λ e. omega arith;
  inside' = λ e. cc;
}

remote_operation-Shows_example : Shows (remote_operation editing cut).0 (apply text cut)
remote_operation-Shows_example =
    remote_operation-Shows editing text cut editing-IsCoherent editing-Shows
      (sea-cut-Fits, (λ e e'. cc), tt)

local_operation-Shows_example :
    Shows (local_operation editing sea).0 text
    × (outstanding (local_operation editing sea).0
        ≡ outstanding editing ++ record sea { user_id = 1; revision = 3 } ∷ [])
local_operation-Shows_example =
    local_operation-Shows editing text sea editing-IsCoherent refl editing-Shows

abbrev ack : OperationAckMsg
ack = record { doc_id = 7; revision = 4 }

-- The same with an edit that waits.
abbrev late : Operation
late = record {
  type = OpType.insert;
  position = 0;
  text = bytes "x";
  length = 1;
  user_id = 1;
  revision = 3;
}

abbrev waiting : OtController
waiting = record editing {
  doc = record { content = bytes "xhello sea world"; revision = 3 };
  state = OtController.State.awaiting_ack_with_buffer;
  buffer = late ∷ [];
}

waiting-Shows : Shows waiting text
unfolding apply
waiting-Shows = record { shown = refl }

handle_ack-Shows_example :
    Shows (handle_ack waiting ack).0 (apply text sea)
    × ((handle_ack waiting ack).0.doc.content ≡ bytes "xhello sea world")
    × (outstanding (handle_ack waiting ack).0 ≡ late ∷ [])
    × ((handle_ack waiting ack).0.revision ≡ 4)
    × ((handle_ack waiting ack).0.pending_op ≡ some late)
    × ((handle_ack waiting ack).0.buffer ≡ [])
    × ((handle_ack waiting ack).1
        ≡ revision_changed 4
          ∷ send_op (at_revision waiting 4) late
          ∷ emit_state_label (handle_ack waiting ack).0.state
          ∷ [])
handle_ack-Shows_example =
    handle_ack-Shows waiting text sea ack ((λ e. cc), (λ e. cc)) refl waiting-Shows

abbrev broadcast_msg : OperationBroadcastMsg
broadcast_msg = record {
  doc_id = 7;
  user_id = 2;
  username = bytes "bob";
  revision = 4;
  ops = record { op = bytes "delete"; pos = 4; text = []; len = 4 } ∷ [];
}

slots-IsCoherent_example :
    IsCoherent (on_local_operations editing (sea ∷ [])).0
    × IsCoherent (handle_ack editing ack).0
    × IsCoherent (handle_broadcast editing broadcast_msg).0
slots-IsCoherent_example = slots-IsCoherent editing (sea ∷ []) ack broadcast_msg editing-IsCoherent

-- Carl's cursor, with a selection to the end of the text.
abbrev others : RemoteCursorsModel
others = record {
  cursors =
      (
        3,
        record {
          user_id = 3;
          username = bytes "carl";
          color = bytes "#0000FF";
          position = 6;
          selection_start = some 6;
          selection_end = some 11;
        },
      )
      ∷ [];
  local_user_id = 1;
}

apply_remote_operation-Within_example :
    Within (length (apply text cut)) (apply_remote_operation others cut).0.cursors
apply_remote_operation-Within_example =
    apply_remote_operation-Within text cut others cut-Fits
      ((omega arith, omega arith, omega arith), tt)

abbrev cursor_news : CursorBroadcastMsg
cursor_news = record {
  doc_id = 7;
  cursors =
      record {
        user_id = 1;
        username = bytes "ann";
        color = bytes "red";
        position = 0;
        selection_start = none;
        selection_end = none;
      }
      ∷ [];
}

not_own : lookup 1 others.cursors ≡ none
unfolding lookup
not_own = refl
