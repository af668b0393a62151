-- ===== src/Tests/Sessions.antt =====
-- A client session and a round of the cursor aggregator at concrete inputs (server/src).
use collaborative_text_edito.Common.{
  ℕ, suc, ◌*◌, ◌+◌, ◌^◌, ◌≡◌, inl, refl, arith, Bool, true, false, none, some, List, [], ◌∷◌, ◌++◌,
  map, Bytes, bytes, length,
}
use collaborative_text_edito.Common.Assoc.{nat_key, lookup}
use collaborative_text_edito.Core.Document
use collaborative_text_edito.Core.Access.{Role}
use collaborative_text_edito.Protocol.Messages.{CursorBroadcastMsg}
use collaborative_text_edito.Client.Network.{NetworkManager, SocketState, message_received}
use collaborative_text_edito.Client.Network.Stream.{stream, receive, joined}
use collaborative_text_edito.Client.RemoteCursors.{RemoteCursorsModel, apply_broadcast}
use collaborative_text_edito.Protocol.Frame.{encode_frame}
use collaborative_text_edito.Server.DocumentSession.{ConnectedUser}
use collaborative_text_edito.Server.DocumentManager.{
  CursorState, DocumentManager, get_session, get_cursors, update_cursor,
}
use collaborative_text_edito.Server.ClientSession.{opened, do_write, push, send, on_written}
use collaborative_text_edito.Server.ClientSession.Wire.{
  Wire, sends, wrote, Reach, first, later, IsOrdered,
}
use collaborative_text_edito.Server.ClientSession.Writing.{Reach-IsOrdered}
use collaborative_text_edito.Server.ClientSession.Received.{Reach-receive}
use collaborative_text_edito.Server.ClientSession.Reading.{reads, messages, messages-reads}
use collaborative_text_edito.Server.CursorAggregator.{round}
use collaborative_text_edito.Server.CursorAggregator.Shown.{shown}
use collaborative_text_edito.Server.CursorAggregator.Reached.{In, update_cursor-shown}

record Run : Type 0 where
  last : Wire
  reach : Reach last

-- Two sends, of which the second waits for the first.
both_sent : Run
unfolding send push on_written do_write encode_frame
both_sent = record {
  last = _;
  reach = later (later first (sends (bytes "{}"))) (sends (bytes "[1]"));
}

-- Both frames are written.
both_written : Run
unfolding both_sent send push on_written do_write encode_frame
both_written = record {
  last = _;
  reach =
      later (later both_sent.reach (wrote (encode_frame (bytes "{}")) refl))
        (wrote (encode_frame (bytes "[1]")) refl);
}

Reach-IsOrdered_example : IsOrdered both_sent.last
Reach-IsOrdered_example = Reach-IsOrdered both_sent.reach

one_waits :
    (both_sent.last.in_flight ≡ some (encode_frame (bytes "{}")))
    × (length both_sent.last.connection.write_queue ≡ 2)
unfolding both_sent send push on_written do_write encode_frame
one_waits = (refl, refl)

abbrev online : NetworkManager
online = record {
  socket = some SocketState.established;
  rx_buffer = [];
  user_id = 1;
  username = bytes "ann";
}

abbrev pieces : List Bytes
pieces = (0 ∷ 0 ∷ 0 ∷ 2 ∷ bytes "{}" ++ 0 ∷ 0 ∷ []) ∷ [] ∷ (0 ∷ 3 ∷ bytes "[1]") ∷ []

Reach-receive_example : (receive online pieces).1 ≡ map message_received both_written.last.accepted
unfolding both_sent both_written send push on_written do_write encode_frame joined
Reach-receive_example =
    Reach-receive online SocketState.established pieces both_written.reach refl refl
      (omega arith, (omega arith, tt)) refl refl refl

abbrev payloads : List Bytes
payloads = bytes "{}" ∷ bytes "[1]" ∷ []

messages-reads_example :
    messages (reads (suc (length (stream payloads))) opened (stream payloads)) ≡ payloads
messages-reads_example = messages-reads opened payloads (omega arith, (omega arith, tt))

-- One open document with a session at address 5.
abbrev manager : DocumentManager
manager = record {
  access = record { rights = (1 * 2 ^ 32 + 1, Role.owner) ∷ [] };
  store = Document.init 1 (bytes "notes") ∷ [];
  documents = (1, 0) ∷ [];
  titles = (1, bytes "notes") ∷ [];
  sessions = (1, 5) ∷ [];
  cursor_buffers = [];
  next_doc_id = 2;
}

abbrev bob : ConnectedUser
bob = record { user_id = 2; username = bytes "bob"; color = bytes "#00FF00"; session = 12 }

abbrev users : ℕ → List ConnectedUser
users session = bob ∷ []

abbrev everyone : ℕ → Bool
everyone k = true

abbrev no_color : Bytes → Bool
no_color c = false

abbrev state : CursorState
state = record {
  user_id = 1;
  username = bytes "ann";
  color = bytes "#FF0000";
  position = 3;
  selection_start = none;
  selection_end = none;
}

abbrev window : RemoteCursorsModel
window = record { cursors = []; local_user_id = 2 }

update_cursor-shown_example :
    (msg : CursorBroadcastMsg) × In
      (record { session = 12; payload = msg })
      (round users everyone (update_cursor manager 1 state))
    × (lookup 1 (apply_broadcast no_color window msg).0.cursors ≡ shown no_color (some state))
unfolding get_session get_cursors lookup
update_cursor-shown_example =
    update_cursor-shown no_color users everyone manager 1 5 state bob window tt refl (inl refl) refl
      (λ e. omega arith)
