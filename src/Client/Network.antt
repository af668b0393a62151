-- ===== src/Client/Network.antt =====
-- client/include/client/network_manager.h, client/src/network_manager.cpp: the connection to the
-- server. Each slot is a function of the state and returns the signals that it emits and the bytes
-- that it writes. The socket is Qt's: of it the state here holds only whether it is there and
-- whether it is connected, and the bytes that it delivers are an argument.
pub mod Stream
use collaborative_text_edito.Common.{
  ℕ, zero, suc, ◌+◌, ◌<◌, Bool, true, false, Option, none, some, List, [], ◌∷◌, ◌++◌, map, Bytes,
  bytes, ltb, if◌then◌else◌, length, take, drop,
}
use collaborative_text_edito.Protocol.Frame.{encode_frame, decode_frame_header}

-- `QAbstractSocket::SocketState`, as far as it is told apart.
pub data SocketState : Type 0 where
  unconnected busy established : SocketState

pub data Event : Type 0 where
  connected : Event
  disconnected : Bytes → Event
  error_occurred : Bytes → Event
  message_received : Bytes → Event
  written : Bytes → Event
  connecting : Bytes → ℕ → Event
  closing : Event

pub record NetworkManager : Type 0 where
  pub socket : Option SocketState
  pub rx_buffer : Bytes
  pub user_id : ℕ
  pub username : Bytes

unfoldable pub set_identity : NetworkManager → ℕ → Bytes → NetworkManager
set_identity nm user_id username = record nm { user_id = user_id; username = username }

abbrev ensured : Option SocketState → SocketState
ensured none = SocketState.unconnected
ensured (some state) = state

-- `ensureSocket` makes an unconnected socket where there is none; what the socket's state becomes
-- is up to Qt.
unfoldable pub ensure_socket : NetworkManager → NetworkManager
ensure_socket nm = record nm { socket = some (ensured nm.socket) }

unfoldable pub connect_to_host : NetworkManager → Bytes → ℕ → NetworkManager × List Event
unfolding ensure_socket
connect_to_host nm host port =
    (record (ensure_socket nm) { rx_buffer = [] }, connecting host port ∷ [])

unfoldable pub disconnect_from_host : NetworkManager → List Event
disconnect_from_host nm = elim nm.socket [
  | none ↦ []
  | some SocketState.unconnected ↦ []
  | some SocketState.busy ↦ closing ∷ []
  | some SocketState.established ↦ closing ∷ []
]

unfoldable pub send_frame : NetworkManager → Bytes → List Event
send_frame nm payload = elim nm.socket [
  | none ↦ error_occurred (bytes "Not connected") ∷ []
  | some SocketState.unconnected ↦ error_occurred (bytes "Not connected") ∷ []
  | some SocketState.busy ↦ error_occurred (bytes "Not connected") ∷ []
  | some SocketState.established ↦ written (encode_frame payload) ∷ []
]

unfoldable pub on_socket_connected : NetworkManager → NetworkManager × List Event
on_socket_connected nm = (nm, connected ∷ [])

unfoldable pub on_socket_disconnected : NetworkManager → NetworkManager × List Event
on_socket_disconnected nm =
    (record nm { rx_buffer = [] }, disconnected (bytes "Socket closed") ∷ [])

-- `errorString()` is an argument.
unfoldable pub on_socket_error : NetworkManager → Bytes → List Event
on_socket_error nm error_string = elim nm.socket [
  | none ↦ []
  | some state ↦ error_occurred error_string ∷ []
]

-- What one round of the loop of `onReadyRead` finds at the front of the buffer.
pub data Front : Type 0 where
  incomplete oversized : Front
  frame : (payload rest : Bytes) → Front

pub front : Bytes → Front
front (b0 ∷ b1 ∷ b2 ∷ b3 ∷ body) = elim (decode_frame_header b0 b1 b2 b3) [
  | none ↦ oversized
  | some len ↦ if ltb (length body) len then incomplete else frame (take len body) (drop len body)
]
front _ = incomplete

-- What the loop leaves in the buffer, the payloads that it takes out, and whether it drops the
-- connection. Each round but the last takes four bytes at least, so the fuel bounds the rounds.
pub record Reading : Type 0 where
  pub left : Bytes
  pub payloads : List Bytes
  pub drops : Bool

pub read_frames : ℕ → Bytes → Reading
read_frames zero buffer = record { left = buffer; payloads = []; drops = false }
read_frames (suc fuel) buffer = elim (front buffer) [
  | incomplete ↦ record { left = buffer; payloads = []; drops = false }
  | oversized ↦ record { left = buffer; payloads = []; drops = true }
  | frame payload rest ↦
      let more = read_frames fuel rest in record more { payloads = payload ∷ more.payloads }
]

abbrev read_all : Bytes → Reading
read_all buffer = read_frames (suc (length buffer)) buffer

unfoldable pub on_ready_read : NetworkManager → Bytes → NetworkManager × List Event
unfolding front read_frames disconnect_from_host
on_ready_read nm incoming = elim nm.socket [
  | none ↦ (nm, [])
  | some state ↦
      let reading = read_all (nm.rx_buffer ++ incoming) in
      (
        record nm { rx_buffer = reading.left },
        map message_received reading.payloads
            ++ (if reading.drops
                then error_occurred (bytes "Frame exceeds 16 MiB limit") ∷ disconnect_from_host nm
                else []),
      )
]
