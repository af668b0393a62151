-- ===== src/Server/ClientSession/Received.antt =====
-- What the client receives of what `ClientSession` (server/src/client_session.cpp) writes.
use collaborative_text_edito.Common.{
  ◌≡◌, refl, ap, sym, ◌∙◌, false, none, some, List, [], ◌∷◌, ◌++◌, map, append-nil, Bytes,
}
use collaborative_text_edito.Protocol.Frame.{encode_frame}
use collaborative_text_edito.Client.Network.{NetworkManager, SocketState, message_received}
use collaborative_text_edito.Client.Network.Stream.{stream, joined, receive, Small, receive-stream}
use collaborative_text_edito.Server.ClientSession.Wire.{Wire, Position, quiet, busy, stuck, Reach}
use collaborative_text_edito.Server.ClientSession.Writing.{Reach-IsOrdered}

joined-frames : (ps : List Bytes) → joined (map encode_frame ps) ≡ stream ps
unfolding joined stream
joined-frames [] = refl
joined-frames (p ∷ ps) = ap (encode_frame p ++◌) (joined-frames ps)

quiet-all :
    (w : Wire)
    → Position w.connection w.in_flight
    → w.connection.disconnected ≡ false
    → w.in_flight ≡ none
    → w.connection.write_queue ≡ []
quiet-all w (quiet q x e) d f = q
quiet-all w (busy front rest q x e) d f = cc
quiet-all w (stuck front rest q x k e) d f = cc

-- A connection that is there and writes nothing has written everything.
pub Reach-written :
    {w : Wire}
    → Reach w
    → w.connection.disconnected ≡ false
    → w.in_flight ≡ none
    → w.written ≡ map encode_frame w.accepted
Reach-written {w} r d f =
    let o = Reach-IsOrdered r in
    sym (append-nil w.written)
    ∙ sym (ap (w.written ++◌) (quiet-all w o.position d f))
    ∙ sym o.queued

-- The bytes that were written, however they are cut on the way, make the client's `NetworkManager`
-- deliver the accepted payloads, each once and in the order of the sends: if the connection is there
-- and no write is under way, the payloads have at most 16 MiB, and the client's buffer was empty.
pub Reach-receive :
    {w : Wire} (nm : NetworkManager) (state : SocketState) (chunks : List Bytes)
    → Reach w
    → w.connection.disconnected ≡ false
    → w.in_flight ≡ none
    → Small w.accepted
    → nm.socket ≡ some state
    → nm.rx_buffer ≡ []
    → joined chunks ≡ joined w.written
    → (receive nm chunks).1 ≡ map message_received w.accepted
Reach-receive {w} nm state chunks r d f small open_socket empty e =
    (receive-stream nm state chunks w.accepted open_socket empty small
      (e ∙ ap joined (Reach-written r d f) ∙ joined-frames w.accepted)).0
