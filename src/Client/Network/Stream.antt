-- ===== src/Client/Network/Stream.antt =====
-- The byte stream of a connection (client/src/network_manager.cpp): however it is cut into pieces,
-- `onReadyRead` delivers the messages that were framed.
use collaborative_text_edito.Common.{
  ℕ, zero, suc, ◌+◌, ◌≤◌, ◌<◌, ◌≡◌, ◌⊎◌, inl, inr, refl, sym, ap, subst, ◌∙◌, arith, false,
  Bool-cases, some, List, [], ◌∷◌, ◌++◌, map, append-nil, append_assoc, Bytes, ltb, le→ltb, length,
  length-append, length-drop, take, drop,
}
use collaborative_text_edito.Protocol.Frame.{
  max_payload_size, encode_frame, decode_frame_header, header_of, decode-encode,
}
use collaborative_text_edito.Client.Network.{
  NetworkManager, Event, message_received, SocketState, incomplete, frame, front, Reading,
  read_frames, read_all, on_ready_read,
}

-- The frames of payloads, one behind the other.
unfoldable pub stream : List Bytes → Bytes
stream [] = []
stream (p ∷ ps) = encode_frame p ++ stream ps

abbrev pub Small : List Bytes → Type 0
Small [] = Unit {0}
Small (p ∷ ps) = (length p ≤ max_payload_size) × Small ps

-- Of two ways to cut a list, the longer front starts with the shorter one.
append_split :
    (us vs xs ys : Bytes)
    → xs ++ ys ≡ us ++ vs
    → length us ≤ length xs
    → (take (length us) xs ≡ us) × (drop (length us) xs ++ ys ≡ vs)
append_split [] vs xs ys e h = (refl, e)
append_split (u ∷ us) vs [] ys e h = absurd (omega arith)
append_split (u ∷ us) vs (x ∷ xs) ys e h = ground (arith, append_split us vs xs ys)

-- What stands at the front of a piece of a stream that begins with the frame of `p`.
abbrev Cut : Bytes → Bytes → Bytes → Bytes → Type 0
Cut b rest p s =
    ((front b ≡ incomplete) × (length b < 4 + length p))
    ⊎ ((b' : Bytes) × (front b ≡ frame p b') × (b' ++ rest ≡ s) × (length b' < length b))

-- The header is that of the frame, so the length that it gives is that of the payload.
header :
    (p : Bytes) (x0 x1 x2 x3 : ℕ) (body : Bytes)
    → length p ≤ max_payload_size
    → (x0 ∷ x1 ∷ x2 ∷ x3 ∷ body) ≡ encode_frame p
    → (decode_frame_header x0 x1 x2 x3 ≡ some (length p)) × (body ≡ p)
unfolding encode_frame
header p x0 x1 x2 x3 body h e =
    (ap header_of e ∙ decode-encode p (omega arith) ∙ rw (le→ltb _ _ h), ground arith)

front-Cut :
    (b rest p s : Bytes)
    → length p ≤ max_payload_size
    → b ++ rest ≡ encode_frame p ++ s
    → Cut b rest p s
unfolding front encode_frame
front-Cut [] rest p s h e = inl (refl, omega arith)
front-Cut (x0 ∷ []) rest p s h e = inl (refl, omega arith)
front-Cut (x0 ∷ x1 ∷ []) rest p s h e = inl (refl, omega arith)
front-Cut (x0 ∷ x1 ∷ x2 ∷ []) rest p s h e = inl (refl, omega arith)
front-Cut (x0 ∷ x1 ∷ x2 ∷ x3 ∷ body) rest p s h e =
    let len = (header p x0 x1 x2 x3 p h (ground arith)).0 in
    elim (Bool-cases (ltb (length body) (length p))) [
      | inl short ↦ inl (ground (arith, len), ground arith)
      | inr enough ↦
          let (taken, left) = append_split p s body rest (ground arith) (ground arith) in
          inr (
            drop (length p) body,
            ground (arith, len, taken),
            left,
            omega (arith, length-drop (length p) body),
          )
    ]

-- What the loop makes of a piece of a stream: payloads of the stream in their order, and a rest that
-- waits for more bytes.
record Reads (b rest : Bytes) (ps : List Bytes) (r : Reading) : Type 0 where
  read : List Bytes
  ahead : List Bytes
  parts : ps ≡ read ++ ahead
  emitted : r.payloads ≡ read
  kept : r.left ++ rest ≡ stream ahead
  stays : r.drops ≡ false
  waiting : rest ≡ [] → ahead ≡ []

no_stream : (b rest : Bytes) → b ++ rest ≡ [] → front b ≡ incomplete
unfolding front
no_stream [] rest e = refl
no_stream (x ∷ b) rest e = cc

stop :
    (fuel : ℕ) (b rest : Bytes) (ps : List Bytes)
    → front b ≡ incomplete
    → b ++ rest ≡ stream ps
    → (rest ≡ [] → ps ≡ [])
    → Reads b rest ps (read_frames (suc fuel) b)
unfolding read_frames
stop fuel b rest ps f e w =
    rw (f, read_frames)
      (record {
        read = [];
        ahead = ps;
        parts = refl;
        emitted = refl;
        kept = e;
        stays = refl;
        waiting = w;
      })

read-stream :
    (fuel : ℕ) (b rest : Bytes) (ps : List Bytes)
    → length b < fuel
    → Small ps
    → b ++ rest ≡ stream ps
    → Reads b rest ps (read_frames fuel b)
unfolding read_frames stream encode_frame
read-stream zero b rest ps h s e = absurd (omega arith)
read-stream (suc fuel) b rest [] h s e = stop fuel b rest [] (no_stream b rest e) e (λ _. refl)
read-stream (suc fuel) b rest (p ∷ ps) h s e = elim (front-Cut b rest p (stream ps) s.0 e) [
  | inl (f, short) ↦ stop fuel b rest (p ∷ ps) f e (λ nil. absurd (
      omega (
        arith,
        ap length e,
        length-append b rest,
        ap length nil,
        length-append (encode_frame p) (stream ps),
      )))
  | inr (b', f, e', shorter) ↦
      let more = read-stream fuel b' rest ps (omega arith) s.1 e' in
      rw (f, read_frames)
        (record {
          read = p ∷ more.read;
          ahead = more.ahead;
          parts = ap (◌∷◌ p) more.parts;
          emitted = ap (◌∷◌ p) more.emitted;
          kept = more.kept;
          stays = more.stays;
          waiting = more.waiting;
        })
]

unfoldable pub joined : List Bytes → Bytes
joined [] = []
joined (c ∷ cs) = c ++ joined cs

-- `onReadyRead`, once for each piece that arrives.
pub receive : NetworkManager → List Bytes → NetworkManager × List Event
receive nm [] = (nm, [])
receive nm (c ∷ cs) =
    let (nm', events) = on_ready_read nm c in
    let (nm'', events') = receive nm' cs in (nm'', events ++ events')

map-append_read :
    (qs rs : List Bytes)
    → map message_received (qs ++ rs) ≡ map message_received qs ++ map message_received rs
map-append_read [] rs = refl
map-append_read (q ∷ qs) rs = ap (◌∷◌ (message_received q)) (map-append_read qs rs)

-- One piece, where nothing is refused.
one_piece :
    (nm : NetworkManager) (state : SocketState) (c : Bytes)
    → nm.socket ≡ some state
    → (read_all (nm.rx_buffer ++ c)).drops ≡ false
    → on_ready_read nm c ≡ (
      record nm { rx_buffer = (read_all (nm.rx_buffer ++ c)).left },
      map message_received (read_all (nm.rx_buffer ++ c)).payloads,
    )
unfolding on_ready_read
one_piece nm state c e d =
    ground (arith, append-nil (map message_received (read_all (nm.rx_buffer ++ c)).payloads))

Small-after : (qs rs : List Bytes) → Small (qs ++ rs) → Small rs
Small-after [] rs s = s
Small-after (q ∷ qs) rs s = Small-after qs rs s.1

receive-rest :
    (nm : NetworkManager) (state : SocketState) (chunks ps : List Bytes)
    → nm.socket ≡ some state
    → Small ps
    → nm.rx_buffer ++ joined chunks ≡ stream ps
    → (joined chunks ≡ [] → ps ≡ [])
    → ((receive nm chunks).1 ≡ map message_received ps) × ((receive nm chunks).0.rx_buffer ≡ [])
unfolding receive joined stream
receive-rest nm state [] ps o s e w =
    let none_left = w refl in
    (
      sym (ap (map message_received) none_left),
      sym (append-nil nm.rx_buffer) ∙ e ∙ ap stream none_left,
    )
receive-rest nm state (c ∷ cs) ps o s e w =
    let r =
      read-stream (suc (length (nm.rx_buffer ++ c))) (nm.rx_buffer ++ c) (joined cs) ps
        (omega arith) s (append_assoc nm.rx_buffer c (joined cs) ∙ e) in
    let after : NetworkManager = record nm { rx_buffer = (read_all (nm.rx_buffer ++ c)).left } in
    let (events, empty) =
      receive-rest after state cs r.ahead o (Small-after r.read r.ahead (subst Small r.parts s))
        r.kept r.waiting in
    rw (one_piece nm state c o r.stays) (
      ap (◌++ (receive after cs).1) (ap (map message_received) r.emitted)
          ∙ ap (map message_received r.read ++◌) events
          ∙ sym (map-append_read r.read r.ahead)
          ∙ sym (ap (map message_received) r.parts),
      empty,
    )

stream_nil : (ps : List Bytes) → stream ps ≡ [] → ps ≡ []
unfolding stream encode_frame
stream_nil [] e = refl
stream_nil (p ∷ ps) e = cc

-- Payloads of at most 16 MiB each, framed and sent one behind the other, are delivered as messages
-- in their order, however the bytes are cut into pieces on the way, and nothing is left in the
-- buffer of a connection that began with an empty one.
pub receive-stream :
    (nm : NetworkManager) (state : SocketState) (chunks ps : List Bytes)
    → nm.socket ≡ some state
    → nm.rx_buffer ≡ []
    → Small ps
    → joined chunks ≡ stream ps
    → ((receive nm chunks).1 ≡ map message_received ps) × ((receive nm chunks).0.rx_buffer ≡ [])
receive-stream nm state chunks ps o b s e =
    receive-rest nm state chunks ps o s (ap (◌++ joined chunks) b ∙ e)
      (λ nil. stream_nil ps (sym e ∙ nil))
