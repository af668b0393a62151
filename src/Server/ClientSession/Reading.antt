-- ===== src/Server/ClientSession/Reading.antt =====
-- What `ClientSession` (server/src/client_session.cpp) makes of the bytes of its client: `async_read`
-- waits until a buffer is full, so a header is four bytes, and a body as many as the header says.
use collaborative_text_edito.Common.{
  ℕ, zero, suc, ◌≤◌, ◌≡◌, refl, ap, ◌∙◌, arith, false, none, some, List, [], ◌∷◌, ◌++◌, Bytes, take,
  drop, take-append, drop-append, length, length-append, ltb, le→ltb, if◌then◌else◌,
}
use collaborative_text_edito.Protocol.Frame.{
  encode_frame, header_of, max_payload_size, decode-encode,
}
use collaborative_text_edito.Client.Network.Stream.{stream, Small}
use collaborative_text_edito.Server.ClientSession.{
  Connection, Effect, reads_body, message, on_header, on_body,
}

-- What follows the header: the body, if the handler asks for one and its bytes have come, and then
-- what `next` makes of the bytes behind it.
abbrev body_of : (next : Bytes → List Effect) → Connection × List Effect → Bytes → List Effect
body_of next (c, reads_body n ∷ es) incoming =
    reads_body n
    ∷ (if ltb (length incoming) n
        then []
        else (on_body c false (take n incoming)).1 ++ next (drop n incoming))
body_of next (c, es) incoming = es

-- What the handlers do with the bytes that have come. A round takes four bytes at least, so that one
-- round more than there are bytes is enough.
unfoldable pub reads : ℕ → Connection → Bytes → List Effect
unfolding on_header on_body
reads zero c incoming = []
reads (suc fuel) c incoming =
    let next = reads fuel c in
    if ltb (length incoming) 4
    then []
    else body_of next (on_header c false (take 4 incoming)) (drop 4 incoming)

abbrev pub messages : List Effect → List Bytes
messages [] = []
messages (message p ∷ es) = p ∷ messages es
messages (_ ∷ es) = messages es

header_back :
    (p : Bytes)
    → length p ≤ max_payload_size
    → header_of (take 4 (encode_frame p)) ≡ some (length p)
unfolding encode_frame
header_back p h =
    decode-encode p (omega arith)
    ∙ ap (λ b. if b then none else some (length p)) (le→ltb max_payload_size (length p) h)

header_small :
    (c : Connection) (p rest : Bytes)
    → length p ≤ max_payload_size
    → on_header c false (take 4 (encode_frame p ++ rest)) ≡ (c, reads_body (length p) ∷ [])
unfolding encode_frame on_header
header_small c p rest h = rw (header_back p h, on_header) refl

-- The bytes behind the header.
body_behind : (p rest : Bytes) → drop 4 (encode_frame p ++ rest) ≡ p ++ rest
unfolding encode_frame
body_behind p rest = refl

long_enough : (p rest : Bytes) → ltb (length (encode_frame p ++ rest)) 4 ≡ false
unfolding encode_frame
long_enough p rest = ground arith

one_frame :
    (fuel : ℕ) (c : Connection) (p rest : Bytes)
    → length p ≤ max_payload_size
    → messages (reads (suc fuel) c (encode_frame p ++ rest)) ≡ p ∷ messages (reads fuel c rest)
unfolding reads on_body
one_frame fuel c p rest h =
    rw (long_enough p rest, reads)
      (rw (header_small c p rest h) (
        rw (body_behind p rest) (
          rw (le→ltb (length (p ++ rest)) (length p) (omega (arith, length-append p rest)))
            (rw (take-append p rest) (rw (drop-append p rest) refl)))))

messages-reads_fuel :
    (fuel : ℕ) (c : Connection) (ps : List Bytes)
    → Small ps
    → length ps ≤ fuel
    → messages (reads fuel c (stream ps)) ≡ ps
unfolding stream
messages-reads_fuel zero c [] s h = unfold reads in refl
messages-reads_fuel (suc fuel) c [] s h = unfold reads in refl
messages-reads_fuel zero c (p ∷ ps) s h = absurd (omega arith)
messages-reads_fuel (suc fuel) c (p ∷ ps) s h =
    one_frame fuel c p (stream ps) s.0 ∙ ap (p ∷◌) (messages-reads_fuel fuel c ps s.1 (omega arith))

length-stream : (ps : List Bytes) → length ps ≤ length (stream ps)
unfolding stream encode_frame
length-stream [] = omega arith
length-stream (p ∷ ps) = omega (arith, length-stream ps, length-append p (stream ps))

-- Of payloads of at most 16 MiB each, which the client frames and sends one behind the other, the
-- session makes one call of `on_message_` each, with the payload, in their order.
pub messages-reads :
    (c : Connection) (ps : List Bytes)
    → Small ps
    → messages (reads (suc (length (stream ps))) c (stream ps)) ≡ ps
messages-reads c ps s =
    messages-reads_fuel (suc (length (stream ps))) c ps s (omega (arith, length-stream ps))
