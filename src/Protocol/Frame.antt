-- ===== src/Protocol/Frame.antt =====
-- The framing of messages (`encode_frame` and `decode_frame_header` of protocol/src/protocol.cpp,
-- `MAX_PAYLOAD_SIZE` of protocol/include/collab_protocol/protocol.h).
use collaborative_text_edito.Common.{
  ℕ, ◌+◌, ◌*◌, ◌/◌, ◌%◌, ◌^◌, ◌<◌, ◌≡◌, arith, Option, none, some, ◌∷◌, Bytes, ltb, if◌then◌else◌,
  length, u32,
}

abbrev pub max_payload_size : ℕ
max_payload_size = 16 * 1024 * 1024

-- A shift to the right is a division; `& 0xFF` and the cast to uint8_t are a remainder.
unfoldable pub encode_frame : Bytes → Bytes
encode_frame payload =
    let len = u32 (length payload) in
    (len / 2 ^ 24 % 256) ∷ (len / 2 ^ 16 % 256) ∷ (len / 2 ^ 8 % 256) ∷ (len % 256) ∷ payload

-- On `data[0]` to `data[3]`: the bytes do not overlap, so the `or` is a sum.
unfoldable pub decode_frame_header : ℕ → ℕ → ℕ → ℕ → Option ℕ
decode_frame_header b0 b1 b2 b3 =
    let len = b0 * 2 ^ 24 + b1 * 2 ^ 16 + b2 * 2 ^ 8 + b3 in
    if ltb max_payload_size len then none else some len

abbrev pub header_of : Bytes → Option ℕ
header_of (b0 ∷ b1 ∷ b2 ∷ b3 ∷ rest) = decode_frame_header b0 b1 b2 b3
header_of _ = none

-- The header of a frame of a payload below 2 ^ 32 bytes is read back as the payload's length, if
-- that is at most 16 MiB; a longer payload is framed too, and its frame is refused.
pub decode-encode :
    (payload : Bytes)
    → length payload < 2 ^ 32
    → header_of (encode_frame payload)
      ≡ (if ltb max_payload_size (length payload) then none else some (length payload))
unfolding encode_frame decode_frame_header
decode-encode payload h = ground arith
