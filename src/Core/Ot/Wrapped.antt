-- ===== src/Core/Ot/Wrapped.antt =====
-- Erasures whose position has wrapped below 0 (core/src/ot.cpp).
use collaborative_text_edito.Common.{
  ℕ, ◌+◌, ◌-◌, ◌^◌, ◌≤◌, ◌<◌, ◌≡◌, ap, ◌∙◌, arith, Bytes, length, take, append-nil, drop_all,
}
use collaborative_text_edito.Core.Operation.{OpType, Operation}
use collaborative_text_edito.Core.Ot.{erase_at, apply, transform}
use collaborative_text_edito.Core.Ot.Apply.{IsWellFormed, apply-delete}

-- An erasure of nothing within the range that `a` erases, at less than `a.length` from the start, is
-- moved to a position that has wrapped.
pub transform-nothing_wraps :
    (a b : Operation)
    → IsWellFormed a
    → a.type ≡ OpType.delete
    → b.type ≡ OpType.delete
    → b.length ≡ 0
    → a.position < b.position
    → b.position < a.position + a.length
    → b.position < a.length
    → ((transform a b).1.position ≡ b.position + 2 ^ 32 - a.length)
      × (2 ^ 31 ≤ (transform a b).1.position)
      × ((transform a b).1.length ≡ 0)
unfolding transform
transform-nothing_wraps a b w ea eb z h k m = ground arith

erase_at_rest : (d : Bytes) (p n : ℕ) → length d ≤ p + n → erase_at d p n ≡ take p d
unfolding erase_at
erase_at_rest d p n h = rw (drop_all (p + n) d h) (append-nil (take p d))

-- What an erasure becomes against an erasure of nothing at a wrapped position.
transform-wrapped :
    (a b : Operation)
    → IsWellFormed a
    → a.type ≡ OpType.delete
    → b.type ≡ OpType.delete
    → b.length ≡ 0
    → a.position + a.length + 2 ^ 31 < b.position
    → b.position < 2 ^ 32
    → ((transform a b).0.type ≡ OpType.delete)
      × ((transform a b).0.position ≡ a.position)
      × ((transform a b).0.length ≡ b.position - a.position)
unfolding transform
transform-wrapped a b w ea eb z h k = ground arith

-- Against an erasure of nothing at a 32-bit position that is more than 2 ^ 31 behind the end of an
-- erasure within 31 bits, the latter is made to erase the whole rest of a document of less than 2 ^ 31
-- bytes.
pub transform-wrapped_erases_rest :
    (d : Bytes) (a b : Operation)
    → IsWellFormed a
    → a.type ≡ OpType.delete
    → b.type ≡ OpType.delete
    → b.length ≡ 0
    → a.position + a.length + 2 ^ 31 < b.position
    → b.position < 2 ^ 32
    → length d < 2 ^ 31
    → apply d (transform a b).0 ≡ take a.position d
transform-wrapped_erases_rest d a b w ea eb z h k small =
    let (kind, at, len) = transform-wrapped a b w ea eb z h k in
    apply-delete d (transform a b).0 kind (omega arith)
    ∙ ap (λ (p : ℕ). erase_at d p (transform a b).0.length) at
    ∙ erase_at_rest d a.position (transform a b).0.length (omega arith)
