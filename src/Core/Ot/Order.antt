-- ===== src/Core/Ot/Order.antt =====
-- `transform` (core/src/ot.cpp) treats its two operations alike, and keeps their kind, their author
-- and their revision.
use collaborative_text_edito.Common.{◌+◌, ◌^◌, ◌<◌, ◌≡◌, arith}
use collaborative_text_edito.Core.Operation.{OpType, Operation}
use collaborative_text_edito.Core.Ot.{swap, transform}
use collaborative_text_edito.Core.Ot.Apply.{IsWellFormed}

-- The result does not depend on which of the two operations is called the first.
pub transform-swap : (a b : Operation) → transform b a ≡ swap (transform a b)
unfolding transform
transform-swap a b = ground arith

-- Both results keep the type, the user and the revision of the operation that they come from.
pub transform-keeps :
    (a b : Operation)
    → ((transform a b).0.type ≡ a.type)
      × ((transform a b).0.user_id ≡ a.user_id)
      × ((transform a b).0.revision ≡ a.revision)
      × ((transform a b).1.type ≡ b.type)
      × ((transform a b).1.user_id ≡ b.user_id)
      × ((transform a b).1.revision ≡ b.revision)
unfolding transform
transform-keeps a b = ground arith

-- Of two well-formed operations with room for each other below 2 ^ 31, where no erasure is empty,
-- the transformed ones are well-formed: no position and no length wraps.
pub transform-IsWellFormed :
    (a b : Operation)
    → IsWellFormed a
    → IsWellFormed b
    → a.position + a.length + b.length < 2 ^ 31
    → b.position + b.length + a.length < 2 ^ 31
    → (a.type ≡ OpType.delete → 0 < a.length)
    → (b.type ≡ OpType.delete → 0 < b.length)
    → IsWellFormed (transform a b).0 × IsWellFormed (transform a b).1
unfolding transform
transform-IsWellFormed a b v w h k p q = ground arith
