-- ===== src/Core/Operation.antt =====
-- core/include/collab/operation.h, core/src/operation.cpp.
use collaborative_text_edito.Common.{
  ℕ, Bool, true, false, ◌==◌, Bytes, [], ◌∷◌, u32, length, ◌≡◌, refl, ◌⊎◌, inl, inr,
}

-- `Operation::Type`
pub data OpType : Type 0 where
  insert delete : OpType

pub record Operation : Type 0 where
  pub type : OpType
  pub position : ℕ
  pub text : Bytes
  pub length : ℕ
  pub user_id : ℕ
  pub revision : ℕ

pub OpType-cases : (t : OpType) → (t ≡ OpType.insert) ⊎ (t ≡ OpType.delete)
OpType-cases OpType.insert = inl refl
OpType-cases OpType.delete = inr refl

abbrev pub is_insert : OpType → Bool
is_insert OpType.insert = true
is_insert OpType.delete = false

abbrev pub empty : Bytes → Bool
empty [] = true
empty (b ∷ bs) = false

abbrev pub is_noop : Operation → Bool
is_noop op = elim op.type [ OpType.insert ↦ empty op.text | OpType.delete ↦ op.length == 0 ]

unfoldable pub make_insert : ℕ → Bytes → ℕ → ℕ → Operation
make_insert pos text user_id rev = record {
  type = OpType.insert;
  position = pos;
  text = text;
  length = u32 (length text);
  user_id = user_id;
  revision = rev;
}

unfoldable pub make_delete : ℕ → ℕ → Bytes → ℕ → ℕ → Operation
make_delete pos len text user_id rev = record {
  type = OpType.delete;
  position = pos;
  text = text;
  length = len;
  user_id = user_id;
  revision = rev;
}
