-- ===== src/Client/CursorTranslator.antt =====
-- client/src/cursor_translator.cpp: where a cursor goes when an operation is applied.
pub mod Anchors
use collaborative_text_edito.Common.{
  ℕ, Bool, true, false, leb, if◌then◌else◌, length, u32, add32, sub32,
}
use collaborative_text_edito.Core.Operation.{OpType, Operation, is_noop}

unfoldable pub translate : ℕ → Operation → ℕ
translate my_pos op = if is_noop op then my_pos else elim op.type [
  | OpType.insert ↦ if leb op.position my_pos then add32 my_pos (u32 (length op.text)) else my_pos
  | OpType.delete ↦
      if leb (add32 op.position op.length) my_pos
      then sub32 my_pos op.length
      else if leb my_pos op.position
      then my_pos
      else op.position
]
