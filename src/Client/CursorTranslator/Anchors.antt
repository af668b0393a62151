-- ===== src/Client/CursorTranslator/Anchors.antt =====
-- A translated cursor against the document that the operation leaves
-- (client/src/cursor_translator.cpp with `apply` of core/src/ot.cpp).
use collaborative_text_edito.Common.{
  ℕ, ◌+◌, ◌-◌, ◌^◌, ◌≤◌, ◌<◌, ◌≡◌, ap, ◌∙◌, arith, Bytes, length, get_elem?, ltb, leb,
  if◌then◌else◌, min, inl, inr, ◌&&◌,
}
use collaborative_text_edito.Core.Operation.{OpType, Operation, OpType-cases}
use collaborative_text_edito.Core.Ot.{insert_at, erase_at, apply}
use collaborative_text_edito.Core.Ot.Positions.{
  get_elem?-insert_at, get_elem?-erase_at, length-insert_at, length-erase_at,
}
use collaborative_text_edito.Core.Ot.Apply.{IsWellFormed, apply-insert, apply-delete}
use collaborative_text_edito.Client.CursorTranslator.{translate}

-- The operation fits the document, and both are small enough for 31 bits.
pub record Fits (d : Bytes) (op : Operation) : Type 0 where
  pub well : IsWellFormed op
  pub open well use {in_range, measured}
  pub room : length d + op.length < 2 ^ 31
  pub inside : op.type ≡ OpType.insert → op.position ≤ length d

insert-keeps :
    (d : Bytes) (op : Operation) (pos : ℕ)
    → Fits d op
    → op.type ≡ OpType.insert
    → pos < length d
    → (get_elem? (insert_at d op.position op.text) (translate pos op) ≡ get_elem? d pos)
unfolding translate
insert-keeps d op pos f e h = ground (
  arith,
  f.inside e,
  f.measured e,
  get_elem?-insert_at d op.position op.text pos,
  get_elem?-insert_at d op.position op.text (pos + length op.text),
)

delete-keeps :
    (d : Bytes) (op : Operation) (pos : ℕ)
    → Fits d op
    → op.type ≡ OpType.delete
    → pos < length d
    → get_elem? (erase_at d op.position op.length) (translate pos op) ≡ (
        if leb op.position pos
        then get_elem? d
            (if leb (op.position + op.length) pos then pos else op.position + op.length)
        else get_elem? d pos)
unfolding translate
delete-keeps d op pos f e h = ground (
  arith,
  get_elem?-erase_at d op.position op.length pos,
  get_elem?-erase_at d op.position op.length (pos - op.length),
  get_elem?-erase_at d op.position op.length op.position,
)

-- The place in the old document that a cursor stands for: its own, or the end of the range that was
-- erased around it.
abbrev pub anchor : ℕ → Operation → ℕ
anchor pos op = elim op.type [
  | OpType.insert ↦ pos
  | OpType.delete ↦
      if leb op.position pos && ltb pos (op.position + op.length)
      then op.position + op.length
      else pos
]

-- On a document and an operation that fit 31 bits a cursor on a byte stands before the same byte
-- afterwards, unless that byte is erased: then it stands before the first byte behind the erased
-- range, or at the end of the document.
pub translate-anchors :
    (d : Bytes) (op : Operation) (pos : ℕ)
    → Fits d op
    → pos < length d
    → get_elem? (apply d op) (translate pos op) ≡ get_elem? d (anchor pos op)
translate-anchors d op pos f h = elim (OpType-cases op.type) [
  | inl e ↦
      ap (λ x. get_elem? x (translate pos op)) (apply-insert d op e (omega arith) (f.inside e))
      ∙ insert-keeps d op pos f e h
      ∙ rw e
  | inr e ↦
      ap (λ x. get_elem? x (translate pos op)) (apply-delete d op e (omega arith))
      ∙ delete-keeps d op pos f e h
      ∙ ground arith
]

translate-insert_range :
    (op : Operation) (pos n : ℕ)
    → op.type ≡ OpType.insert
    → op.position + op.length < 2 ^ 31
    → op.length ≡ length op.text
    → n + op.length < 2 ^ 31
    → pos ≤ n
    → translate pos op ≤ n + length op.text
unfolding translate
translate-insert_range op pos n e r m room h = ground arith

translate-delete_range :
    (op : Operation) (pos n : ℕ)
    → op.type ≡ OpType.delete
    → op.position + op.length < 2 ^ 31
    → n + op.length < 2 ^ 31
    → pos ≤ n
    → translate pos op ≤ min op.position n + (n - (op.position + op.length))
unfolding translate
translate-delete_range op pos n e r room h = ground arith

-- A cursor within the document, the end included, stays within the document.
pub translate-le-length :
    (d : Bytes) (op : Operation) (pos : ℕ)
    → Fits d op
    → pos ≤ length d
    → translate pos op ≤ length (apply d op)
translate-le-length d op pos f h = elim (OpType-cases op.type) [
  | inl e ↦
      rw (apply-insert d op e (omega arith) (f.inside e), length-insert_at d op.position op.text)
        (translate-insert_range op pos (length d) e f.in_range (f.measured e) f.room h)
  | inr e ↦
      rw (apply-delete d op e (omega arith), length-erase_at d op.position op.length)
        (translate-delete_range op pos (length d) e f.in_range f.room h)
]

-- Two cursors keep their order.
pub translate_mono :
    (op : Operation) (pos pos' : ℕ)
    → IsWellFormed op
    → pos ≤ pos'
    → pos' + op.length < 2 ^ 31
    → translate pos op ≤ translate pos' op
unfolding translate
translate_mono op pos pos' w h k = ground arith
