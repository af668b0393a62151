-- ===== src/Core/Ot/Apply.antt =====
-- What `apply` (core/src/ot.cpp) does to a document below 2 ^ 32 bytes: an insertion or an erasure,
-- with the guards and the clamps gone.
use native.Mathlib.Nat.{add-zero}
use collaborative_text_edito.Common.{
  ℕ, ◌+◌, ◌-◌, ◌^◌, ◌≤◌, ◌<◌, ◌≡◌, refl, ap, sym, ◌∙◌, arith, Bytes, [], ◌++◌, length, drop, u32,
  min, take-append-drop, take-append, drop-append, length-append, append_assoc,
}
use collaborative_text_edito.Core.Operation.{OpType, Operation}
use collaborative_text_edito.Core.Ot.{insert_at, erase_at, apply}
use collaborative_text_edito.Core.Ot.Positions.{erase_at_clamped}

-- The range that an operation touches lies below 2 ^ 31, and an insertion's `length` is that of
-- its text.
pub record IsWellFormed (op : Operation) : Type 0 where
  pub in_range : op.position + op.length < 2 ^ 31
  pub measured : op.type ≡ OpType.insert → op.length ≡ length op.text

pub insert_at-nil : (d : Bytes) (p : ℕ) → insert_at d p [] ≡ d
unfolding insert_at
insert_at-nil d p = take-append-drop p d

pub erase_at-zero : (d : Bytes) (p : ℕ) → erase_at d p 0 ≡ d
unfolding erase_at
erase_at-zero d p = rw add-zero (take-append-drop p d)

min_eq : (a b : ℕ) → a ≤ b → min a b ≡ a
min_eq a b h = omega arith

-- Where it stands within the document, an insertion goes to its position.
pub apply-insert :
    (d : Bytes) (op : Operation)
    → op.type ≡ OpType.insert
    → length d < 2 ^ 32
    → op.position ≤ length d
    → apply d op ≡ insert_at d op.position op.text
unfolding apply
apply-insert d op e h k = ground (
  arith,
  insert_at-nil d op.position,
  ap (λ (p : ℕ). insert_at d p op.text) (min_eq op.position (u32 (length d)) (omega arith)),
)

pub apply-delete :
    (d : Bytes) (op : Operation)
    → op.type ≡ OpType.delete
    → length d < 2 ^ 32
    → apply d op ≡ erase_at d op.position op.length
unfolding apply
apply-delete d op e h = ground (
  arith,
  erase_at-zero d op.position,
  erase_at_clamped d op.position op.length,
  ap
      (λ (n : ℕ).
        erase_at d (min op.position n) (min op.length (u32 (length d - min op.position n))))
      clip,
  ap (λ (n : ℕ). erase_at d (min op.position (length d)) (min op.length n)) clip',
)
  where
    clip : u32 (length d) ≡ length d
    clip = omega arith

    clip' : u32 (length d - min op.position (length d)) ≡ length d - min op.position (length d)
    clip' = omega arith

drop-append_twice : (a r b : Bytes) → drop (length a + length r) (a ++ (r ++ b)) ≡ b
drop-append_twice a r b =
    rw (sym (length-append a r)) (rw (sym (append_assoc a r b)) (drop-append (a ++ r) b))

-- An edit between two parts of a text, and one that takes out what stands between them.
pub insert_at-append : (a b i : Bytes) → insert_at (a ++ b) (length a) i ≡ a ++ (i ++ b)
unfolding insert_at
insert_at-append a b i = rw (take-append a b) (rw (drop-append a b) refl)

pub erase_at-append : (a r b : Bytes) → erase_at (a ++ (r ++ b)) (length a) (length r) ≡ a ++ b
unfolding erase_at
erase_at-append a r b =
    ap (λ l. l ++ drop (length a + length r) (a ++ (r ++ b))) (take-append a (r ++ b))
    ∙ ap (a ++◌) (drop-append_twice a r b)
