-- ===== src/Core/Ot/Converge.antt =====
-- Convergence of two concurrent operations (core/src/ot.cpp): after `transform` both orders of
-- application give the same document.
use collaborative_text_edito.Common.{
  ℕ, suc, ◌+◌, ◌-◌, ◌^◌, ◌≤◌, ◌<◌, ◌≡◌, ◌≢◌, ◌⊎◌, inl, inr, refl, sym, ◌∙◌, ap, arith, Bytes, [],
  length, min, max, add32, sub32, u32,
}
use collaborative_text_edito.Core.Operation.{OpType, Operation, OpType-cases}
use collaborative_text_edito.Core.Ot.{insert_at, erase_at, apply, transform, overlap_of}
use collaborative_text_edito.Core.Ot.Order.{transform-swap}
use collaborative_text_edito.Core.Ot.Positions.{length-insert_at, length-erase_at}
use collaborative_text_edito.Core.Ot.Apply.{
  IsWellFormed, apply-insert, apply-delete, insert_at-nil, erase_at-zero,
}
use collaborative_text_edito.Core.Ot.Commute.{
  insert_at-insert_at, erase_at-insert_before, erase_at-insert_after, erase_at-insert_inside,
  erase_at-erase_disjoint, erase_at-erase_overlap,
}

-- The document and both operations are small enough for 31 bits, and an insertion stands within
-- the document.
pub record Fits (d : Bytes) (a b : Operation) : Type 0 where
  pub well : IsWellFormed a
  pub open well use {in_range, measured}
  pub well' : IsWellFormed b
  pub room : length d + a.length + b.length < 2 ^ 31
  pub inside : a.type ≡ OpType.insert → a.position ≤ length d
  pub inside' : b.type ≡ OpType.insert → b.position ≤ length d

-- Not two insertions of one user at one position.
abbrev pub Distinct : Operation → Operation → Type 0
Distinct a b =
    a.type ≡ OpType.insert
    → b.type ≡ OpType.insert
    → (a.position ≢ b.position) ⊎ (a.user_id ≢ b.user_id)

Fits-swap : {d : Bytes} {a b : Operation} → Fits d a b → Fits d b a
Fits-swap {d} {a} {b} f = record {
  well = f.well';
  well' = f.well;
  room = omega arith;
  inside = f.inside';
  inside' = f.inside;
}

-- The two ways round the diamond, each as two steps.
diamond :
    (d : Bytes) {x y x' y' : Bytes} (a b a' b' : Operation)
    → apply d a ≡ x
    → apply x b' ≡ y
    → apply d b ≡ x'
    → apply x' a' ≡ y'
    → y ≡ y'
    → apply (apply d a) b' ≡ apply (apply d b) a'
diamond d a b a' b' p q r s e = cc

at_insert :
    (d : Bytes) (op : Operation) (p : ℕ) (t : Bytes)
    → op.type ≡ OpType.insert
    → op.position ≡ p
    → op.text ≡ t
    → length d < 2 ^ 32
    → p ≤ length d
    → apply d op ≡ insert_at d p t
at_insert d op p t e ep et h k = ground (arith, apply-insert d op e h)

at_delete :
    (d : Bytes) (op : Operation) (p n : ℕ)
    → op.type ≡ OpType.delete
    → op.position ≡ p
    → op.length ≡ n
    → length d < 2 ^ 32
    → apply d op ≡ erase_at d p n
at_delete d op p n e ep en h = ground (arith, apply-delete d op e h)

module _ (d : Bytes) where
  insert-insert_ordered :
      (a b : Operation)
      → Fits d a b
      → a.type ≡ OpType.insert
      → b.type ≡ OpType.insert
      → a.position ≤ b.position
      → apply (apply d a) (record b { position = add32 b.position a.length }) ≡ apply (apply d b) a
  insert-insert_ordered a b f ea eb h =
      let ha = f.inside ea in
      let hb = f.inside' eb in
      let ma = f.well.measured ea in
      let mb = f.well'.measured eb in
      diamond d a b a (record b { position = add32 b.position a.length })
        (apply-insert d a ea (omega arith) ha)
        (at_insert _ _ (b.position + length a.text) b.text eb (omega arith) refl
          (omega (arith, length-insert_at d a.position a.text))
          (omega (arith, length-insert_at d a.position a.text)))
        (apply-insert d b eb (omega arith) hb)
        (apply-insert _ a ea (omega (arith, length-insert_at d b.position b.text))
          (omega (arith, length-insert_at d b.position b.text)))
        (insert_at-insert_at d a.position b.position a.text b.text h hb)

  -- Two insertions converge unless one user made both at one position.
  insert-insert :
      (a b : Operation)
      → Fits d a b
      → a.type ≡ OpType.insert
      → b.type ≡ OpType.insert
      → (a.position ≢ b.position) ⊎ (a.user_id ≢ b.user_id)
      → apply (apply d a) (transform a b).1 ≡ apply (apply d b) (transform a b).0
  unfolding transform
  insert-insert a b f ea eb h =
      ground
        (arith, insert-insert_ordered a b f ea eb, insert-insert_ordered b a (Fits-swap f) eb ea)

  insert-delete :
      (a b : Operation)
      → Fits d a b
      → a.type ≡ OpType.insert
      → b.type ≡ OpType.delete
      → apply (apply d a) (transform a b).1 ≡ apply (apply d b) (transform a b).0
  unfolding transform
  insert-delete a b f ea eb =
      let ha = f.inside ea in
      let ma = f.well.measured ea in
      let x = insert_at d a.position a.text in
      let first = apply-insert d a ea (omega arith) ha in
      let second = apply-delete d b eb (omega arith) in
      let small = length-insert_at d a.position a.text in
      let small' = length-erase_at d b.position b.length in
      let before = λ (h : a.position ≤ b.position).
        diamond d a b a (record b { position = add32 b.position a.length }) first
          (at_delete _ _ (b.position + length a.text) b.length eb (omega arith) refl (omega arith))
          second (apply-insert _ a ea (omega arith) (omega arith))
          (erase_at-insert_before d a.position a.text b.position b.length h ha) in
      let after = λ (h : b.position + b.length ≤ a.position).
        diamond d a b (record a { position = sub32 a.position b.length }) b first
          (apply-delete _ b eb (omega arith)) second
          (at_insert _ _ (a.position - b.length) a.text ea (omega arith) refl (omega arith)
            (omega arith))
          (erase_at-insert_after d a.position a.text b.position b.length h ha) in
      let inside = λ (h : b.position < a.position) (k : a.position < b.position + b.length).
        diamond d a b (record a { position = b.position; text = []; length = 0 })
          (record b { position = b.position; length = add32 b.length a.length }) first
          (at_delete _ _ b.position (b.length + length a.text) eb refl (omega arith) (omega arith))
          second (at_insert _ _ b.position [] ea refl refl (omega arith) (omega arith))
          (erase_at-insert_inside d a.position a.text b.position b.length h k ha
            ∙ sym (insert_at-nil (erase_at d b.position b.length) b.position)) in
      ground (arith, before, after, inside)

  -- An erasure of nothing, wherever it is moved, leaves the other one as it was.
  delete-delete_nothing :
      (a b b' : Operation)
      → Fits d a b
      → a.type ≡ OpType.delete
      → b.type ≡ OpType.delete
      → b'.type ≡ OpType.delete
      → b.length ≡ 0
      → b'.length ≡ 0
      → apply (apply d a) b' ≡ apply (apply d b) a
  delete-delete_nothing a b b' f ea eb eb' z z' =
      let small = length-erase_at d a.position a.length in
      diamond d a b a b' (apply-delete d a ea (omega arith))
        (at_delete _ b' b'.position 0 eb' refl z' (omega arith))
        (at_delete _ b b.position 0 eb refl z (omega arith))
        (apply-delete _ a ea (omega (arith, length-erase_at d b.position 0)))
        (erase_at-zero (erase_at d a.position a.length) b'.position
          ∙ ap (λ e. erase_at e a.position a.length) (sym (erase_at-zero d b.position)))

  delete-delete_apart :
      (a b : Operation)
      → Fits d a b
      → a.type ≡ OpType.delete
      → b.type ≡ OpType.delete
      → a.position + a.length ≤ b.position
      → apply (apply d a) (record b { position = sub32 b.position a.length }) ≡ apply (apply d b) a
  delete-delete_apart a b f ea eb h =
      diamond d a b a (record b { position = sub32 b.position a.length })
        (apply-delete d a ea (omega arith))
        (at_delete _ _ (b.position - a.length) b.length eb (omega arith) refl
          (omega (arith, length-erase_at d a.position a.length)))
        (apply-delete d b eb (omega arith))
        (apply-delete _ a ea (omega (arith, length-erase_at d b.position b.length)))
        (erase_at-erase_disjoint d a.position a.length b.position b.length h)

  delete-delete_before :
      (a b : Operation)
      → Fits d a b
      → a.type ≡ OpType.delete
      → b.type ≡ OpType.delete
      → a.position < b.position
      → overlap_of a b ≡ 0
      → apply (apply d a) (record b { position = sub32 b.position a.length }) ≡ apply (apply d b) a
  delete-delete_before a b f ea eb h z = ground (
    arith,
    delete-delete_apart a b f ea eb,
    delete-delete_nothing a b (record b { position = sub32 b.position a.length }) f ea eb eb,
  )

  delete-delete_level :
      (a b : Operation)
      → Fits d a b
      → a.type ≡ OpType.delete
      → b.type ≡ OpType.delete
      → a.position ≡ b.position
      → overlap_of a b ≡ 0
      → apply (apply d a) b ≡ apply (apply d b) a
  delete-delete_level a b f ea eb h z = ground (
    arith,
    delete-delete_nothing a b b f ea eb eb,
    delete-delete_nothing b a a (Fits-swap f) eb ea ea,
  )

  delete-delete_shared :
      (a b : Operation) (o : ℕ)
      → Fits d a b
      → a.type ≡ OpType.delete
      → b.type ≡ OpType.delete
      → overlap_of a b ≡ suc o
      → apply (apply d a) (record b {
        position = min a.position b.position;
        length = sub32 b.length (u32 (overlap_of a b));
      })
        ≡ apply (apply d b) (record a {
          position = min a.position b.position;
          length = sub32 a.length (u32 (overlap_of a b));
        })
  delete-delete_shared a b o f ea eb z =
      let end : suc o + max a.position b.position
          ≡ min (a.position + a.length) (b.position + b.length) =
        ground (arith, z) in
      diamond d a b _ _ (apply-delete d a ea (omega (arith, end, z)))
        (at_delete _ _ (min a.position b.position) (b.length - suc o) eb refl
          (omega (arith, end, z)) (omega (arith, end, z, length-erase_at d a.position a.length)))
        (apply-delete d b eb (omega (arith, end, z)))
        (at_delete _ _ (min a.position b.position) (a.length - suc o) ea refl
          (omega (arith, end, z)) (omega (arith, end, z, length-erase_at d b.position b.length)))
        (erase_at-erase_overlap d a.position a.length b.position b.length (suc o) _
          (omega (arith, end)) refl)

  delete-delete :
      (a b : Operation)
      → Fits d a b
      → a.type ≡ OpType.delete
      → b.type ≡ OpType.delete
      → apply (apply d a) (transform a b).1 ≡ apply (apply d b) (transform a b).0
  unfolding transform
  delete-delete a b f ea eb = ground (
    arith,
    delete-delete_before a b f ea eb,
    delete-delete_before b a (Fits-swap f) eb ea,
    delete-delete_level a b f ea eb,
    delete-delete_shared a b (overlap_of a b - 1) f ea eb,
  )

-- On a document and operations of less than 2 ^ 31 bytes, with insertions inside the document and
-- as long as their text, and unless both are insertions of one user at one position: applying `a`
-- and then the transformed `b` gives the same document as applying `b` and then the transformed `a`.
pub transform-converges :
    (d : Bytes) (a b : Operation)
    → Fits d a b
    → Distinct a b
    → apply (apply d a) (transform a b).1 ≡ apply (apply d b) (transform a b).0
transform-converges d a b f apart = elim (OpType-cases a.type) [
  | inl ea ↦ elim (OpType-cases b.type) [
    | inl eb ↦ insert-insert d a b f ea eb (apart ea eb)
    | inr eb ↦ insert-delete d a b f ea eb
  ]
  | inr ea ↦ elim (OpType-cases b.type) [
    | inl eb ↦ rw (transform-swap b a) (sym (insert-delete d b a (Fits-swap f) eb ea))
    | inr eb ↦ delete-delete d a b f ea eb
  ]
]
