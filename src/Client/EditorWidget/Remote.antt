-- ===== src/Client/EditorWidget/Remote.antt =====
-- The operations of others in the editor (client/src/editor_widget.cpp) against the bytes of its text.
use collaborative_text_edito.Common.{
  ℕ, ◌^◌, ◌<◌, ◌≡◌, inl, inr, refl, ap, sym, ◌∙◌, arith, true, List, [], ◌∷◌, ◌++◌, Bytes, length,
  drop, leb, leb→le, ◌==◌, ==_iff, u32, take-append, drop-append, length-append, append-nil,
  append_assoc, Bool-cases, add32,
}
use collaborative_text_edito.Core.Operation.{OpType, Operation, is_noop}
use collaborative_text_edito.Core.Ot.{insert_at, erase_at, apply}
use collaborative_text_edito.Core.Ot.Apply.{
  apply-insert, apply-delete, insert_at-append, erase_at-append,
}
use collaborative_text_edito.Client.EditorWidget.{
  Utf8, EditorWidget, utf8_to_utf16_offset, edited, apply_remote_operation,
}
use collaborative_text_edito.Client.EditorWidget.Edits.{Cut}

nothing_left : (bs : Bytes) → length bs ≡ 0 → bs ≡ []
nothing_left [] h = refl
nothing_left (b ∷ bs) h = absurd (omega arith)

pub apply-noop : (d : Bytes) (op : Operation) → is_noop op ≡ true → apply d op ≡ d
unfolding apply
apply-noop d op e = rw e refl

module _ (q : Utf8) where
  open q use {to_utf8, from_utf8}

  -- The text can be had back from its bytes, as where it is made of whole characters.
  abbrev pub Kept : List ℕ → Type 0
  Kept a = from_utf8 (to_utf8 a) ≡ a

  module _ (nothing : from_utf8 [] ≡ []) where
    -- The offset of what stands behind `a`.
    units_at :
        (d rest : Bytes) (a : List ℕ)
        → d ≡ to_utf8 a ++ rest
        → length d < 2 ^ 32
        → Kept a
        → utf8_to_utf16_offset q d (length (to_utf8 a)) ≡ length a
    unfolding utf8_to_utf16_offset
    units_at d rest a e h k = elim (Bool-cases (length (to_utf8 a) == 0)) [
      | inl zero ↦ rw zero (
          ap length (
            sym nothing
            ∙ sym (ap from_utf8 (nothing_left (to_utf8 a) ((==_iff (length (to_utf8 a)) 0).0 zero)))
            ∙ k))
      | inr some ↦ rw some (elim (Bool-cases (leb (u32 (length d)) (length (to_utf8 a)))) [
        | inl all ↦
            let bound = leb→le (u32 (length d)) (length (to_utf8 a)) all in
            let none_left : rest ≡ [] =
              nothing_left rest
                (omega (arith, bound, h, ap length e, length-append (to_utf8 a) rest)) in
            rw all (
              ap (λ (x : Bytes). length (from_utf8 x))
                (e ∙ ap (to_utf8 a ++◌) none_left ∙ append-nil (to_utf8 a))
              ∙ ap length k)
        | inr part ↦ rw part (rw e (rw (take-append (to_utf8 a) rest) (ap length k)))
      ])
    ]

  -- Where an operation stands in the text: the ends of its range, and of what it puts in, are ends of
  -- characters.
  pub data Placed (text : List ℕ) (op : Operation) : Type 0 where
    inserting :
        (a i b : List ℕ)
        → op.type ≡ OpType.insert
        → op.position ≡ length (to_utf8 a)
        → op.text ≡ to_utf8 i
        → text ≡ a ++ b
        → Cut q a b
        → Cut q a (i ++ b)
        → Cut q i b
        → Kept a
        → Kept i
        → Placed text op
    deleting :
        (a r b : List ℕ)
        → op.type ≡ OpType.delete
        → op.position ≡ length (to_utf8 a)
        → op.length ≡ length (to_utf8 r)
        → text ≡ a ++ (r ++ b)
        → Cut q a (r ++ b)
        → Cut q r b
        → Cut q a r
        → Cut q a b
        → Kept a
        → Kept (a ++ r)
        → Placed text op

  module _ (nothing : from_utf8 [] ≡ []) where
    edited-apply :
        (text : List ℕ) (op : Operation)
        → length (to_utf8 text) < 2 ^ 32
        → Placed text op
        → to_utf8 (edited q (to_utf8 text) op text) ≡ apply (to_utf8 text) op
    edited-apply text op h (inserting a i b type at new e cut cut' added k k') =
        let bytes_of = ap to_utf8 e ∙ cut in
        let here : utf8_to_utf16_offset q (to_utf8 text) op.position ≡ length a =
          ap (utf8_to_utf16_offset q (to_utf8 text)) at
          ∙ units_at nothing (to_utf8 text) (to_utf8 b) a bytes_of h k in
        let becomes : edited q (to_utf8 text) op text ≡ a ++ (i ++ b) =
          rw type
            (rw here (rw new (rw k' (rw e (rw (take-append a b) (rw (drop-append a b) refl)))))) in
        ap to_utf8 becomes
        ∙ cut'
        ∙ ap (to_utf8 a ++◌) added
        ∙ sym (insert_at-append (to_utf8 a) (to_utf8 b) (to_utf8 i))
        ∙ ap (λ (d : Bytes). insert_at d (length (to_utf8 a)) (to_utf8 i)) (sym bytes_of)
        ∙ ap (λ (n : ℕ). insert_at (to_utf8 text) n (to_utf8 i)) (sym at)
        ∙ ap (insert_at (to_utf8 text) op.position) (sym new)
        ∙ sym (
            apply-insert (to_utf8 text) op type h
              (omega (arith, at, ap length bytes_of, length-append (to_utf8 a) (to_utf8 b))))
    edited-apply text op h (deleting a r b type at len e cut removed cut' kept k k') =
        let bytes_of = ap to_utf8 e ∙ cut ∙ ap (to_utf8 a ++◌) removed in
        let here : utf8_to_utf16_offset q (to_utf8 text) op.position ≡ length a =
          ap (utf8_to_utf16_offset q (to_utf8 text)) at
          ∙ units_at nothing (to_utf8 text) (to_utf8 r ++ to_utf8 b) a bytes_of h k in
        let bytes_to : to_utf8 text ≡ to_utf8 (a ++ r) ++ to_utf8 b =
          bytes_of
          ∙ sym (append_assoc (to_utf8 a) (to_utf8 r) (to_utf8 b))
          ∙ ap (λ (d : Bytes). d ++ to_utf8 b) (sym cut') in
        let end : add32 op.position op.length ≡ length (to_utf8 (a ++ r)) = omega (
          arith,
          at,
          len,
          h,
          ap length bytes_to,
          length-append (to_utf8 (a ++ r)) (to_utf8 b),
          ap length cut',
          length-append (to_utf8 a) (to_utf8 r),
        ) in
        let there : utf8_to_utf16_offset q (to_utf8 text) (add32 op.position op.length)
            ≡ length (a ++ r) =
          ap (utf8_to_utf16_offset q (to_utf8 text)) end
          ∙ units_at nothing (to_utf8 text) (to_utf8 b) (a ++ r) bytes_to h k' in
        let becomes : edited q (to_utf8 text) op text ≡ a ++ b = rw type (
          rw there (
            rw here (
              rw e (
                rw (take-append a (r ++ b)) (
                  ap (λ (t : List ℕ). a ++ drop (length (a ++ r)) t) (sym (append_assoc a r b))
                  ∙ ap (a ++◌) (drop-append (a ++ r) b)))))) in
        ap to_utf8 becomes
        ∙ kept
        ∙ sym (erase_at-append (to_utf8 a) (to_utf8 r) (to_utf8 b))
        ∙ ap (λ (d : Bytes). erase_at d (length (to_utf8 a)) (length (to_utf8 r))) (sym bytes_of)
        ∙ ap (λ (n : ℕ). erase_at (to_utf8 text) n (length (to_utf8 r))) (sym at)
        ∙ ap (erase_at (to_utf8 text) op.position) (sym len)
        ∙ sym (apply-delete (to_utf8 text) op type h)

    -- An operation of another user whose ends are ends of characters does to the bytes of the
    -- editor's text what `apply` does to the bytes of the document, and the text that the editor
    -- takes for known is the one that it shows, if it was so before. The bytes of the text are
    -- below 2 ^ 32, and Qt makes the empty text of no bytes.
    pub apply_remote_operation-apply :
        (w : EditorWidget) (op : Operation)
        → w.text ≡ w.last_known_text
        → length (to_utf8 w.text) < 2 ^ 32
        → Placed w.text op
        → (to_utf8 (apply_remote_operation q w op).text ≡ apply (to_utf8 w.text) op)
          × ((apply_remote_operation q w op).text ≡ (apply_remote_operation q w op).last_known_text)
    unfolding apply_remote_operation
    apply_remote_operation-apply w op same h p = elim (Bool-cases (is_noop op)) [
      | inl none ↦ rw none (sym (apply-noop (to_utf8 w.text) op none), same)
      | inr some ↦ rw some (
        ap (λ (t : List ℕ). to_utf8 (edited q (to_utf8 t) op w.text)) (sym same)
            ∙ edited-apply w.text op h p,
        refl,
      )
    ]
