-- ===== src/Client/EditorWidget/Edits.antt =====
-- The operations of the editor (client/src/editor_widget.cpp) against the bytes of its text.
use collaborative_text_edito.Common.{
  ℕ, suc, ◌+◌, ◌^◌, ◌<◌, ◌≡◌, refl, ap, sym, ◌∙◌, arith, true, false, List, [], ◌∷◌, ◌++◌, Bytes,
  length, take, drop, ltb, leb, ◌==◌, u32, foldl, foldl-append_all, take-append, drop-append,
  length-append, append-nil,
}
use collaborative_text_edito.Core.Operation.{make_insert, make_delete}
use collaborative_text_edito.Core.Ot.{insert_at, erase_at, apply}
use collaborative_text_edito.Core.Ot.Apply.{
  apply-insert, apply-delete, insert_at-append, erase_at-append,
}
use collaborative_text_edito.Client.EditorWidget.{
  Utf8, EditorWidget, utf16_to_utf8_offset, deleted, inserted, on_contents_change,
}

module _ (q : Utf8) where
  open q use {to_utf8, from_utf8}

  -- The bytes of a text can be cut there, as between two characters.
  abbrev pub Cut : List ℕ → List ℕ → Type 0
  Cut a b = to_utf8 (a ++ b) ≡ to_utf8 a ++ to_utf8 b

  Cut-length :
      (a b : List ℕ) → Cut a b → length (to_utf8 (a ++ b)) ≡ length (to_utf8 a) + length (to_utf8 b)
  Cut-length a b c = ap length c ∙ length-append (to_utf8 a) (to_utf8 b)

  Cut-first : (b : List ℕ) → Cut [] b → length (to_utf8 []) ≡ 0
  Cut-first b c = omega (arith, Cut-length [] b c)

  Cut-last : (a : List ℕ) → Cut a [] → length (to_utf8 []) ≡ 0
  Cut-last a c =
      omega (arith, Cut-length a [] c, ap (λ (x : List ℕ). length (to_utf8 x)) (append-nil a))

  offset_at :
      (a b : List ℕ)
      → Cut a b
      → length (to_utf8 (a ++ b)) < 2 ^ 32
      → utf16_to_utf8_offset q (a ++ b) (length a) ≡ length (to_utf8 a)
  unfolding utf16_to_utf8_offset
  offset_at [] b c h = sym (Cut-first b c)
  offset_at (x ∷ a) [] c h =
      let all : leb (length (x ∷ (a ++ []))) (suc (length a)) ≡ true =
        ground (arith, length-append a []) in
      let some : (suc (length a) == 0) ≡ false = ground arith in
      rw some (rw all (omega (arith, h, Cut-length (x ∷ a) [] c, Cut-last (x ∷ a) c)))
  offset_at (x ∷ a) (y ∷ b) c h =
      let part : leb (length (x ∷ (a ++ y ∷ b))) (suc (length a)) ≡ false =
        ground (arith, length-append a (y ∷ b)) in
      let some : (suc (length a) == 0) ≡ false = ground arith in
      rw some
        (rw part (rw (take-append a (y ∷ b)) (omega (arith, h, Cut-length (x ∷ a) (y ∷ b) c))))

  module _ (a r i b : List ℕ) where
    -- The text of `removed` characters at `a`.
    removed_part : take (length r) (drop (length a) (a ++ (r ++ b))) ≡ r
    removed_part = rw (drop-append a (r ++ b)) (take-append r b)

    deletes :
        (d : Bytes) (user_id revision : ℕ)
        → d ≡ to_utf8 a ++ (to_utf8 r ++ to_utf8 b)
        → length d < 2 ^ 32
        → apply d (
            make_delete
              (length (to_utf8 a))
              (u32 (length (to_utf8 r)))
              (to_utf8 r)
              user_id
              revision)
          ≡ to_utf8 a ++ to_utf8 b
    unfolding make_delete
    deletes d user_id revision e h =
        let short : u32 (length (to_utf8 r)) ≡ length (to_utf8 r) = omega (
          arith,
          h,
          ap length e,
          length-append (to_utf8 a) (to_utf8 r ++ to_utf8 b),
          length-append (to_utf8 r) (to_utf8 b),
        ) in
        apply-delete d _ refl h
        ∙ ap (erase_at d (length (to_utf8 a))) short
        ∙ ap (λ (x : Bytes). erase_at x (length (to_utf8 a)) (length (to_utf8 r))) e
        ∙ erase_at-append (to_utf8 a) (to_utf8 r) (to_utf8 b)

    inserts :
        (d text : Bytes) (user_id revision : ℕ)
        → d ≡ to_utf8 a ++ to_utf8 b
        → length d < 2 ^ 32
        → apply d (make_insert (length (to_utf8 a)) text user_id revision)
          ≡ to_utf8 a ++ (text ++ to_utf8 b)
    unfolding make_insert
    inserts d text user_id revision e h =
        apply-insert d _ refl h (omega (arith, ap length e, length-append (to_utf8 a) (to_utf8 b)))
        ∙ ap (λ (x : Bytes). insert_at x (length (to_utf8 a)) text) e
        ∙ insert_at-append (to_utf8 a) (to_utf8 b) text

    -- What `onContentsChange` is called with: `r` behind `a` has become `i`, and the texts can be cut
    -- at the ends of the two.
    pub record Changed (w : EditorWidget) : Type 0 where
      pub local : w.applying_remote ≡ false
      pub before : w.last_known_text ≡ a ++ (r ++ b)
      pub now : w.text ≡ a ++ (i ++ b)
      pub before_cut : Cut a (r ++ b)
      pub removed_cut : Cut r b
      pub now_cut : Cut a (i ++ b)
      pub added_cut : Cut i b
      pub before_short : length (to_utf8 (a ++ (r ++ b))) < 2 ^ 32

  offset_before :
      {a r i b : List ℕ} {w : EditorWidget}
      → Changed a r i b w
      → utf16_to_utf8_offset q w.last_known_text (length a) ≡ length (to_utf8 a)
  offset_before {a} {r} {b = b} c = rw c.before (offset_at a (r ++ b) c.before_cut c.before_short)

  before_bytes :
      {a r i b : List ℕ} {w : EditorWidget}
      → Changed a r i b w
      → to_utf8 w.last_known_text ≡ to_utf8 a ++ (to_utf8 r ++ to_utf8 b)
  before_bytes {a} c = ap to_utf8 c.before ∙ c.before_cut ∙ ap (to_utf8 a ++◌) c.removed_cut

  after_deletion :
      (a r i b : List ℕ) (w : EditorWidget)
      → Changed a r i b w
      → foldl apply (to_utf8 w.last_known_text) (deleted q w (length a) (length r))
        ≡ to_utf8 a ++ to_utf8 b
  after_deletion a [] i b w c = ap to_utf8 c.before ∙ c.before_cut
  after_deletion a (x ∷ r) i b w c =
      let any : ltb 0 (suc (length r)) ≡ true = ground arith in
      let part : take (suc (length r)) (drop (length a) w.last_known_text) ≡ x ∷ r =
        rw c.before (removed_part a (x ∷ r) i b) in
      rw any (
        rw part (
          rw (offset_before c) (
            deletes a (x ∷ r) i b (to_utf8 w.last_known_text) w.user_id w.current_revision
              (before_bytes c) (rw c.before c.before_short))))

  after_insertion :
      (a r i b : List ℕ) (w : EditorWidget)
      → Changed a r i b w
      → foldl apply (to_utf8 a ++ to_utf8 b) (inserted q w (length a) (length i)) ≡ to_utf8 w.text
  after_insertion a r [] b w c = sym (ap to_utf8 c.now ∙ c.now_cut)
  after_insertion a r (x ∷ i) b w c =
      let any : ltb 0 (suc (length i)) ≡ true = ground arith in
      let part : take (suc (length i)) (drop (length a) w.text) ≡ x ∷ i =
        rw c.now (removed_part a (x ∷ i) r b) in
      let short : length (to_utf8 a ++ to_utf8 b) < 2 ^ 32 = omega (
        arith,
        c.before_short,
        ap length c.before_cut,
        ap length c.removed_cut,
        length-append (to_utf8 a) (to_utf8 b),
        length-append (to_utf8 a) (to_utf8 (r ++ b)),
        length-append (to_utf8 r) (to_utf8 b),
      ) in
      rw any (
        rw part (
          rw (offset_before c) (
            inserts a r (x ∷ i) b (to_utf8 a ++ to_utf8 b) (to_utf8 (x ∷ i)) w.user_id
              w.current_revision refl short)))
      ∙ sym (ap to_utf8 c.now ∙ c.now_cut ∙ ap (to_utf8 a ++◌) c.added_cut)

  -- What the user types reaches the bytes: when some characters behind `a` have been replaced by
  -- others, the operations that the editor emits turn the bytes of the text before into the bytes of
  -- the text that it shows, and this is the text that it takes for known. The bytes of both texts can
  -- be cut at the ends of the characters, and those of the text before are below 2 ^ 32.
  pub on_contents_change-apply :
      (a r i b : List ℕ) (w : EditorWidget)
      → Changed a r i b w
      → (foldl apply
            (to_utf8 w.last_known_text)
            (on_contents_change q w (length a) (length r) (length i)).1
          ≡ to_utf8 w.text)
        × ((on_contents_change q w (length a) (length r) (length i)).0.last_known_text ≡ w.text)
  unfolding on_contents_change
  on_contents_change-apply a r i b w c = rw c.local (
    foldl-append_all apply (to_utf8 w.last_known_text) (deleted q w (length a) (length r)) _
        ∙ ap (λ (d : Bytes). foldl apply d (inserted q w (length a) (length i)))
            (after_deletion a r i b w c)
        ∙ after_insertion a r i b w c,
    refl,
  )
