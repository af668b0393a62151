-- ===== src/Client/EditorWidget.antt =====
-- client/src/editor_widget.cpp, client/src/utf8_codec.cpp: between the text that the editor shows and
-- the operations on its bytes. A `QString` is the list of its code units; what `toUtf8` and `fromUtf8`
-- of Qt do with one is a parameter. What `QTextCursor` does to the document is written out.
pub mod Edits
pub mod Remote
pub mod Together
use collaborative_text_edito.Common.{
  ℕ, ◌+◌, ◌<◌, min, max, Bool, true, false, Option, none, some, List, [], ◌∷◌, ◌++◌, Bytes, length,
  take, drop, ltb, leb, ◌==◌, if◌then◌else◌, u32, add32,
}
use collaborative_text_edito.Core.Operation.{OpType, Operation, is_noop, make_insert, make_delete}
use collaborative_text_edito.Client.CursorTranslator.{translate}

-- The conversions of Qt.
pub record Utf8 : Type 0 where
  pub to_utf8 : List ℕ → Bytes
  pub from_utf8 : Bytes → List ℕ

-- `text` is what `toPlainText` returns; then the cursor of the user.
pub record EditorWidget : Type 0 where
  pub text : List ℕ
  pub anchor : ℕ
  pub position : ℕ
  pub last_known_text : List ℕ
  pub applying_remote : Bool
  pub user_id : ℕ
  pub current_revision : ℕ

module _ (q : Utf8) where
  open q use {to_utf8, from_utf8}

  unfoldable pub utf16_to_utf8_offset : List ℕ → ℕ → ℕ
  utf16_to_utf8_offset text utf16_offset =
      if utf16_offset == 0
      then 0
      else if leb (length text) utf16_offset
      then u32 (length (to_utf8 text))
      else u32 (length (to_utf8 (take utf16_offset text)))

  unfoldable pub utf8_to_utf16_offset : Bytes → ℕ → ℕ
  utf8_to_utf16_offset utf8_text utf8_offset =
      if utf8_offset == 0
      then 0
      else if leb (u32 (length utf8_text)) utf8_offset
      then length (from_utf8 utf8_text)
      else length (from_utf8 (take utf8_offset utf8_text))

  abbrev pub reset_content : EditorWidget → List ℕ → EditorWidget
  reset_content w content = record w {
    text = content;
    anchor = 0;
    position = 0;
    last_known_text = content;
    applying_remote = false;
  }

  abbrev pub set_identity : EditorWidget → ℕ → ℕ → EditorWidget
  set_identity w user_id revision = record w { user_id = user_id; current_revision = revision }

  unfoldable pub local_cursor_utf8_position : EditorWidget → ℕ
  unfolding utf16_to_utf8_offset
  local_cursor_utf8_position w = utf16_to_utf8_offset w.last_known_text w.position

  unfoldable pub local_selection_utf8 : EditorWidget → Option (ℕ × ℕ)
  unfolding utf16_to_utf8_offset
  local_selection_utf8 w =
      if w.anchor == w.position
      then none
      else some (
        utf16_to_utf8_offset w.last_known_text (min w.anchor w.position),
        utf16_to_utf8_offset w.last_known_text (max w.anchor w.position),
      )

  abbrev pub deleted : EditorWidget → ℕ → ℕ → List Operation
  deleted w position chars_removed =
      let removed_utf8 = to_utf8 (take chars_removed (drop position w.last_known_text)) in
      if ltb 0 chars_removed
      then make_delete (utf16_to_utf8_offset w.last_known_text position) (u32 (length removed_utf8))
          removed_utf8 w.user_id w.current_revision
        ∷ []
      else []

  abbrev pub inserted : EditorWidget → ℕ → ℕ → List Operation
  inserted w position chars_added =
      if ltb 0 chars_added
      then make_insert (utf16_to_utf8_offset w.last_known_text position)
          (to_utf8 (take chars_added (drop position w.text))) w.user_id w.current_revision
        ∷ []
      else []

  -- The slot, once the document has changed; it emits `localOperationsGenerated` if there are
  -- operations.
  unfoldable pub on_contents_change : EditorWidget → ℕ → ℕ → ℕ → EditorWidget × List Operation
  unfolding utf16_to_utf8_offset
  on_contents_change w position chars_removed chars_added =
      let w' = record w { last_known_text = w.text } in
      if w.applying_remote
      then (w', [])
      else (w', deleted w position chars_removed ++ inserted w position chars_added)

  -- `insertText`, or the removal of the text between the two positions. A position beyond the end,
  -- which Qt refuses, counts as the end.
  abbrev pub edited : Bytes → Operation → List ℕ → List ℕ
  edited utf8_before op text =
      let utf16_pos = utf8_to_utf16_offset utf8_before op.position in
      elim op.type [
        | OpType.insert ↦ take utf16_pos text ++ (from_utf8 op.text ++ drop utf16_pos text)
        | OpType.delete ↦
            take utf16_pos text
            ++ drop (utf8_to_utf16_offset utf8_before (add32 op.position op.length)) text
      ]

  -- The change of the document calls `onContentsChange`, which only sets `last_known_text_` then.
  unfoldable pub apply_remote_operation : EditorWidget → Operation → EditorWidget
  unfolding utf16_to_utf8_offset utf8_to_utf16_offset
  apply_remote_operation w op =
      let utf8_before = to_utf8 w.last_known_text in
      let text = edited utf8_before op w.text in
      let moved = λ (offset : ℕ).
        utf8_to_utf16_offset (to_utf8 text)
          (translate (utf16_to_utf8_offset w.last_known_text offset) op) in
      if is_noop op then w else record w {
        text = text;
        last_known_text = text;
        anchor = moved w.anchor;
        position = moved w.position;
        applying_remote = false;
      }
