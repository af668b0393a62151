-- ===== src/Server/Autosave.antt =====
-- server/src/autosave.cpp: a round of `run` over one document, with the operations that its session
-- applies in between. An access to the document, which locks it, is one step, and so is one to a file.
pub mod Versions
pub mod Lost
use collaborative_text_edito.Common.{
  ℕ, ◌+◌, ◌≤◌, ◌≡◌, length, take, Bool, true, false, Option, none, some, List, [], ◌∷◌, Bytes,
}
use collaborative_text_edito.Core.Operation.{Operation}
use collaborative_text_edito.Core.Document.{
  Document, apply_with_ot, mark_saved, needs_snapshot, mark_snapshot_created,
}

-- Where the thread stands in `save_document` and `maybe_create_snapshot`, with the content and the
-- revision that it has read.
pub data Position : Type 0 where
  waiting : Position
  saving : Position  -- before `get_content`
  read_content : (content : Bytes) → Position
  read_revision : (content : Bytes) → Position  -- before the temporary file is opened
  writing : (content : Bytes) (n : ℕ) → Position  -- with `n` bytes in the file
  written : Position  -- before the temporary file is renamed
  renamed : Position  -- before `mark_saved`
  saved : Position  -- before `needs_snapshot`
  snapping : Position
  read_snapshot : (content : Bytes) → Position
  named_snapshot : (content : Bytes) (revision : ℕ) → Position
  marking : Position  -- before `mark_snapshot_created`

-- The document, the thread, the file of the document with its temporary file, and the snapshots by
-- their revisions, the latest first.
pub record Autosave : Type 0 where
  pub doc : Document
  pub position : Position
  pub file : Option Bytes
  pub temporary : Option Bytes
  pub snapshots : List (ℕ × Bytes)

abbrev pub go : Autosave → Position → Autosave
go s p = record s { position = p }

-- The file is written piece by piece. The state of the stream is not looked at: after a write that
-- failed the code goes on as after the last one (`write_fails`). A snapshot is written in one step.
pub data Step (s : Autosave) : Autosave → Type 0 where
  edit : (op : Operation) → Step s (record s { doc = (apply_with_ot s.doc op).0 })
  find_dirty : s.position ≡ Position.waiting → s.doc.dirty ≡ true → Step s (go s Position.saving)
  get_content : s.position ≡ Position.saving → Step s (go s (Position.read_content s.doc.content))
  get_revision :
      (content : Bytes)
      → s.position ≡ Position.read_content content
      → Step s (go s (Position.read_revision content))
  not_opened :
      (content : Bytes) → s.position ≡ Position.read_revision content → Step s (go s Position.saved)
  open_file :
      (content : Bytes)
      → s.position ≡ Position.read_revision content
      → Step s (go (record s { temporary = some [] }) (Position.writing content 0))
  write :
      (content : Bytes) (n k : ℕ)
      → s.position ≡ Position.writing content n
      → Step s (
          go
            (record s { temporary = some (take (n + k) content) })
            (Position.writing content (n + k)))
  close :
      (content : Bytes) (n : ℕ)
      → s.position ≡ Position.writing content n
      → length content ≤ n
      → Step s (go s Position.written)
  write_fails :
      (content : Bytes) (n : ℕ)
      → s.position ≡ Position.writing content n
      → Step s (go s Position.written)
  rename :
      s.position ≡ Position.written
      → Step s (go (record s { file = s.temporary; temporary = none }) Position.renamed)
  mark :
      s.position ≡ Position.renamed
      → Step s (go (record s { doc = mark_saved s.doc }) Position.saved)
  no_snapshot :
      s.position ≡ Position.saved → needs_snapshot s.doc ≡ false → Step s (go s Position.waiting)
  due : s.position ≡ Position.saved → needs_snapshot s.doc ≡ true → Step s (go s Position.snapping)
  get_snapshot :
      s.position ≡ Position.snapping → Step s (go s (Position.read_snapshot s.doc.content))
  name_snapshot :
      (content : Bytes)
      → s.position ≡ Position.read_snapshot content
      → Step s (go s (Position.named_snapshot content s.doc.revision))
  not_created :
      (content : Bytes) (revision : ℕ)
      → s.position ≡ Position.named_snapshot content revision
      → Step s (go s Position.waiting)
  write_snapshot :
      (content : Bytes) (revision : ℕ)
      → s.position ≡ Position.named_snapshot content revision
      → Step s (go (record s { snapshots = (revision, content) ∷ s.snapshots }) Position.marking)
  mark_snapshot :
      s.position ≡ Position.marking
      → Step s (go (record s { doc = mark_snapshot_created s.doc }) Position.waiting)

pub data Steps (s : Autosave) : Autosave → Type 0 where
  stay : Steps s s
  more : {t u : Autosave} → Steps s t → Step t u → Steps s u
