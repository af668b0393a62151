-- ===== src/Server/Autosave/Versions.antt =====
-- What the files of a document hold (server/src/autosave.cpp), against the contents that the document
-- has had.
use collaborative_text_edito.Common.{
  ◌≡◌, ◌⊎◌, inl, inr, refl, ap, sym, ◌∙◌, subst, arith, Option, none, some, Bytes, take, take_all,
}
use collaborative_text_edito.Server.Autosave.{
  Position, waiting, saving, read_content, read_revision, writing, written, renamed, saved,
  snapping, read_snapshot, named_snapshot, marking, Autosave, Step, edit, find_dirty, get_content,
  get_revision, not_opened, open_file, write, close, write_fails, rename, mark, no_snapshot, due,
  get_snapshot, name_snapshot, not_created, write_snapshot, mark_snapshot, Steps, stay, more,
}

-- A content that the document has in some state of the run.
abbrev pub Version : {s t : Autosave} → Bytes → Steps s t → Type 0
Version {s} content stay = s.doc.content ≡ content
Version {t} content (more r st) = (t.doc.content ≡ content) ⊎ Version content r

Version-now : {s t : Autosave} (r : Steps s t) → Version t.doc.content r
Version-now stay = refl
Version-now (more r st) = inl refl

abbrev held : Position → Option Bytes
held (read_content content) = some content
held (read_revision content) = some content
held (writing content n) = some content
held (read_snapshot content) = some content
held (named_snapshot content revision) = some content
held _ = none

-- A run in which no write fails.
abbrev pub IsWritten : {s t : Autosave} → Steps s t → Type 0
IsWritten stay = Unit {0}
IsWritten (more r (write_fails content n at)) = ⊥
IsWritten (more r st) = IsWritten r

-- What the temporary file holds: a part of a content while it is written, else a whole one.
abbrev Temporary : {s t : Autosave} → Steps s t → Position → Option Bytes → Type 0
Temporary r (writing content n) temporary = temporary ≡ some (take n content)
Temporary r _ temporary = (c : Bytes) → temporary ≡ some c → Version c r

record Known {s t : Autosave} (r : Steps s t) : Type 0 where
  file : (c : Bytes) → t.file ≡ some c → Version c r
  temporary : Temporary r t.position t.temporary
  thread : (c : Bytes) → held t.position ≡ some c → Version c r

module _ {s t : Autosave} {r : Steps s t} (k : Known r) where
  temporary_at : (p : Position) → t.position ≡ p → Temporary r p t.temporary
  temporary_at p at = subst (λ p. Temporary r p t.temporary) at k.temporary

  -- A step that leaves the file alone.
  module _ {u : Autosave} (st : Step t u) where
    known :
        u.file ≡ t.file
        → Temporary (more r st) u.position u.temporary
        → ((c : Bytes) → held u.position ≡ some c → Version c (more r st))
        → Known (more r st)
    known f g h = record { file = λ c e. inr (k.file c (sym f ∙ e)); temporary = g; thread = h }

    carried :
        (p : Position) (temporary : Option Bytes)
        → Temporary r p temporary
        → Temporary (more r st) p temporary
    carried waiting temporary g = λ c e. inr (g c e)
    carried saving temporary g = λ c e. inr (g c e)
    carried (read_content content) temporary g = λ c e. inr (g c e)
    carried (read_revision content) temporary g = λ c e. inr (g c e)
    carried (writing content n) temporary g = g
    carried written temporary g = λ c e. inr (g c e)
    carried renamed temporary g = λ c e. inr (g c e)
    carried saved temporary g = λ c e. inr (g c e)
    carried snapping temporary g = λ c e. inr (g c e)
    carried (read_snapshot content) temporary g = λ c e. inr (g c e)
    carried (named_snapshot content revision) temporary g = λ c e. inr (g c e)
    carried marking temporary g = λ c e. inr (g c e)

    -- What the thread held before the step.
    thread_at :
        (p : Position) (content : Bytes)
        → t.position ≡ p
        → held p ≡ some content
        → Version content (more r st)
    thread_at p content at e = inr (k.thread content (ap held at ∙ e))

Step-Known :
    {s t u : Autosave} (r : Steps s t) (st : Step t u)
    → IsWritten (more r st)
    → Known r
    → Known (more r st)
Step-Known {t} r (edit op) w k =
    known k (edit op) refl (carried k (edit op) t.position t.temporary k.temporary)
      (λ c e. inr (k.thread c e))
Step-Known r (find_dirty at d) w k =
    known k (find_dirty at d) refl (λ c e. inr (temporary_at k waiting at c e)) (λ c e. cc)
Step-Known r (get_content at) w k =
    known k (get_content at) refl (λ c e. inr (temporary_at k saving at c e))
      (λ c e. inl (ground arith))
Step-Known r (get_revision content at) w k =
    known k (get_revision content at) refl
      (λ c e. inr (temporary_at k (read_content content) at c e))
      (λ c e. thread_at k (get_revision content at) (read_content content) c at e)
Step-Known r (not_opened content at) w k =
    known k (not_opened content at) refl
      (λ c e. inr (temporary_at k (read_revision content) at c e)) (λ c e. cc)
Step-Known r (open_file content at) w k =
    known k (open_file content at) refl refl
      (λ c e. thread_at k (open_file content at) (read_revision content) c at e)
Step-Known r (write content n m at) w k =
    known k (write content n m at) refl refl
      (λ c e. thread_at k (write content n m at) (writing content n) c at e)
Step-Known r (close content n at all) w k =
    known k (close content n at all) refl
      (λ c e.
        thread_at k (close content n at all) (writing content n) c at (
          ap some (sym (take_all n content all)) ∙ sym (temporary_at k (writing content n) at) ∙ e))
      (λ c e. cc)
Step-Known r (write_fails content n at) w k = absurd w
Step-Known r (rename at) w k = record {
  file = λ c e. inr (temporary_at k written at c e);
  temporary = λ c e. cc;
  thread = λ c e. cc;
}
Step-Known r (mark at) w k =
    known k (mark at) refl (λ c e. inr (temporary_at k renamed at c e)) (λ c e. cc)
Step-Known r (no_snapshot at d) w k =
    known k (no_snapshot at d) refl (λ c e. inr (temporary_at k saved at c e)) (λ c e. cc)
Step-Known r (due at d) w k =
    known k (due at d) refl (λ c e. inr (temporary_at k saved at c e)) (λ c e. cc)
Step-Known r (get_snapshot at) w k =
    known k (get_snapshot at) refl (λ c e. inr (temporary_at k snapping at c e))
      (λ c e. inl (ground arith))
Step-Known r (name_snapshot content at) w k =
    known k (name_snapshot content at) refl
      (λ c e. inr (temporary_at k (read_snapshot content) at c e))
      (λ c e. thread_at k (name_snapshot content at) (read_snapshot content) c at e)
Step-Known r (not_created content n at) w k =
    known k (not_created content n at) refl
      (λ c e. inr (temporary_at k (named_snapshot content n) at c e)) (λ c e. cc)
Step-Known r (write_snapshot content n at) w k =
    known k (write_snapshot content n at) refl
      (λ c e. inr (temporary_at k (named_snapshot content n) at c e)) (λ c e. cc)
Step-Known r (mark_snapshot at) w k =
    known k (mark_snapshot at) refl (λ c e. inr (temporary_at k marking at c e)) (λ c e. cc)

before : {s t u : Autosave} (r : Steps s t) (st : Step t u) → IsWritten (more r st) → IsWritten r
before r (write_fails content n at) w = absurd w
before r (edit op) w = w
before r (find_dirty at d) w = w
before r (get_content at) w = w
before r (get_revision content at) w = w
before r (not_opened content at) w = w
before r (open_file content at) w = w
before r (write content n m at) w = w
before r (close content n at all) w = w
before r (rename at) w = w
before r (mark at) w = w
before r (no_snapshot at d) w = w
before r (due at d) w = w
before r (get_snapshot at) w = w
before r (name_snapshot content at) w = w
before r (not_created content n at) w = w
before r (write_snapshot content n at) w = w
before r (mark_snapshot at) w = w

Steps-Known :
    {s t : Autosave}
    → s.position ≡ Position.waiting
    → s.file ≡ some s.doc.content
    → s.temporary ≡ none
    → (r : Steps s t) → IsWritten r
    → Known r
Steps-Known {s} p f g stay w = record {
  file = λ c e. ground arith;
  temporary = subst (λ p. Temporary {s = s} {t = s} stay p s.temporary) (sym p) (λ c e. cc);
  thread = λ c e. absurd (ground (arith, ap held p));
}
Steps-Known p f g (more r st) w = Step-Known r st w (Steps-Known p f g r (before r st w))

-- From a state between two rounds in which the file holds what the document does, and there is no
-- temporary file: if no write fails, then whatever operations are applied in between, the file is
-- never a part of a content but a content that the document has had, also while the next one is
-- being written.
pub Steps-Version :
    {s t : Autosave} (r : Steps s t) (c : Bytes)
    → s.position ≡ Position.waiting
    → s.file ≡ some s.doc.content
    → s.temporary ≡ none
    → IsWritten r
    → t.file ≡ some c
    → Version c r
Steps-Version r c p f g w e = (Steps-Known p f g r w).file c e
