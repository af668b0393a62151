-- ===== src/Server/Autosave/Lost.antt =====
-- When a document that counts as saved is what its file holds (server/src/autosave.cpp).
use collaborative_text_edito.Common.{
  ◌+◌, ◌≡◌, ◌≢◌, ◌⊎◌, inl, inr, refl, ap, sym, ◌∙◌, subst, arith, Bool, true, false, ltb, ◌&&◌,
  Bool-cases, some, length, take, take_all,
}
use collaborative_text_edito.Core.Operation.{Operation}
use collaborative_text_edito.Core.Document.{
  Document, commit, apply_with_ot, mark_saved, mark_snapshot_created,
}
use collaborative_text_edito.Server.Autosave.{
  Position, waiting, saving, read_content, read_revision, writing, written, renamed, saved,
  snapping, read_snapshot, named_snapshot, marking, Autosave, go, edit, find_dirty, get_content,
  get_revision, not_opened, open_file, write, close, write_fails, rename, mark, no_snapshot, due,
  get_snapshot, name_snapshot, not_created, write_snapshot, mark_snapshot, Steps, stay, more,
}

-- An operation that is refused changes nothing, and one that is applied leaves the document dirty.
edited :
    (d : Document) (op : Operation)
    → ((apply_with_ot d op).0 ≡ d) ⊎ ((apply_with_ot d op).0.dirty ≡ true)
unfolding apply_with_ot commit
edited d op = elim (Bool-cases (ltb 0 d.revision && ltb op.revision d.oldest_revision)) [
  | inl refused ↦ inl (rw refused refl)
  | inr applied ↦ inr (rw applied refl)
]

-- Between the reading of the content and `mark_saved`.
abbrev pub in_window : Position → Bool
in_window (read_content content) = true
in_window (read_revision content) = true
in_window (writing content n) = true
in_window written = true
in_window renamed = true
in_window _ = false

-- A run in which no operation is applied in the window and no write fails.
abbrev pub IsCalm : {s t : Autosave} → Steps s t → Type 0
IsCalm stay = Unit {0}
IsCalm (more {t} r (edit op)) = (in_window t.position ≡ false) × IsCalm r
IsCalm (more r (write_fails content n at)) = ⊥
IsCalm (more r st) = IsCalm r

-- What the thread holds is what the document has.
abbrev Matches : Autosave → Position → Type 0
Matches s (read_content content) = content ≡ s.doc.content
Matches s (read_revision content) = content ≡ s.doc.content
Matches s (writing content n) = (content ≡ s.doc.content) × (s.temporary ≡ some (take n content))
Matches s written = s.temporary ≡ some s.doc.content
Matches s renamed = s.file ≡ some s.doc.content
Matches s _ = Unit {0}

record IsClean (s : Autosave) : Type 0 where
  clean : s.doc.dirty ≡ false → s.file ≡ some s.doc.content
  matches : Matches s s.position

matches_outside : (s : Autosave) (p : Position) → in_window p ≡ false → Matches s p
matches_outside s waiting e = tt
matches_outside s saving e = tt
matches_outside s (read_content content) e = cc
matches_outside s (read_revision content) e = cc
matches_outside s (writing content n) e = cc
matches_outside s written e = cc
matches_outside s renamed e = cc
matches_outside s saved e = tt
matches_outside s snapping e = tt
matches_outside s (read_snapshot content) e = tt
matches_outside s (named_snapshot content revision) e = tt
matches_outside s marking e = tt

module _ {s : Autosave} (c : IsClean s) where
  open c use {clean, matches}

  at : (p : Position) → s.position ≡ p → Matches s p
  at p e = subst (Matches s) e matches

  edit-IsClean :
      (op : Operation)
      → in_window s.position ≡ false
      → IsClean (record s { doc = (apply_with_ot s.doc op).0 })
  edit-IsClean op outside = record {
    clean = λ e. kept_clean e (edited s.doc op);
    matches = matches_outside (record s { doc = (apply_with_ot s.doc op).0 }) s.position outside;
  }
    where
      kept_clean :
          (apply_with_ot s.doc op).0.dirty ≡ false
          → ((apply_with_ot s.doc op).0 ≡ s.doc) ⊎ ((apply_with_ot s.doc op).0.dirty ≡ true)
          → s.file ≡ some (apply_with_ot s.doc op).0.content
      kept_clean e (inl same) =
          subst (λ (d : Document). s.file ≡ some d.content) (sym same)
            (clean (sym (ap (λ (d : Document). d.dirty) same) ∙ e))
      kept_clean e (inr dirty) = cc

-- A step to a position where nothing is held, which leaves the content, the mark and the file alone.
rested : {s : Autosave} (p : Position) → IsClean s → Matches (go s p) p → IsClean (go s p)
rested p c m = record { clean = c.clean; matches = m }

Steps-IsClean : {s t : Autosave} → IsClean s → (r : Steps s t) → IsCalm r → IsClean t
unfolding mark_saved mark_snapshot_created
Steps-IsClean c stay calm = c
Steps-IsClean c (more r (edit op)) calm = edit-IsClean (Steps-IsClean c r calm.1) op calm.0
Steps-IsClean c (more r (find_dirty e d)) calm = rested saving (Steps-IsClean c r calm) tt
Steps-IsClean c (more r (get_content e)) calm = record {
  clean = (Steps-IsClean c r calm).clean;
  matches = refl;
}
Steps-IsClean c (more r (get_revision content e)) calm = record {
  clean = (Steps-IsClean c r calm).clean;
  matches = at (Steps-IsClean c r calm) _ e;
}
Steps-IsClean c (more r (not_opened content e)) calm = rested saved (Steps-IsClean c r calm) tt
Steps-IsClean c (more r (open_file content e)) calm = record {
  clean = (Steps-IsClean c r calm).clean;
  matches = (at (Steps-IsClean c r calm) _ e, refl);
}
Steps-IsClean c (more r (write content n k e)) calm = record {
  clean = (Steps-IsClean c r calm).clean;
  matches = ((at (Steps-IsClean c r calm) (writing content n) e).0, refl);
}
Steps-IsClean c (more r (close content n e all)) calm =
    let m = at (Steps-IsClean c r calm) (writing content n) e in
    rested written (Steps-IsClean c r calm) (m.1 ∙ ap some (take_all n content all ∙ m.0))
Steps-IsClean c (more r (write_fails content n e)) calm = absurd calm
Steps-IsClean c (more r (rename e)) calm = record {
  clean = λ d. at (Steps-IsClean c r calm) _ e;
  matches = at (Steps-IsClean c r calm) _ e;
}
Steps-IsClean c (more r (mark e)) calm = record {
  clean = λ d. at (Steps-IsClean c r calm) _ e;
  matches = tt;
}
Steps-IsClean c (more r (no_snapshot e d)) calm = rested waiting (Steps-IsClean c r calm) tt
Steps-IsClean c (more r (due e d)) calm = rested snapping (Steps-IsClean c r calm) tt
Steps-IsClean c (more r (get_snapshot e)) calm = record {
  clean = (Steps-IsClean c r calm).clean;
  matches = tt;
}
Steps-IsClean c (more r (name_snapshot content e)) calm = record {
  clean = (Steps-IsClean c r calm).clean;
  matches = tt;
}
Steps-IsClean c (more r (not_created content n e)) calm = rested waiting (Steps-IsClean c r calm) tt
Steps-IsClean c (more r (write_snapshot content n e)) calm = record {
  clean = (Steps-IsClean c r calm).clean;
  matches = tt;
}
Steps-IsClean c (more r (mark_snapshot e)) calm = record {
  clean = (Steps-IsClean c r calm).clean;
  matches = tt;
}

-- From a state between two rounds in which the file holds what the document does: if no operation
-- is applied between the reading of the content and `mark_saved`, and no write fails, a document
-- that counts as saved is what its file holds, whatever else happens and whether or not the files
-- can be opened.
pub clean-file :
    {s t : Autosave} (r : Steps s t)
    → s.position ≡ Position.waiting
    → s.file ≡ some s.doc.content
    → IsCalm r
    → t.doc.dirty ≡ false
    → t.file ≡ some t.doc.content
clean-file {s} r p f calm e =
    (Steps-IsClean (record { clean = λ d. f; matches = subst (Matches s) (sym p) tt }) r calm).clean
      e

-- Whenever a round begins with a document that is to be saved, and for any operation that changes
-- its text: the round can go so that the operation is applied between the reading of the content
-- and `mark_saved`, and then the document has the operation and counts as saved, while its file
-- holds the text without the operation.
pub save-loses :
    (s : Autosave) (op : Operation)
    → s.position ≡ Position.waiting
    → s.doc.dirty ≡ true
    → (apply_with_ot s.doc op).0.content ≢ s.doc.content
    → (t : Autosave) × Steps s t
      × (t.doc.content ≡ (apply_with_ot s.doc op).0.content)
      × (t.doc.dirty ≡ false)
      × (t.file ≡ some s.doc.content)
      × (t.file ≢ some t.doc.content)
unfolding mark_saved
save-loses s op p d changed = (
  _,
  more
      (more
        (more
          (more
            (more
              (more (more (more (more stay (find_dirty p d)) (get_content refl)) (edit op))
                (get_revision s.doc.content refl))
              (open_file s.doc.content refl))
            (write s.doc.content 0 (length s.doc.content) refl))
          (close s.doc.content (0 + length s.doc.content) refl (omega arith)))
        (rename refl))
      (mark refl),
  refl,
  refl,
  ap some (take_all (0 + length s.doc.content) s.doc.content (omega arith)),
  λ e. changed (ground (arith, take_all (0 + length s.doc.content) s.doc.content (omega arith))),
)
