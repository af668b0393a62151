-- ===== src/Core/Document/History.antt =====
-- The bounds on the history of a document, and the operations that `apply_with_ot` refuses
-- (core/src/document.cpp).
use collaborative_text_edito.Common.{
  ◌+◌, ◌-◌, ◌^◌, ◌≤◌, ◌<◌, ◌≡◌, ◌⊎◌, refl, sym, ap, subst, arith, true, false, Bool-cases, inl, inr,
  ◌&&◌, ltb, [], ◌∷◌, ◌++◌, bytes, length, length-append, length-drop,
}
use collaborative_text_edito.Core.Operation.{Operation}
use collaborative_text_edito.Core.Ot.{apply}
use collaborative_text_edito.Core.Document.{
  Document, OtResult, commit, transform_from, apply_with_ot,
}
use collaborative_text_edito.Core.Document.Trim.{trim-drop, trim-oldest}

-- The revisions count what was applied, and the history ends at the newest of them.
pub record IsConsistent (d : Document) : Type 0 where
  pub counted : d.oldest_revision + length d.history ≡ d.revision
  pub in_range : d.revision < 2 ^ 32

-- An operation that is older than the history of a document with applied operations is refused with
-- `revision_too_old`, and the document stays as it was; any other operation is accepted.
pub apply_with_ot-refuses :
    (d : Document) (op : Operation)
    → ((0 < d.revision)
        × (op.revision < d.oldest_revision)
        × ((apply_with_ot d op).1.success ≡ false)
        × ((apply_with_ot d op).1.error ≡ bytes "revision_too_old")
        × ((apply_with_ot d op).0 ≡ d))
      ⊎ (((d.revision ≡ 0) ⊎ (d.oldest_revision ≤ op.revision))
          × ((apply_with_ot d op).1.success ≡ true))
unfolding apply_with_ot commit
apply_with_ot-refuses d op = ground arith

commit-counts :
    (d : Document) (op : Operation)
    → IsConsistent d
    → d.revision + 1 < 2 ^ 32
    → IsConsistent (commit d op).0
      × (length (commit d op).0.history ≤ d.history_limit)
      × (d.oldest_revision ≤ (commit d op).0.oldest_revision)
unfolding commit
commit-counts d op c h =
    let longer = length-append d.history (op ∷ []) in
    let dropped =
      trim-drop d.history_limit (d.history ++ op ∷ []) d.oldest_revision (omega (arith, longer)) in
    let moved =
      trim-oldest d.history_limit (d.history ++ op ∷ []) d.oldest_revision
        (omega (arith, longer)) in
    let left =
      length-drop (length (d.history ++ op ∷ []) - d.history_limit) (d.history ++ op ∷ []) in
    (
      record {
        counted = omega (arith, longer, moved, left, ap length dropped);
        in_range = omega arith;
      },
      omega (arith, longer, left, ap length dropped),
      omega (arith, moved),
    )

-- What holds of a document and of the reply when an operation was applied to `d`.
abbrev pub Applied : Document → Document × OtResult → Type 0
Applied d r =
    (length r.0.history ≤ d.history_limit)
    × (d.oldest_revision ≤ r.0.oldest_revision)
    × (r.0.revision ≡ d.revision + 1)
    × (r.0.dirty ≡ true)
    × (r.0.content ≡ apply d.content r.1.transformed_op)

commit-Applied :
    (d : Document) (op : Operation)
    → IsConsistent d
    → d.revision + 1 < 2 ^ 32
    → Applied d (commit d op)
unfolding commit
commit-Applied d op c h =
    let (consistent, short, grows) = commit-counts d op c h in
    (short, grows, omega arith, refl, refl)

refused-or-commit :
    (d : Document) (op : Operation)
    → (((apply_with_ot d op).0 ≡ d) × ((apply_with_ot d op).1.success ≡ false))
      ⊎ ((op' : Operation) × (apply_with_ot d op ≡ commit d op'))
unfolding apply_with_ot
refused-or-commit d op = elim (Bool-cases (ltb 0 d.revision && ltb op.revision d.oldest_revision)) [
  | inl old ↦ inl (rw old refl, rw old refl)
  | inr fresh ↦ inr (
    transform_from (d.revision - op.revision) d.history d.oldest_revision op.revision op,
    rw fresh refl,
  )
]

-- Short of 2 ^ 32 revisions `apply_with_ot`, whether it refuses or not, keeps the history and the
-- two revisions consistent.
pub apply_with_ot-IsConsistent :
    (d : Document) (op : Operation)
    → IsConsistent d
    → d.revision + 1 < 2 ^ 32
    → IsConsistent (apply_with_ot d op).0
apply_with_ot-IsConsistent d op c h = elim (refused-or-commit d op) [
  | inl (same, _) ↦ subst IsConsistent (sym same) c
  | inr (op', e) ↦ rw e ((commit-counts d op' c h).0)
]

-- Short of 2 ^ 32 revisions an operation that is not refused leaves a history within its limit and an
-- oldest revision that has not fallen; the revision goes up by one, the document is dirty, and its
-- content is the old one with the reported operation applied.
pub apply_with_ot-Applied :
    (d : Document) (op : Operation)
    → IsConsistent d
    → d.revision + 1 < 2 ^ 32
    → (apply_with_ot d op).1.success ≡ true
    → Applied d (apply_with_ot d op)
apply_with_ot-Applied d op c h ok = elim (refused-or-commit d op) [
  | inl (_, failed) ↦ cc
  | inr (op', e) ↦ rw e (commit-Applied d op' c h)
]
