-- ===== src/Core/Document/Snapshots.antt =====
-- When a document asks for a snapshot (core/src/document.cpp).
use collaborative_text_edito.Common.{
  ℕ, ◌+◌, ◌%◌, ◌≤◌, ◌<◌, ◌≡◌, ◌≢◌, ◌↔◌, arith, sym, ap, ap₂, ◌∙◌, true, false, ◌^◌,
}
use native.Mathlib.Nat.{mod-add-mod, mod-eq_of_lt}
use collaborative_text_edito.Core.Operation.{Operation}
use collaborative_text_edito.Core.Document.{
  Document, commit, apply_with_ot, needs_snapshot, mark_snapshot_created,
}

-- A snapshot is due exactly at the positive multiples of a positive threshold at which none was made yet.
pub needs_snapshot_iff :
    (d : Document)
    → (needs_snapshot d ≡ true) ↔ (
        (0 < d.snapshot_threshold)
        × (0 < d.revision)
        × (d.revision % d.snapshot_threshold ≡ 0)
        × (d.revision ≢ d.last_snapshot_revision))
unfolding needs_snapshot
needs_snapshot_iff d = ground arith

-- (r + 1) % t, where t divides r.
next_mod : (r t : ℕ) → r % t ≡ 0 → (r + 1) % t ≡ (0 + 1) % t
next_mod r t h = sym (mod-add-mod r t 1) ∙ ap (λ (x : ℕ). (x + 1) % t) h

next_multiple : (r t : ℕ) → 0 < t → r % t ≡ 0 → ((r + 1) % t ≡ 0) ↔ (t ≡ 1)
next_multiple r t p h = (
  λ e. ground (arith, next_mod r t h, λ (q : 1 < t). mod-eq_of_lt {n = 1} {m = t} q),
  λ e. rw e (omega arith),
)

module _ (d : Document) (op : Operation) where
  -- The document when the snapshot of `d` is made, and after the next operation.
  abbrev later : Document
  later = (apply_with_ot (mark_snapshot_created d) op).0

  later_counts :
      d.revision + 1 < 2 ^ 32
      → d.oldest_revision ≤ op.revision
      → (later.snapshot_threshold ≡ d.snapshot_threshold)
        × (later.revision ≡ d.revision + 1)
        × (later.last_snapshot_revision ≡ d.revision)
  unfolding mark_snapshot_created apply_with_ot commit
  later_counts h k = ground arith

  mark-done : needs_snapshot (mark_snapshot_created d) ≡ false
  unfolding needs_snapshot mark_snapshot_created
  mark-done = ground arith

  -- Once the snapshot that is due is made none is due, and after the next operation that is not
  -- refused one is due again only at a threshold of 1.
  pub needs_snapshot-mark :
      needs_snapshot d ≡ true
      → d.revision + 1 < 2 ^ 32
      → d.oldest_revision ≤ op.revision
      → (needs_snapshot (mark_snapshot_created d) ≡ false)
        × ((needs_snapshot later ≡ true) ↔ (d.snapshot_threshold ≡ 1))
  needs_snapshot-mark due h k =
      let (positive, started, divides, unseen) = (needs_snapshot_iff d).0 due in
      let (same, next, last) = later_counts h k in
      let turn = next_multiple d.revision d.snapshot_threshold positive divides in
      let reached : later.revision % later.snapshot_threshold
          ≡ (d.revision + 1) % d.snapshot_threshold =
        ap₂ (λ (x y : ℕ). x % y) next same in
      (
        mark-done,
        (
          λ e. turn.0 (sym reached ∙ ((needs_snapshot_iff later).0 e).2),
          λ e.
              (needs_snapshot_iff later).1
                (omega arith, omega arith, reached ∙ turn.1 e, omega arith),
        ),
      )
