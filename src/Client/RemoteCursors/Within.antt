-- ===== src/Client/RemoteCursors/Within.antt =====
-- Where the remote cursors stand (client/src/remote_cursors_model.cpp), in the document that an
-- operation leaves; and that the user's own cursor is never among them.
use collaborative_text_edito.Common.{
  ℕ, ◌≤◌, ◌≡◌, ◌≢◌, refl, sym, subst, ◌∙◌, arith, inl, inr, Bool, true, false, Bool-cases, ◌==◌,
  ==_iff, Option, none, some, Option-cases, List, [], ◌∷◌, Bytes, length,
}
use collaborative_text_edito.Common.Assoc.{nat_key, lookup, lookup-insert, lookup-erase}
use collaborative_text_edito.Core.Operation.{Operation, is_noop}
use collaborative_text_edito.Core.Ot.{apply}
use collaborative_text_edito.Protocol.Messages.{CursorInfo, CursorBroadcastMsg}
use collaborative_text_edito.Client.CursorTranslator.Anchors.{Fits, translate-le-length}
use collaborative_text_edito.Client.RemoteCursors.{
  RemoteCursor, RemoteCursorsModel, emplace, collect, apply_broadcast, translate_option, move_all,
  apply_remote_operation, remove_user, clear,
}

abbrev pub OptionWithin : ℕ → Option ℕ → Type 0
OptionWithin n none = Unit {0}
OptionWithin n (some pos) = pos ≤ n

-- The cursor and its selection stand in a text of that length, its end included.
abbrev pub CursorWithin : ℕ → RemoteCursor → Type 0
CursorWithin n c =
    (c.position ≤ n) × OptionWithin n c.selection_start × OptionWithin n c.selection_end

abbrev pub Within : ℕ → List (ℕ × RemoteCursor) → Type 0
Within n [] = Unit {0}
Within n ((k, c) ∷ cs) = CursorWithin n c × Within n cs

option-Within :
    (d : Bytes) (op : Operation) (pos : Option ℕ)
    → Fits d op
    → OptionWithin (length d) pos
    → OptionWithin (length (apply d op)) (translate_option pos op)
option-Within d op none f h = tt
option-Within d op (some pos) f h = translate-le-length d op pos f h

all-Within :
    (d : Bytes) (op : Operation) (cs : List (ℕ × RemoteCursor))
    → Fits d op
    → Within (length d) cs
    → Within (length (apply d op)) (move_all op cs)
unfolding move_all
all-Within d op [] f h = tt
all-Within d op ((k, c) ∷ cs) f h = (
  (
    translate-le-length d op c.position f h.0.0,
    option-Within d op c.selection_start f h.0.1,
    option-Within d op c.selection_end f h.0.2,
  ),
  all-Within d op cs f h.1,
)

noop-same : (d : Bytes) (op : Operation) → is_noop op ≡ true → apply d op ≡ d
unfolding apply
noop-same d op e = ground arith

moved_cursors :
    (u : ℕ) (cs : List (ℕ × RemoteCursor)) (op : Operation)
    → is_noop op ≡ false
    → (apply_remote_operation (record { cursors = cs; local_user_id = u }) op).0.cursors
      ≡ move_all op cs
unfolding apply_remote_operation move_all
moved_cursors u [] op e = rw (e, apply_remote_operation) refl
moved_cursors u (c ∷ cs) op e = rw (e, apply_remote_operation) refl

-- Cursors and selections that stand in the document stand in the one that a remote operation leaves,
-- on a document and an operation that fit 31 bits.
pub apply_remote_operation-Within :
    (d : Bytes) (op : Operation) (m : RemoteCursorsModel)
    → Fits d op
    → Within (length d) m.cursors
    → Within (length (apply d op)) (apply_remote_operation m op).0.cursors
unfolding apply_remote_operation
apply_remote_operation-Within d op m f h = elim (Bool-cases (is_noop op)) [
  | inl e ↦
      rw (e, apply_remote_operation)
        (subst (λ t. Within (length t) m.cursors) (sym (noop-same d op e)) h)
  | inr e ↦
      subst (Within (length (apply d op))) (sym (moved_cursors m.local_user_id m.cursors op e))
        (all-Within d op m.cursors f h)
]

emplace-other :
    (own k : ℕ) (c : RemoteCursor) (m : List (ℕ × RemoteCursor))
    → k ≢ own
    → lookup own m ≡ none
    → lookup own (emplace k c m) ≡ none
unfolding emplace
emplace-other own k c m n e = elim (Option-cases (lookup k m)) [
  | inl f ↦ rw (f, emplace) (lookup-insert k own c m ∙ ground (arith, n, e, ==_iff k own))
  | inr (x, f) ↦ rw (f, emplace) e
]

collect-other :
    (is_valid : Bytes → Bool) (own : ℕ) (cs : List CursorInfo) (next : List (ℕ × RemoteCursor))
    → lookup own next ≡ none
    → lookup own (collect is_valid own cs next) ≡ none
unfolding collect
collect-other is_valid own [] next e = e
collect-other is_valid own (c ∷ cs) next e = elim (Bool-cases (c.user_id == own)) [
  | inl same ↦ rw (same, collect) (collect-other is_valid own cs next e)
  | inr other ↦
      rw (other, collect)
        (collect-other is_valid own cs _
          (emplace-other own c.user_id _ next (λ s. ground (arith, other, ==_iff c.user_id own)) e))
]

moved-other :
    (own : ℕ) (op : Operation) (cs : List (ℕ × RemoteCursor))
    → lookup own cs ≡ none
    → lookup own (move_all op cs) ≡ none
unfolding move_all lookup
moved-other own op [] e = refl
moved-other own op ((k, c) ∷ cs) e = ground (arith, moved-other own op cs)

-- The user's own cursor is not among them after a broadcast, and no operation and no user who leaves
-- brings it in.
pub cursors-exclude_own :
    (is_valid : Bytes → Bool) (m : RemoteCursorsModel) (msg : CursorBroadcastMsg) (op : Operation)
    (user_id : ℕ)
    → lookup m.local_user_id m.cursors ≡ none
    → (lookup m.local_user_id (apply_broadcast is_valid m msg).0.cursors ≡ none)
      × (lookup m.local_user_id (apply_remote_operation m op).0.cursors ≡ none)
      × (lookup m.local_user_id (remove_user m user_id).0.cursors ≡ none)
      × (lookup m.local_user_id (clear m).0.cursors ≡ none)
unfolding apply_broadcast remove_user clear lookup apply_remote_operation
cursors-exclude_own is_valid m msg op user_id e = (
  collect-other is_valid m.local_user_id msg.cursors [] refl,
  ground (arith, e, moved-other m.local_user_id op m.cursors),
  lookup-erase user_id m.local_user_id m.cursors ∙ ground (arith, e),
  ground (arith, e),
)
