-- ===== src/Tests/Core.antt =====
-- The library core at concrete inputs (core/src).
use collaborative_text_edito.Common.{
  ℕ, ◌+◌, ◌^◌, ◌<◌, ◌≡◌, refl, arith, true, false, List, [], ◌∷◌, Bytes, bytes, length, foldl,
}
use collaborative_text_edito.Common.Assoc.{nat_key}
use collaborative_text_edito.Core.Operation.{OpType, Operation, make_insert, make_delete}
use collaborative_text_edito.Core.Ot.{apply, transform}
use collaborative_text_edito.Core.Ot.Apply.{IsWellFormed}
use collaborative_text_edito.Core.Ot.Converge.{Fits, transform-converges}
use collaborative_text_edito.Core.Ot.Wrapped.{transform-wrapped_erases_rest}
use collaborative_text_edito.Core.Document
use collaborative_text_edito.Core.Document.{
  Document, apply_with_ot, transform_from, trim, needs_snapshot, mark_snapshot_created, subscribe,
  unsubscribe, subscriber_count,
}
use collaborative_text_edito.Core.Document.Log.{
  Represents, rebased, init-Represents, apply_with_ot-Represents,
}
use collaborative_text_edito.Core.Document.History.{IsConsistent}

abbrev text : Bytes
text = bytes "hello world"

abbrev ins : ℕ → Bytes → ℕ → ℕ → Operation
ins pos t user rev = record {
  type = OpType.insert;
  position = pos;
  text = t;
  length = length t;
  user_id = user;
  revision = rev;
}

abbrev del : ℕ → ℕ → ℕ → ℕ → Operation
del pos n user rev = record {
  type = OpType.delete;
  position = pos;
  text = [];
  length = n;
  user_id = user;
  revision = rev;
}

abbrev sea : Operation
sea = ins 6 (bytes "sea ") 1 0

abbrev cut : Operation
cut = del 4 4 2 0

cut-IsWellFormed : IsWellFormed cut
cut-IsWellFormed = record { in_range = omega arith; measured = λ e. cc }

sea-IsWellFormed : IsWellFormed sea
sea-IsWellFormed = record { in_range = omega arith; measured = λ e. refl }

sea-cut-Fits : Fits text sea cut
sea-cut-Fits = record {
  well = sea-IsWellFormed;
  well' = cut-IsWellFormed;
  room = omega arith;
  inside = λ e. omega arith;
  inside' = λ e. cc;
}

transform-converges_example :
    apply (apply text sea) (transform sea cut).1 ≡ apply (apply text cut) (transform sea cut).0
transform-converges_example = transform-converges text sea cut sea-cut-Fits (λ e e'. cc)

-- An insertion within an erased range is lost on both sides.
swallowed : apply (apply text sea) (transform sea cut).1 ≡ bytes "hellrld"
unfolding apply transform
swallowed = refl

-- An erasure of nothing at 5, against the erasure of 2 to 10.
abbrev nothing : Operation
nothing = del 5 0 3 0

abbrev wide : Operation
wide = del 2 8 2 0

transform-wrapped_erases_rest_example :
    apply text (transform (del 1 1 4 0) (del 4294967293 0 3 0)).0 ≡ bytes "h"
transform-wrapped_erases_rest_example =
    transform-wrapped_erases_rest text (del 1 1 4 0) (del 4294967293 0 3 0)
      (record { in_range = omega arith; measured = λ e. cc }) refl refl refl (omega arith)
      (omega arith) (omega arith)

fresh : Document
fresh = Document.init 7 (bytes "notes")

abbrev first : Operation
first = ins 0 text 1 0

program : Unit {0}
unfolding fresh Document.init apply_with_ot Document.commit transform_from Document.against trim
    apply transform make_insert make_delete
program = tt

-- Two users erase the same two bytes, and a third erases around them before the second of these
-- arrives: that one becomes an erasure of nothing at a wrapped position. The next erasure of one
-- byte that is older than it takes the whole text.
abbrev edits : List Operation
edits = first ∷ del 5 2 2 1 ∷ del 2 6 3 2 ∷ del 5 2 4 1 ∷ del 0 1 5 3 ∷ []

lost_text : (foldl (λ d op. (apply_with_ot d op).0) fresh edits).content ≡ []
unfolding program
lost_text = refl

fresh-Represents : Represents fresh [] []
unfolding fresh
fresh-Represents = init-Represents 7 (bytes "notes")

apply_with_ot-Represents_example :
    ((apply_with_ot fresh first).1.success ≡ true)
    × ((apply_with_ot fresh first).1.transformed_op ≡ rebased [] first)
    × Represents (apply_with_ot fresh first).0 [] (rebased [] first ∷ [])
apply_with_ot-Represents_example =
    apply_with_ot-Represents fresh [] [] first fresh-Represents
      (unfold fresh Document.init in omega arith) (omega arith)

fresh-IsConsistent : IsConsistent fresh
unfolding fresh Document.init
fresh-IsConsistent = record { counted = omega arith; in_range = omega arith }

room : fresh.revision + 1 < 2 ^ 32
unfolding fresh Document.init
room = omega arith

-- A document whose history begins at revision 5.
abbrev old : Document
old = record {
  id = 7;
  title = bytes "notes";
  content = text;
  revision = 6;
  history = first ∷ [];
  history_limit = 1;
  oldest_revision = 5;
  subscribers = 1 ∷ 3 ∷ [];
  dirty = false;
  snapshot_threshold = 3;
  last_snapshot_revision = 0;
}
