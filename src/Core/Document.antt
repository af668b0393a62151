-- ===== src/Core/Document.antt =====
-- core/include/collab/document.h, core/src/document.cpp: a document, its bounded history of applied
-- operations, and the operations that wait for it. The mutexes make each method one step.
mod Trim
pub mod Log
pub mod History
pub mod Snapshots
pub mod Subscribers
pub mod Drain
use collaborative_text_edito.Common.{
  ℕ, zero, suc, ◌+◌, ◌-◌, ◌%◌, ◌≡◌, Bool, true, false, not, ◌&&◌, ◌==◌, Option, none, some, List,
  [], ◌∷◌, ◌++◌, Bytes, bytes, ltb, if◌then◌else◌, add32, sub32, length, get_elem?,
}
use collaborative_text_edito.Core.Operation.{OpType, Operation}
use collaborative_text_edito.Core.Ot.{transform, apply}

pub record OtResult : Type 0 where
  pub success : Bool
  pub error : Bytes
  pub transformed_op : Operation

pub record Document : Type 0 where
  pub id : ℕ
  pub title : Bytes
  pub content : Bytes
  pub revision : ℕ
  pub history : List Operation
  pub history_limit : ℕ
  pub oldest_revision : ℕ
  pub subscribers : List ℕ
  pub dirty : Bool
  pub snapshot_threshold : ℕ
  pub last_snapshot_revision : ℕ

unfoldable pub init : ℕ → Bytes → Document
init id title = record {
  id = id;
  title = title;
  content = [];
  revision = 0;
  history = [];
  history_limit = 10000;
  oldest_revision = 0;
  subscribers = [];
  dirty = false;
  snapshot_threshold = 100;
  last_snapshot_revision = 0;
}

-- `Operation{}`
abbrev no_operation : Operation
no_operation = record {
  type = OpType.insert;
  position = 0;
  text = [];
  length = 0;
  user_id = 0;
  revision = 0;
}

-- One round of the loop of `apply_with_ot`, at the revision `i`.
unfoldable pub against : List Operation → ℕ → ℕ → Operation → Operation
against history oldest i op = elim (get_elem? history (sub32 i oldest)) [
  | none ↦ op
  | some past ↦ (transform op past).0
]

-- The loop, with the rounds that are left and the revision `i`.
unfoldable pub transform_from : ℕ → List Operation → ℕ → ℕ → Operation → Operation
transform_from zero history oldest i op = op
transform_from (suc rounds) history oldest i op =
    transform_from rounds history oldest (suc i) (against history oldest i op)

-- The loop that drops what the history has too many, with the oldest revision that is left.
unfoldable pub trim : ℕ → List Operation → ℕ → List Operation × ℕ
trim limit [] oldest = ([], oldest)
trim limit (op ∷ ops) oldest =
    let shorter = trim limit ops (add32 oldest 1) in
    if ltb limit (length (op ∷ ops)) then shorter else (op ∷ ops, oldest)

-- `apply_with_ot` behind its guard, for the operation as it is transformed.
unfoldable pub commit : Document → Operation → Document × OtResult
commit d op =
    let (history, oldest) = trim d.history_limit (d.history ++ op ∷ []) d.oldest_revision in
    (
      record d {
        content = apply d.content op;
        history = history;
        oldest_revision = oldest;
        revision = add32 d.revision 1;
        dirty = true;
      },
      record { success = true; error = []; transformed_op = op },
    )

unfoldable pub apply_with_ot : Document → Operation → Document × OtResult
apply_with_ot d op =
    if ltb 0 d.revision && ltb op.revision d.oldest_revision
    then (
      d,
      record { success = false; error = bytes "revision_too_old"; transformed_op = no_operation },
    )
    else commit d
        (transform_from (d.revision - op.revision) d.history d.oldest_revision op.revision op)

unfoldable pub set_content : Document → Bytes → Document
set_content d content = record d { content = content }

unfoldable pub load_content : Document → Bytes → Document
load_content d content = record d { content = content; dirty = false }

unfoldable pub mark_saved : Document → Document
mark_saved d = record d { dirty = false }

unfoldable pub set_history_limit : Document → ℕ → Document
set_history_limit d limit = record d { history_limit = limit }

abbrev pub history_size : Document → ℕ
history_size d = length d.history

unfoldable pub needs_snapshot : Document → Bool
needs_snapshot d =
    ltb 0 d.snapshot_threshold
    && (ltb 0 d.revision
        && ((d.revision % d.snapshot_threshold == 0)
            && not (d.revision == d.last_snapshot_revision)))

unfoldable pub mark_snapshot_created : Document → Document
mark_snapshot_created d = record d { last_snapshot_revision = d.revision }

unfoldable pub set_snapshot_threshold : Document → ℕ → Document
set_snapshot_threshold d threshold = record d { snapshot_threshold = threshold }

-- `std::set<uint32_t>`: its insertion and its erasure, on its elements in their order.
pub set_insert : ℕ → List ℕ → List ℕ
set_insert u [] = u ∷ []
set_insert u (v ∷ vs) =
    if ltb u v then u ∷ v ∷ vs else if u == v then v ∷ vs else v ∷ set_insert u vs

pub set_erase : ℕ → List ℕ → List ℕ
set_erase u [] = []
set_erase u (v ∷ vs) = if u == v then vs else v ∷ set_erase u vs

unfoldable pub subscribe : Document → ℕ → Document
unfolding set_insert
subscribe d user = record d { subscribers = set_insert user d.subscribers }

unfoldable pub unsubscribe : Document → ℕ → Document
unfolding set_erase
unsubscribe d user = record d { subscribers = set_erase user d.subscribers }

abbrev pub subscriber_count : Document → ℕ
subscriber_count d = length d.subscribers
