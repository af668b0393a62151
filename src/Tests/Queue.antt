-- ===== src/Tests/Queue.antt =====
-- Runs of the queue of many producers (core/include/collab/mpsc_queue.h).
use collaborative_text_edito.Common.{
  ℕ, ◌≤◌, ◌<◌, ◌≡◌, ◌≢◌, refl, arith, none, some, [], ◌∷◌, if◌then◌else◌, ◌==◌, Option, bytes,
  length, foldl,
}
use collaborative_text_edito.Core.MpscQueue.{
  Place, allocate, link, swing, advance, delete, constructed,
}
use collaborative_text_edito.Core.MpscQueue.Threads.{
  System, Event, Step, create, find_slot, take_slot, load_tail, announce, confirm, see_null,
  see_empty, link_node, swing_tail, clear, load_next, see_tail, pass, take, begin_scan, scan,
  end_scan, remove, start, contains,
}
use collaborative_text_edito.Core.MpscQueue.Safety.{
  Reach, first, later, Accesses, by_producer, of_value, Reach-allocated,
}
use collaborative_text_edito.Core.MpscQueue.Order.{contents, Fifo, Reach-Fifo, linked_on}
use collaborative_text_edito.Core.Operation.{OpType, Operation}
use collaborative_text_edito.Core.Document
use collaborative_text_edito.Core.Document.Drain.{
  apply_one, process_queue, total, process_queue-foldl,
}
use collaborative_text_edito.Core.MpscQueue.Progress.{left, Nearer, try_dequeue_ends}

infixl 5 ◌⊳◌
-- Any steps from a state.
data Steps {T : Type 0} (max_producers : ℕ) (s : System T) : System T → Type 0 where
  stop : Steps max_producers s s
  ◌⊳◌ :
      {t u : System T} {e : Event T}
      → Steps max_producers s t
      → Step max_producers t e u
      → Steps max_producers s u

reached :
    {T : Type 0} {max_producers : ℕ} {value : T} {s : System T}
    → Steps max_producers (start value (λ i. none)) s
    → Reach max_producers value s
reached stop = first
reached (r ⊳ st) = later (reached r) st

zero_lt_one : 0 < 1
zero_lt_one = omega arith

one_le_one : 1 ≤ 1
one_le_one = omega arith

three_ne : (n : ℕ) → n < 3 → 3 ≢ n
three_ne n h e = omega arith

three_ne_zero : ◌≢◌ {A = ℕ} 3 0
three_ne_zero = three_ne 0 (omega arith)

one_ne_zero : ◌≢◌ {A = ℕ} 1 0
one_ne_zero e = omega arith

three_ne_two : ◌≢◌ {A = ℕ} 3 2
three_ne_two = three_ne 2 (omega arith)

-- Thread 0 has an entry for the address of the queue in its cache, left by a queue that is gone.
abbrev stale : ℕ → Option ℕ
stale i = if i == 0 then some 0 else none

-- The slot of thread 0 is not counted, and thread 1 gets the same one. Thread 0 is about to read the
-- sentinel, which the consumer has deleted.
stale_slot :
    (t : System ℕ) × Steps 1 (start 0 stale) t × Accesses t 0 × (t.mem.place 0 ≡ Place.free)
unfolding allocate link swing advance delete constructed contains
stale_slot = (
  _,
  stop
      ⊳ create 0 1 7 refl refl
      ⊳ find_slot 0 1 0 7 refl refl
      ⊳ load_tail 0 1 7 refl
      ⊳ announce 0 1 0 0 7 refl refl
      ⊳ confirm 0 1 0 7 refl refl
      ⊳ create 1 2 8 refl refl
      ⊳ take_slot 1 2 8 refl refl zero_lt_one
      ⊳ load_tail 1 2 8 refl
      ⊳ announce 1 2 0 0 8 refl refl
      ⊳ confirm 1 2 0 8 refl refl
      ⊳ see_null 1 2 0 8 refl refl
      ⊳ link_node 1 2 0 8 refl refl
      ⊳ swing_tail 1 2 0 refl
      ⊳ clear 1 0 refl refl
      ⊳ create 1 3 9 refl refl
      ⊳ find_slot 1 3 0 9 refl refl
      ⊳ load_tail 1 3 9 refl
      ⊳ announce 1 3 2 0 9 refl refl
      ⊳ confirm 1 3 2 9 refl refl
      ⊳ see_null 1 3 2 9 refl refl
      ⊳ link_node 1 3 2 9 refl refl
      ⊳ swing_tail 1 3 2 refl
      ⊳ clear 1 0 refl refl
      ⊳ load_next 2 refl refl
      ⊳ see_tail 2 refl
      ⊳ pass 2 3 refl three_ne_zero
      ⊳ take 2 refl
      ⊳ load_next 3 refl refl
      ⊳ see_tail 3 refl
      ⊳ pass 3 3 refl three_ne_two
      ⊳ take 3 refl
      ⊳ begin_scan refl
      ⊳ scan 1 0 [] refl zero_lt_one
      ⊳ end_scan 1 1 [] refl one_le_one
      ⊳ remove 2 [] (0 ∷ []) [] refl refl
      ⊳ remove 0 [] [] [] refl refl,
  by_producer 0 refl,
  refl,
)

record Run {T : Type 0} (value : T) : Type 0 where
  last : System T
  steps : Steps 1 (start value (λ i. none)) last

-- Thread 0 has put a value into the queue, and the consumer is about to take it.
unfoldable one_in : {T : Type 0} (value v : T) → Run {T = T} value
unfolding allocate link swing constructed
one_in value v = record {
  last = _;
  steps =
      stop
      ⊳ create 0 1 v refl refl
      ⊳ take_slot 0 1 v refl refl zero_lt_one
      ⊳ load_tail 0 1 v refl
      ⊳ announce 0 1 0 0 v refl refl
      ⊳ confirm 0 1 0 v refl refl
      ⊳ see_null 0 1 0 v refl refl
      ⊳ link_node 0 1 0 v refl refl
      ⊳ swing_tail 0 1 0 refl
      ⊳ clear 0 0 refl refl
      ⊳ load_next 1 refl refl
      ⊳ see_tail 1 refl
      ⊳ pass 1 1 refl one_ne_zero;
}

unfoldable seven_in : Run {T = ℕ} 0
seven_in = one_in 0 7

Reach-allocated_example : seven_in.last.mem.place 1 ≢ Place.free
unfolding seven_in one_in allocate link swing constructed
Reach-allocated_example = Reach-allocated (reached seven_in.steps) 1 (of_value refl)

Reach-Fifo_example :
    Fifo
      (contents seven_in.last.mem)
      (Event.dequeued (seven_in.last.mem.value 1))
      (contents (advance seven_in.last.mem 1))
unfolding seven_in one_in allocate link swing constructed
Reach-Fifo_example = Reach-Fifo (reached seven_in.steps) (take 1 refl)

seven : contents seven_in.last.mem ≡ 7 ∷ []
unfolding seven_in one_in allocate link swing constructed
seven = refl

try_dequeue_ends_example :
    Nearer 1 seven_in.last
    × ((t : System ℕ) (e : Event ℕ) → Step 1 seven_in.last e t → left 1 t ≤ left 1 seven_in.last)
unfolding seven_in one_in
try_dequeue_ends_example = try_dequeue_ends 1 seven_in.last (λ e. cc)

abbrev greeting : Operation
greeting = record {
  type = OpType.insert;
  position = 0;
  text = bytes "hi";
  length = 2;
  user_id = 1;
  revision = 0;
}

-- The operation is taken out, and then the queue is found empty.
unfoldable taken_out : (t : System Operation) × Reach 1 greeting t
unfolding one_in allocate link swing advance constructed
taken_out = (_, later (reached (one_in greeting greeting).steps) (take 1 refl))

emptied : Step 1 taken_out.0 Event.found_empty taken_out.0
unfolding taken_out one_in allocate link swing advance constructed
emptied = see_empty refl refl

process_queue-foldl_example :
    ((process_queue (Document.init 1 (bytes "notes")) (later taken_out.1 emptied)).doc
      ≡ foldl apply_one (Document.init 1 (bytes "notes")) (linked_on taken_out.1))
    × (total (process_queue (Document.init 1 (bytes "notes")) (later taken_out.1 emptied)).returned
        ≡ length (linked_on taken_out.1))
process_queue-foldl_example =
    process_queue-foldl (Document.init 1 (bytes "notes")) taken_out.1 emptied

one_linked : linked_on taken_out.1 ≡ greeting ∷ []
unfolding linked_on taken_out one_in reached
one_linked = refl
