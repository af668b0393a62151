-- ===== src/Core/Document/Drain.antt =====
-- `process_queue` (core/src/document.cpp) over the queue of core/include/collab/mpsc_queue.h: what a
-- document comes to while the producers go on.
use collaborative_text_edito.Common.{
  ℕ, ◌+◌, ◌≡◌, refl, ap, sym, ◌∙◌, arith, List, [], ◌∷◌, ◌++◌, length, foldl, append-nil,
}
use collaborative_text_edito.Core.Operation.{Operation}
use collaborative_text_edito.Core.Document.{Document, apply_with_ot}
use collaborative_text_edito.Core.MpscQueue.Threads.{System, Event, Step}
use collaborative_text_edito.Core.MpscQueue.Safety.{Reach, first, later}
use collaborative_text_edito.Core.MpscQueue.Order.{
  Fifo, Reach-Fifo, linked_on, taken_on, linked_on-taken_on,
}

abbrev pub apply_one : Document → Operation → Document
apply_one d op = (apply_with_ot d op).0

-- The document, the count of the call under way, and what the calls before it returned, the latest
-- first.
pub record Processing : Type 0 where
  pub doc : Document
  pub count : ℕ
  pub returned : List ℕ

-- A round of the loop, where `try_dequeue` gives an operation; the end of the call, where it gives
-- none. The next call counts from 0.
unfoldable pub process_event : Processing → Event Operation → Processing
process_event p Event.silent = p
process_event p (Event.linked op) = p
process_event p (Event.dequeued op) = record p {
  doc = (apply_with_ot p.doc op).0;
  count = p.count + 1;
}
process_event p Event.found_empty = record p { count = 0; returned = p.count ∷ p.returned }

-- The calls of one consumer along a run of the queue, whose steps are those of all threads.
unfoldable pub process_queue :
    Document
    → {max_producers : ℕ} {value : Operation} {s : System Operation} → Reach max_producers value s
    → Processing
process_queue d first = record { doc = d; count = 0; returned = [] }
process_queue d (later {e} r st) = process_event (process_queue d r) e

abbrev pub total : List ℕ → ℕ
total [] = 0
total (n ∷ ns) = n + total ns

foldl-append :
    (d : Document) (xs : List Operation) (op : Operation)
    → foldl apply_one d (xs ++ op ∷ []) ≡ apply_one (foldl apply_one d xs) op
foldl-append d [] op = refl
foldl-append d (x ∷ xs) op = foldl-append (apply_one d x) xs op

length-append_one : (xs : List Operation) (op : Operation) → length (xs ++ op ∷ []) ≡ length xs + 1
length-append_one [] op = refl
length-append_one (x ∷ xs) op = omega (arith, length-append_one xs op)

-- What was applied is what was taken out.
process_queue-taken_on :
    (d : Document)
    → {max_producers : ℕ} {value : Operation} {s : System Operation}
      (r : Reach max_producers value s)
    → ((process_queue d r).doc ≡ foldl apply_one d (taken_on r))
      × (total (process_queue d r).returned + (process_queue d r).count ≡ length (taken_on r))
unfolding process_queue process_event taken_on
process_queue-taken_on d first = (refl, refl)
process_queue-taken_on d (later {e = Event.silent} r st) = process_queue-taken_on d r
process_queue-taken_on d (later {e = Event.linked op} r st) = process_queue-taken_on d r
process_queue-taken_on d (later {e = Event.dequeued op} r st) =
    let (applied, counted) = process_queue-taken_on d r in
    (
      ap (λ d. apply_one d op) applied ∙ sym (foldl-append d (taken_on r) op),
      omega (arith, counted, length-append_one (taken_on r) op),
    )
process_queue-taken_on d (later {e = Event.found_empty} r st) =
    let (applied, counted) = process_queue-taken_on d r in (applied, omega (arith, counted))

found_empty-contents :
    {p q : List Operation} {e : Event Operation} → Fifo p e q → e ≡ Event.found_empty → p ≡ []
found_empty-contents (Fifo.stays q) h = cc
found_empty-contents (Fifo.puts q v) h = cc
found_empty-contents (Fifo.gets q v) h = cc
found_empty-contents Fifo.is_empty h = refl

-- However the steps of the producers fall between those of the consumer: when a call returns, because
-- the queue is found empty, every operation that was put into the queue until then by any thread,
-- also during the call, has been applied, in the order in which they were put in and also where some
-- are refused; and what the calls have returned adds up to the number of these operations. The queue
-- starts with no slot for its address in a thread's cache.
pub process_queue-foldl :
    (d : Document)
    → {max_producers : ℕ} {value : Operation} {s t : System Operation}
      (r : Reach max_producers value s) (st : Step max_producers s Event.found_empty t)
    → ((process_queue d (later r st)).doc ≡ foldl apply_one d (linked_on r))
      × (total (process_queue d (later r st)).returned ≡ length (linked_on r))
unfolding process_queue process_event
process_queue-foldl d {s} r st =
    let (applied, counted) = process_queue-taken_on d r in
    (applied ∙ ap (foldl apply_one d) (sym all), omega (arith, counted, ap length all))
  where
    all : linked_on r ≡ taken_on r
    all =
        linked_on-taken_on r
        ∙ ap (λ q. taken_on r ++ q) (found_empty-contents (Reach-Fifo r st) refl)
        ∙ append-nil (taken_on r)
