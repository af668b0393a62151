-- ===== src/Core/MpscQueue/Threads.antt =====
-- `enqueue`, `try_dequeue`, `acquire_slot_` and `try_reclaim_` of core/include/collab/mpsc_queue.h as
-- the steps of many producers and of one consumer.
use collaborative_text_edito.Common.{
  ℕ, suc, ◌*◌, ◌≤◌, ◌<◌, ◌≡◌, ◌≢◌, ◌==◌, min, Bool, true, false, ◌||◌, Option, none, some, List, [],
  ◌∷◌, if◌then◌else◌, leb, length,
}
use collaborative_text_edito.Core.MpscQueue.{
  Place, Memory, update, allocate, link, swing, advance, delete, constructed,
}

-- Where a thread stands in `enqueue`, with its node, its value and the local variables `t` and
-- `t_next`.
pub data Producer (T : Type 0) : Type 0 where
  idle : Producer T
  created : (node : ℕ) → T → Producer T  -- before `acquire_slot_`
  starting : (node : ℕ) → T → Producer T  -- at the head of the loops
  read_tail : (node : ℕ) → T → (t : ℕ) → Producer T  -- before `hp.store(t)`
  announced : (node : ℕ) → T → (t : ℕ) → Producer T  -- before the second load of the tail
  guarded : (node : ℕ) → T → (t : ℕ) → Producer T  -- before the load of `t->next`
  helping : (node : ℕ) → T → (t t_next : ℕ) → Producer T  -- before the tail is moved for another
  linking : (node : ℕ) → T → (t : ℕ) → Producer T  -- before the exchange of `t->next`
  swinging : (node : ℕ) → (t : ℕ) → Producer T  -- before the tail is moved to the own node
  clearing : Producer T  -- before `hp.store(nullptr)`

-- Where the consumer stands in `try_dequeue` and `try_reclaim_`.
pub data Consumer : Type 0 where
  waiting : Consumer
  got_next : (next : ℕ) → Consumer
  got_tail : (next t : ℕ) → Consumer
  ready : (next : ℕ) → Consumer
  reclaiming : Consumer
  scanning : (used i : ℕ) → (snapshot : List ℕ) → Consumer
  sweeping : (snapshot todo survivors : List ℕ) → Consumer

-- `slot` is what the threads hold for this queue in their `slot_cache_`.
pub record System (T : Type 0) : Type 0 where
  pub mem : Memory T
  pub pc : ℕ → Producer T
  pub slot : ℕ → Option ℕ
  pub slots_used : ℕ
  pub hazard : ℕ → Option ℕ
  pub consumer : Consumer
  pub retired : List ℕ

-- What a step shows of itself: a value is linked, one is taken out, or the queue is seen empty.
pub data Event (T : Type 0) : Type 0 where
  silent : Event T
  linked : T → Event T
  dequeued : T → Event T
  found_empty : Event T

unfoldable pub contains : ℕ → List ℕ → Bool
contains n [] = false
contains n (k ∷ ks) = (k == n) || contains n ks

-- `if (p) snapshot[n++] = p;`
abbrev pub with_hazard : Option ℕ → List ℕ → List ℕ
with_hazard none snapshot = snapshot
with_hazard (some p) snapshot = p ∷ snapshot

module _ {T : Type 0} where
  abbrev pub at_producer : System T → ℕ → Producer T → System T
  at_producer s i p = record s { pc = update s.pc i p }

  abbrev pub at_consumer : System T → Consumer → System T
  at_consumer s c = record s { consumer = c }

-- No step follows `created` where there is neither a slot of the thread nor one left: the program
-- aborts.
pub data Step {T : Type 0} (max_producers : ℕ) (s : System T) : Event T → System T → Type 0 where
  create :
      (i node : ℕ) (v : T)
      → s.pc i ≡ Producer.idle
      → s.mem.place node ≡ Place.free
      → Step max_producers s Event.silent
          (at_producer (record s { mem = allocate s.mem i node v }) i (Producer.created node v))
  find_slot :
      (i node k : ℕ) (v : T)
      → s.pc i ≡ Producer.created node v
      → s.slot i ≡ some k
      → Step max_producers s Event.silent (at_producer s i (Producer.starting node v))
  take_slot :
      (i node : ℕ) (v : T)
      → s.pc i ≡ Producer.created node v
      → s.slot i ≡ none
      → s.slots_used < max_producers
      → Step max_producers s Event.silent (
          at_producer
            (record s { slot = update s.slot i (some s.slots_used); slots_used = suc s.slots_used })
            i
            (Producer.starting node v))
  load_tail :
      (i node : ℕ) (v : T)
      → s.pc i ≡ Producer.starting node v
      → Step max_producers s Event.silent (at_producer s i (Producer.read_tail node v s.mem.tail))
  announce :
      (i node t k : ℕ) (v : T)
      → s.pc i ≡ Producer.read_tail node v t
      → s.slot i ≡ some k
      → Step max_producers s Event.silent (
          at_producer
            (record s { hazard = update s.hazard k (some t) })
            i
            (Producer.announced node v t))
  confirm :
      (i node t : ℕ) (v : T)
      → s.pc i ≡ Producer.announced node v t
      → s.mem.tail ≡ t
      → Step max_producers s Event.silent (at_producer s i (Producer.guarded node v t))
  again :
      (i node t : ℕ) (v : T)
      → s.pc i ≡ Producer.announced node v t
      → s.mem.tail ≢ t
      → Step max_producers s Event.silent (at_producer s i (Producer.starting node v))
  see_next :
      (i node t t_next : ℕ) (v : T)
      → s.pc i ≡ Producer.guarded node v t
      → s.mem.next t ≡ some t_next
      → Step max_producers s Event.silent (at_producer s i (Producer.helping node v t t_next))
  see_null :
      (i node t : ℕ) (v : T)
      → s.pc i ≡ Producer.guarded node v t
      → s.mem.next t ≡ none
      → Step max_producers s Event.silent (at_producer s i (Producer.linking node v t))
  help :
      (i node t t_next : ℕ) (v : T)
      → s.pc i ≡ Producer.helping node v t t_next
      → Step max_producers s Event.silent
          (at_producer (record s { mem = swing s.mem t t_next }) i (Producer.starting node v))
  link_node :
      (i node t : ℕ) (v : T)
      → s.pc i ≡ Producer.linking node v t
      → s.mem.next t ≡ none
      → Step max_producers s
          (Event.linked v)
          (at_producer (record s { mem = link s.mem t node }) i (Producer.swinging node t))
  link_late :
      (i node t t_next : ℕ) (v : T)
      → s.pc i ≡ Producer.linking node v t
      → s.mem.next t ≡ some t_next
      → Step max_producers s Event.silent (at_producer s i (Producer.starting node v))
  swing_tail :
      (i node t : ℕ)
      → s.pc i ≡ Producer.swinging node t
      → Step max_producers s Event.silent
          (at_producer (record s { mem = swing s.mem t node }) i Producer.clearing)
  clear :
      (i k : ℕ)
      → s.pc i ≡ Producer.clearing
      → s.slot i ≡ some k
      → Step max_producers s Event.silent
          (at_producer (record s { hazard = update s.hazard k none }) i Producer.idle)
  see_empty :
      s.consumer ≡ Consumer.waiting
      → s.mem.next s.mem.head ≡ none
      → Step max_producers s Event.found_empty s
  load_next :
      (next : ℕ)
      → s.consumer ≡ Consumer.waiting
      → s.mem.next s.mem.head ≡ some next
      → Step max_producers s Event.silent (at_consumer s (Consumer.got_next next))
  see_tail :
      (next : ℕ)
      → s.consumer ≡ Consumer.got_next next
      → Step max_producers s Event.silent (at_consumer s (Consumer.got_tail next s.mem.tail))
  pass :
      (next t : ℕ)
      → s.consumer ≡ Consumer.got_tail next t
      → t ≢ s.mem.head
      → Step max_producers s Event.silent (at_consumer s (Consumer.ready next))
  push_tail :
      (next t : ℕ)
      → s.consumer ≡ Consumer.got_tail next t
      → t ≡ s.mem.head
      → Step max_producers s Event.silent
          (at_consumer (record s { mem = swing s.mem t next }) (Consumer.ready next))
  take :
      (next : ℕ)
      → s.consumer ≡ Consumer.ready next
      → Step max_producers s (Event.dequeued (s.mem.value next)) (
          at_consumer
            (record s { mem = advance s.mem next; retired = s.mem.head ∷ s.retired })
            (if leb (2 * max_producers) (suc (length s.retired))
              then Consumer.reclaiming
              else Consumer.waiting))
  begin_scan :
      s.consumer ≡ Consumer.reclaiming
      → Step max_producers s Event.silent
          (at_consumer s (Consumer.scanning (min s.slots_used max_producers) 0 []))
  scan :
      (used i : ℕ) (snapshot : List ℕ)
      → s.consumer ≡ Consumer.scanning used i snapshot
      → i < used
      → Step max_producers s Event.silent
          (at_consumer s (Consumer.scanning used (suc i) (with_hazard (s.hazard i) snapshot)))
  end_scan :
      (used i : ℕ) (snapshot : List ℕ)
      → s.consumer ≡ Consumer.scanning used i snapshot
      → used ≤ i
      → Step max_producers s Event.silent (at_consumer s (Consumer.sweeping snapshot s.retired []))
  keep :
      (node : ℕ) (snapshot todo survivors : List ℕ)
      → s.consumer ≡ Consumer.sweeping snapshot (node ∷ todo) survivors
      → contains node snapshot ≡ true
      → Step max_producers s Event.silent
          (at_consumer s (Consumer.sweeping snapshot todo (node ∷ survivors)))
  remove :
      (node : ℕ) (snapshot todo survivors : List ℕ)
      → s.consumer ≡ Consumer.sweeping snapshot (node ∷ todo) survivors
      → contains node snapshot ≡ false
      → Step max_producers s Event.silent (
          at_consumer
            (record s { mem = delete s.mem node })
            (Consumer.sweeping snapshot todo survivors))
  end_sweep :
      (snapshot survivors : List ℕ)
      → s.consumer ≡ Consumer.sweeping snapshot [] survivors
      → Step max_producers s Event.silent
          (at_consumer (record s { retired = survivors }) Consumer.waiting)

module _ {T : Type 0} where
  -- A queue that has been constructed; `slot` is what the caches of the threads hold for its address.
  abbrev pub start : T → (ℕ → Option ℕ) → System T
  start value slot = record {
    mem = constructed value;
    pc = λ i. Producer.idle;
    slot = slot;
    slots_used = 0;
    hazard = λ k. none;
    consumer = Consumer.waiting;
    retired = [];
  }
