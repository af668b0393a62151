-- ===== src/Core/MpscQueue/Safety.antt =====
-- What holds in every state that the queue of core/include/collab/mpsc_queue.h can reach: no node is
-- touched that is not allocated.
use collaborative_text_edito.Common.{
  ℕ, suc, ◌≡◌, ◌≢◌, inl, inr, subst, arith, Option, none, some, List, ◌∷◌,
}
use collaborative_text_edito.Core.MpscQueue.{Place, Memory, constructed}
use collaborative_text_edito.Core.MpscQueue.Chain.{Held, constructed-IsChain}
use collaborative_text_edito.Core.MpscQueue.Threads.{Producer, Consumer, System, Event, Step, start}
use collaborative_text_edito.Core.MpscQueue.Local.{guards, Relies-guards}
use collaborative_text_edito.Core.MpscQueue.Invariant.{Consuming, Inv}
use collaborative_text_edito.Core.MpscQueue.Steps.{Step-Inv}

start-Inv :
    {T : Type 0} (max_producers : ℕ) (value : T) → Inv max_producers (start value (λ i. none))
unfolding constructed
start-Inv max_producers value = record {
  chain = constructed-IsChain value;
  assigned = record { few = omega arith; below = λ i k e. cc; apart = λ i j k e f. cc };
  relies = λ j. tt;
  consuming = tt;
}

-- The states of a queue in whose threads' caches nothing stands for its address at first, with what
-- has been linked and what has been taken out on the way.
pub data Reach {T : Type 0} (max_producers : ℕ) (value : T) : System T → Type 0 where
  first : Reach max_producers value (start value (λ i. none))
  later :
      {s t : System T} {e : Event T}
      → Reach max_producers value s
      → Step max_producers s e t
      → Reach max_producers value t

pub Reach-Inv :
    {T : Type 0} {max_producers : ℕ} {value : T} {s : System T}
    → Reach max_producers value s
    → Inv max_producers s
Reach-Inv {max_producers = k} {value} first = start-Inv k value
Reach-Inv (later r st) = Step-Inv (Reach-Inv r) st

-- The node whose members a producer reads or writes in its next step.
abbrev pub touches : {T : Type 0} → Producer T → Option ℕ
touches (Producer.guarded node v t) = some t
touches (Producer.linking node v t) = some t
touches _ = none

-- The nodes that the next step of some thread reads, writes or deletes.
pub data Accesses {T : Type 0} (s : System T) (n : ℕ) : Type 0 where
  by_producer : (i : ℕ) → touches (s.pc i) ≡ some n → Accesses s n
  of_head : n ≡ s.mem.head → Accesses s n
  of_value : s.consumer ≡ Consumer.ready n → Accesses s n
  of_retired :
      (snapshot todo survivors : List ℕ)
      → s.consumer ≡ Consumer.sweeping snapshot (n ∷ todo) survivors
      → Accesses s n

touches-guards : {T : Type 0} (p : Producer T) (n : ℕ) → touches p ≡ some n → guards p ≡ some n
touches-guards (Producer.guarded node v t) n e = e
touches-guards (Producer.linking node v t) n e = e
touches-guards Producer.idle n e = cc
touches-guards (Producer.created node v) n e = cc
touches-guards (Producer.starting node v) n e = cc
touches-guards (Producer.read_tail node v t) n e = cc
touches-guards (Producer.announced node v t) n e = cc
touches-guards (Producer.helping node v t t_next) n e = cc
touches-guards (Producer.swinging node t) n e = cc
touches-guards Producer.clearing n e = cc

Held-allocated : {T : Type 0} (m : Memory T) (n : ℕ) → Held m n → m.place n ≢ Place.free
Held-allocated m n (inl h) e = cc
Held-allocated m n (inr (r, h, k)) e = cc

module _ {T : Type 0} {max_producers : ℕ} {s : System T} (inv : Inv max_producers s) where
  open inv use {chain, relies, consuming}

  Inv-allocated : (n : ℕ) → Accesses s n → s.mem.place n ≢ Place.free
  Inv-allocated n (by_producer i e) f =
      Held-allocated s.mem n
        (Relies-guards s.mem _ i n (s.pc i) (relies i) (touches-guards (s.pc i) n e)).1 f
  Inv-allocated n (of_head e) f =
      ground (arith, chain.head_at, chain.placed s.mem.taken, chain.taken_le, chain.reached_le)
  Inv-allocated n (of_value e) f =
      let h = subst (Consuming s) e consuming in
      ground (
        arith,
        chain.head_at,
        chain.placed (suc s.mem.taken),
        chain.successor s.mem.taken,
        chain.taken_le,
        chain.reached_le,
      )
  Inv-allocated n (of_retired snapshot todo survivors e) f =
      let h = subst (Consuming s) e consuming in ground (arith, h.1.0)

-- Whatever the order of the steps of the producers and of the consumer, and whichever free addresses
-- are allocated again: a node whose members the next step of a thread reads or writes, or which it
-- deletes, is allocated. The queue starts with no slot for its address in a thread's cache.
pub Reach-allocated :
    {T : Type 0} {max_producers : ℕ} {value : T} {s : System T}
    → Reach max_producers value s
    → (n : ℕ) → Accesses s n
    → s.mem.place n ≢ Place.free
Reach-allocated r n a = Inv-allocated (Reach-Inv r) n a
