-- ===== src/Core/MpscQueue/Invariant.antt =====
-- What holds in every state of the queue of core/include/collab/mpsc_queue.h: the list, the slots of
-- the hazard pointers, what the producers rely on, and what the consumer has seen.
use collaborative_text_edito.Common.{ℕ, ◌≤◌, ◌<◌, ◌≡◌, ◌≢◌, true, Option, none, some, List, [], ◌∷◌}
use collaborative_text_edito.Core.MpscQueue.{Place, Memory}
use collaborative_text_edito.Core.MpscQueue.Chain.{IsChain}
use collaborative_text_edito.Core.MpscQueue.Threads.{Consumer, System, contains}
use collaborative_text_edito.Core.MpscQueue.Local.{guards, Relies}

-- The hazard pointer of a thread.
abbrev pub at_slot : (ℕ → Option ℕ) → Option ℕ → Option ℕ
at_slot hazard none = none
at_slot hazard (some k) = hazard k

abbrev pub hazard_of : (ℕ → Option ℕ) → (ℕ → Option ℕ) → ℕ → Option ℕ
hazard_of slot hazard i = at_slot hazard (slot i)

-- No slot is shared, and those in use are the first ones.
pub record IsAssigned (max_producers : ℕ) (slot : ℕ → Option ℕ) (slots_used : ℕ) : Type 0 where
  pub few : slots_used ≤ max_producers
  pub below : (i k : ℕ) → slot i ≡ some k → k < slots_used
  pub apart : (i j k : ℕ) → slot i ≡ some k → slot j ≡ some k → i ≡ j

abbrev pub Differs : ℕ → List ℕ → Type 0
Differs n [] = Unit {0}
Differs n (k ∷ ks) = (k ≢ n) × Differs n ks

-- Nodes that are retired, none of them twice.
abbrev pub Retirees : {T : Type 0} → Memory T → List ℕ → Type 0
Retirees m [] = Unit {0}
Retirees m (n ∷ ns) = (m.place n ≡ Place.retired) × Differs n ns × Retirees m ns

abbrev pub Disjoint : List ℕ → List ℕ → Type 0
Disjoint [] ks = Unit {0}
Disjoint (n ∷ ns) ks = Differs n ks × Disjoint ns ks

module _ {T : Type 0} (s : System T) where
  -- A retired node that a producer guards has been seen, if the scan has passed the producer's slot,
  -- and the scan will come to that slot else.
  abbrev pub Scanned : (used i : ℕ) (snapshot : List ℕ) → Type 0
  Scanned used i snapshot =
      (j t : ℕ)
      → guards (s.pc j) ≡ some t
      → s.mem.place t ≡ Place.retired
      → (k : ℕ) × (s.slot j ≡ some k) × (k < used) × (k < i → contains t snapshot ≡ true)

  abbrev pub Seen : (snapshot : List ℕ) → Type 0
  Seen snapshot =
      (j t : ℕ)
      → guards (s.pc j) ≡ some t
      → s.mem.place t ≡ Place.retired
      → contains t snapshot ≡ true

  abbrev pub Follows : ℕ → Type 0
  Follows next = s.mem.next s.mem.head ≡ some next

  abbrev pub Consuming : Consumer → Type 0
  Consuming Consumer.waiting = Retirees s.mem s.retired
  Consuming (Consumer.got_next next) = Follows next × Retirees s.mem s.retired
  Consuming (Consumer.got_tail next t) =
      Follows next × (t ≢ s.mem.head → s.mem.taken < s.mem.reached) × Retirees s.mem s.retired
  Consuming (Consumer.ready next) =
      Follows next × (s.mem.taken < s.mem.reached) × Retirees s.mem s.retired
  Consuming Consumer.reclaiming = Retirees s.mem s.retired
  Consuming (Consumer.scanning used i snapshot) = Scanned used i snapshot × Retirees s.mem s.retired
  Consuming (Consumer.sweeping snapshot todo survivors) =
      Seen snapshot × Retirees s.mem todo × Retirees s.mem survivors × Disjoint todo survivors

pub record Inv {T : Type 0} (max_producers : ℕ) (s : System T) : Type 0 where
  pub chain : IsChain s.mem
  pub assigned : IsAssigned max_producers s.slot s.slots_used
  pub relies : (j : ℕ) → Relies s.mem (hazard_of s.slot s.hazard j) j (s.pc j)
  pub consuming : Consuming s s.consumer
