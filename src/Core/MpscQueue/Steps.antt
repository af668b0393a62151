-- ===== src/Core/MpscQueue/Steps.antt =====
-- Every step of the queue of core/include/collab/mpsc_queue.h keeps the invariant.
use collaborative_text_edito.Common.{
  ℕ, suc, ◌*◌, ◌≤◌, ◌<◌, ◌≡◌, ◌≢◌, inl, inr, refl, ap, ◌∙◌, subst, arith, Bool, true, false,
  Option-cases, none, some, List, [], ◌∷◌, if◌then◌else◌, length, leb, min,
}
use collaborative_text_edito.Core.MpscQueue.{Place, update, allocate, link, swing, advance}
use collaborative_text_edito.Core.MpscQueue.Chain.{
  Held, allocate-IsChain, link-IsChain, swing-IsChain,
}
use collaborative_text_edito.Core.MpscQueue.Threads.{
  Producer, Consumer, System, Event, Step, create, find_slot, take_slot, load_tail, announce,
  confirm, again, see_next, see_null, help, link_node, link_late, swing_tail, clear, see_empty,
  load_next, see_tail, pass, push_tail, take, begin_scan, scan, end_scan, keep, remove, end_sweep,
  contains, with_hazard, at_consumer,
}
use collaborative_text_edito.Core.MpscQueue.Local.{
  guards, Owns, Relies, Relies-guards, allocate-Keeps, link-Keeps, link-Held, swing-Keeps,
  Relies-Keeps,
}
use collaborative_text_edito.Core.MpscQueue.Invariant.{hazard_of, Retirees, Consuming, Inv}
use collaborative_text_edito.Core.MpscQueue.Calm.{allocate-IsCalm, link-IsCalm, swing-IsCalm}
use collaborative_text_edito.Core.MpscQueue.Produce.{walked, wrote, stored, slot_taken}
use collaborative_text_edito.Core.MpscQueue.Consume.{
  turned, pushed, taken_out, scanned, removed, Disjoint-nil, Disjoint-move,
}

module _ {T : Type 0} {max_producers : ℕ} {s : System T} (inv : Inv max_producers s) where
  open inv use {chain, assigned, relies, consuming}

  -- What thread `i` relies on at `p`, where it stands.
  here : (i : ℕ) (p : Producer T) → s.pc i ≡ p → Relies s.mem (hazard_of s.slot s.hazard i) i p
  here i p e = subst (Relies s.mem (hazard_of s.slot s.hazard i) i) e (relies i)

  there : (c : Consumer) → s.consumer ≡ c → Consuming s c
  there c e = subst (Consuming s) e consuming

  created_node :
      (i node : ℕ) (v : T) → s.mem.place node ≡ Place.free → Owns (allocate s.mem i node v) i node v
  unfolding allocate
  created_node i node v e = (ground arith, ground arith, ground arith)

  linked_node :
      (i node t : ℕ) (v : T)
      → s.pc i ≡ Producer.linking node v t
      → s.mem.next t ≡ none
      → Inv max_producers
          (record s { mem = link s.mem t node; pc = update s.pc i (Producer.swinging node t) })
  linked_node i node t v at e =
      let r = here i (Producer.linking node v t) at in
      wrote inv (link s.mem t node) i (Producer.swinging node t)
        (link-IsChain chain i t node r.1 e r.2.0 r.2.1) (link-IsCalm chain i t node r.2.0 e)
        (λ j other. link-Keeps chain i t node r.2.0 e r.1 j (s.pc j) other)
        (λ n g h. ap guards at ∙ g)
        (r.0, link-Held chain i t node r.2.0 e t r.1, unfold link in ground arith)

  -- The tail is moved by thread `i`, which stands at `p` and then at `q`.
  swung :
      (i t node : ℕ) (q : Producer T)
      → s.mem.next t ≡ some node
      → guards q ≡ none
      → Relies s.mem (hazard_of s.slot s.hazard i) i q
      → Inv max_producers (record s { mem = swing s.mem t node; pc = update s.pc i q })
  swung i t node q e unguarded r =
      wrote inv (swing s.mem t node) i q (swing-IsChain chain t node e) (swing-IsCalm chain t node)
        (λ j other. swing-Keeps chain t node j (s.pc j)) (λ n g h. cc)
        (Relies-Keeps _ i q (swing-Keeps chain t node i q) r)

  tail_Held : (t : ℕ) → s.mem.tail ≡ t → Held s.mem t
  tail_Held t e = inr (
    s.mem.reached,
    ground (arith, chain.tail_at, chain.placed s.mem.reached, chain.taken_le, chain.reached_le),
    omega arith,
  )

  tail_chained : (t : ℕ) → s.mem.tail ≡ t → s.mem.place t ≢ Place.retired
  tail_chained t e h =
      ground (arith, chain.tail_at, chain.placed s.mem.reached, chain.taken_le, chain.reached_le)

  confirmed :
      (i node t : ℕ) (v : T)
      → s.pc i ≡ Producer.announced node v t
      → s.mem.tail ≡ t
      → Inv max_producers (record s { pc = update s.pc i (Producer.guarded node v t) })
  confirmed i node t v at e =
      let r = here i (Producer.announced node v t) at in
      walked inv i (Producer.guarded node v t)
        (λ n g h.
          absurd (tail_chained t e (subst (λ k. s.mem.place k ≡ Place.retired) (ground arith) h)))
        (r.0, tail_Held t e, r.1)

  -- The tail was read when it was not the head, if it is not the head's address.
  tail_read :
      (next : ℕ)
      → Consuming s (Consumer.got_next next)
      → Consuming s (Consumer.got_tail next s.mem.tail)
  tail_read next h =
      (h.0, λ other. ground (arith, chain.taken_le, chain.head_at, chain.tail_at), h.1)

  -- A scan has seen every slot that is in use.
  scan_ended :
      (used i : ℕ) (snapshot : List ℕ)
      → Consuming s (Consumer.scanning used i snapshot)
      → used ≤ i
      → Consuming s (Consumer.sweeping snapshot s.retired [])
  scan_ended used i snapshot h le = (
    λ j t g p. (let (k, at, lt, seen) = h.0 j t g p in seen (omega arith)),
    h.1,
    tt,
    Disjoint-nil s.retired,
  )

  scan_begun :
      Consuming s Consumer.reclaiming
      → Consuming s (Consumer.scanning (min s.slots_used max_producers) 0 [])
  scan_begun h = (λ j t g p. slot_known j t (Relies-guards s.mem _ j t (s.pc j) (relies j) g).0, h)
    where
      slot_known :
          (j t : ℕ)
          → hazard_of s.slot s.hazard j ≡ some t
          → (k : ℕ) × (s.slot j ≡ some k)
            × (k < min s.slots_used max_producers)
            × (k < 0 → contains t [] ≡ true)
      slot_known j t e = elim (Option-cases (s.slot j)) [
        | inl missing ↦ absurd (ground arith)
        | inr (k, at) ↦
            (k, at, omega (arith, assigned.few, assigned.below j k at), λ lt. absurd (omega arith))
      ]

  kept :
      (node : ℕ) (snapshot todo survivors : List ℕ)
      → Consuming s (Consumer.sweeping snapshot (node ∷ todo) survivors)
      → Consuming s (Consumer.sweeping snapshot todo (node ∷ survivors))
  kept node snapshot todo survivors h =
      (h.0, h.1.2, (h.1.0, h.3.0, h.2), Disjoint-move node todo survivors h.1.1 h.3.1)

either :
    {T : Type 0} (s : System T) (b : Bool)
    → Retirees s.mem s.retired
    → Consuming s (if b then Consumer.reclaiming else Consumer.waiting)
either s true r = r
either s false r = r

pub Step-Inv :
    {T : Type 0} {max_producers : ℕ} {s t : System T} {e : Event T}
    → Inv max_producers s
    → Step max_producers s e t
    → Inv max_producers t
Step-Inv {s} inv (create i node v at e) =
    wrote inv (allocate s.mem i node v) i (Producer.created node v)
      (allocate-IsChain inv.chain i node v e) (allocate-IsCalm inv.chain i node v e)
      (λ j other. allocate-Keeps inv.chain i node v e j (s.pc j)) (λ n g h. cc)
      (created_node inv i node v e)
Step-Inv inv (find_slot i node k v at e) =
    walked inv i (Producer.starting node v) (λ n g h. cc) (here inv i (Producer.created node v) at)
Step-Inv inv (take_slot i node v at e lt) = slot_taken inv i node v e lt at
Step-Inv {s} inv (load_tail i node v at) =
    walked inv i (Producer.read_tail node v s.mem.tail) (λ n g h. cc)
      (here inv i (Producer.starting node v) at)
Step-Inv inv (announce i node t k v at e) =
    stored inv i k (some t) (Producer.announced node v t) e refl
      (refl, here inv i (Producer.read_tail node v t) at)
Step-Inv inv (confirm i node t v at e) = confirmed inv i node t v at e
Step-Inv inv (again i node t v at e) =
    walked inv i (Producer.starting node v) (λ n g h. cc)
      (here inv i (Producer.announced node v t) at).1
Step-Inv inv (see_next i node t t_next v at e) =
    let r = here inv i (Producer.guarded node v t) at in
    walked inv i (Producer.helping node v t t_next) (λ n g h. ap guards at ∙ g) (r.0, r.1, e, r.2)
Step-Inv inv (see_null i node t v at e) =
    walked inv i (Producer.linking node v t) (λ n g h. ap guards at ∙ g)
      (here inv i (Producer.guarded node v t) at)
Step-Inv inv (help i node t t_next v at) =
    let r = here inv i (Producer.helping node v t t_next) at in
    swung inv i t t_next (Producer.starting node v) r.2 refl r.3
Step-Inv inv (link_node i node t v at e) = linked_node inv i node t v at e
Step-Inv inv (link_late i node t t_next v at e) =
    walked inv i (Producer.starting node v) (λ n g h. cc)
      (here inv i (Producer.linking node v t) at).2
Step-Inv inv (swing_tail i node t at) =
    let r = here inv i (Producer.swinging node t) at in
    swung inv i t node Producer.clearing r.2 refl tt
Step-Inv inv (clear i k at e) = stored inv i k none Producer.idle e refl tt
Step-Inv inv (see_empty at e) = inv
Step-Inv inv (load_next next at e) =
    turned inv (Consumer.got_next next) (e, there inv Consumer.waiting at)
Step-Inv {s} inv (see_tail next at) =
    turned inv (Consumer.got_tail next s.mem.tail)
      (tail_read inv next (there inv (Consumer.got_next next) at))
Step-Inv inv (pass next t at e) =
    let h = there inv (Consumer.got_tail next t) at in
    turned inv (Consumer.ready next) (h.0, h.1 e, h.2)
Step-Inv inv (push_tail next t at e) = pushed inv next t (there inv (Consumer.got_tail next t) at) e
Step-Inv {max_producers} {s} inv (take next at) =
    let b = leb (2 * max_producers) (suc (length s.retired)) in
    taken_out inv next (if b then Consumer.reclaiming else Consumer.waiting)
      (there inv (Consumer.ready next) at)
      (either
        (at_consumer (record s { mem = advance s.mem next; retired = s.mem.head ∷ s.retired })
          (if b then Consumer.reclaiming else Consumer.waiting))
        b)
Step-Inv {s} inv (begin_scan at) = turned inv _ (scan_begun inv (there inv Consumer.reclaiming at))
Step-Inv {s} inv (scan used i snapshot at lt) =
    let h = there inv (Consumer.scanning used i snapshot) at in
    turned inv (Consumer.scanning used (suc i) (with_hazard (s.hazard i) snapshot))
      (scanned inv used i snapshot h.0, h.1)
Step-Inv {s} inv (end_scan used i snapshot at le) =
    turned inv (Consumer.sweeping snapshot s.retired [])
      (scan_ended inv used i snapshot (there inv (Consumer.scanning used i snapshot) at) le)
Step-Inv inv (keep node snapshot todo survivors at e) =
    turned inv (Consumer.sweeping snapshot todo (node ∷ survivors)) (
      kept inv node snapshot todo survivors
        (there inv (Consumer.sweeping snapshot (node ∷ todo) survivors) at))
Step-Inv inv (remove node snapshot todo survivors at e) =
    removed inv node snapshot todo survivors
      (there inv (Consumer.sweeping snapshot (node ∷ todo) survivors) at) e
Step-Inv inv (end_sweep snapshot survivors at) = record {
  chain = inv.chain;
  assigned = inv.assigned;
  relies = inv.relies;
  consuming = (there inv (Consumer.sweeping snapshot [] survivors) at).2;
}
