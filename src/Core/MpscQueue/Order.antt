-- ===== src/Core/MpscQueue/Order.antt =====
-- The queue of core/include/collab/mpsc_queue.h as a queue: what it holds, and the order of the values.
use collaborative_text_edito.Common.{
  ℕ, zero, suc, ◌≤◌, ◌≡◌, inl, inr, refl, ap, ◌∙◌, sym, subst, arith, ◌==◌, Bool-cases, none, some,
  List, [], ◌∷◌, ◌++◌, length, get_elem?, drop, append_assoc, drop_all,
}
use collaborative_text_edito.Core.MpscQueue.{
  Memory, allocate, link, swing, advance, delete, constructed,
}
use collaborative_text_edito.Core.MpscQueue.Threads.{
  Producer, Consumer, System, Event, Step, create, find_slot, take_slot, load_tail, announce,
  confirm, again, see_next, see_null, help, link_node, link_late, swing_tail, clear, see_empty,
  load_next, see_tail, pass, push_tail, take, begin_scan, scan, end_scan, keep, remove, end_sweep,
}
use collaborative_text_edito.Core.MpscQueue.Local.{Relies}
use collaborative_text_edito.Core.MpscQueue.Invariant.{hazard_of, Consuming, Inv}
use collaborative_text_edito.Core.MpscQueue.Values.{IsLogged, Step-IsLogged, start-IsLogged}
use collaborative_text_edito.Core.MpscQueue.Safety.{Reach, first, later, Reach-Inv}

module _ {T : Type 0} where
  -- What the queue holds, the oldest value first.
  abbrev pub contents : Memory T → List T
  contents m = drop m.taken m.log

-- A queue: what a step does to the values that are held.
pub data Fifo {T : Type 0} : List T → Event T → List T → Type 0 where
  stays : (q : List T) → Fifo q Event.silent q
  puts : (q : List T) (v : T) → Fifo q (Event.linked v) (q ++ v ∷ [])
  gets : (q : List T) (v : T) → Fifo (v ∷ q) (Event.dequeued v) q
  is_empty : Fifo [] Event.found_empty []

drop-append-le {ℓ} :
    {A : Type ℓ} (n : ℕ) (xs ys : List A) → n ≤ length xs → drop n (xs ++ ys) ≡ drop n xs ++ ys
drop-append-le zero xs ys h = refl
drop-append-le (suc n) [] ys h = absurd (omega arith)
drop-append-le (suc n) (x ∷ xs) ys h = drop-append-le n xs ys (omega arith)

drop-get_elem? {ℓ} :
    {A : Type ℓ} (n : ℕ) (xs : List A) (x : A)
    → get_elem? xs n ≡ some x
    → drop n xs ≡ x ∷ drop (suc n) xs
drop-get_elem? n [] x e = cc
drop-get_elem? zero (y ∷ xs) x e = ground arith
drop-get_elem? (suc n) (y ∷ xs) x e = drop-get_elem? n xs x e

module _ {T : Type 0} {max_producers : ℕ} {s : System T} (inv : Inv max_producers s)
    (l : IsLogged s.mem) where
  open inv use {chain, relies, consuming}

  silent_swing : (t node : ℕ) → Fifo (contents s.mem) Event.silent (contents (swing s.mem t node))
  unfolding swing
  silent_swing t node = elim (Bool-cases (s.mem.tail == t)) [
    | inl same ↦ rw same (Fifo.stays _)
    | inr other ↦ rw other (Fifo.stays _)
  ]

  linked_value :
      (i t node : ℕ) (v : T)
      → s.pc i ≡ Producer.linking node v t
      → Fifo (contents s.mem) (Event.linked v) (contents (link s.mem t node))
  unfolding link
  linked_value i t node v at =
      let r = subst (Relies s.mem (hazard_of s.slot s.hazard i) i) at (relies i) in
      subst (Fifo (contents s.mem) (Event.linked v))
        (sym (
          drop-append-le s.mem.taken s.mem.log (s.mem.value node ∷ [])
            (omega (arith, chain.taken_le, chain.reached_le, l.all))
          ∙ ap (λ w. contents s.mem ++ w ∷ []) r.2.2))
        (Fifo.puts (contents s.mem) v)

  taken_value :
      (next : ℕ)
      → s.consumer ≡ Consumer.ready next
      → Fifo (contents s.mem) (Event.dequeued (s.mem.value next)) (contents (advance s.mem next))
  unfolding advance
  taken_value next at =
      let h = subst (Consuming s) at consuming in
      subst (λ q. Fifo q (Event.dequeued (s.mem.value next)) (contents (advance s.mem next)))
        (sym (drop-get_elem? s.mem.taken s.mem.log (s.mem.value next) (front h.0))) (Fifo.gets _ _)
    where
      front :
          s.mem.next s.mem.head ≡ some next
          → get_elem? s.mem.log s.mem.taken ≡ some (s.mem.value next)
      front e = ground (
        arith,
        chain.head_at,
        chain.last,
        chain.taken_le,
        chain.reached_le,
        chain.successor s.mem.taken,
        l.stored s.mem.taken,
      )

  seen_empty :
      s.mem.next s.mem.head ≡ none → Fifo (contents s.mem) Event.found_empty (contents s.mem)
  seen_empty e =
      rw
        (drop_all s.mem.taken s.mem.log (
          ground (
            arith,
            chain.head_at,
            chain.taken_le,
            chain.reached_le,
            chain.successor s.mem.taken,
            l.all,
          )))
        Fifo.is_empty

Step-Fifo :
    {T : Type 0} {max_producers : ℕ} {s t : System T} {e : Event T}
    → Inv max_producers s
    → IsLogged s.mem
    → Step max_producers s e t
    → Fifo (contents s.mem) e (contents t.mem)
unfolding allocate delete
Step-Fifo inv l (create i node v at e) = Fifo.stays _
Step-Fifo inv l (find_slot i node k v at e) = Fifo.stays _
Step-Fifo inv l (take_slot i node v at e lt) = Fifo.stays _
Step-Fifo inv l (load_tail i node v at) = Fifo.stays _
Step-Fifo inv l (announce i node t k v at e) = Fifo.stays _
Step-Fifo inv l (confirm i node t v at e) = Fifo.stays _
Step-Fifo inv l (again i node t v at e) = Fifo.stays _
Step-Fifo inv l (see_next i node t t_next v at e) = Fifo.stays _
Step-Fifo inv l (see_null i node t v at e) = Fifo.stays _
Step-Fifo inv l (help i node t t_next v at) = silent_swing inv l t t_next
Step-Fifo inv l (link_node i node t v at e) = linked_value inv l i t node v at
Step-Fifo inv l (link_late i node t t_next v at e) = Fifo.stays _
Step-Fifo inv l (swing_tail i node t at) = silent_swing inv l t node
Step-Fifo inv l (clear i k at e) = Fifo.stays _
Step-Fifo inv l (see_empty at e) = seen_empty inv l e
Step-Fifo inv l (load_next next at e) = Fifo.stays _
Step-Fifo inv l (see_tail next at) = Fifo.stays _
Step-Fifo inv l (pass next t at e) = Fifo.stays _
Step-Fifo inv l (push_tail next t at e) = silent_swing inv l t next
Step-Fifo inv l (take next at) = taken_value inv l next at
Step-Fifo inv l (begin_scan at) = Fifo.stays _
Step-Fifo inv l (scan used i snapshot at lt) = Fifo.stays _
Step-Fifo inv l (end_scan used i snapshot at le) = Fifo.stays _
Step-Fifo inv l (keep node snapshot todo survivors at e) = Fifo.stays _
Step-Fifo inv l (remove node snapshot todo survivors at e) = Fifo.stays _
Step-Fifo inv l (end_sweep snapshot survivors at) = Fifo.stays _

Reach-IsLogged :
    {T : Type 0} {max_producers : ℕ} {value : T} {s : System T}
    → Reach max_producers value s
    → IsLogged s.mem
Reach-IsLogged {value} first = start-IsLogged value
Reach-IsLogged (later r st) = Step-IsLogged (Reach-Inv r) (Reach-IsLogged r) st

-- Each step of each thread does to the values that the queue holds what a first-in-first-out queue
-- does: a compare-exchange that links a node puts the value of the `enqueue` at the end, the advance
-- of the head takes out the first value and returns it, an empty result is given only when nothing is
-- held, and no other step changes anything. The queue starts with no slot for its address in a
-- thread's cache.
pub Reach-Fifo :
    {T : Type 0} {max_producers : ℕ} {value : T} {s t : System T} {e : Event T}
    → Reach max_producers value s
    → Step max_producers s e t
    → Fifo (contents s.mem) e (contents t.mem)
Reach-Fifo r st = Step-Fifo (Reach-Inv r) (Reach-IsLogged r) st

abbrev added : {T : Type 0} → List T → Event T → List T
added ins (Event.linked v) = ins ++ v ∷ []
added ins _ = ins

abbrev removed : {T : Type 0} → List T → Event T → List T
removed outs (Event.dequeued v) = outs ++ v ∷ []
removed outs _ = outs

-- The values that were linked on the way to a state, and those that were taken out.
unfoldable pub linked_on :
    {T : Type 0} {max_producers : ℕ} {value : T} {s : System T}
    → Reach max_producers value s
    → List T
linked_on first = []
linked_on (later {e} r st) = added (linked_on r) e

unfoldable pub taken_on :
    {T : Type 0} {max_producers : ℕ} {value : T} {s : System T}
    → Reach max_producers value s
    → List T
taken_on first = []
taken_on (later {e} r st) = removed (taken_on r) e

Fifo-append :
    {T : Type 0} (ins outs p q : List T) (e : Event T)
    → Fifo p e q
    → ins ≡ outs ++ p
    → added ins e ≡ removed outs e ++ q
Fifo-append ins outs _ _ _ (Fifo.stays q) h = h
Fifo-append ins outs _ _ _ (Fifo.puts q v) h =
    ap (λ l. l ++ v ∷ []) h ∙ append_assoc outs q (v ∷ [])
Fifo-append ins outs _ _ _ (Fifo.gets q v) h = h ∙ sym (append_assoc outs (v ∷ []) q)
Fifo-append ins outs _ _ _ Fifo.is_empty h = h

-- After any run: the values that were linked, in their order, are the values that were taken out, in
-- their order, followed by those that the queue holds. The queue starts with no slot for its address
-- in a thread's cache.
pub linked_on-taken_on :
    {T : Type 0} {max_producers : ℕ} {value : T} {s : System T} (r : Reach max_producers value s)
    → linked_on r ≡ taken_on r ++ contents s.mem
unfolding linked_on taken_on constructed
linked_on-taken_on first = refl
linked_on-taken_on (later r st) =
    Fifo-append (linked_on r) (taken_on r) _ _ _ (Reach-Fifo r st) (linked_on-taken_on r)
