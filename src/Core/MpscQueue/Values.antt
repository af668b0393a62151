-- ===== src/Core/MpscQueue/Values.antt =====
-- The values in the nodes of the queue of core/include/collab/mpsc_queue.h, by their ranks.
use collaborative_text_edito.Common.{
  ℕ, suc, ◌≤◌, ◌<◌, ◌≡◌, inl, inr, refl, arith, ◌==◌, Bool-cases, some, [], ◌∷◌, length, get_elem?,
  length-append, get_elem?-append,
}
use collaborative_text_edito.Core.MpscQueue.{
  Place, Memory, allocate, link, swing, advance, delete, constructed,
}
use collaborative_text_edito.Core.MpscQueue.Chain.{IsChain}
use collaborative_text_edito.Core.MpscQueue.Threads.{
  System, Event, Step, create, find_slot, take_slot, load_tail, announce, confirm, again, see_next,
  see_null, help, link_node, link_late, swing_tail, clear, see_empty, load_next, see_tail, pass,
  push_tail, take, begin_scan, scan, end_scan, keep, remove, end_sweep,
}
use collaborative_text_edito.Core.MpscQueue.Invariant.{Inv}

-- The values of the nodes behind the head.
pub record IsLogged {T : Type 0} (m : Memory T) : Type 0 where
  pub all : length m.log ≡ m.linked
  pub stored :
      (k : ℕ) → m.taken ≤ k → k < m.linked → get_elem? m.log k ≡ some (m.value (m.node_at (suc k)))

module _ {T : Type 0} where
  module _ {m : Memory T} (c : IsChain m) (l : IsLogged m) where
    open c use {taken_le, reached_le, placed, ranked}
    open l use {all, stored}

    allocate-IsLogged :
        (i node : ℕ) (v : T) → m.place node ≡ Place.free → IsLogged (allocate m i node v)
    unfolding allocate
    allocate-IsLogged i node v e = record {
      all = all;
      stored = λ k h lt. ground (arith, stored k h lt, placed (suc k));
    }

    link-IsLogged : (t node : ℕ) → IsLogged (link m t node)
    unfolding link
    link-IsLogged t node = record {
      all = omega (arith, all, length-append m.log (m.value node ∷ []));
      stored =
          λ k h lt. ground (arith, stored k h, all, get_elem?-append m.log (m.value node ∷ []) k);
    }

    swing-IsLogged : (t node : ℕ) → IsLogged (swing m t node)
    unfolding swing
    swing-IsLogged t node = elim (Bool-cases (m.tail == t)) [
      | inl same ↦ rw same (record { all = all; stored = stored })
      | inr other ↦ rw other l
    ]

    advance-IsLogged : (next : ℕ) → IsLogged (advance m next)
    unfolding advance
    advance-IsLogged next = record { all = all; stored = λ k h lt. stored k (omega arith) lt }

    delete-IsLogged : (node : ℕ) → IsLogged (delete m node)
    unfolding delete
    delete-IsLogged node = record { all = all; stored = stored }

pub Step-IsLogged :
    {T : Type 0} {max_producers : ℕ} {s t : System T} {e : Event T}
    → Inv max_producers s
    → IsLogged s.mem
    → Step max_producers s e t
    → IsLogged t.mem
Step-IsLogged inv l (create i node v at e) = allocate-IsLogged inv.chain l i node v e
Step-IsLogged inv l (find_slot i node k v at e) = l
Step-IsLogged inv l (take_slot i node v at e lt) = l
Step-IsLogged inv l (load_tail i node v at) = l
Step-IsLogged inv l (announce i node t k v at e) = l
Step-IsLogged inv l (confirm i node t v at e) = l
Step-IsLogged inv l (again i node t v at e) = l
Step-IsLogged inv l (see_next i node t t_next v at e) = l
Step-IsLogged inv l (see_null i node t v at e) = l
Step-IsLogged inv l (help i node t t_next v at) = swing-IsLogged inv.chain l t t_next
Step-IsLogged inv l (link_node i node t v at e) = link-IsLogged inv.chain l t node
Step-IsLogged inv l (link_late i node t t_next v at e) = l
Step-IsLogged inv l (swing_tail i node t at) = swing-IsLogged inv.chain l t node
Step-IsLogged inv l (clear i k at e) = l
Step-IsLogged inv l (see_empty at e) = l
Step-IsLogged inv l (load_next next at e) = l
Step-IsLogged inv l (see_tail next at) = l
Step-IsLogged inv l (pass next t at e) = l
Step-IsLogged inv l (push_tail next t at e) = swing-IsLogged inv.chain l t next
Step-IsLogged inv l (take next at) = advance-IsLogged inv.chain l next
Step-IsLogged inv l (begin_scan at) = l
Step-IsLogged inv l (scan used i snapshot at lt) = l
Step-IsLogged inv l (end_scan used i snapshot at le) = l
Step-IsLogged inv l (keep node snapshot todo survivors at e) = l
Step-IsLogged inv l (remove node snapshot todo survivors at e) = delete-IsLogged inv.chain l node
Step-IsLogged inv l (end_sweep snapshot survivors at) = l

pub start-IsLogged : {T : Type 0} (value : T) → IsLogged (constructed value)
unfolding constructed
start-IsLogged value = record { all = refl; stored = λ k h lt. absurd (omega arith) }
