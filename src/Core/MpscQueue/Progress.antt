-- ===== src/Core/MpscQueue/Progress.antt =====
-- `try_dequeue` of core/include/collab/mpsc_queue.h waits for nobody.
use collaborative_text_edito.Common.{
  ℕ, ◌+◌, ◌-◌, ◌≤◌, ◌<◌, ◌≡◌, ◌≢◌, inl, inr, refl, arith, ◌==◌, Bool-cases, List, [], ◌∷◌, length,
  ltb, ltb→lt, ltb→le, ==_iff,
}
use collaborative_text_edito.Core.MpscQueue.Threads.{
  Consumer, System, Event, Step, create, find_slot, take_slot, load_tail, announce, confirm, again,
  see_next, see_null, help, link_node, link_late, swing_tail, clear, see_empty, load_next, see_tail,
  pass, push_tail, take, begin_scan, scan, end_scan, keep, remove, end_sweep, contains,
}

-- How many steps of the consumer are left of a call, at most, with so many nodes retired.
abbrev pub steps_left : (max_producers retired : ℕ) → Consumer → ℕ
steps_left max_producers retired Consumer.waiting = 0
steps_left max_producers retired (Consumer.got_next next) = max_producers + retired + 7
steps_left max_producers retired (Consumer.got_tail next t) = max_producers + retired + 6
steps_left max_producers retired (Consumer.ready next) = max_producers + retired + 5
steps_left max_producers retired Consumer.reclaiming = max_producers + retired + 3
steps_left max_producers retired (Consumer.scanning used i snapshot) = used - i + retired + 2
steps_left max_producers retired (Consumer.sweeping snapshot todo survivors) = length todo + 1

module _ {T : Type 0} (max_producers : ℕ) where
  abbrev pub left : System T → ℕ
  left s = steps_left max_producers (length s.retired) s.consumer

  -- A step of the consumer that is next, and brings it nearer to the end of the call.
  abbrev pub Nearer : System T → Type 0
  Nearer s = (e : Event T) × (t : System T) × Step max_producers s e t × (left t < left s)

  module _ (s : System T) where
    chosen : (next t : ℕ) → s.consumer ≡ Consumer.got_tail next t → Nearer s
    chosen next t at = elim (Bool-cases (t == s.mem.head)) [
      | inl same ↦ (_, _, push_tail next t at ((==_iff t _).0 same), rw at (omega arith))
      | inr other ↦ (_, _, pass next t at (λ e. ground arith), rw at (omega arith))
    ]

    taken : (next : ℕ) → s.consumer ≡ Consumer.ready next → Nearer s
    taken next at = (_, _, take next at, rw at (ground arith))

    looked :
        (used i : ℕ) (snapshot : List ℕ) → s.consumer ≡ Consumer.scanning used i snapshot → Nearer s
    looked used i snapshot at = elim (Bool-cases (ltb i used)) [
      | inl more ↦ (
        _,
        _,
        scan used i snapshot at (ltb→lt i used more),
        rw at (omega (arith, ltb→lt i used more)),
      )
      | inr done ↦ (_, _, end_scan used i snapshot at (ltb→le i used done), rw at (omega arith))
    ]

    swept :
        (snapshot todo survivors : List ℕ)
        → s.consumer ≡ Consumer.sweeping snapshot todo survivors
        → Nearer s
    swept snapshot [] survivors at = (_, _, end_sweep snapshot survivors at, rw at (omega arith))
    swept snapshot (n ∷ todo) survivors at = elim (Bool-cases (contains n snapshot)) [
      | inl seen ↦ (_, _, keep n snapshot todo survivors at seen, rw at (omega arith))
      | inr unseen ↦ (_, _, remove n snapshot todo survivors at unseen, rw at (omega arith))
    ]

    busy : (c : Consumer) → s.consumer ≡ c → c ≢ Consumer.waiting → Nearer s
    busy Consumer.waiting at b = absurd (b refl)
    busy (Consumer.got_next next) at b = (_, _, see_tail next at, rw at (omega arith))
    busy (Consumer.got_tail next t) at b = chosen next t at
    busy (Consumer.ready next) at b = taken next at
    busy Consumer.reclaiming at b = (_, _, begin_scan at, rw at (omega arith))
    busy (Consumer.scanning used i snapshot) at b = looked used i snapshot at
    busy (Consumer.sweeping snapshot todo survivors) at b = swept snapshot todo survivors at

    no_farther :
        {t : System T} {e : Event T}
        → s.consumer ≢ Consumer.waiting
        → Step max_producers s e t
        → left t ≤ left s
    no_farther b (create i node v at e) = omega arith
    no_farther b (find_slot i node k v at e) = omega arith
    no_farther b (take_slot i node v at e lt) = omega arith
    no_farther b (load_tail i node v at) = omega arith
    no_farther b (announce i node t k v at e) = omega arith
    no_farther b (confirm i node t v at e) = omega arith
    no_farther b (again i node t v at e) = omega arith
    no_farther b (see_next i node t t_next v at e) = omega arith
    no_farther b (see_null i node t v at e) = omega arith
    no_farther b (help i node t t_next v at) = omega arith
    no_farther b (link_node i node t v at e) = omega arith
    no_farther b (link_late i node t t_next v at e) = omega arith
    no_farther b (swing_tail i node t at) = omega arith
    no_farther b (clear i k at e) = omega arith
    no_farther b (see_empty at e) = absurd (b at)
    no_farther b (load_next next at e) = absurd (b at)
    no_farther b (see_tail next at) = rw at (ground arith)
    no_farther b (pass next t at e) = rw at (ground arith)
    no_farther b (push_tail next t at e) = rw at (ground arith)
    no_farther b (take next at) = rw at (ground arith)
    no_farther b (begin_scan at) = rw at (ground arith)
    no_farther b (scan used i snapshot at lt) = rw at (ground arith)
    no_farther b (end_scan used i snapshot at le) = rw at (ground arith)
    no_farther b (keep node snapshot todo survivors at e) = rw at (ground arith)
    no_farther b (remove node snapshot todo survivors at e) = rw at (ground arith)
    no_farther b (end_sweep snapshot survivors at) = rw at (ground arith)

    -- Inside `try_dequeue` the consumer always has a step to take that lowers `left`, which bounds
    -- the steps that are left of the call, and no step of any thread raises it: whatever the
    -- producers do, the call ends.
    pub try_dequeue_ends :
        s.consumer ≢ Consumer.waiting
        → Nearer s × ((t : System T) (e : Event T) → Step max_producers s e t → left t ≤ left s)
    try_dequeue_ends b = (busy s.consumer refl b, λ t e st. no_farther b st)
