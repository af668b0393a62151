-- ===== src/Core/MpscQueue/Calm.antt =====
-- The changes of the memory by a producer of core/include/collab/mpsc_queue.h leave the consumer's part
-- of it alone.
use collaborative_text_edito.Common.{
  ℕ, ◌≤◌, ◌≡◌, inl, inr, refl, sym, subst, ◌∙◌, arith, ◌==◌, Bool-cases, none, some, List, [], ◌∷◌,
}
use collaborative_text_edito.Core.MpscQueue.{Place, Memory, allocate, link, swing}
use collaborative_text_edito.Core.MpscQueue.Chain.{IsChain, Held}
use collaborative_text_edito.Core.MpscQueue.Threads.{Consumer, System}
use collaborative_text_edito.Core.MpscQueue.Local.{guards, allocate-next}
use collaborative_text_edito.Core.MpscQueue.Invariant.{Retirees, Consuming}

-- A change of the memory that leaves the consumer's part of it alone.
pub record IsCalm {T : Type 0} (m m' : Memory T) : Type 0 where
  pub head : m'.head ≡ m.head
  pub taken : m'.taken ≡ m.taken
  pub reached : m.reached ≤ m'.reached
  pub next : (n : ℕ) → m.next m.head ≡ some n → m'.next m.head ≡ some n
  pub still : (n : ℕ) → m.place n ≡ Place.retired → m'.place n ≡ Place.retired
  pub before : (n : ℕ) → m'.place n ≡ Place.retired → m.place n ≡ Place.retired

module _ {T : Type 0} where
  pub IsCalm-refl : {m : Memory T} → IsCalm m m
  IsCalm-refl = record {
    head = refl;
    taken = refl;
    reached = omega arith;
    next = λ n e. e;
    still = λ n e. e;
    before = λ n e. e;
  }

  module _ {m : Memory T} (c : IsChain m) where
    head_Held : Held m m.head
    head_Held =
        inr (
          m.taken,
          ground (arith, c.head_at, c.placed m.taken, c.taken_le, c.reached_le),
          c.taken_le,
        )

    pub allocate-IsCalm :
        (i node : ℕ) (v : T) → m.place node ≡ Place.free → IsCalm m (allocate m i node v)
    unfolding allocate
    allocate-IsCalm i node v e = record {
      head = refl;
      taken = refl;
      reached = omega arith;
      next = λ n k. allocate-next c i node v e m.head n head_Held k;
      still = λ n k. ground arith;
      before = λ n k. ground arith;
    }

    pub link-IsCalm :
        (i t node : ℕ) → m.place node ≡ Place.pending i → m.next t ≡ none → IsCalm m (link m t node)
    unfolding link
    link-IsCalm i t node p e = record {
      head = refl;
      taken = refl;
      reached = omega arith;
      next = λ n k. ground arith;
      still = λ n k. ground arith;
      before = λ n k. ground arith;
    }

    pub swing-IsCalm : (t node : ℕ) → IsCalm m (swing m t node)
    unfolding swing
    swing-IsCalm t node = elim (Bool-cases (m.tail == t)) [
      | inl same ↦ rw same (record {
        head = refl;
        taken = refl;
        reached = omega arith;
        next = λ n e. e;
        still = λ n e. e;
        before = λ n e. e;
      })
      | inr other ↦ rw other IsCalm-refl
    ]

  pub Retirees-IsCalm :
      {m m' : Memory T} (ns : List ℕ) → IsCalm m m' → Retirees m ns → Retirees m' ns
  Retirees-IsCalm [] c r = tt
  Retirees-IsCalm (n ∷ ns) c r = (c.still n r.0, r.1, Retirees-IsCalm ns c r.2)

  -- What the consumer knows stays true, if a guard that is new is no retired node.
  pub Consuming-IsCalm :
      (s t : System T) (c : Consumer)
      → IsCalm s.mem t.mem
      → t.retired ≡ s.retired
      → ((j k : ℕ) → s.slot j ≡ some k → t.slot j ≡ some k)
      → ((j n : ℕ)
          → guards (t.pc j) ≡ some n
          → t.mem.place n ≡ Place.retired
          → guards (s.pc j) ≡ some n)
      → Consuming s c
      → Consuming t c
  Consuming-IsCalm s t Consumer.waiting m r slots g h =
      subst (Retirees t.mem) (sym r) (Retirees-IsCalm _ m h)
  Consuming-IsCalm s t (Consumer.got_next next) m r slots g h = (
    ground (arith, m.next next, m.head),
    subst (Retirees t.mem) (sym r) (Retirees-IsCalm _ m h.1),
  )
  Consuming-IsCalm s t (Consumer.got_tail next tail) m r slots g h = (
    ground (arith, m.next next, m.head),
    λ other. (let k = h.1 (λ e. other (e ∙ sym m.head)) in omega (arith, m.taken, m.reached)),
    subst (Retirees t.mem) (sym r) (Retirees-IsCalm _ m h.2),
  )
  Consuming-IsCalm s t (Consumer.ready next) m r slots g h = (
    ground (arith, m.next next, m.head),
    omega (arith, m.taken, m.reached),
    subst (Retirees t.mem) (sym r) (Retirees-IsCalm _ m h.2),
  )
  Consuming-IsCalm s t Consumer.reclaiming m r slots g h =
      subst (Retirees t.mem) (sym r) (Retirees-IsCalm _ m h)
  Consuming-IsCalm s t (Consumer.scanning used i snapshot) m r slots g h = (
    λ j n e p.
        (let (k, at, lt, seen) = h.0 j n (g j n e p) (m.before n p) in (k, slots j k at, lt, seen)),
    subst (Retirees t.mem) (sym r) (Retirees-IsCalm _ m h.1),
  )
  Consuming-IsCalm s t (Consumer.sweeping snapshot todo survivors) m r slots g h = (
    λ j n e p. h.0 j n (g j n e p) (m.before n p),
    Retirees-IsCalm _ m h.1,
    Retirees-IsCalm _ m h.2,
    h.3,
  )
