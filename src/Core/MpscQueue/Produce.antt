-- ===== src/Core/MpscQueue/Produce.antt =====
-- The steps of a producer of core/include/collab/mpsc_queue.h keep the invariant.
use collaborative_text_edito.Common.{
  ℕ, suc, ◌<◌, ◌≡◌, ◌≢◌, inl, inr, refl, sym, subst, arith, ◌==◌, ==_iff, Bool-cases, Option, none,
  some, ==_refl, Option-cases,
}
use collaborative_text_edito.Core.MpscQueue.{Place, Memory, update}
use collaborative_text_edito.Core.MpscQueue.Chain.{IsChain}
use collaborative_text_edito.Core.MpscQueue.Threads.{Producer, System, at_producer}
use collaborative_text_edito.Core.MpscQueue.Local.{guards, Relies, Keeps, Keeps-refl, Relies-Keeps}
use collaborative_text_edito.Core.MpscQueue.Invariant.{hazard_of, IsAssigned, Inv}
use collaborative_text_edito.Core.MpscQueue.Calm.{IsCalm, IsCalm-refl, Consuming-IsCalm}

-- Thread `i` goes to `p`, and the others stand where they stood.
update_all :
    {B : Type 0} (P : ℕ → B → Type 0) (f : ℕ → B) (i : ℕ) (b : B)
    → P i b
    → ((j : ℕ) → j ≢ i → P j (f j))
    → (j : ℕ) → P j (update f i b j)
update_all P f i b here there j = elim (Bool-cases (j == i)) [
  | inl same ↦ rw same (subst (λ k. P k b) (sym ((==_iff j i).0 same)) here)
  | inr other ↦ rw other (there j (λ e. ground arith))
]

module _ {T : Type 0} {max_producers : ℕ} {s : System T} (inv : Inv max_producers s) where
  open inv use {chain, assigned, relies, consuming}

  -- A step of thread `i`, with its effect on the memory and on the slots.
  moved :
      (m : Memory T) (slot : ℕ → Option ℕ) (used : ℕ) (hazard : ℕ → Option ℕ) (i : ℕ)
      (p : Producer T)
      → IsChain m
      → IsAssigned max_producers slot used
      → IsCalm s.mem m
      → ((j : ℕ) → j ≢ i → Keeps s.mem m j (s.pc j))
      → ((j : ℕ) → j ≢ i → hazard_of slot hazard j ≡ hazard_of s.slot s.hazard j)
      → ((j k : ℕ) → s.slot j ≡ some k → slot j ≡ some k)
      → ((n : ℕ) → guards p ≡ some n → m.place n ≡ Place.retired → guards (s.pc i) ≡ some n)
      → Relies m (hazard_of slot hazard i) i p
      → Inv max_producers
          (at_producer (record s { mem = m; slot = slot; slots_used = used; hazard = hazard }) i p)
  moved m slot used hazard i p c a calm keeps hazards slots guarded local = record {
    chain = c;
    assigned = a;
    relies =
        update_all (λ j q. Relies m (hazard_of slot hazard j) j q) s.pc i p local
          (λ j other.
            rw (hazards j other)
              (Relies-Keeps (hazard_of s.slot s.hazard j) j (s.pc j) (keeps j other) (relies j)));
    consuming =
        Consuming-IsCalm s
          (at_producer (record s { mem = m; slot = slot; slots_used = used; hazard = hazard }) i p)
          s.consumer calm refl slots
          (update_all
            (λ j q.
              (n : ℕ) → guards q ≡ some n → m.place n ≡ Place.retired → guards (s.pc j) ≡ some n)
            s.pc i p guarded (λ j other n e h. e))
          consuming;
  }

  -- A step that changes neither the memory nor the slots.
  pub walked :
      (i : ℕ) (p : Producer T)
      → ((n : ℕ) → guards p ≡ some n → s.mem.place n ≡ Place.retired → guards (s.pc i) ≡ some n)
      → Relies s.mem (hazard_of s.slot s.hazard i) i p
      → Inv max_producers (at_producer s i p)
  walked i p guarded local =
      moved s.mem s.slot s.slots_used s.hazard i p chain assigned IsCalm-refl
        (λ j o. Keeps-refl j (s.pc j)) (λ j o. refl) (λ j k e. e) guarded local

  -- A step that changes the memory only.
  pub wrote :
      (m : Memory T) (i : ℕ) (p : Producer T)
      → IsChain m
      → IsCalm s.mem m
      → ((j : ℕ) → j ≢ i → Keeps s.mem m j (s.pc j))
      → ((n : ℕ) → guards p ≡ some n → m.place n ≡ Place.retired → guards (s.pc i) ≡ some n)
      → Relies m (hazard_of s.slot s.hazard i) i p
      → Inv max_producers (at_producer (record s { mem = m }) i p)
  wrote m i p c calm keeps guarded local =
      moved m s.slot s.slots_used s.hazard i p c assigned calm keeps (λ j o. refl) (λ j k e. e)
        guarded local

  -- A store to the own hazard pointer.
  pub stored :
      (i k : ℕ) (to : Option ℕ) (p : Producer T)
      → s.slot i ≡ some k
      → guards p ≡ none
      → Relies s.mem to i p
      → Inv max_producers (at_producer (record s { hazard = update s.hazard k to }) i p)
  stored i k to p e unguarded local =
      moved s.mem s.slot s.slots_used (update s.hazard k to) i p chain assigned IsCalm-refl
        (λ j o. Keeps-refl j (s.pc j)) others (λ j l h. h) (λ n g h. cc)
        (rw e (rw (==_refl k) local))
    where
      others :
          (j : ℕ) → j ≢ i → hazard_of s.slot (update s.hazard k to) j ≡ hazard_of s.slot s.hazard j
      others j other = elim (Option-cases (s.slot j)) [
        | inl e' ↦ rw e' refl
        | inr (l, e') ↦ rw e' (ground (arith, assigned.apart j i k))
      ]

  pub slot_taken :
      (i node : ℕ) (v : T)
      → s.slot i ≡ none
      → s.slots_used < max_producers
      → s.pc i ≡ Producer.created node v
      → Inv max_producers (
          at_producer
            (record s { slot = update s.slot i (some s.slots_used); slots_used = suc s.slots_used })
            i
            (Producer.starting node v))
  slot_taken i node v e lt at =
      moved s.mem (update s.slot i (some s.slots_used)) (suc s.slots_used) s.hazard i
        (Producer.starting node v) chain
        (record {
          few = lt;
          below = λ j k h. ground (arith, assigned.below j k);
          apart = λ j l k h g.
              ground (arith, assigned.apart j l k, assigned.below j k, assigned.below l k);
        })
        IsCalm-refl (λ j o. Keeps-refl j (s.pc j)) (λ j o. ground arith) (λ j k h. ground arith)
        (λ n g h. cc) (subst (Relies s.mem (hazard_of s.slot s.hazard i) i) at (relies i))
