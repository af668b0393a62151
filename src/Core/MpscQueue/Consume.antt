-- ===== src/Core/MpscQueue/Consume.antt =====
-- The steps of the consumer of core/include/collab/mpsc_queue.h keep the invariant.
use collaborative_text_edito.Common.{
  ℕ, suc, ◌<◌, ◌≡◌, inl, inr, sym, subst, arith, ◌==◌, ==_iff, Bool-cases, true, false, Option,
  none, some, List, [], ◌∷◌,
}
use collaborative_text_edito.Core.MpscQueue.{Place, Memory, swing, advance, delete}
use collaborative_text_edito.Core.MpscQueue.Chain.{
  IsChain, swing-IsChain, advance-IsChain, delete-IsChain,
}
use collaborative_text_edito.Core.MpscQueue.Threads.{
  Consumer, System, contains, with_hazard, at_consumer,
}
use collaborative_text_edito.Core.MpscQueue.Local.{
  Relies-Keeps, Relies-guards, swing-Keeps, advance-Keeps, delete-Keeps,
}
use collaborative_text_edito.Core.MpscQueue.Invariant.{
  hazard_of, Differs, Retirees, Disjoint, Scanned, Consuming, Inv,
}
use collaborative_text_edito.Core.MpscQueue.Calm.{IsCalm, swing-IsCalm, Retirees-IsCalm}

module _ {T : Type 0} (m : Memory T) where
  advance-Retirees :
      (r next : ℕ) (ns : List ℕ)
      → m.place m.head ≡ Place.chained r
      → Retirees m ns
      → Retirees (advance m next) ns
  unfolding advance
  advance-Retirees r next [] e h = tt
  advance-Retirees r next (n ∷ ns) e h = (ground arith, h.1, advance-Retirees r next ns e h.2)

  head_Differs :
      (r : ℕ) (ns : List ℕ) → m.place m.head ≡ Place.chained r → Retirees m ns → Differs m.head ns
  head_Differs r [] e h = tt
  head_Differs r (n ∷ ns) e h = ((λ same. ground arith), head_Differs r ns e h.2)

  delete-Retirees :
      (node : ℕ) (ns : List ℕ) → Differs node ns → Retirees m ns → Retirees (delete m node) ns
  unfolding delete
  delete-Retirees node [] d h = tt
  delete-Retirees node (n ∷ ns) d h = (ground arith, h.1, delete-Retirees node ns d.1 h.2)

  swing_ahead :
      (next t : ℕ) → IsChain m → t ≡ m.head → (swing m t next).taken < (swing m t next).reached
  unfolding swing
  swing_ahead next t c e = ground (arith, c.taken_le, c.head_at, c.tail_at)

pub Disjoint-move : (n : ℕ) (ns ks : List ℕ) → Differs n ns → Disjoint ns ks → Disjoint ns (n ∷ ks)
Disjoint-move n [] ks d h = tt
Disjoint-move n (m ∷ ns) ks d h = (((λ e. d.0 (sym e)), h.0), Disjoint-move n ns ks d.1 h.1)

pub Disjoint-nil : (ns : List ℕ) → Disjoint ns []
Disjoint-nil [] = tt
Disjoint-nil (n ∷ ns) = (tt, Disjoint-nil ns)

contains-with_hazard :
    (t : ℕ) (o : Option ℕ) (snapshot : List ℕ)
    → contains t snapshot ≡ true
    → contains t (with_hazard o snapshot) ≡ true
unfolding contains
contains-with_hazard t none snapshot h = h
contains-with_hazard t (some p) snapshot h = ground arith

contains_self : (t : ℕ) (snapshot : List ℕ) → contains t (t ∷ snapshot) ≡ true
unfolding contains
contains_self t snapshot = ground arith

module _ {T : Type 0} {max_producers : ℕ} {s : System T} (inv : Inv max_producers s) where
  open inv use {chain, assigned, relies, consuming}

  -- A step that only changes where the consumer stands.
  pub turned : (c : Consumer) → Consuming s c → Inv max_producers (at_consumer s c)
  turned c h = record { chain = chain; assigned = assigned; relies = relies; consuming = h }

  pub pushed :
      (next t : ℕ)
      → Consuming s (Consumer.got_tail next t)
      → t ≡ s.mem.head
      → Inv max_producers
          (at_consumer (record s { mem = swing s.mem t next }) (Consumer.ready next))
  pushed next t h e = record {
    chain = swing-IsChain chain t next (subst (λ n. s.mem.next n ≡ some next) (sym e) h.0);
    assigned = assigned;
    relies = λ j. Relies-Keeps _ j (s.pc j) (swing-Keeps chain t next j (s.pc j)) (relies j);
    consuming = (
      ground (arith, calm.next next, calm.head),
      swing_ahead s.mem next t chain e,
      Retirees-IsCalm _ calm h.2,
    );
  }
    where
      calm : IsCalm s.mem (swing s.mem t next)
      calm = swing-IsCalm chain t next

  pub taken_out :
      (next : ℕ) (c : Consumer)
      → Consuming s (Consumer.ready next)
      → (Retirees (advance s.mem next) (s.mem.head ∷ s.retired)
          → Consuming
              (at_consumer
                (record s { mem = advance s.mem next; retired = s.mem.head ∷ s.retired })
                c)
              c)
      → Inv max_producers
          (at_consumer (record s { mem = advance s.mem next; retired = s.mem.head ∷ s.retired }) c)
  taken_out next c h on = record {
    chain = advance-IsChain chain next h.0 h.1;
    assigned = assigned;
    relies = λ j. Relies-Keeps _ j (s.pc j) (advance-Keeps chain next j (s.pc j)) (relies j);
    consuming = on (
      unfold advance in ground arith,
      head_Differs s.mem s.mem.taken s.retired at h.2,
      advance-Retirees s.mem s.mem.taken next s.retired at h.2,
    );
  }
    where
      at : s.mem.place s.mem.head ≡ Place.chained s.mem.taken
      at = ground (arith, chain.head_at, chain.placed s.mem.taken, chain.taken_le, chain.reached_le)

  -- What is seen of the hazard pointers when one more has been read.
  pub scanned :
      (used i : ℕ) (snapshot : List ℕ)
      → Scanned s used i snapshot
      → Scanned s used (suc i) (with_hazard (s.hazard i) snapshot)
  scanned used i snapshot h j t g p =
      let (k, at, lt, seen) = h j t g p in
      (
        k,
        at,
        lt,
        λ le. elim (Bool-cases (k == i)) [
          | inl same ↦
              rw
                (here k at ((==_iff k i).0 same)
                  (Relies-guards s.mem _ j t (s.pc j) (relies j) g).0)
                (contains_self t snapshot)
          | inr other ↦ contains-with_hazard t (s.hazard i) snapshot (seen (ground arith))
        ],
      )
    where
      here :
          (k : ℕ)
          → s.slot j ≡ some k
          → k ≡ i
          → hazard_of s.slot s.hazard j ≡ some t
          → s.hazard i ≡ some t
      here k at same e = ground arith

  pub removed :
      (node : ℕ) (snapshot todo survivors : List ℕ)
      → Consuming s (Consumer.sweeping snapshot (node ∷ todo) survivors)
      → contains node snapshot ≡ false
      → Inv max_producers (
          at_consumer
            (record s { mem = delete s.mem node })
            (Consumer.sweeping snapshot todo survivors))
  removed node snapshot todo survivors h unseen = record {
    chain = delete-IsChain chain node h.1.0;
    assigned = assigned;
    relies = λ j.
        Relies-Keeps _ j (s.pc j)
          (delete-Keeps chain node j (s.pc j) h.1.0 (λ g. ground (arith, h.0 j node g h.1.0)))
          (relies j);
    consuming = (
      λ j t g p. h.0 j t g (unfold delete in ground arith),
      delete-Retirees s.mem node todo h.1.1 h.1.2,
      delete-Retirees s.mem node survivors h.3.0 h.2,
      h.3.1,
    );
  }
