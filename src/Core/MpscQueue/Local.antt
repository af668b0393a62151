-- ===== src/Core/MpscQueue/Local.antt =====
-- What a producer of core/include/collab/mpsc_queue.h may rely on where it stands, and which changes
-- of the memory by others keep that.
use collaborative_text_edito.Common.{
  ℕ, suc, ◌≡◌, ◌≢◌, inl, inr, refl, ap, subst, ◌∙◌, arith, ◌==◌, Bool-cases, Option, none, some,
}
use collaborative_text_edito.Core.MpscQueue.{Place, Memory, allocate, link, swing, advance, delete}
use collaborative_text_edito.Core.MpscQueue.Chain.{IsChain, Held}
use collaborative_text_edito.Core.MpscQueue.Threads.{Producer}

-- The node that its hazard pointer protects, between the check and the end of `enqueue`'s round.
abbrev pub guards : {T : Type 0} → Producer T → Option ℕ
guards (Producer.guarded node v t) = some t
guards (Producer.helping node v t t_next) = some t
guards (Producer.linking node v t) = some t
guards (Producer.swinging node t) = some t
guards _ = none

-- The node is not linked yet, and only its producer knows it.
abbrev pub Owns : {T : Type 0} → Memory T → ℕ → ℕ → T → Type 0
Owns m i node v = (m.place node ≡ Place.pending i) × (m.next node ≡ none) × (m.value node ≡ v)

-- `hazard` is the thread's hazard pointer.
abbrev pub Relies : {T : Type 0} → Memory T → Option ℕ → ℕ → Producer T → Type 0
Relies m hazard i Producer.idle = Unit {0}
Relies m hazard i (Producer.created node v) = Owns m i node v
Relies m hazard i (Producer.starting node v) = Owns m i node v
Relies m hazard i (Producer.read_tail node v t) = Owns m i node v
Relies m hazard i (Producer.announced node v t) = (hazard ≡ some t) × Owns m i node v
Relies m hazard i (Producer.guarded node v t) = (hazard ≡ some t) × Held m t × Owns m i node v
Relies m hazard i (Producer.helping node v t t_next) =
    (hazard ≡ some t) × Held m t × (m.next t ≡ some t_next) × Owns m i node v
Relies m hazard i (Producer.linking node v t) = (hazard ≡ some t) × Held m t × Owns m i node v
Relies m hazard i (Producer.swinging node t) = (hazard ≡ some t) × Held m t × (m.next t ≡ some node)
Relies m hazard i Producer.clearing = Unit {0}

module _ {T : Type 0} where
  pub Relies-guards :
      (m : Memory T) (hazard : Option ℕ) (i t : ℕ) (p : Producer T)
      → Relies m hazard i p
      → guards p ≡ some t
      → (hazard ≡ some t) × Held m t
  Relies-guards m hazard i s (Producer.guarded node v t) r e =
      (ground arith, subst (Held m) (ground arith) r.1)
  Relies-guards m hazard i s (Producer.helping node v t t_next) r e =
      (ground arith, subst (Held m) (ground arith) r.1)
  Relies-guards m hazard i s (Producer.linking node v t) r e =
      (ground arith, subst (Held m) (ground arith) r.1)
  Relies-guards m hazard i s (Producer.swinging node t) r e =
      (ground arith, subst (Held m) (ground arith) r.1)
  Relies-guards m hazard i s Producer.idle r e = cc
  Relies-guards m hazard i s (Producer.created node v) r e = cc
  Relies-guards m hazard i s (Producer.starting node v) r e = cc
  Relies-guards m hazard i s (Producer.read_tail node v t) r e = cc
  Relies-guards m hazard i s (Producer.announced node v t) r e = cc
  Relies-guards m hazard i s Producer.clearing r e = cc

  -- What a change of the memory keeps for producer `j`, which stands at `p`.
  pub record Keeps (m m' : Memory T) (j : ℕ) (p : Producer T) : Type 0 where
    pub owns : (node : ℕ) (v : T) → Owns m j node v → Owns m' j node v
    pub held : (t : ℕ) → guards p ≡ some t → Held m t → Held m' t
    pub next : (t n : ℕ) → guards p ≡ some t → Held m t → m.next t ≡ some n → m'.next t ≡ some n

  pub Relies-Keeps :
      {m m' : Memory T} (hazard : Option ℕ) (j : ℕ) (p : Producer T)
      → Keeps m m' j p
      → Relies m hazard j p
      → Relies m' hazard j p
  Relies-Keeps hazard j Producer.idle k r = tt
  Relies-Keeps hazard j (Producer.created node v) k r = k.owns node v r
  Relies-Keeps hazard j (Producer.starting node v) k r = k.owns node v r
  Relies-Keeps hazard j (Producer.read_tail node v t) k r = k.owns node v r
  Relies-Keeps hazard j (Producer.announced node v t) k r = (r.0, k.owns node v r.1)
  Relies-Keeps hazard j (Producer.guarded node v t) k r =
      (r.0, k.held t refl r.1, k.owns node v r.2)
  Relies-Keeps hazard j (Producer.helping node v t t_next) k r =
      (r.0, k.held t refl r.1, k.next t t_next refl r.1 r.2, k.owns node v r.3)
  Relies-Keeps hazard j (Producer.linking node v t) k r =
      (r.0, k.held t refl r.1, k.owns node v r.2)
  Relies-Keeps hazard j (Producer.swinging node t) k r =
      (r.0, k.held t refl r.1, k.next t node refl r.1 r.2)
  Relies-Keeps hazard j Producer.clearing k r = tt

  pub Keeps-refl : {m : Memory T} (j : ℕ) (p : Producer T) → Keeps m m j p
  Keeps-refl j p = record { owns = λ n v o. o; held = λ t g h. h; next = λ t n g h e. e }

  module _ {m : Memory T} (c : IsChain m) where
    open c use {placed, ranked, retired_linked, last, taken_le, reached_le}

    module _ (i node : ℕ) (v : T) (e : m.place node ≡ Place.free) where
      allocate-Held : (t : ℕ) → Held m t → Held (allocate m i node v) t
      unfolding allocate
      allocate-Held t (inl h) = inl (ground arith)
      allocate-Held t (inr (r, h, k)) = inr (r, ground arith, k)

      pub allocate-next :
          (t n : ℕ) → Held m t → m.next t ≡ some n → (allocate m i node v).next t ≡ some n
      unfolding allocate
      allocate-next t n (inl h) k = ground arith
      allocate-next t n (inr (r, h, _)) k = ground arith

      pub allocate-Keeps : (j : ℕ) (p : Producer T) → Keeps m (allocate m i node v) j p
      unfolding allocate
      allocate-Keeps j p = record {
        owns = λ n w o. (ground arith, ground arith, ground arith);
        held = λ t g h. allocate-Held t h;
        next = λ t n g h k. allocate-next t n h k;
      }

    module _ (i t node : ℕ) (p : m.place node ≡ Place.pending i) (e : m.next t ≡ none) where
      pub link-Held : (u : ℕ) → Held m u → Held (link m t node) u
      unfolding link
      link-Held u (inl h) = inl (ground arith)
      link-Held u (inr (r, h, k)) = inr (r, ground arith, k)

      pub link-next : (u n : ℕ) → m.next u ≡ some n → (link m t node).next u ≡ some n
      unfolding link
      link-next u n h = ground arith

      -- For the other producers; `t` is in the list, and a node of theirs is not.
      pub link-Keeps : Held m t → (j : ℕ) (q : Producer T) → j ≢ i → Keeps m (link m t node) j q
      unfolding link
      link-Keeps (inl h) j q other = record {
        owns = λ n w o. (ground arith, ground arith, ground arith);
        held = λ u g k. link-Held u k;
        next = λ u n g k l. link-next u n l;
      }
      link-Keeps (inr (r, h, _)) j q other = record {
        owns = λ n w o. (ground arith, ground arith, ground arith);
        held = λ u g k. link-Held u k;
        next = λ u n g k l. link-next u n l;
      }

    moved-Held :
        (node u : ℕ) → Held m u → Held (record m { tail = node; reached = suc m.reached }) u
    moved-Held node u (inl h) = inl h
    moved-Held node u (inr (r, h, k)) = inr (r, h, omega arith)

    pub swing-Keeps : (t node j : ℕ) (p : Producer T) → Keeps m (swing m t node) j p
    unfolding swing
    swing-Keeps t node j p = elim (Bool-cases (m.tail == t)) [
      | inl same ↦
          rw same (record {
            owns = λ n v o. o;
            held = λ u g h. moved-Held node u h;
            next = λ u n g h e. e;
          })
      | inr other ↦ rw other (Keeps-refl j p)
    ]

    advance-Held : (node u : ℕ) → Held m u → Held (advance m node) u
    unfolding advance
    advance-Held node u (inl h) = inl (ground arith)
    advance-Held node u (inr (r, h, k)) = elim (Bool-cases (u == m.head)) [
      | inl same ↦ inl (ground arith)
      | inr other ↦ inr (r, ground arith, k)
    ]

    pub advance-Keeps : (node j : ℕ) (p : Producer T) → Keeps m (advance m node) j p
    unfolding advance
    advance-Keeps node j p = record {
      owns = λ n v o. (ground (arith, c.head_at, placed m.taken), o.1, o.2);
      held = λ u g h. advance-Held node u h;
      next = λ u n g h e. e;
    }

    delete-Held : (node u : ℕ) → u ≢ node → Held m u → Held (delete m node) u
    unfolding delete
    delete-Held node u other (inl h) = inl (ground arith)
    delete-Held node u other (inr (r, h, k)) = inr (r, ground arith, k)

    -- A retired node may be deleted, if the producer does not guard it.
    pub delete-Keeps :
        (node j : ℕ) (p : Producer T)
        → m.place node ≡ Place.retired
        → guards p ≢ some node
        → Keeps m (delete m node) j p
    unfolding delete
    delete-Keeps node j p e free_of = record {
      owns = λ n v o. (ground arith, o.1, o.2);
      held = λ u g h. delete-Held node u (λ same. free_of (g ∙ ap some same)) h;
      next = λ u n g h k. k;
    }
