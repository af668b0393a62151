-- ===== src/Core/MpscQueue/Chain.antt =====
-- The list of the queue in memory, and that the accesses which change it keep it a list.
use collaborative_text_edito.Common.{
  ℕ, suc, ◌≤◌, ◌<◌, ◌≡◌, ◌≢◌, ◌⊎◌, inl, inr, refl, arith, ◌==◌, none, some, Bool-cases, ==_iff,
}
use collaborative_text_edito.Core.MpscQueue.{
  Place, Memory, allocate, link, swing, advance, delete, constructed,
}

pub record IsChain {T : Type 0} (m : Memory T) : Type 0 where
  pub taken_le : m.taken ≤ m.reached
  pub reached_le : m.reached ≤ m.linked
  pub lag : m.linked ≤ suc m.reached
  pub head_at : m.head ≡ m.node_at m.taken
  pub tail_at : m.tail ≡ m.node_at m.reached
  pub placed : (r : ℕ) → m.taken ≤ r → r ≤ m.linked → m.place (m.node_at r) ≡ Place.chained r
  pub ranked :
      (n r : ℕ) → m.place n ≡ Place.chained r → (m.taken ≤ r) × (r ≤ m.linked) × (m.node_at r ≡ n)
  pub successor :
      (r : ℕ) → m.taken ≤ r → r < m.linked → m.next (m.node_at r) ≡ some (m.node_at (suc r))
  pub last : m.next (m.node_at m.linked) ≡ none
  pub retired_linked : (n : ℕ) → m.place n ≡ Place.retired → m.next n ≢ none

-- A node that the tail has reached and that has not been deleted.
abbrev pub Held : {T : Type 0} → Memory T → ℕ → Type 0
Held m t = (m.place t ≡ Place.retired) ⊎ ((r : ℕ) × (m.place t ≡ Place.chained r) × (r ≤ m.reached))

module _ {T : Type 0} {m : Memory T} (c : IsChain m) where
  open c use {
    taken_le, reached_le, lag, head_at, tail_at, placed, ranked, successor, last, retired_linked,
  }

  pub allocate-IsChain :
      (producer node : ℕ) (value : T)
      → m.place node ≡ Place.free
      → IsChain (allocate m producer node value)
  unfolding allocate
  allocate-IsChain producer node value e = record {
    taken_le = taken_le;
    reached_le = reached_le;
    lag = lag;
    head_at = head_at;
    tail_at = tail_at;
    placed = λ r h k. ground (arith, placed r h k);
    ranked = λ n r h. ground (arith, ranked n r);
    successor = λ r h k. ground (arith, placed r h, successor r h k);
    last = ground (arith, placed m.linked, last);
    retired_linked = λ n h. ground (arith, retired_linked n);
  }

  -- A node that is held and has no successor is the last one, and the tail.
  held_last :
      (t : ℕ) → Held m t → m.next t ≡ none → (m.node_at m.linked ≡ t) × (m.reached ≡ m.linked)
  held_last t (inl h) e = absurd (retired_linked t h e)
  held_last t (inr (r, h, k)) e =
      (ground (arith, ranked t r h, successor r), ground (arith, ranked t r h, successor r))

  pub link-IsChain :
      (producer t node : ℕ)
      → Held m t
      → m.next t ≡ none
      → m.place node ≡ Place.pending producer
      → m.next node ≡ none
      → IsChain (link m t node)
  unfolding link
  link-IsChain producer t node held e p q =
      let l = held_last t held e in
      record {
        taken_le = taken_le;
        reached_le = omega arith;
        lag = omega arith;
        head_at = ground arith;
        tail_at = ground arith;
        placed = λ r h k. ground (arith, placed r h);
        ranked = λ n r h. ground (arith, ranked n r);
        successor = λ r h k. ground (arith, placed r h, placed m.linked, successor r h);
        last = ground (arith, placed m.linked);
        retired_linked = λ n h. ground (arith, retired_linked n);
      }

  moved-IsChain :
      (node : ℕ)
      → m.next m.tail ≡ some node
      → IsChain (record m { tail = node; reached = suc m.reached })
  moved-IsChain node e =
      let behind : m.reached < m.linked = ground (arith, last) in
      record {
        taken_le = omega arith;
        reached_le = behind;
        lag = omega arith;
        head_at = head_at;
        tail_at = ground (arith, successor m.reached);
        placed = placed;
        ranked = ranked;
        successor = successor;
        last = last;
        retired_linked = retired_linked;
      }

  pub swing-IsChain : (t node : ℕ) → m.next t ≡ some node → IsChain (swing m t node)
  unfolding swing
  swing-IsChain t node e = elim (Bool-cases (m.tail == t)) [
    | inl same ↦ rw same (moved-IsChain node (rw ((==_iff m.tail t).0 same) e))
    | inr other ↦ rw other c
  ]

  pub advance-IsChain :
      (node : ℕ) → m.next m.head ≡ some node → m.taken < m.reached → IsChain (advance m node)
  unfolding advance
  advance-IsChain node e h = record {
    taken_le = omega arith;
    reached_le = reached_le;
    lag = lag;
    head_at = ground (arith, successor m.taken);
    tail_at = tail_at;
    placed = λ r h k. ground (arith, placed r, placed m.taken);
    ranked = λ n r h. ground (arith, ranked n r, placed m.taken);
    successor = λ r h k. ground (arith, successor r);
    last = last;
    retired_linked = λ n h. ground (arith, retired_linked n);
  }

  pub delete-IsChain : (node : ℕ) → m.place node ≡ Place.retired → IsChain (delete m node)
  unfolding delete
  delete-IsChain node e = record {
    taken_le = taken_le;
    reached_le = reached_le;
    lag = lag;
    head_at = head_at;
    tail_at = tail_at;
    placed = λ r h k. ground (arith, placed r h k);
    ranked = λ n r h. ground (arith, ranked n r);
    successor = successor;
    last = last;
    retired_linked = λ n h. ground (arith, retired_linked n);
  }

pub constructed-IsChain : {T : Type 0} (value : T) → IsChain (constructed value)
unfolding constructed
constructed-IsChain value = record {
  taken_le = omega arith;
  reached_le = omega arith;
  lag = omega arith;
  head_at = refl;
  tail_at = refl;
  placed = λ r h k. ground arith;
  ranked = λ n r h. ground arith;
  successor = λ r h k. absurd (omega arith);
  last = refl;
  retired_linked = λ n h. ground arith;
}
