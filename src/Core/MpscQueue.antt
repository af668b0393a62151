-- ===== src/Core/MpscQueue.antt =====
-- core/include/collab/mpsc_queue.h: a linked list to which many threads append and from which one
-- takes, with hazard pointers that say which nodes may not be deleted. An access to shared memory is
-- one step; the order of the accesses is one for all threads.
pub mod Chain
pub mod Threads
pub mod Local
pub mod Invariant
pub mod Calm
pub mod Produce
pub mod Consume
pub mod Steps
pub mod Safety
pub mod Progress
pub mod Values
pub mod Order
use collaborative_text_edito.Common.{
  ℕ, suc, ◌+◌, ◌==◌, Option, none, some, List, [], ◌∷◌, ◌++◌, if◌then◌else◌,
}

abbrev pub update : {B : Type 0} → (ℕ → B) → ℕ → B → ℕ → B
update f i b j = if j == i then b else f j

-- What an address is used for. The code keeps only whether it is allocated; an address that is not is
-- `free`, and may be allocated again.
pub data Place : Type 0 where
  free : Place
  pending : (producer : ℕ) → Place
  chained : (rank : ℕ) → Place
  retired : Place

-- The nodes by their addresses, and the ends of the list. Below stands the history, which the code
-- does not keep: the node that was linked as the `rank`-th, the ranks of head, tail and last node,
-- and the values in the order in which they were linked.
pub record Memory (T : Type 0) : Type 0 where
  pub place : ℕ → Place
  pub next : ℕ → Option ℕ
  pub value : ℕ → T
  pub tail : ℕ
  pub head : ℕ
  pub node_at : ℕ → ℕ
  pub taken : ℕ
  pub reached : ℕ
  pub linked : ℕ
  pub log : List T

module _ {T : Type 0} where
  -- `new Node(std::move(value))`
  unfoldable pub allocate : Memory T → ℕ → ℕ → T → Memory T
  allocate m producer node value = record m {
    place = update m.place node (Place.pending producer);
    next = update m.next node none;
    value = update m.value node value;
  }

  -- A compare-exchange of `t->next` from null to `node` that succeeds.
  unfoldable pub link : Memory T → ℕ → ℕ → Memory T
  link m t node = record m {
    place = update m.place node (Place.chained (suc m.linked));
    next = update m.next t (some node);
    node_at = update m.node_at (suc m.linked) node;
    linked = suc m.linked;
    log = m.log ++ m.value node ∷ [];
  }

  -- A compare-exchange of `tail_` from `t` to `node`, which may fail.
  unfoldable pub swing : Memory T → ℕ → ℕ → Memory T
  swing m t node = if m.tail == t then record m { tail = node; reached = suc m.reached } else m

  -- `head_ = next`, and the old head among the retired nodes.
  unfoldable pub advance : Memory T → ℕ → Memory T
  advance m next = record m {
    place = update m.place m.head Place.retired;
    head = next;
    taken = suc m.taken;
  }

  -- `delete cur`
  unfoldable pub delete : Memory T → ℕ → Memory T
  delete m node = record m { place = update m.place node Place.free }

  -- `MPSCQueue()`, with the sentinel at address 0.
  unfoldable pub constructed : T → Memory T
  constructed value = record {
    place = update (λ n. Place.free) 0 (Place.chained 0);
    next = λ n. none;
    value = λ n. value;
    tail = 0;
    head = 0;
    node_at = λ n. 0;
    taken = 0;
    reached = 0;
    linked = 0;
    log = [];
  }
