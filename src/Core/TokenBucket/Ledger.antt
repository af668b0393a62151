-- ===== src/Core/TokenBucket/Ledger.antt =====
-- No token is spent twice, whatever the order in which the threads run
-- (core/src/token_bucket.cpp).
use collaborative_text_edito.Common.{ℕ, ◌+◌, ◌^◌, ◌≤◌, ◌<◌, ◌≡◌, arith, ◌==◌, Bool-cases, inl, inr}
use collaborative_text_edito.Core.TokenBucket.{
  tokens_to_add, new_value, Pc, Move, load, refuse, exchange, retry, leave, refill, advance,
  exchange_more, retry_more, granted_by, added_by, System, update, Step, pick, Reach, first, later,
}

-- What a thread holds in its local variables: a value that the bucket had, and an amount that
-- cannot overflow.
abbrev pub Holds : ℕ → Pc → Type 0
Holds capacity Pc.idle = Unit {0}
Holds capacity (Pc.consuming current count) = current ≤ capacity
Holds capacity (Pc.advancing current amount) = (current ≤ capacity) × (amount ≤ 2 ^ 63)
Holds capacity (Pc.returned result) = Unit {0}

-- The bucket is within its capacity, and what it holds and granted is what it had and got.
pub record IsBalanced (capacity : ℕ) (s : System) : Type 0 where
  pub within : s.tokens ≤ capacity
  pub balance : s.tokens + s.granted ≡ capacity + s.added
  pub locals : (i : ℕ) → Holds capacity (s.pc i)

amount_bound : (capacity duration : ℕ) → tokens_to_add capacity duration ≤ 2 ^ 63
unfolding tokens_to_add
amount_bound capacity duration = ground arith

new_value_bounds :
    (current amount capacity : ℕ)
    → capacity < 2 ^ 32
    → current ≤ capacity
    → amount ≤ 2 ^ 63
    → (current ≤ new_value current amount capacity) × (new_value current amount capacity ≤ capacity)
unfolding new_value
new_value_bounds current amount capacity h k l = omega arith

-- One move keeps the bucket within its capacity and the ledger balanced.
Move-balance :
    {capacity tokens tokens' : ℕ} {p p' : Pc} (move : Move capacity tokens p tokens' p')
    → capacity < 2 ^ 32
    → tokens ≤ capacity
    → Holds capacity p
    → (tokens' ≤ capacity)
      × (tokens' + granted_by move ≡ tokens + added_by move)
      × Holds capacity p'
unfolding granted_by added_by
Move-balance (load count) c h l = (h, omega arith, h)
Move-balance (refuse k) c h l = (h, omega arith, tt)
Move-balance (exchange k e) c h l = (omega arith, omega arith, tt)
Move-balance (retry k) c h l = (h, omega arith, h)
Move-balance leave c h l = (h, omega arith, tt)
Move-balance refill c h l = (omega arith, omega arith, tt)
Move-balance {capacity} (advance duration) c h l =
    (h, omega arith, (h, amount_bound capacity duration))
Move-balance {capacity} (exchange_more {current = x} {amount = n} e) c h l =
    let (low, high) = new_value_bounds x n capacity c l.0 l.1 in (high, omega arith, tt)
Move-balance retry_more c h l = (h, omega arith, (h, l.1))

update-Holds :
    (capacity : ℕ) (pc : ℕ → Pc) (i : ℕ) (p : Pc) (j : ℕ)
    → ((k : ℕ) → Holds capacity (pc k))
    → Holds capacity p
    → Holds capacity (update pc i p j)
update-Holds capacity pc i p j all h = elim (Bool-cases (j == i)) [
  | inl e ↦ rw e h
  | inr e ↦ rw e (all j)
]

Step-IsBalanced :
    {capacity : ℕ} {s t : System}
    → capacity < 2 ^ 32
    → Step capacity s t
    → IsBalanced capacity s
    → IsBalanced capacity t
Step-IsBalanced {capacity} {s} c (pick i {p' = p} move) b =
    let (within, balance, holds) = Move-balance move c b.within (b.locals i) in
    record {
      within = within;
      balance = omega arith;
      locals = λ j. update-Holds capacity s.pc i p j b.locals holds;
    }

-- With a capacity of 32 bits, in every state that any number of threads can reach, the bucket holds
-- at most its capacity, and what it holds together with all that was granted is exactly what it
-- started with and what was added: no token is granted twice and none is lost.
pub reach-IsBalanced :
    {capacity : ℕ} {s : System} → capacity < 2 ^ 32 → Reach capacity s → IsBalanced capacity s
reach-IsBalanced c first = record { within = omega arith; balance = omega arith; locals = λ i. tt }
reach-IsBalanced c (later r st) = Step-IsBalanced c st (reach-IsBalanced c r)
