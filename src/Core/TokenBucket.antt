-- ===== src/Core/TokenBucket.antt =====
-- core/include/collab/token_bucket.h, core/src/token_bucket.cpp: a rate limiter whose one shared
-- variable is atomic. Threads interleave at each access to it, and a weak compare-exchange may also
-- fail without cause.
pub mod Ledger
use collaborative_text_edito.Common.{
  ℕ, suc, ◌+◌, ◌-◌, ◌*◌, ◌/◌, ◌%◌, ◌^◌, ◌≤◌, ◌<◌, ◌≡◌, Bool, true, false, ◌&&◌, min, ltb, ◌==◌,
  if◌then◌else◌,
}

-- What `advance_time` adds, for a duration in milliseconds that is not negative.
unfoldable pub tokens_to_add : ℕ → ℕ → ℕ
tokens_to_add capacity duration =
    let amount = capacity * duration % 2 ^ 64 / 1000 in
    if (amount == 0) && ltb 0 duration then 1 else amount

unfoldable pub new_value : ℕ → ℕ → ℕ → ℕ
new_value current amount capacity = min ((current + amount) % 2 ^ 64) capacity

-- Where a thread stands, with its local variables: outside, in the loop of `try_consume`, in the
-- loop of `advance_time`, or back from `try_consume` with its result.
pub data Pc : Type 0 where
  idle : Pc
  consuming : (current count : ℕ) → Pc
  advancing : (current amount : ℕ) → Pc
  returned : (result : Bool) → Pc

-- One access of one thread, with the value of `tokens_` before and after it.
pub data Move (capacity tokens : ℕ) : Pc → ℕ → Pc → Type 0 where
  load : (count : ℕ) → Move capacity tokens idle tokens (consuming tokens count)
  refuse :
      {current count : ℕ}
      → current < count
      → Move capacity tokens (consuming current count) tokens (returned false)
  exchange :
      {current count : ℕ}
      → count ≤ current
      → tokens ≡ current
      → Move capacity tokens (consuming current count) (current - count) (returned true)
  retry :
      {current count : ℕ}
      → count ≤ current
      → Move capacity tokens (consuming current count) tokens (consuming tokens count)
  leave : {result : Bool} → Move capacity tokens (returned result) tokens idle
  refill : Move capacity tokens idle capacity idle
  advance :
      (duration : ℕ)
      → Move capacity tokens idle tokens (advancing tokens (tokens_to_add capacity duration))
  exchange_more :
      {current amount : ℕ}
      → tokens ≡ current
      → Move capacity tokens (advancing current amount) (new_value current amount capacity) idle
  retry_more :
      {current amount : ℕ}
      → Move capacity tokens (advancing current amount) tokens (advancing tokens amount)

-- What a move grants to its thread, and what it adds to the bucket.
unfoldable pub granted_by :
    {capacity tokens tokens' : ℕ} {p p' : Pc} → Move capacity tokens p tokens' p' → ℕ
granted_by (exchange {count = n} h e) = n
granted_by _ = 0

unfoldable pub added_by :
    {capacity tokens tokens' : ℕ} {p p' : Pc} → Move capacity tokens p tokens' p' → ℕ
added_by {capacity} {tokens} refill = capacity - tokens
added_by {capacity} {tokens} (exchange_more {current = c} {amount = n} e) =
    new_value c n capacity - c
added_by _ = 0

-- The bucket, the threads by their numbers, and the sums of what was granted and added so far.
pub record System : Type 0 where
  pub tokens : ℕ
  pub pc : ℕ → Pc
  pub granted : ℕ
  pub added : ℕ

abbrev pub update : (ℕ → Pc) → ℕ → Pc → ℕ → Pc
update f i p j = if j == i then p else f j

pub data Step (capacity : ℕ) (s : System) : System → Type 0 where
  pick :
      (i : ℕ) {tokens' : ℕ} {p' : Pc} (move : Move capacity s.tokens (s.pc i) tokens' p')
      → Step capacity s (record {
        tokens = tokens';
        pc = update s.pc i p';
        granted = s.granted + granted_by move;
        added = s.added + added_by move;
      })

-- `TokenBucket(capacity)`, before any thread calls it.
abbrev pub start : ℕ → System
start capacity = record { tokens = capacity; pc = λ i. idle; granted = 0; added = 0 }

pub data Reach (capacity : ℕ) : System → Type 0 where
  first : Reach capacity (start capacity)
  later : {s t : System} → Reach capacity s → Step capacity s t → Reach capacity t
