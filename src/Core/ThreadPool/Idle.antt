-- ===== src/Core/ThreadPool/Idle.antt =====
-- What `wait_idle` says when it returns, and the order of the tasks (core/src/thread_pool.cpp).
use collaborative_text_edito.Common.{
  ℕ, zero, suc, ◌+◌, ◌≤◌, ◌<◌, ◌≡◌, ◌≢◌, ◌⊎◌, inl, inr, refl, arith, Bool-cases, some, ltb, ltb→lt,
  ltb→le,
}
use collaborative_text_edito.Core.ThreadPool.{
  Worker, waiting, took, running, ran, notifying, stopped, Pool, update, Step, submit, take, count,
  call, discount, notify, leave, Reach, first, later, IsIdle,
}
use collaborative_text_edito.Core.ThreadPool.Once.{holds, Reach-Inv}

abbrev busy : Worker → ℕ
busy (running task) = 1
busy ran = 1
busy _ = 0

total : ℕ → (ℕ → Worker) → ℕ
total zero f = 0
total (suc n) f = total n f + busy (f n)

total-update_beyond :
    (n i : ℕ) (f : ℕ → Worker) (w : Worker) → n ≤ i → total n (update f i w) ≡ total n f
unfolding total
total-update_beyond zero i f w h = refl
total-update_beyond (suc n) i f w h = ground (arith, total-update_beyond n i f w)

total-update :
    (n i : ℕ) (f : ℕ → Worker) (w : Worker)
    → i < n
    → total n (update f i w) + busy (f i) ≡ total n f + busy w
unfolding total
total-update zero i f w h = absurd (omega arith)
total-update (suc n) i f w h = elim (Bool-cases (ltb i n)) [
  | inl below ↦ ground (arith, total-update n i f w (ltb→lt i n below))
  | inr last ↦ ground (arith, total-update_beyond n i f w (ltb→le i n last))
]

busy-le-total : (n i : ℕ) (f : ℕ → Worker) → i < n → busy (f i) ≤ total n f
unfolding total
busy-le-total zero i f h = absurd (omega arith)
busy-le-total (suc n) i f h = elim (Bool-cases (ltb i n)) [
  | inl below ↦ omega (arith, busy-le-total n i f (ltb→lt i n below))
  | inr last ↦ (let e : i ≡ n = omega (arith, ltb→le i n last) in rw e (omega arith))
]

-- `active_tasks_` counts the workers between the two changes of it.
record Counted (n : ℕ) (s : Pool) : Type 0 where
  active : total n s.workers ≡ s.active
  outside : (i : ℕ) → n ≤ i → s.workers i ≡ waiting

moved :
    {n : ℕ} {s : Pool} (i : ℕ) (w : Worker) (t : Pool)
    → Counted n s
    → i < n
    → t.workers ≡ update s.workers i w
    → t.active + busy (s.workers i) ≡ s.active + busy w
    → Counted n t
moved {n} {s} i w t c lt e k = record {
  active = rw e (omega (arith, c.active, total-update n i s.workers w lt));
  outside = λ j h. rw e (ground (arith, c.outside j));
}

Step-Counted : {n : ℕ} {s t : Pool} → Counted n s → Step n s t → Counted n t
Step-Counted c submit = record { active = c.active; outside = c.outside }
Step-Counted c (take i lt e h) = moved i _ _ c lt refl (rw e (omega arith))
Step-Counted c (count i task lt e) = moved i _ _ c lt refl (rw e (omega arith))
Step-Counted c (call i task lt e) = moved i _ _ c lt refl (rw e (omega arith))
Step-Counted {n} {s} c (discount i lt e) =
    moved i _ _ c lt refl (rw e (ground (arith, busy-le-total n i s.workers lt, c.active)))
Step-Counted c (notify i lt e) = moved i _ _ c lt refl (rw e (omega arith))
Step-Counted c (leave i lt e h) = moved i _ _ c lt refl (rw e (omega arith))

total_start : (n : ℕ) → total n (λ i. waiting) ≡ 0
unfolding total
total_start zero = refl
total_start (suc n) = omega (arith, total_start n)

Reach-Counted : {n : ℕ} {s : Pool} → Reach n s → Counted n s
Reach-Counted {n} first = record { active = total_start n; outside = λ i h. refl }
Reach-Counted (later r st) = Step-Counted (Reach-Counted r) st

-- A worker that holds a task while `active_tasks_` is 0 has taken it and not counted it.
uncounted :
    {n : ℕ} {s : Pool} (i k : ℕ)
    → Counted n s
    → s.active ≡ 0
    → (w : Worker) → s.workers i ≡ w
    → holds w ≡ some k
    → s.workers i ≡ took k
uncounted i k c z waiting e h = cc
uncounted i k c z (took task) e h = ground arith
uncounted {n} {s} i k c z (running task) e h = elim (Bool-cases (ltb i n)) [
  | inl inside ↦ absurd (ground (arith, busy-le-total n i s.workers (ltb→lt i n inside), c.active))
  | inr outside ↦ ground (arith, c.outside i (ltb→le i n outside))
]
uncounted i k c z ran e h = cc
uncounted i k c z notifying e h = cc
uncounted i k c z stopped e h = cc

-- When `wait_idle` finds what it waits for, every task that was submitted has been called, except
-- those that a worker has just taken from the queue and not counted yet.
pub idle-once :
    {n : ℕ} {s : Pool} (k : ℕ)
    → Reach n s
    → IsIdle s
    → k < s.back
    → (s.runs k ≡ 1) ⊎ ((i : ℕ) × (s.workers i ≡ took k))
idle-once {n} {s} k r idle lt = by_case ((Reach-Inv r).done k (omega (arith, idle.0)))
  where
    by_case :
        (s.runs k ≡ 1) ⊎ ((i : ℕ) × (holds (s.workers i) ≡ some k))
        → (s.runs k ≡ 1) ⊎ ((i : ℕ) × (s.workers i ≡ took k))
    by_case (inl d) = inl d
    by_case (inr (i, h)) = inr (i, uncounted i k (Reach-Counted r) idle.1 (s.workers i) refl h)

-- With two workers that wait, the second task in the queue can be called before the first one, and so
-- two messages of one client be handled in another order than they came in.
pub tasks_overtake :
    {n : ℕ} {s : Pool} (i j : ℕ)
    → Reach n s
    → i < n
    → j < n
    → i ≢ j
    → s.workers i ≡ waiting
    → s.workers j ≡ waiting
    → suc s.front < s.back
    → (t : Pool) × Reach n t × (t.runs s.front ≡ 0) × (t.runs (suc s.front) ≡ 1)
tasks_overtake {n} {s} i j r i_lt j_lt other i_waits j_waits two =
    let q = Reach-Inv r in
    (
      _,
      later
          (later
            (later (later r (take i i_lt i_waits (omega arith))) (take j j_lt (ground arith) two))
            (count j (suc s.front) j_lt (ground arith)))
          (call j (suc s.front) j_lt (ground arith)),
      ground (arith, q.queued s.front),
      ground (arith, q.queued (suc s.front)),
    )
