-- ===== src/Core/ThreadPool/Once.antt =====
-- Every task is called once (core/src/thread_pool.cpp).
use collaborative_text_edito.Common.{
  ℕ, suc, ◌-◌, ◌≤◌, ◌<◌, ◌≡◌, ◌⊎◌, inl, inr, refl, arith, ◌==◌, Bool-cases, Option, none, some,
  if◌then◌else◌, ltb, ltb→lt, ltb→le,
}
use collaborative_text_edito.Core.ThreadPool.{
  Worker, waiting, took, running, ran, notifying, stopped, Pool, update, goes, Step, submit, take,
  count, call, discount, notify, leave, Reach, first, later,
}

-- The task that a worker has and has not called yet.
abbrev pub holds : Worker → Option ℕ
holds (took task) = some task
holds (running task) = some task
holds _ = none

pub record Inv (s : Pool) : Type 0 where
  pub front_le : s.front ≤ s.back
  pub held : (i k : ℕ) → holds (s.workers i) ≡ some k → (k < s.front) × (s.runs k ≡ 0)
  pub apart : (i j k : ℕ) → holds (s.workers i) ≡ some k → holds (s.workers j) ≡ some k → i ≡ j
  pub queued : (k : ℕ) → s.front ≤ k → s.runs k ≡ 0
  pub done : (k : ℕ) → k < s.front → (s.runs k ≡ 1) ⊎ ((i : ℕ) × (holds (s.workers i) ≡ some k))

module _ {s : Pool} (inv : Inv s) where
  open inv use {front_le, held, apart, queued, done}

  -- A step of a worker that keeps what it holds.
  quiet :
      (i : ℕ) (w : Worker) (active : ℕ)
      → holds w ≡ holds (s.workers i)
      → Inv (goes (record s { active = active }) i w)
  quiet i w active e = record {
    front_le = front_le;
    held = λ j k h. ground (arith, held j k, held i k);
    apart = λ j l k h g. ground (arith, apart j l k, apart i l k, apart j i k);
    queued = queued;
    done = λ k lt. again k (done k lt);
  }
    where
      again :
          (k : ℕ)
          → (s.runs k ≡ 1) ⊎ ((j : ℕ) × (holds (s.workers j) ≡ some k))
          → (s.runs k ≡ 1) ⊎ ((j : ℕ) × (holds (update s.workers i w j) ≡ some k))
      again k (inl d) = inl d
      again k (inr (j, h)) = inr (j, ground arith)

  taking :
      (i : ℕ)
      → s.workers i ≡ waiting
      → s.front < s.back
      → Inv (goes (record s { front = suc s.front }) i (took s.front))
  taking i e lt = record {
    front_le = lt;
    held = λ j k h. ground (arith, held j k, queued k);
    apart = λ j l k h g. ground (arith, apart j l k, held j k, held l k);
    queued = λ k le. queued k (omega arith);
    done = λ k h. again k h;
  }
    where
      kept_by :
          (k : ℕ)
          → (s.runs k ≡ 1) ⊎ ((j : ℕ) × (holds (s.workers j) ≡ some k))
          → (s.runs k ≡ 1) ⊎ ((j : ℕ) × (holds (update s.workers i (took s.front) j) ≡ some k))
      kept_by k (inl d) = inl d
      kept_by k (inr (j, h)) = inr (j, ground arith)

      again :
          (k : ℕ)
          → k < suc s.front
          → (s.runs k ≡ 1) ⊎ ((j : ℕ) × (holds (update s.workers i (took s.front) j) ≡ some k))
      again k h = elim (Bool-cases (k == s.front)) [
        | inl same ↦ inr (i, ground arith)
        | inr other ↦ kept_by k (done k (ground arith))
      ]

  calling :
      (i task : ℕ)
      → s.workers i ≡ running task
      → Inv (goes (record s { runs = update s.runs task (suc (s.runs task)) }) i ran)
  calling i task e = record {
    front_le = front_le;
    held = λ j k h. ground (arith, held j k, apart i j task);
    apart = λ j l k h g. ground (arith, apart j l k);
    queued = λ k le. ground (arith, queued k, held i task);
    done = λ k lt. again k (done k lt);
  }
    where
      again :
          (k : ℕ)
          → (s.runs k ≡ 1) ⊎ ((j : ℕ) × (holds (s.workers j) ≡ some k))
          → (update s.runs task (suc (s.runs task)) k ≡ 1)
            ⊎ ((j : ℕ) × (holds (update s.workers i ran j) ≡ some k))
      again k (inl d) = inl (ground (arith, held i task))
      again k (inr (j, h)) = elim (Bool-cases (j == i)) [
        | inl same ↦ inl (ground (arith, held i task))
        | inr other ↦ inr (j, ground arith)
      ]

Step-Inv : {num_threads : ℕ} {s t : Pool} → Inv s → Step num_threads s t → Inv t
Step-Inv inv submit = record {
  front_le = omega (arith, inv.front_le);
  held = inv.held;
  apart = inv.apart;
  queued = inv.queued;
  done = inv.done;
}
Step-Inv inv (take i lt e h) = taking inv i e h
Step-Inv {s} inv (count i task lt e) = quiet inv i (running task) (suc s.active) (ground arith)
Step-Inv inv (call i task lt e) = calling inv i task e
Step-Inv {s} inv (discount i lt e) =
    quiet inv i (if s.active - 1 == 0 then notifying else waiting) (s.active - 1) (ground arith)
Step-Inv {s} inv (notify i lt e) = quiet inv i waiting s.active (ground arith)
Step-Inv {s} inv (leave i lt e h) = quiet inv i stopped s.active (ground arith)

pub Reach-Inv : {num_threads : ℕ} {s : Pool} → Reach num_threads s → Inv s
Reach-Inv first = record {
  front_le = omega arith;
  held = λ i k e. cc;
  apart = λ i j k e f. cc;
  queued = λ k h. refl;
  done = λ k h. absurd (omega arith);
}
Reach-Inv (later r st) = Step-Inv (Reach-Inv r) st

at_most_once :
    (s : Pool) (k : ℕ)
    → Inv s
    → (k < s.front → (s.runs k ≡ 1) ⊎ ((i : ℕ) × (holds (s.workers i) ≡ some k)))
    → s.runs k ≤ 1
at_most_once s k inv d = elim (Bool-cases (ltb k s.front)) [
  | inl taken ↦ by_case (d (ltb→lt k s.front taken))
  | inr not_taken ↦ omega (arith, inv.queued k (ltb→le k s.front not_taken))
]
  where
    by_case : (s.runs k ≡ 1) ⊎ ((i : ℕ) × (holds (s.workers i) ≡ some k)) → s.runs k ≤ 1
    by_case (inl e) = omega arith
    by_case (inr (i, h)) = omega (arith, (inv.held i k h).1)

-- Of the tasks of a reachable state: each is called at most once; one that has left the queue has
-- been called, or one worker has it and has not called it; and one that is not taken yet, or not
-- submitted, has not been called.
pub Reach-once :
    {num_threads : ℕ} {s : Pool} (k : ℕ)
    → Reach num_threads s
    → (s.runs k ≤ 1)
      × (k < s.front → (s.runs k ≡ 1) ⊎ ((i : ℕ) × (holds (s.workers i) ≡ some k)))
      × (s.front ≤ k → s.runs k ≡ 0)
Reach-once {s} k r =
    let inv = Reach-Inv r in (at_most_once s k inv (inv.done k), inv.done k, inv.queued k)
