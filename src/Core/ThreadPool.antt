-- ===== src/Core/ThreadPool.antt =====
-- core/include/collab/thread_pool.h, core/src/thread_pool.cpp: workers that take tasks from a queue,
-- and `wait_idle`. What is done under one lock is one step.
pub mod Once
pub mod Idle
use collaborative_text_edito.Common.{
  ℕ, suc, ◌+◌, ◌-◌, ◌<◌, ◌≡◌, ◌==◌, Bool, Option, none, some, if◌then◌else◌,
}

-- Where a worker stands, with the number of its task.
pub data Worker : Type 0 where
  waiting : Worker
  took : (task : ℕ) → Worker  -- before `active_tasks_.fetch_add`
  running : (task : ℕ) → Worker
  ran : Worker  -- before `active_tasks_.fetch_sub`
  notifying : Worker
  stopped : Worker

-- A task is known by the number of tasks that were submitted before it. In the queue are those from
-- `front` on that are below `back`; `runs` says how often a task was called.
pub record Pool : Type 0 where
  pub front : ℕ
  pub back : ℕ
  pub active : ℕ
  pub workers : ℕ → Worker
  pub runs : ℕ → ℕ

abbrev pub update : {A : Type 0} → (ℕ → A) → ℕ → A → ℕ → A
update f i a j = if j == i then a else f j

abbrev pub goes : Pool → ℕ → Worker → Pool
goes s i w = record s { workers = update s.workers i w }

-- `worker` returns only when a stop is requested and the queue is empty. What a task throws is
-- caught, so that it ends like any other.
pub data Step (num_threads : ℕ) (s : Pool) : Pool → Type 0 where
  submit : Step num_threads s (record s { back = suc s.back })
  take :
      (i : ℕ)
      → i < num_threads
      → s.workers i ≡ waiting
      → s.front < s.back
      → Step num_threads s (goes (record s { front = suc s.front }) i (took s.front))
  count :
      (i task : ℕ)
      → i < num_threads
      → s.workers i ≡ took task
      → Step num_threads s (goes (record s { active = suc s.active }) i (running task))
  call :
      (i task : ℕ)
      → i < num_threads
      → s.workers i ≡ running task
      → Step num_threads s (goes (record s { runs = update s.runs task (suc (s.runs task)) }) i ran)
  discount :
      (i : ℕ)
      → i < num_threads
      → s.workers i ≡ ran
      → Step num_threads s (
          goes
            (record s { active = s.active - 1 })
            i
            (if s.active - 1 == 0 then notifying else waiting))
  notify :
      (i : ℕ) → i < num_threads → s.workers i ≡ notifying → Step num_threads s (goes s i waiting)
  leave :
      (i : ℕ)
      → i < num_threads
      → s.workers i ≡ waiting
      → s.front ≡ s.back
      → Step num_threads s (goes s i stopped)

abbrev pub start : Pool
start = record { front = 0; back = 0; active = 0; workers = λ i. waiting; runs = λ k. 0 }

pub data Reach (num_threads : ℕ) : Pool → Type 0 where
  first : Reach num_threads start
  later : {s t : Pool} → Reach num_threads s → Step num_threads s t → Reach num_threads t

-- The condition under which `wait_idle` returns.
abbrev pub IsIdle : Pool → Type 0
IsIdle s = (s.front ≡ s.back) × (s.active ≡ 0)
