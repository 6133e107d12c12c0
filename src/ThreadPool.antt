-- ===== src/ThreadPool.antt =====
-- `thread_pool` (coroutine_pool/threadpool.h), without `_DEBUG`: the workers, the threads that enqueue, and
-- the destructor, one access to the queue or to `stop` at a time. `tbb::concurrent_bounded_queue` is a list,
-- first in and first out, and `pop` waits while it is empty. A task may enqueue others at any time; no other
-- thread enqueues one after the destructor has begun. No task throws, and each comes to an end.
use npoller.Base.{
  ℕ, zero, suc, ◌*◌, ◌<◌, ◌≡◌, Bool, true, false, ◌==◌, if◌then◌else◌, List, [], ◌∷◌, ◌++◌,
}
pub mod Complete
pub mod Wait

-- What is in the queue: a task that somebody enqueued, or the empty one that the destructor pushes.
pub data Item : Type 0 where
  task : ℕ → Item
  empty : Item

-- Where a worker stands.
pub data Place : Type 0 where
  -- before or in `m_tasks.pop(task)`
  popping : Place
  -- in the first `task()`
  running : Place
  -- before the test of `stop`
  checking : Place
  -- before `m_tasks.try_pop(task)`
  draining : Place
  -- in the second `task()`
  drain_running : Place
  ended : Place

-- Where the destructor stands.
pub data EndPlace : Type 0 where
  alive : EndPlace
  -- `stop = true` is done, and so many empty tasks are to be pushed
  pushing : ℕ → EndPlace
  over : EndPlace

-- `given` and `taken` are what was enqueued and what the workers have got from the queue, in order of time.
pub record Pool : Type 0 where
  pub size : ℕ
  pub m_tasks : List Item
  pub stop : Bool
  pub workers : ℕ → Place
  pub ending : EndPlace
  pub given : List ℕ
  pub taken : List Item

-- In a task.
unfoldable pub is_running : Place → Bool
is_running running = true
is_running drain_running = true
is_running _ = false

abbrev pub move : (ℕ → Place) → ℕ → Place → ℕ → Place
move f w p v = if v == w then p else f v

pub data Step (s : Pool) : Pool → Type 0 where
  enqueue :
      (t : ℕ)
      → s.ending ≡ alive
      → Step s (record s { m_tasks = s.m_tasks ++ (task t ∷ []); given = s.given ++ (t ∷ []) })
  -- by the task that worker `w` runs
  enqueue_inside :
      (w t : ℕ)
      → w < s.size
      → is_running (s.workers w) ≡ true
      → Step s (record s { m_tasks = s.m_tasks ++ (task t ∷ []); given = s.given ++ (t ∷ []) })
  pop :
      (w : ℕ) (x : Item) (rest : List Item)
      → w < s.size
      → s.workers w ≡ popping
      → s.m_tasks ≡ x ∷ rest
      → Step s (record s {
        m_tasks = rest;
        taken = s.taken ++ (x ∷ []);
        workers = move s.workers w running;
      })
  run :
      (w : ℕ)
      → w < s.size
      → s.workers w ≡ running
      → Step s (record s { workers = move s.workers w checking })
  check :
      (w : ℕ)
      → w < s.size
      → s.workers w ≡ checking
      → Step s (record s { workers = move s.workers w (if s.stop then draining else popping) })
  try_pop :
      (w : ℕ) (x : Item) (rest : List Item)
      → w < s.size
      → s.workers w ≡ draining
      → s.m_tasks ≡ x ∷ rest
      → Step s (record s {
        m_tasks = rest;
        taken = s.taken ++ (x ∷ []);
        workers = move s.workers w drain_running;
      })
  run_again :
      (w : ℕ)
      → w < s.size
      → s.workers w ≡ drain_running
      → Step s (record s { workers = move s.workers w draining })
  leave :
      (w : ℕ)
      → w < s.size
      → s.workers w ≡ draining
      → s.m_tasks ≡ []
      → Step s (record s { workers = move s.workers w ended })
  store_stop : s.ending ≡ alive → Step s (record s { stop = true; ending = pushing (4 * s.size) })
  push :
      (n : ℕ)
      → s.ending ≡ pushing (suc n)
      → Step s (record s { m_tasks = s.m_tasks ++ (empty ∷ []); ending = pushing n })
  join :
      s.ending ≡ pushing 0
      → ((w : ℕ) → w < s.size → s.workers w ≡ ended)
      → Step s (record s { ending = over })

pub data Reach (start : Pool) : Pool → Type 0 where
  here : Reach start start
  next : {s t : Pool} → Reach start s → Step s t → Reach start t

-- The constructor.
abbrev pub new_pool : ℕ → Pool
new_pool size = record {
  size = size;
  m_tasks = [];
  stop = false;
  workers = λ w. popping;
  ending = alive;
  given = [];
  taken = [];
}

-- The tasks among items.
unfoldable pub tasks_of : List Item → List ℕ
tasks_of [] = []
tasks_of (task t ∷ xs) = t ∷ tasks_of xs
tasks_of (empty ∷ xs) = tasks_of xs
