-- ===== src/MpscQueue.antt =====
-- `mpsc_queue` (queue/mpsc_queue.h): many threads push, the owner pops. The owner's own items stay
-- in a deque with the number that the counter `index` gave them; the others go through a
-- `tbb::concurrent_queue`, which is a parameter here, with its documented behaviour as laws.
pub mod Order
pub mod Fifo
pub mod Threads
pub mod Progress
use npoller.Base.{
  ℕ, zero, suc, ◌+◌, ◌≡◌, ◌==◌, if◌then◌else◌, List, [], ◌∷◌, ◌++◌, Option, none, some, Outcome, ok,
  err, runtime_error, npos, add64,
}

-- `try_pop` and `emplace` each take effect at one instant.
pub record ConcurrentQueue (T : Type 0) : Type 1 where
  pub Queue : Type 0
  pub emplace : Queue → T → Queue
  pub try_pop : Queue → Option (T × Queue)
  pub items : Queue → List T
  pub items-emplace : (q : Queue) (x : T) → items (emplace q x) ≡ items q ++ (x ∷ [])
  pub try_pop_of_nil : (q : Queue) → items q ≡ [] → try_pop q ≡ none
  pub try_pop_of_cons :
      (q : Queue) (x : T) (xs : List T)
      → items q ≡ x ∷ xs
      → (r : Queue) × (try_pop q ≡ some (x, r)) × (items r ≡ xs)

module _ {T : Type 0} (cq : ConcurrentQueue T) where
  pub record MpscQueue : Type 0 where
    pub index : ℕ
    pub local_queue : List (T × ℕ)
    pub thread_id : ℕ
    pub consumed_index : ℕ
    pub concurrent_queue : cq.Queue

  -- `local_queue(initial_size)`: a deque of so many value-initialised pairs.
  unfoldable pub initial_items : T → ℕ → List (T × ℕ)
  initial_items default zero = []
  initial_items default (suc n) = (default, 0) ∷ initial_items default n

  -- The constructor; `empty` is a new concurrent queue, `default` is `T()`.
  unfoldable pub new_queue : cq.Queue → T → ℕ → ℕ → MpscQueue
  new_queue empty default local_thread_id initial_size = record {
    index = 0;
    local_queue = initial_items default initial_size;
    thread_id = local_thread_id;
    consumed_index = npos;
    concurrent_queue = empty;
  }

  -- `index.fetch_add(1)`
  abbrev pub count_up : MpscQueue → MpscQueue
  count_up q = record q { index = add64 q.index 1 }

  -- `local_queue.emplace_back(source, l_index)`, with the counter as it was before `count_up`.
  abbrev pub keep_local : T → MpscQueue → MpscQueue
  keep_local x q = record (count_up q) { local_queue = q.local_queue ++ ((x, q.index) ∷ []) }

  -- `concurrent_queue.emplace(source)`
  abbrev pub publish : T → MpscQueue → MpscQueue
  publish x q = record q { concurrent_queue = cq.emplace q.concurrent_queue x }

  -- Both overloads of `push`, called by the thread `caller`.
  unfoldable pub push : ℕ → T → MpscQueue → MpscQueue
  push caller x q = if caller == q.thread_id then keep_local x q else publish x (count_up q)

  -- What `concurrent_queue.try_pop(destination)` comes to for the caller.
  abbrev pub settle : Option (T × cq.Queue) → MpscQueue → Option T × MpscQueue
  settle none q = (none, q)
  settle (some (x, rest)) q =
      (some x, record q { concurrent_queue = rest; consumed_index = add64 q.consumed_index 1 })

  -- The part of `try_pop` that asks the concurrent queue.
  unfoldable pub pop_shared : MpscQueue → Option T × MpscQueue
  pop_shared q = settle (cq.try_pop q.concurrent_queue) q

  -- The part of `try_pop` behind the test of the thread.
  unfoldable pub pop_from : List (T × ℕ) → MpscQueue → Option T × MpscQueue
  pop_from [] q = pop_shared q
  pop_from ((x, number) ∷ rest) q =
      if add64 q.consumed_index 1 == number
      then (some x, record q { local_queue = rest; consumed_index = add64 q.consumed_index 1 })
      else pop_shared q

  -- `try_pop(destination)`: `some x` is `true` with `x` in `destination`.
  unfoldable pub try_pop : ℕ → MpscQueue → Outcome (Option T × MpscQueue)
  try_pop caller q =
      if caller == q.thread_id then ok (pop_from q.local_queue q) else err runtime_error
