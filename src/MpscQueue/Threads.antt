-- ===== src/MpscQueue/Threads.antt =====
-- Many threads on one `mpsc_queue` (queue/mpsc_queue.h). A push by a thread that is not the owner is
-- two steps, since `index.fetch_add(1)` and `concurrent_queue.emplace(source)` are two: between them
-- its item is pending. What the owner does is one step: nobody else reads its deque.
use npoller.Base.{ℕ, suc, ◌+◌, ◌≤◌, ◌≡◌, List, [], ◌∷◌, ◌++◌, Option, none, some, arith}
use npoller.MpscQueue.{ConcurrentQueue, MpscQueue, new_queue, push, pop_from, count_up, publish}

module _ {T : Type 0} where
  -- The weight of a list. With every weight at once, equal weights are equal bags.
  unfoldable pub total : (T → ℕ) → List T → ℕ
  total w [] = 0
  total w (x ∷ xs) = w x + total w xs

  unfoldable pub total_local : (T → ℕ) → List (T × ℕ) → ℕ
  total_local w [] = 0
  total_local w ((x, n) ∷ l) = w x + total_local w l

  pub total-append : (w : T → ℕ) (xs ys : List T) → total w (xs ++ ys) ≡ total w xs + total w ys
  unfolding total
  total-append w [] ys = omega arith
  total-append w (x ∷ xs) ys = omega (arith, total-append w xs ys)

  pub total_local-append :
      (w : T → ℕ) (l : List (T × ℕ)) (x : T) (n : ℕ)
      → total_local w (l ++ ((x, n) ∷ [])) ≡ total_local w l + w x
  unfolding total_local
  total_local-append w [] x n = omega arith
  total_local-append w ((y, m) ∷ l) x n = omega (arith, total_local-append w l x n)

  -- The numbers rise, from `lo` on and below `hi`.
  abbrev pub Ascending : ℕ → List (T × ℕ) → ℕ → Type 0
  Ascending lo [] hi = lo ≤ hi
  Ascending lo ((x, n) ∷ l) hi = (lo ≤ n) × Ascending (suc n) l hi

  pub Ascending-append :
      (lo hi : ℕ) (l : List (T × ℕ)) (x : T)
      → Ascending lo l hi
      → Ascending lo (l ++ ((x, hi) ∷ [])) (hi + 1)
  Ascending-append lo hi [] x h = omega arith
  Ascending-append lo hi ((y, n) ∷ l) x h = (h.0, Ascending-append (suc n) hi l x h.1)

  pub Ascending-weaken :
      (lo hi : ℕ) (l : List (T × ℕ)) → Ascending lo l hi → Ascending lo l (hi + 1)
  Ascending-weaken lo hi [] h = omega arith
  Ascending-weaken lo hi ((y, n) ∷ l) h = (h.0, Ascending-weaken (suc n) hi l h.1)

  -- So many different numbers need so much room.
  pub Ascending-room :
      (lo hi : ℕ) (l : List (T × ℕ)) → Ascending lo l hi → lo + total_local (λ _. 1) l ≤ hi
  unfolding total_local
  Ascending-room lo hi [] h = omega arith
  Ascending-room lo hi ((y, n) ∷ l) h = omega (arith, Ascending-room (suc n) hi l h.1)

pub record System {T : Type 0} (cq : ConcurrentQueue T) : Type 0 where
  pub queue : MpscQueue cq
  -- Items of pushes that have counted and not yet put their item in.
  pub pending : List T
  -- All items of pushes that have counted, and all that were popped, in order of time.
  pub pushed : List T
  pub popped : List T

module _ {T : Type 0} (cq : ConcurrentQueue T) where
  abbrev pub list_of : Option T → List T
  list_of none = []
  list_of (some x) = x ∷ []

  pub data Step (s : System cq) : System cq → Type 0 where
    own_push :
        (x : T)
        → Step s (record s {
          queue = push cq s.queue.thread_id x s.queue;
          pushed = s.pushed ++ (x ∷ []);
        })
    count :
        (x : T)
        → Step s (record s {
          queue = count_up cq s.queue;
          pending = s.pending ++ (x ∷ []);
          pushed = s.pushed ++ (x ∷ []);
        })
    emplace :
        (before after : List T) (x : T)
        → s.pending ≡ before ++ (x ∷ after)
        → Step s (record s { queue = publish cq x s.queue; pending = before ++ after })
    pop : Step s (record s {
      queue = (pop_from cq s.queue.local_queue s.queue).1;
      popped = s.popped ++ list_of (pop_from cq s.queue.local_queue s.queue).0;
    })

  -- A new queue, made with `initial_size` 0.
  abbrev pub start_system : cq.Queue → T → ℕ → System cq
  start_system empty default id = record {
    queue = new_queue cq empty default id 0;
    pending = [];
    pushed = [];
    popped = [];
  }

  pub data Reach (start : System cq) : System cq → Type 0 where
    here : Reach start start
    next : {s t : System cq} → Reach start s → Step s t → Reach start t
