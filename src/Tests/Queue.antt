-- ===== src/Tests/Queue.antt =====
-- `mpsc_queue` at concrete inputs. Thread 1 is the owner.
use npoller.Base.{
  ℕ, ◌+◌, ◌≡◌, refl, List, [], ◌∷◌, ◌++◌, Option, none, some, ok, err, runtime_error, arith,
}
use npoller.MpscQueue.{
  ConcurrentQueue, MpscQueue, new_queue, initial_items, push, pop_shared, pop_from, try_pop,
}
use npoller.MpscQueue.Fifo.{
  Represents, new_queue-Represents, Call, push_by, pop_by, run, run_refines,
}
use npoller.MpscQueue.Threads.{
  System, start_system, Reach, here, next, own_push, count, emplace, pop, total, total_local,
}
use npoller.MpscQueue.Progress.{nothing_lost, try_pop_progress}

abbrev pub pop_head : List ℕ → Option (ℕ × List ℕ)
pop_head [] = none
pop_head (x ∷ xs) = some (x, xs)

pub pop_head_of_nil : (q : List ℕ) → q ≡ [] → pop_head q ≡ none
pop_head_of_nil [] e = refl
pop_head_of_nil (x ∷ q) e = cc

pub pop_head_of_cons :
    (q : List ℕ) (x : ℕ) (xs : List ℕ)
    → q ≡ x ∷ xs
    → (r : List ℕ) × (pop_head q ≡ some (x, r)) × (r ≡ xs)
pop_head_of_cons [] x xs e = cc
pop_head_of_cons (y ∷ q) x xs e = (xs, ground arith, refl)

abbrev pub list_queue : ConcurrentQueue ℕ
list_queue = record {
  Queue = List ℕ;
  emplace = λ q x. q ++ (x ∷ []);
  try_pop = pop_head;
  items = λ q. q;
  items-emplace = λ q x. refl;
  try_pop_of_nil = pop_head_of_nil;
  try_pop_of_cons = pop_head_of_cons;
}

abbrev fresh : MpscQueue list_queue
fresh = new_queue list_queue [] 0 1 0

-- The owner pushes 10 and 12, thread 2 pushes 11 between them.
abbrev mixed : List (Call ℕ)
mixed =
    push_by 1 10
    ∷ push_by 2 11
    ∷ push_by 1 12
    ∷ pop_by 1
    ∷ pop_by 2
    ∷ pop_by 1
    ∷ pop_by 1
    ∷ pop_by 1
    ∷ []

fresh-Represents : Represents list_queue fresh []
fresh-Represents = new_queue-Represents list_queue [] 0 1 refl

mixed_runs :
    run list_queue fresh mixed
    ≡ ok (some 10) ∷ err runtime_error ∷ ok (some 11) ∷ ok (some 12) ∷ ok none ∷ []
unfolding run push try_pop pop_from pop_shared new_queue initial_items
mixed_runs = refl

run_refines_example :
    run list_queue fresh mixed
    ≡ ok (some 10) ∷ err runtime_error ∷ ok (some 11) ∷ ok (some 12) ∷ ok none ∷ []
unfolding new_queue
run_refines_example = run_refines list_queue mixed fresh [] (omega arith) fresh-Represents

-- Thread 2 has counted its item and not put it in yet, and the owner has pushed behind it.
abbrev under_way : System list_queue
under_way = record {
  queue = push list_queue 1 12 (record fresh { index = 1 });
  pending = 11 ∷ [];
  pushed = 11 ∷ 12 ∷ [];
  popped = [];
}

under_way-Reach : Reach list_queue (start_system list_queue [] 0 1) under_way
unfolding new_queue initial_items
under_way-Reach = next (next here (count 11)) (own_push 12)

nothing_lost_example :
    total (λ x. x) (11 ∷ 12 ∷ [])
    ≡ total (λ x. x) []
      + total_local (λ x. x) ((12, 1) ∷ [])
      + total (λ x. x) []
      + total (λ x. x) (11 ∷ [])
unfolding push new_queue initial_items
nothing_lost_example =
    nothing_lost list_queue [] 0 1 under_way (λ x. x) refl under_way-Reach
      (unfold total in omega arith)

-- The item is put in, and both are popped.
abbrev drained : System list_queue
drained = record {
  queue = record {
    index = 2;
    local_queue = [];
    thread_id = 1;
    consumed_index = 1;
    concurrent_queue = [];
  };
  pending = [];
  pushed = 11 ∷ 12 ∷ [];
  popped = 11 ∷ 12 ∷ [];
}

drained-Reach : Reach list_queue (start_system list_queue [] 0 1) drained
unfolding new_queue initial_items push pop_from pop_shared
drained-Reach = next (next (next under_way-Reach (emplace [] [] 11 refl)) pop) pop

try_pop_progress_example : total (λ x. x) (11 ∷ 12 ∷ []) ≡ total (λ x. x) (11 ∷ 12 ∷ [])
unfolding pop_from pop_shared
try_pop_progress_example =
    try_pop_progress list_queue [] 0 1 drained (λ x. x) refl drained-Reach
      (unfold total in omega arith) refl refl
