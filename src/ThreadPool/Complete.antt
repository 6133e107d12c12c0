-- ===== src/ThreadPool/Complete.antt =====
-- When the destructor of a `thread_pool` has ended, all tasks have run (coroutine_pool/threadpool.h).
use npoller.Base.{
  ℕ, ◌<◌, ◌≡◌, ◌≢◌, refl, sym, ap, ◌∙◌, Bool, true, false, Bool-cases, ◌==◌, if◌then◌else◌, inl,
  inr, List, [], ◌∷◌, ◌++◌, append-nil, append_assoc, arith,
}
use npoller.ThreadPool.{
  Item, task, empty, Place, popping, running, checking, draining, drain_running, ended, alive, over,
  Pool, is_running, move, Step, enqueue, enqueue_inside, pop, run, check, try_pop, run_again, leave,
  store_stop, push, join, Reach, here, next, new_pool, tasks_of,
}

tasks_of-append : (xs ys : List Item) → tasks_of (xs ++ ys) ≡ tasks_of xs ++ tasks_of ys
unfolding tasks_of
tasks_of-append [] ys = refl
tasks_of-append (task t ∷ xs) ys = ap (λ l. t ∷ l) (tasks_of-append xs ys)
tasks_of-append (empty ∷ xs) ys = tasks_of-append xs ys

-- A worker that goes through the queue for the last time, or has.
unfoldable pub is_late : Place → Bool
is_late draining = true
is_late drain_running = true
is_late ended = true
is_late _ = false

unfoldable pub is_ended : Place → Bool
is_ended ended = true
is_ended _ = false

record Inv (s : Pool) : Type 0 where
  kept : tasks_of (s.taken ++ s.m_tasks) ≡ s.given
  stopped : s.stop ≡ true → s.ending ≢ alive
  late : (w : ℕ) → is_late (s.workers w) ≡ true → s.stop ≡ true
  gone : 0 < s.size → ((w : ℕ) → w < s.size → s.workers w ≡ ended) → tasks_of s.m_tasks ≡ []
  joined : s.ending ≡ over → (w : ℕ) → w < s.size → s.workers w ≡ ended

Inv-new_pool : (n : ℕ) → Inv (new_pool n)
unfolding tasks_of is_late is_ended
Inv-new_pool n = record {
  kept = refl;
  stopped = λ e. cc;
  late = λ w e. cc;
  gone = λ h all. refl;
  joined = λ e w h. cc;
}

from_move :
    {C : Type 0} (b : Place → Bool) (f : ℕ → Place) (w : ℕ) (p : Place) (v : ℕ)
    → (b p ≡ true → C)
    → (b (f v) ≡ true → C)
    → b (move f w p v) ≡ true
    → C
from_move b f w p v h k e = elim (Bool-cases (v == w)) [
  | inl same ↦ h (rw same at e)
  | inr other ↦ k (rw other at e)
]

moved_to : (f : ℕ → Place) (w : ℕ) (p : Place) → move f w p w ≡ p
moved_to f w p = let same : (w == w) ≡ true = ground arith in rw same refl

-- Worker `w`, which has not ended, goes to place `p`.
moved-Inv :
    (s : Pool) (w : ℕ) (p : Place) (m : List Item) (taken : List Item)
    → Inv s
    → w < s.size
    → is_ended (s.workers w) ≡ false
    → tasks_of (taken ++ m) ≡ tasks_of (s.taken ++ s.m_tasks)
    → (is_late p ≡ true → s.stop ≡ true)
    → (is_ended p ≡ true → tasks_of m ≡ [])
    → Inv (record s { m_tasks = m; taken = taken; workers = move s.workers w p })
unfolding is_ended
moved-Inv s w p m taken v h working same late gone = record {
  kept = same ∙ v.kept;
  stopped = v.stopped;
  late = λ u. from_move is_late s.workers w p u late (v.late u);
  gone = λ more all. gone (ap is_ended (sym (moved_to s.workers w p) ∙ all w h));
  joined = λ e u k. absurd (still e);
}
  where
    still : s.ending ≡ over → ⊥
    still e = let done : is_ended (s.workers w) ≡ true = ap is_ended (v.joined e w h) in cc

-- One item goes from the queue to a worker.
got :
    (s : Pool) (x : Item) (rest : List Item)
    → s.m_tasks ≡ x ∷ rest
    → tasks_of ((s.taken ++ (x ∷ [])) ++ rest) ≡ tasks_of (s.taken ++ s.m_tasks)
got s x rest e = ap tasks_of (append_assoc s.taken (x ∷ []) rest ∙ ap (λ l. s.taken ++ l) (sym e))

-- One item goes into the queue.
put :
    (s : Pool) (x : Item)
    → Inv s
    → tasks_of (s.taken ++ (s.m_tasks ++ (x ∷ []))) ≡ s.given ++ tasks_of (x ∷ [])
put s x v =
    ap tasks_of (sym (append_assoc s.taken s.m_tasks (x ∷ [])))
    ∙ tasks_of-append (s.taken ++ s.m_tasks) (x ∷ [])
    ∙ ap (λ l. l ++ tasks_of (x ∷ [])) v.kept

ended-late : (p : Place) → is_ended p ≡ true → is_late p ≡ true
unfolding is_ended is_late
ended-late ended e = refl
ended-late popping e = cc
ended-late running e = cc
ended-late checking e = cc
ended-late draining e = cc
ended-late drain_running e = cc

late_if : (stop : Bool) → is_late (if stop then draining else popping) ≡ true → stop ≡ true
unfolding is_late
late_if true e = refl
late_if false e = cc

ended_if : (stop : Bool) → is_ended (if stop then draining else popping) ≡ false
unfolding is_ended
ended_if true = refl
ended_if false = refl

running_on : {p : Place} → p ≡ ended → is_running p ≡ true → ⊥
unfolding is_running
running_on e runs = let over_now : false ≡ true = sym (ap is_running e) ∙ runs in cc

Step-Inv : {s t : Pool} → Step s t → Inv s → Inv t
unfolding is_late is_ended tasks_of
Step-Inv {s} (enqueue t alive_yet) v = record {
  kept = put s (task t) v;
  stopped = v.stopped;
  late = v.late;
  gone = λ more all.
      absurd (v.stopped (v.late 0 (ended-late (s.workers 0) (ap is_ended (all 0 more)))) alive_yet);
  joined = v.joined;
}
Step-Inv {s} (enqueue_inside w t h runs) v = record {
  kept = put s (task t) v;
  stopped = v.stopped;
  late = v.late;
  gone = λ more all. absurd (running_on (all w h) runs);
  joined = v.joined;
}
Step-Inv {s} (pop w x rest h at_place e) v =
    moved-Inv s w running rest _ v h (ap is_ended at_place) (got s x rest e) (λ l. cc) (λ l. cc)
Step-Inv {s} (run w h at_place) v =
    moved-Inv s w checking _ _ v h (ap is_ended at_place) refl (λ l. cc) (λ l. cc)
Step-Inv {s} (check w h at_place) v =
    moved-Inv s w (if s.stop then draining else popping) _ _ v h (ap is_ended at_place) refl
      (late_if s.stop) (λ l. let no_way : true ≡ false = sym l ∙ ended_if s.stop in cc)
Step-Inv {s} (try_pop w x rest h at_place e) v =
    moved-Inv s w drain_running rest _ v h (ap is_ended at_place) (got s x rest e)
      (λ l. v.late w (ap is_late at_place)) (λ l. cc)
Step-Inv {s} (run_again w h at_place) v =
    moved-Inv s w draining _ _ v h (ap is_ended at_place) refl (λ l. v.late w (ap is_late at_place))
      (λ l. cc)
Step-Inv {s} (leave w h at_place none) v =
    moved-Inv s w ended _ _ v h (ap is_ended at_place) refl (λ l. v.late w (ap is_late at_place))
      (λ l. ap tasks_of none)
Step-Inv {s} (store_stop alive_yet) v = record {
  kept = v.kept;
  stopped = λ e f. cc;
  late = λ w e. refl;
  gone = v.gone;
  joined = λ e. cc;
}
Step-Inv {s} (push n more) v = record {
  kept = put s empty v ∙ append-nil s.given;
  stopped = λ e f. cc;
  late = v.late;
  gone = λ more all. tasks_of-append s.m_tasks (empty ∷ []) ∙ ap (λ l. l ++ []) (v.gone more all);
  joined = λ e. cc;
}
Step-Inv {s} (join none all) v = record {
  kept = v.kept;
  stopped = λ e f. cc;
  late = v.late;
  gone = v.gone;
  joined = λ e. all;
}

Reach-Inv : {s t : Pool} → Inv s → Reach s t → Inv t
Reach-Inv v here = v
Reach-Inv v (next r st) = Step-Inv st (Reach-Inv v r)

-- Whatever the workers, the threads that enqueue and the destructor do, and in whatever order, where tasks may
-- enqueue others at any time and other threads until the destructor begins: the workers get the tasks in the
-- order in which they were enqueued, each once; and if the destructor of a pool with a worker ends, then they
-- have got all of them, and each worker has come to its end.
pub tasks_complete :
    (n : ℕ) (s : Pool)
    → Reach (new_pool n) s
    → (tasks_of s.taken ++ tasks_of s.m_tasks ≡ s.given)
      × (s.ending ≡ over
          → 0 < s.size
          → (tasks_of s.taken ≡ s.given) × ((w : ℕ) → w < s.size → s.workers w ≡ ended))
unfolding is_ended
tasks_complete n s r =
    let v = Reach-Inv (Inv-new_pool n) r in
    let kept : tasks_of s.taken ++ tasks_of s.m_tasks ≡ s.given =
      sym (tasks_of-append s.taken s.m_tasks) ∙ v.kept in
    (
      kept,
      λ e some_worker.
          let none : tasks_of s.m_tasks ≡ [] = v.gone some_worker (v.joined e) in
          (
            sym (append-nil (tasks_of s.taken)) ∙ ap (λ l. tasks_of s.taken ++ l) (sym none) ∙ kept,
            v.joined e,
          ),
    )
