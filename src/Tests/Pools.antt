-- ===== src/Tests/Pools.antt =====
-- The pools of coroutine_pool at concrete inputs.
use npoller.Base.{
  ℕ, ◌<◌, ◌≡◌, ◌≢◌, ◌==◌, refl, Bool, true, false, if◌then◌else◌, List, [], ◌∷◌, ◌++◌, arith,
}
use npoller.ThreadPool.{
  Pool, ended, over, Reach, here, next, new_pool, tasks_of, task, empty, enqueue, pop, run, check,
  try_pop, run_again, leave, store_stop, push, join,
}
use npoller.ThreadPool.Complete.{tasks_complete}
use npoller.ThreadPool.Wait.{destructor_can_wait}
use npoller.CoroutinePool.Callback
use npoller.CoroutinePool.Callback.{called_exactly, new_callback, run_ended, set_ended}
use npoller.CoroutinePool.Waiters.{call_add, call_return, Call}
use npoller.CoroutinePool.Waiters

-- One worker, one task, and the destructor up to its end.
abbrev whole_run : (s : Pool) × Reach (new_pool 1) s
whole_run =
    let one : 0 < 1 = omega arith in
    let r1 = next here (enqueue 7 refl) in
    let r2 = next (next r1 (pop 0 (task 7) [] one refl refl)) (store_stop refl) in
    let r3 = next (next (next (next r2 (push 3 refl)) (push 2 refl)) (push 1 refl)) (push 0 refl) in
    let r4 = next (next r3 (run 0 one refl)) (check 0 one refl) in
    let r5 =
      next (next r4 (try_pop 0 empty (empty ∷ empty ∷ empty ∷ []) one refl refl))
        (run_again 0 one refl) in
    let r6 =
      next (next r5 (try_pop 0 empty (empty ∷ empty ∷ []) one refl refl)) (run_again 0 one refl) in
    let r7 = next (next r6 (try_pop 0 empty (empty ∷ []) one refl refl)) (run_again 0 one refl) in
    let r8 = next (next r7 (try_pop 0 empty [] one refl refl)) (run_again 0 one refl) in
    (
      _,
      next (next r8 (leave 0 one refl refl))
          (join refl (λ w h. let only : w ≡ 0 = omega arith in rw only refl)),
    )

whole_run_ends : whole_run.0.ending ≡ over
whole_run_ends = refl

tasks_complete_example :
    (tasks_of whole_run.0.taken ++ tasks_of whole_run.0.m_tasks ≡ whole_run.0.given)
    × (whole_run.0.ending ≡ over
        → 0 < whole_run.0.size
        → (tasks_of whole_run.0.taken ≡ whole_run.0.given)
          × ((w : ℕ) → w < whole_run.0.size → whole_run.0.workers w ≡ ended))
tasks_complete_example = tasks_complete 1 whole_run.0 whole_run.1

destructor_can_wait_example :
    (s : Pool) × Reach (new_pool 2) s × ((t : Pool) → Reach s t → t.ending ≢ over)
destructor_can_wait_example = destructor_can_wait 2 (omega arith)

-- The callback is set first and called then.
abbrev set_and_called : (s : Callback.Callback) × Callback.Reach new_callback s
set_and_called =
    let r1 =
      Callback.next (Callback.next Callback.here (Callback.look refl))
        (Callback.try_lock 0 refl refl) in
    let r2 = Callback.next (Callback.next r1 (Callback.set refl)) (Callback.set_unlock true refl) in
    let r3 = Callback.next (Callback.next r2 (Callback.lock refl refl)) (Callback.mark refl) in
    (_, Callback.next (Callback.next r3 (Callback.call refl)) (Callback.unlock refl))

called_exactly_example :
    ((b : Bool)
      → set_and_called.0.run_place ≡ run_ended
      → set_and_called.0.set_place ≡ set_ended b
      → set_and_called.0.calls ≡ (if b then 1 else 0))
    × (set_and_called.0.has_ran ≡ false → set_and_called.0.calls ≡ 0)
called_exactly_example = called_exactly set_and_called.0 set_and_called.1

abbrev some_calls : List Call
some_calls =
    call_add false (λ k. true) 3
    ∷ call_return
    ∷ call_add false (λ k. k == 2) 4
    ∷ call_add true (λ k. true) 5
    ∷ []
