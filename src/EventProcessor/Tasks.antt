-- ===== src/EventProcessor/Tasks.antt =====
-- The tasks of the event loop: `add_task` and `process_task_queue` (io/event_processor.cpp).
use npoller.Base.{
  ℕ, zero, suc, ◌+◌, ◌-◌, ◌^◌, ◌<◌, ◌≡◌, refl, sym, ap, ◌∙◌, Bool, true, false, ◌==◌, if◌then◌else◌,
  List, [], ◌∷◌, ◌++◌, append-nil, append_assoc, length, Option, none, some, Outcome, ok, err,
  ◌>>=◌, runtime_error, out_of_fuel, undefined_behaviour, add64, arith,
}
use npoller.MpscQueue.{ConcurrentQueue}

module _ {T : Type 0} (cq : ConcurrentQueue T) where
  -- `ran` are the tasks that were run, in order of time.
  pub record Tasks : Type 0 where
    pub task_index : ℕ
    pub task_list : cq.Queue
    pub local_task_list : List (T × ℕ)
    pub ran : List T

  -- `add_task`, called on the thread of the loop or on another; the signal to the loop is modelled in
  -- Shutdown.
  unfoldable pub add_task : Bool → T → Tasks → Tasks
  add_task on_loop_thread task s =
      if on_loop_thread
      then record s { task_index = add64 s.task_index 1 }
      else record s { task_index = add64 s.task_index 1; task_list = cq.emplace s.task_list task }

  -- `task(); index++;`, with `index` an `int`.
  abbrev pub run_task : T → ℕ → Tasks → Outcome (ℕ × Tasks)
  run_task task index s =
      if index == 2 ^ 31 - 1
      then err undefined_behaviour
      else ok (index + 1, record s { ran = s.ran ++ (task ∷ []) })

  -- `if (task_list.try_pop(task))`
  abbrev pub if_popped :
      Option (T × cq.Queue)
      → (T → cq.Queue → Outcome (ℕ × Tasks))
      → Outcome (ℕ × Tasks)
      → Outcome (ℕ × Tasks)
  if_popped none run other = other
  if_popped (some (task, q)) run other = run task q

  -- One round of the loop over `local_task_list`; `again` is the rest of the loop.
  abbrev pub local_round :
      List (T × ℕ) → ℕ → Tasks → (ℕ → Tasks → Outcome (ℕ × Tasks)) → Outcome (ℕ × Tasks)
  local_round [] index s again = ok (index, s)
  local_round ((task, number) ∷ rest) index s again =
      if number == index + 1
      then (run_task task index (record s { local_task_list = rest }) >>= λ r. again r.0 r.1)
      else if_popped (cq.try_pop s.task_list)
          (λ other q. run_task other index (record s { task_list = q }) >>= λ r. again r.0 r.1)
          (err runtime_error)

  unfoldable pub run_local : ℕ → ℕ → Tasks → Outcome (ℕ × Tasks)
  run_local zero index s = err out_of_fuel
  run_local (suc fuel) index s = local_round s.local_task_list index s (λ i t. run_local fuel i t)

  -- The loop over `task_list`, while no other thread adds to it.
  unfoldable pub run_shared : ℕ → ℕ → Tasks → Outcome (ℕ × Tasks)
  run_shared zero index s = err out_of_fuel
  run_shared (suc fuel) index s =
      if_popped (cq.try_pop s.task_list)
        (λ task q.
          run_task task index (record s { task_list = q }) >>= λ r. run_shared fuel r.0 r.1)
        (ok (index, s))

  unfoldable pub process_task_queue : ℕ → Tasks → Outcome (ℕ × Tasks)
  process_task_queue index s = do
    (i, t) ← run_local (length s.local_task_list + length (cq.items s.task_list) + 1) index s
    run_shared (length (cq.items t.task_list) + 1) i t

  run_shared_lem :
      (fuel index : ℕ) (s : Tasks) (ts : List T)
      → cq.items s.task_list ≡ ts
      → length ts < fuel
      → index + length ts < 2 ^ 31
      → (q : cq.Queue) × (run_shared fuel index s
          ≡ ok (index + length ts, record s { task_list = q; ran = s.ran ++ ts }))
        × (cq.items q ≡ [])
  unfolding run_shared
  run_shared_lem zero index s ts e f room = absurd (omega arith)
  run_shared_lem (suc fuel) index s [] e f room =
      let empty = cq.try_pop_of_nil s.task_list e in
      let same : index + 0 ≡ index = omega arith in
      (s.task_list, rw (empty, append-nil, same) refl, e)
  run_shared_lem (suc fuel) index s (t ∷ ts) e f room =
      let (q, popped, left) = cq.try_pop_of_cons s.task_list t ts e in
      let fits : (index == 2 ^ 31 - 1) ≡ false = ground arith in
      let (last, runs, gone) =
        run_shared_lem fuel (index + 1) (record s { task_list = q; ran = s.ran ++ (t ∷ []) }) ts
          left (omega arith) (omega arith) in
      let count : index + 1 + length ts ≡ index + suc (length ts) = omega arith in
      (last, rw (popped, fits, ← append_assoc s.ran (t ∷ []) ts, ← count) runs, gone)

  run_local_of_none :
      (fuel index : ℕ) (s : Tasks)
      → s.local_task_list ≡ []
      → run_local (suc fuel) index s ≡ ok (index, s)
  unfolding run_local
  run_local_of_none fuel index s e = rw e refl

  process_task_queue_lem :
      (index : ℕ) (s : Tasks)
      → s.local_task_list ≡ []
      → index + length (cq.items s.task_list) < 2 ^ 31
      → (q : cq.Queue) × (process_task_queue index s
          ≡ ok (
            index + length (cq.items s.task_list),
            record s { task_list = q; ran = s.ran ++ cq.items s.task_list },
          ))
        × (cq.items q ≡ [])
  unfolding process_task_queue
  process_task_queue_lem index s e room =
      let one_more : length s.local_task_list + length (cq.items s.task_list) + 1
          ≡ suc (length s.local_task_list + length (cq.items s.task_list)) =
        omega arith in
      let (q, runs, gone) =
        run_shared_lem (length (cq.items s.task_list) + 1) index s _ refl (omega arith) room in
      (
        q,
        rw
            (
              one_more,
              run_local_of_none (length s.local_task_list + length (cq.items s.task_list)) index s
                  e,
            )
            runs,
        gone,
      )

  -- The loop's own thread, or another, gives a task.
  pub data Given : Type 0 where
    by_loop by_other : T → Given

  unfoldable pub give_all : List Given → Tasks → Tasks
  give_all [] s = s
  give_all (by_loop t ∷ gs) s = give_all gs (add_task true t s)
  give_all (by_other t ∷ gs) s = give_all gs (add_task false t s)

  -- The tasks that other threads gave.
  abbrev pub from_others : List Given → List T
  from_others [] = []
  from_others (by_loop t ∷ gs) = from_others gs
  from_others (by_other t ∷ gs) = t ∷ from_others gs

  given :
      (gs : List Given) (s : Tasks)
      → (cq.items (give_all gs s).task_list ≡ cq.items s.task_list ++ from_others gs)
        × ((give_all gs s).local_task_list ≡ s.local_task_list)
        × ((give_all gs s).ran ≡ s.ran)
  unfolding give_all add_task
  given [] s = (sym (append-nil (cq.items s.task_list)), refl, refl)
  given (by_loop t ∷ gs) s = given gs (record s { task_index = add64 s.task_index 1 })
  given (by_other t ∷ gs) s =
      let (items, kept, ran) =
        given gs
          (record s { task_index = add64 s.task_index 1; task_list = cq.emplace s.task_list t }) in
      (
        items
            ∙ ap (λ l. l ++ from_others gs) (cq.items-emplace s.task_list t)
            ∙ append_assoc (cq.items s.task_list) (t ∷ []) (from_others gs),
        kept,
        ran,
      )

  -- From empty lists, with fewer than 2^31 tasks: after tasks have been given and the loop has gone through
  -- its queue, exactly the tasks of other threads have run, in the order in which they were given, and none
  -- that a task gave on the loop's own thread.
  pub given_tasks_run :
      (gs : List Given) (s : Tasks)
      → cq.items s.task_list ≡ []
      → s.local_task_list ≡ []
      → length (from_others gs) < 2 ^ 31
      → (t : Tasks) × (process_task_queue 0 (give_all gs s) ≡ ok (length (from_others gs), t))
        × (t.ran ≡ s.ran ++ from_others gs)
        × (cq.items t.task_list ≡ [])
        × (t.local_task_list ≡ [])
  given_tasks_run gs s none_shared none_local room =
      let (items, kept, ran) = given gs s in
      let all : cq.items (give_all gs s).task_list ≡ from_others gs =
        items ∙ ap (λ l. l ++ from_others gs) none_shared in
      let (q, runs, gone) =
        process_task_queue_lem 0 (give_all gs s) (kept ∙ none_local) (rw all (omega arith)) in
      let count : 0 + length (from_others gs) ≡ length (from_others gs) = omega arith in
      (
        record (give_all gs s) { task_list = q; ran = (give_all gs s).ran ++ from_others gs },
        rw (all, count) at runs,
        ap (λ l. l ++ from_others gs) ran,
        gone,
        kept ∙ none_local,
      )
