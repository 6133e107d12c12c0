-- ===== src/Tests/Loop.antt =====
-- The event loop and the events of a `tcp` at concrete inputs.
use npoller.Base.{
  ℕ, zero, suc, ◌≡◌, ◌≢◌, ◌⊎◌, ◌↔◌, inr, refl, Bool, true, false, [], ◌∷◌, none, ok, arith,
}
use npoller.Tcp.{Tcp, shutdown_write, Events, event_of, is_open, reached, readable, writable}
use npoller.Tcp.Process.{Answers, read_plain, write_plain, process_event}
use npoller.Tcp.Answer.{process_event_lem}
use npoller.Tcp.HalfClosed.{half_closed_ends}
use npoller.Tcp.Ops.{tcp_ops}
use npoller.EventProcessor.Watch.{Processor, CtlResult, einval, added, working, waiting}
use npoller.EventProcessor.Tasks.{
  Tasks, by_loop, by_other, give_all, process_task_queue, given_tasks_run,
}
use npoller.EventProcessor.Events.{handle_event, handle_event_lem}
use npoller.EventProcessor.Shutdown.{
  Loop, in_wait, returned, in_events, joining, alive, over, Reach, here, next, begin_round, go_on,
  wait, wake, work, signal_close, started,
}
use npoller.EventProcessor.Destroy.{destructor_hangs}
use npoller.Tests.Queue.{list_queue}

abbrev answers : Answers
answers = record { reconnects = reached; reads = read_plain; writes = write_plain }

abbrev half_closed : Tcp
half_closed = record {
  status = shutdown_write;
  write_busy = false;
  support_epollrdhup = true;
  has_connected_handler = false;
  answers = [];
  has_manager = true;
  valid = true;
  closes = 0;
}

abbrev input : Events
input = record { epollin = true; epollout = false; epollrdhup = false; epollet = false }

process_event_lem_example :
    ((process_event answers input half_closed).0
      ≡ event_of
          (process_event answers input half_closed).1.status
          (process_event answers input half_closed).1.write_busy)
    × (((process_event answers input half_closed).0 ≡ none)
        ↔ (is_open (process_event answers input half_closed).1.status ≡ false))
process_event_lem_example = process_event_lem answers input half_closed

half_closed_ends_example : is_open (process_event answers input half_closed).1.status ≡ false
half_closed_ends_example = half_closed_ends answers input half_closed (inr (refl, refl))

abbrev one_io : Processor (tcp_ops answers)
one_io = record {
  status = working;
  epfd = 3;
  io_map = (5, (5, true, half_closed)) ∷ [];
  ready_to_write = [];
  epoll = 5 ∷ [];
}

-- The first call of `epoll_ctl` gives `EINVAL`, the second succeeds.
abbrev results : ℕ → CtlResult
results zero = einval
results (suc n) = added

abbrev unmanaged : ℕ × Bool × Tcp
unmanaged = (6, false, record half_closed { has_manager = false })

handle_event_lem_example :
    let ops = tcp_ops answers in
    let j = (process_event answers input half_closed).1 in
    ((handle_event ops input (5, true, half_closed)).1 ≡ (5, true, j))
    × (((readable j.status ≢ readable shutdown_write)
          ⊎ ((writable j.status ≢ writable shutdown_write) ⊎ (j.write_busy ≢ false)))
        → (handle_event ops input (5, true, half_closed)).0
          ≡ (process_event answers input half_closed).0)
    × ((readable j.status ≡ readable shutdown_write)
          × (writable j.status ≡ writable shutdown_write)
          × (j.write_busy ≡ false)
        → (handle_event ops input (5, true, half_closed)).0 ≡ none)
handle_event_lem_example = handle_event_lem (tcp_ops answers) input (5, true, half_closed)

abbrev idle : Tasks list_queue
idle = record { task_index = 0; task_list = []; local_task_list = []; ran = [] }

given_tasks_run_example :
    (t : Tasks list_queue) × (process_task_queue list_queue 0
        (give_all list_queue (by_other 7 ∷ by_loop 8 ∷ by_other 9 ∷ []) idle)
      ≡ ok (2, t))
    × (t.ran ≡ 7 ∷ 9 ∷ [])
    × (t.task_list ≡ [])
    × (t.local_task_list ≡ [])
given_tasks_run_example =
    given_tasks_run list_queue (by_other 7 ∷ by_loop 8 ∷ by_other 9 ∷ []) idle refl refl
      (omega arith)

-- The loop has come to `epoll_wait`.
abbrev asleep : Loop
asleep = record { status = waiting; close_flag = false; place = in_wait; ending = alive; pipe = 0 }

asleep-Reach : Reach started asleep
asleep-Reach = next (next (next here (begin_round refl)) (go_on refl refl)) (wait refl)

-- The destructor stores its status and writes to the pipe, and the loop wakes up and works.
destructor_hangs_example :
    let t : Loop = record {
      status = working;
      close_flag = false;
      place = in_events;
      ending = joining;
      pipe = 1;
    } in
    (t.place ≢ returned) × (t.ending ≢ over)
destructor_hangs_example =
    destructor_hangs asleep _ asleep-Reach refl (λ e. cc) (λ e. cc) (λ e. cc)
      (next (next (next here (signal_close refl)) (wake refl)) (work refl))
