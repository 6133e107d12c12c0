-- ===== src/EventProcessor/Shutdown.antt =====
-- The loop of an `event_processor` and its destructor (`process`, `notify_event`, `~event_processor` in
-- io/event_processor.cpp), as the accesses to `status` and to the pipe between the two threads follow one
-- another. What the loop does with sockets and tasks between these accesses has no part in it. Left out are
-- an `epoll_wait` that fails by anything but a signal, which ends the loop with `working`, a `write` to the
-- pipe that fails, and exceptions of tasks.
use npoller.Base.{ℕ, suc, ◌+◌, ◌≡◌, Bool, true, false, if◌then◌else◌}
use npoller.EventProcessor.Watch.{
  Status, working, ready_waiting, waiting, ready_close, stop_work, closed,
}

-- Where the loop stands.
pub data LoopPlace : Type 0 where
  -- before `status.store(ready_waiting)`
  round_begin : LoopPlace
  -- before the test of `close_flag`
  tasks_done : LoopPlace
  -- before `status.store(waiting)`
  before_wait : LoopPlace
  -- in `epoll_wait`
  in_wait : LoopPlace
  -- `epoll_wait` has returned; before `status.store(working)`
  woken : LoopPlace
  -- going through the events
  in_events : LoopPlace
  -- after the `read` of the pipe, before the look at `status`
  pipe_read : LoopPlace
  -- `process` has returned
  returned : LoopPlace

-- Where the destructor stands.
pub data EndPlace : Type 0 where
  -- not called yet
  alive : EndPlace
  -- `status.store(ready_close)` is done, the write to the pipe not yet
  stored : EndPlace
  -- in `worker.join()`
  joining : EndPlace
  -- past the join, or returned at its beginning
  over : EndPlace

pub record Loop : Type 0 where
  pub status : Status
  pub close_flag : Bool
  pub place : LoopPlace
  pub ending : EndPlace
  -- the bytes in the pipe
  pub pipe : ℕ

abbrev pub is_ready_close : Status → Bool
is_ready_close ready_close = true
is_ready_close _ = false

abbrev pub is_working : Status → Bool
is_working working = true
is_working _ = false

-- `if (temp_st == stop_work || temp_st == closed)` of the destructor.
abbrev pub is_over : Status → Bool
is_over stop_work = true
is_over closed = true
is_over _ = false

-- The steps of the loop, of the destructor's thread, and of other threads that call `notify_event`.
pub data Step (s : Loop) : Loop → Type 0 where
  begin_round :
      s.place ≡ round_begin → Step s (record s { status = ready_waiting; place = tasks_done })
  stop :
      s.place ≡ tasks_done
      → s.close_flag ≡ true
      → Step s (record s { status = stop_work; place = returned })
  go_on : s.place ≡ tasks_done → s.close_flag ≡ false → Step s (record s { place = before_wait })
  wait : s.place ≡ before_wait → Step s (record s { status = waiting; place = in_wait })
  -- `epoll_wait` returns: the pipe has a byte, or a socket has an event, or a signal has come
  wake : s.place ≡ in_wait → Step s (record s { place = woken })
  work : s.place ≡ woken → Step s (record s { status = working; place = in_events })
  read_pipe :
      (n : ℕ)
      → s.place ≡ in_events
      → s.pipe ≡ suc n
      → Step s (record s { pipe = n; place = pipe_read })
  look :
      s.place ≡ pipe_read
      → Step s (record s {
        close_flag = if is_ready_close s.status then true else s.close_flag;
        place = in_events;
      })
  events_done : s.place ≡ in_events → Step s (record s { place = round_begin })
  notify : is_working s.status ≡ false → Step s (record s { pipe = s.pipe + 1 })
  store_close :
      s.ending ≡ alive
      → is_over s.status ≡ false
      → Step s (record s { status = ready_close; ending = stored })
  end_early : s.ending ≡ alive → is_over s.status ≡ true → Step s (record s { ending = over })
  signal_close : s.ending ≡ stored → Step s (record s { pipe = s.pipe + 1; ending = joining })
  join : s.ending ≡ joining → s.place ≡ returned → Step s (record s { ending = over })

pub data Reach (start : Loop) : Loop → Type 0 where
  here : Reach start start
  next : {s t : Loop} → Reach start s → Step s t → Reach start t

-- The loop as `init` starts it.
abbrev pub started : Loop
started = record {
  status = working;
  close_flag = false;
  place = round_begin;
  ending = alive;
  pipe = 0;
}
