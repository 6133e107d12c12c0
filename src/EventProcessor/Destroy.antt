-- ===== src/EventProcessor/Destroy.antt =====
-- When the destructor of an `event_processor` comes to an end (io/event_processor.cpp).
use npoller.Base.{◌≡◌, ◌≢◌, ◌⊎◌, inl, inr, refl, true, false, arith}
use npoller.EventProcessor.Watch.{ready_close}
use npoller.EventProcessor.Shutdown.{
  LoopPlace, round_begin, tasks_done, before_wait, in_wait, woken, in_events, pipe_read, returned,
  alive, stored, joining, over, Loop, is_ready_close, is_over, Step, begin_round, stop, go_on, wait,
  wake, work, read_pipe, look, events_done, notify, store_close, end_early, signal_close, join,
  Reach, here, next, started,
}

-- What holds of all that the two threads can come to.
record Inv (s : Loop) : Type 0 where
  told : s.close_flag ≡ true → s.ending ≢ alive
  asked : is_ready_close s.status ≡ true → s.ending ≢ alive
  ended : s.place ≡ returned → s.close_flag ≡ true
  joined : s.ending ≡ over → s.place ≡ returned
  stopped : is_over s.status ≡ true → s.place ≡ returned

Inv-started : Inv started
Inv-started = record {
  told = λ e. cc;
  asked = λ e. cc;
  ended = λ e. cc;
  joined = λ e. cc;
  stopped = λ e. cc;
}

-- No status that ends the destructor early is stored before the loop returns.
Step-Inv : {s t : Loop} → Step s t → Inv s → Inv t
Step-Inv (begin_round p) v = ground (arith, v.told, v.asked, v.ended, v.joined, v.stopped)
Step-Inv (stop p f) v = ground (arith, v.told, v.asked, v.ended, v.joined, v.stopped)
Step-Inv (go_on p f) v = ground (arith, v.told, v.asked, v.ended, v.joined, v.stopped)
Step-Inv (wait p) v = ground (arith, v.told, v.asked, v.ended, v.joined, v.stopped)
Step-Inv (wake p) v = ground (arith, v.told, v.asked, v.ended, v.joined, v.stopped)
Step-Inv (work p) v = ground (arith, v.told, v.asked, v.ended, v.joined, v.stopped)
Step-Inv (read_pipe n p e) v = ground (arith, v.told, v.asked, v.ended, v.joined, v.stopped)
Step-Inv (look p) v = ground (arith, v.told, v.asked, v.ended, v.joined, v.stopped)
Step-Inv (events_done p) v = ground (arith, v.told, v.asked, v.ended, v.joined, v.stopped)
Step-Inv (notify e) v = ground (arith, v.told, v.asked, v.ended, v.joined, v.stopped)
Step-Inv (store_close e o) v = ground (arith, v.told, v.asked, v.ended, v.joined, v.stopped)
Step-Inv (end_early e o) v = ground (arith, v.told, v.asked, v.ended, v.joined, v.stopped)
Step-Inv (signal_close e) v = ground (arith, v.told, v.asked, v.ended, v.joined, v.stopped)
Step-Inv (join e p) v = ground (arith, v.told, v.asked, v.ended, v.joined, v.stopped)

Reach-Inv : {s t : Loop} → Inv s → Reach s t → Inv t
Reach-Inv v here = v
Reach-Inv v (next r st) = Step-Inv st (Reach-Inv v r)

-- Whatever the two threads and others do, and in whatever order, while `epoll_wait` and the writes to the
-- pipe do not fail, the loop returns only after the destructor
-- has stored `ready_close`, and the destructor ends only after the loop has returned.
ends_in_order :
    (s : Loop)
    → Reach started s
    → (s.place ≡ returned → s.ending ≢ alive) × (s.ending ≡ over → s.place ≡ returned)
ends_in_order s r = let v = Reach-Inv Inv-started r in (λ p. v.told (v.ended p), v.joined)

-- The destructor has stored `ready_close`, and the loop will store another status before it looks.
record Missed (s : Loop) : Type 0 where
  flag : s.close_flag ≡ false
  ending : (s.ending ≡ stored) ⊎ (s.ending ≡ joining)
  unseen :
      (s.place ≡ round_begin)
      ⊎ ((s.place ≡ tasks_done)
          ⊎ ((s.place ≡ before_wait)
              ⊎ ((s.place ≡ in_wait)
                  ⊎ ((s.place ≡ woken)
                      ⊎ ((s.place ≢ returned) × (is_ready_close s.status ≡ false))))))

Step-Missed : {s t : Loop} → Step s t → Missed s → Missed t
Step-Missed (begin_round p) m = ground (arith, m.ending)
Step-Missed (stop p f) m = let no_way = m.flag in cc
Step-Missed (go_on p f) m = ground (arith, m.ending)
Step-Missed (wait p) m = ground (arith, m.ending)
Step-Missed (wake p) m = ground (arith, m.ending)
Step-Missed (work p) m = ground (arith, m.ending)
Step-Missed (read_pipe n p e) m = ground (arith, m.ending, m.unseen)
Step-Missed (look p) m = ground (arith, m.ending, m.unseen, m.flag)
Step-Missed (events_done p) m = ground (arith, m.ending, m.unseen)
Step-Missed (notify e) m = ground (arith, m.ending, m.unseen, m.flag)
Step-Missed (store_close e o) m = ground (arith, m.ending)
Step-Missed (end_early e o) m = ground (arith, m.ending)
Step-Missed (signal_close e) m = ground (arith, m.unseen, m.flag)
Step-Missed (join e p) m = ground (arith, m.unseen)

Reach-Missed : {s t : Loop} → Missed s → Reach s t → Missed t
Reach-Missed m here = m
Reach-Missed m (next r st) = Step-Missed st (Reach-Missed m r)

-- Every other place is one from which another status is stored first.
before_a_store :
    (p : LoopPlace)
    → p ≢ in_events
    → p ≢ pipe_read
    → p ≢ returned
    → (p ≡ round_begin) ⊎ ((p ≡ tasks_done) ⊎ ((p ≡ before_wait) ⊎ ((p ≡ in_wait) ⊎ (p ≡ woken))))
before_a_store round_begin a b c = inl refl
before_a_store tasks_done a b c = inr (inl refl)
before_a_store before_wait a b c = inr (inr (inl refl))
before_a_store in_wait a b c = inr (inr (inr (inl refl)))
before_a_store woken a b c = inr (inr (inr (inr refl)))
before_a_store in_events a b c = absurd (a refl)
before_a_store pipe_read a b c = absurd (b refl)
before_a_store returned a b c = absurd (c refl)

store-Missed :
    (s : Loop)
    → Inv s
    → s.ending ≡ alive
    → s.place ≢ in_events
    → s.place ≢ pipe_read
    → s.place ≢ returned
    → Missed (record s { status = ready_close; ending = stored })
store-Missed s v still_alive a b c =
    let untold : s.close_flag ≡ false = ground (arith, v.told) in
    let at_store = before_a_store s.place a b c in
    record { flag = untold; ending = inl refl; unseen = ground (arith, at_store) }

-- If the destructor stores `ready_close` anywhere but between the loop's store of `working` and the end of
-- its events, for example while the loop is in `epoll_wait`, then the loop never returns and the destructor
-- never ends, whatever happens after, while `epoll_wait` and the writes to the pipe do not fail.
pub destructor_hangs :
    (s t : Loop)
    → Reach started s
    → s.ending ≡ alive
    → s.place ≢ in_events
    → s.place ≢ pipe_read
    → s.place ≢ returned
    → Reach (record s { status = ready_close; ending = stored }) t
    → (t.place ≢ returned) × (t.ending ≢ over)
destructor_hangs s t r still_alive not_events not_pipe not_returned later =
    let v = Reach-Inv Inv-started r in
    let m : Missed t =
      Reach-Missed (store-Missed s v still_alive not_events not_pipe not_returned) later in
    (ground (arith, m.unseen, m.flag), ground (arith, m.ending))
