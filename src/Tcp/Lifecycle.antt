-- ===== src/Tcp/Lifecycle.antt =====
-- The calls on one `tcp` (io/tcp.cpp) in any order.
use npoller.Base.{ℕ, ◌+◌, ◌≤◌, ◌≡◌, Bool, true, List, [], ◌∷◌, length, arith}
use npoller.Tcp.{
  initializing, Tcp, is_open, set_readable, set_writable, close, ConnectResult, connect,
  ReconnectResult, reconnect, get_event, Events, destroy,
}
use npoller.Tcp.Process.{
  ReadEnd, WriteEnd, Answers, mark_invalid, direct_read, direct_write, process_event,
}
use npoller.Tcp.Bits.{pending}
use npoller.Tcp.Invariant.{
  Inv, Keeps-set_readable, Keeps-set_writable, Inv-status, close-Inv, connect-Inv, reconnect-Inv,
  get_event-Inv, mark_invalid-Inv, direct_read-Inv, direct_write-Inv, process_event-Inv,
}

pub data Call : Type 0 where
  call_connect : (ℕ → ConnectResult) → Call
  call_reconnect : ReconnectResult → Call
  call_set_readable call_set_writable : Bool → Call
  call_process_event : Answers → Events → Call
  call_direct_read : ReadEnd → Call
  call_direct_write : WriteEnd → Call
  call_close call_get_event call_mark_invalid : Call

unfoldable pub step : Call → Tcp → Tcp
step (call_connect results) t = connect results t
step (call_reconnect result) t = reconnect result t
step (call_set_readable to) t = record t { status = set_readable to t.status [] }
step (call_set_writable to) t = record t { status = set_writable to t.status [] }
step call_close t = close t
step call_get_event t = (get_event t).1
step (call_process_event answers events) t = (process_event answers events t).1
step (call_direct_read end) t = direct_read end t
step (call_direct_write end) t = direct_write end t
step call_mark_invalid t = mark_invalid t

unfoldable pub run : List Call → Tcp → Tcp
run [] t = t
run (c ∷ calls) t = run calls (step c t)

-- A connection that may still be made, as the constructor leaves it with a callback set.
pub record IsNew (t : Tcp) : Type 0 where
  pub status : t.status ≡ initializing
  pub unanswered : t.answers ≡ []
  pub handler : t.has_connected_handler ≡ true
  pub unclosed : t.closes ≡ 0
  pub valid : t.valid ≡ true

step-Inv : (c : Call) (t : Tcp) → Inv t → Inv (step c t)
unfolding step
step-Inv (call_connect results) t v = connect-Inv results t v
step-Inv (call_reconnect result) t v = reconnect-Inv result t v
step-Inv (call_set_readable to) t v = Inv-status t _ (Keeps-set_readable to t.status) v
step-Inv (call_set_writable to) t v = Inv-status t _ (Keeps-set_writable to t.status) v
step-Inv call_close t v = close-Inv t v
step-Inv call_get_event t v = get_event-Inv t v
step-Inv (call_process_event answers events) t v = process_event-Inv answers events t v
step-Inv (call_direct_read end) t v = direct_read-Inv end t v
step-Inv (call_direct_write end) t v = direct_write-Inv end t v
step-Inv call_mark_invalid t v = mark_invalid-Inv t v

run-Inv : (calls : List Call) (t : Tcp) → Inv t → Inv (run calls t)
unfolding run
run-Inv [] t v = v
run-Inv (c ∷ calls) t v = run-Inv calls (step c t) (step-Inv c t v)

IsNew-Inv : (t : Tcp) → IsNew t → Inv t
unfolding is_open
IsNew-Inv t n = record {
  once = rw (n.unanswered, n.handler) (omega arith);
  waiting = λ e. n.handler;
  descriptor = rw (n.unclosed, n.status) (omega arith);
  valid = n.valid;
}

-- Whatever calls one new connection gets, one at a time, and whatever the system says: its callback is told
-- an answer at most once and not while the connection is pending, its descriptor is closed at most once and
-- not while it is open, and a `close` while it is open closes it.
pub answered_and_closed_once :
    (calls : List Call) (t : Tcp)
    → IsNew t
    → (length (run calls t).answers ≤ 1)
      × (pending (run calls t).status ≡ true → length (run calls t).answers ≡ 0)
      × ((run calls t).closes ≤ 1)
      × (is_open (run calls t).status ≡ true → (run calls t).closes ≡ 0)
      × (is_open (run calls t).status ≡ true → (close (run calls t)).closes ≡ 1)
unfolding close
answered_and_closed_once calls t n =
    let v = run-Inv calls t (IsNew-Inv t n) in
    (
      omega (arith, v.once),
      λ e.
          let one : length (run calls t).answers + 1 ≤ 1 = rw (v.waiting e) at v.once in
          omega arith,
      omega (arith, v.descriptor),
      λ e. let one : (run calls t).closes + 1 ≤ 1 = rw e at v.descriptor in omega arith,
      λ e. let one : (run calls t).closes + 1 ≤ 1 = rw e at v.descriptor in rw e (omega arith),
    )

-- If a new connection is open after some calls, one at a time, then `close` and the destructor of the base
-- class together close its descriptor twice.
pub destroy_closes_again :
    (calls : List Call) (t : Tcp)
    → IsNew t
    → is_open (run calls t).status ≡ true
    → (destroy (close (run calls t))).closes ≡ 2
unfolding close destroy
destroy_closes_again calls t n opened =
    let v = run-Inv calls t (IsNew-Inv t n) in
    let one : (run calls t).closes + 1 ≤ 1 = rw opened at v.descriptor in
    rw (opened, v.valid) (omega arith)
