-- ===== src/Tcp/Ops.antt =====
-- A `tcp` (io/tcp.cpp) as a socket of the event loop: it fills the interface of EventProcessor/Watch. The
-- triple is the descriptor, whether the `manager` is this processor, and the connection, which knows only
-- whether there is a manager.
use npoller.Base.{ℕ, ◌≡◌, refl, Bool, true, false, ◌&&◌, arith}
use npoller.Tcp.{
  TcpStatus, initializing, connecting, connected, peer_shutdown_write, shutdown_write, closed,
  invalid, Tcp, readable, writable, close, Events, get_event, after_event,
}
use npoller.Tcp.Process.{Answers, is_valid, mark_invalid, direct_write, process_event}
use npoller.EventProcessor.Watch.{IoOps}

-- `get_event` never sets `support_epollrdhup`.
dropped_stays :
    (t : Tcp) (s : TcpStatus)
    → t.support_epollrdhup ≡ false
    → (after_event s t).support_epollrdhup ≡ false
unfolding close
dropped_stays t initializing e = e
dropped_stays t connecting e = e
dropped_stays t connected e = e
dropped_stays t peer_shutdown_write e = refl
dropped_stays t shutdown_write e = e
dropped_stays t closed e = ground (arith, e)
dropped_stays t invalid e = e

pub get_event-dropped :
    (t : Tcp) → t.support_epollrdhup ≡ false → (get_event t).1.support_epollrdhup ≡ false
unfolding get_event
get_event-dropped t e = dropped_stays t t.status e

-- `answers` is what the system calls come to.
abbrev pub tcp_ops : Answers → IoOps
tcp_ops answers = record {
  Io = ℕ × Bool × Tcp;
  Event = Events;
  fd = λ (n, here, t). n;
  valid_safe = λ (n, here, t). is_valid t.status;
  readable = λ (n, here, t). readable t.status;
  writable = λ (n, here, t). writable t.status;
  write_busy = λ (n, here, t). t.write_busy;
  support_epollrdhup = λ (n, here, t). t.support_epollrdhup;
  drop_epollrdhup = λ (n, here, t). (n, here, record t { support_epollrdhup = false });
  get_event = λ (n, here, t). ((get_event t).0, (n, here, (get_event t).1));
  mark_invalid = λ (n, here, t). (n, here, mark_invalid t);
  managed_here = λ (n, here, t). here && t.has_manager;
  update_manager = λ (n, here, t). (n, true, record t { has_manager = true });
  process_event =
      λ e (n, here, t). ((process_event answers e t).0, (n, here, (process_event answers e t).1));
  write_flush = λ i. i;
  direct_write = λ (n, here, t). (n, here, direct_write answers.writes t);
  process_write = λ i. i;
  fd-drop = λ i. refl;
  fd-update = λ i. refl;
  fd-get_event = λ i. refl;
  dropped = λ i. refl;
  get_event-dropped = λ (n, here, t) e. get_event-dropped t e;
}
