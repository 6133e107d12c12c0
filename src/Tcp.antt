-- ===== src/Tcp.antt =====
-- The status of a `tcp` connection (io/tcp.h, io/tcp.cpp), and the calls that change it. System calls
-- are given by what they come to. The logger is taken not to be in debug mode. The lists of waiting
-- operations, which `close` empties as well, have no part here.
pub mod Bits
pub mod Lifecycle
pub mod Process
pub mod Invariant
pub mod Answer
pub mod HalfClosed
pub mod Ops
use npoller.Base.{
  ℕ, zero, suc, ◌+◌, Bool, true, false, not, ◌||◌, ◌&&◌, if◌then◌else◌, List, [], ◌∷◌, ◌++◌, Option,
  none, some,
}

-- `tcp_status`
pub data TcpStatus : Type 0 where
  initializing connecting connected peer_shutdown_write shutdown_write closed invalid : TcpStatus

-- `handle_connect_result` calls the callback if it is set: `answers` is what it was told so far.
-- `closes` counts the calls of `::close(fd)`. `has_manager` is `manager != nullptr`, and `valid` is the
-- field of the base class, which `tcp` never changes.
pub record Tcp : Type 0 where
  pub status : TcpStatus
  pub write_busy : Bool
  pub support_epollrdhup : Bool
  pub has_connected_handler : Bool
  pub answers : List Bool
  pub has_manager : Bool
  pub valid : Bool
  pub closes : ℕ

-- `readable_unsafe()`, `writable_unsafe()` and `is_open()`
unfoldable pub readable : TcpStatus → Bool
readable connected = true
readable shutdown_write = true
readable _ = false

unfoldable pub writable : TcpStatus → Bool
writable connected = true
writable peer_shutdown_write = true
writable _ = false

unfoldable pub is_open : TcpStatus → Bool
is_open closed = false
is_open invalid = false
is_open _ = true

-- The `switch` of `set_readable`: what `next_status` becomes, `next` being what it was.
unfoldable pub next_readable : Bool → TcpStatus → TcpStatus → TcpStatus
next_readable true initializing next = connected
next_readable true connecting next = connected
next_readable false connected next = peer_shutdown_write
next_readable true peer_shutdown_write next = connected
next_readable false shutdown_write next = closed
next_readable _ _ next = next

-- The `switch` of `set_writable`.
unfoldable pub next_writable : Bool → TcpStatus → TcpStatus → TcpStatus
next_writable true initializing next = connected
next_writable true connecting next = connected
next_writable false connected next = shutdown_write
next_writable false peer_shutdown_write next = closed
next_writable true shutdown_write next = connected
next_writable _ _ next = next

-- The loop of both: each status in the list is one that a failed `compare_exchange_strong` has found
-- there, set by another thread in between; after the last the exchange succeeds.
unfoldable pub exchange :
    (TcpStatus → TcpStatus → TcpStatus) → TcpStatus → TcpStatus → List TcpStatus → TcpStatus
exchange choose current next [] = choose current next
exchange choose current next (found ∷ rest) = exchange choose found (choose current next) rest

-- `next_status` is set to the first status before the loop.
unfoldable pub set_readable : Bool → TcpStatus → List TcpStatus → TcpStatus
set_readable to current found = exchange (next_readable to) current current found

unfoldable pub set_writable : Bool → TcpStatus → List TcpStatus → TcpStatus
set_writable to current found = exchange (next_writable to) current current found

unfoldable pub handle_connect_result : Bool → Tcp → Tcp
handle_connect_result success t =
    if t.has_connected_handler
    then record t { answers = t.answers ++ (success ∷ []); has_connected_handler = false }
    else t

unfoldable pub connect_success : Tcp → Tcp
connect_success t =
    handle_connect_result true
      (record t { status = connected; write_busy = false; support_epollrdhup = true })

unfoldable pub connect_fail : Tcp → Tcp
connect_fail t = handle_connect_result false t

-- `close()`, no other thread changing the status meanwhile.
unfoldable pub close : Tcp → Tcp
close t =
    if is_open t.status
    then record t { status = closed; has_manager = false; closes = t.closes + 1 }
    else record t { has_manager = false }

-- What `::connect` comes to, by `errno`.
pub data ConnectResult : Type 0 where
  success in_progress already is_connected interrupted failed : ConnectResult

-- One round of the loop of `connect`, and whether it asks for another.
unfoldable pub connect_round : ConnectResult → Tcp → Bool × Tcp
connect_round success t = (false, connect_success t)
connect_round in_progress t = (false, record t { status = connecting })
connect_round already t = (false, record t { status = connecting })
connect_round is_connected t = (false, connect_success t)
connect_round interrupted t = (true, t)
connect_round failed t = (false, close (connect_fail t))

-- `while (need_retry && retry_times++ < 3)`, with so many retries left; `results` are what the calls of
-- `::connect` come to, from the first on.
unfoldable pub connect_loop : ℕ → (ℕ → ConnectResult) → Tcp → Tcp
connect_loop zero results t = (connect_round (results 0) t).1
connect_loop (suc retries) results t =
    let rest = connect_loop retries (λ n. results (n + 1)) (connect_round (results 0) t).1 in
    if (connect_round (results 0) t).0 then rest else (connect_round (results 0) t).1

abbrev pub is_initializing : TcpStatus → Bool
is_initializing initializing = true
is_initializing _ = false

abbrev pub is_connecting : TcpStatus → Bool
is_connecting connecting = true
is_connecting _ = false

unfoldable pub connect : (ℕ → ConnectResult) → Tcp → Tcp
connect results t = if is_initializing t.status then connect_loop 3 results t else t

-- What the calls of `reconnect` come to: `::connect` succeeds, `getsockopt` fails, or it gives an error.
pub data ReconnectResult : Type 0 where
  reached no_option still_connecting connected_before unreachable : ReconnectResult

unfoldable pub reconnect_with : ReconnectResult → Tcp → Tcp
reconnect_with reached t = connect_success t
reconnect_with no_option t = record t { status = closed }
reconnect_with still_connecting t = record t { status = connecting }
reconnect_with connected_before t = connect_success t
reconnect_with unreachable t = close (connect_fail t)

unfoldable pub reconnect : ReconnectResult → Tcp → Tcp
reconnect result t = if is_connecting t.status then reconnect_with result t else t

-- The events that `get_event` asks `epoll` for.
pub record Events : Type 0 where
  pub epollin : Bool
  pub epollout : Bool
  pub epollrdhup : Bool
  pub epollet : Bool

-- `get_event`; the assignments of the `switch` overwrite the `EPOLLET` set before it.
unfoldable pub event_of : TcpStatus → Bool → Option Events
event_of connected busy =
    some (record { epollin = true; epollout = busy; epollrdhup = true; epollet = false })
event_of peer_shutdown_write busy =
    some (record { epollin = false; epollout = true; epollrdhup = false; epollet = false })
event_of shutdown_write busy =
    some (record { epollin = true; epollout = false; epollrdhup = true; epollet = false })
event_of closed busy = none
event_of invalid busy = none
event_of _ busy =
    some (record { epollin = true; epollout = true; epollrdhup = false; epollet = false })

abbrev pub after_event : TcpStatus → Tcp → Tcp
after_event peer_shutdown_write t = record t { support_epollrdhup = false }
after_event closed t = close t
after_event _ t = t

unfoldable pub get_event : Tcp → Option Events × Tcp
get_event t = (event_of t.status t.write_busy, after_event t.status t)

-- `~io`, which runs for a `tcp` too: there `valid_safe()` is the one of the base class.
unfoldable pub destroy : Tcp → Tcp
destroy t = if t.valid then record t { closes = t.closes + 1 } else t
