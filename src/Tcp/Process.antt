-- ===== src/Tcp/Process.antt =====
-- `process_event`, `direct_read` and `direct_write` of `tcp` (io/tcp.cpp), with what `direct_read` and
-- `direct_write` of `io` (io/io.cpp) do to the status. The buffers and the lists of waiting operations,
-- which `process_read`, `clean_read`, `write_flush` and `process_write` work on, have no part here.
use npoller.Base.{Bool, true, false, not, ◌&&◌, if◌then◌else◌, [], Option, none}
use npoller.Tcp.{
  TcpStatus, initializing, connecting, connected, peer_shutdown_write, shutdown_write, closed,
  invalid, Tcp, readable, writable, set_readable, set_writable, close, ReconnectResult, reconnect,
  Events, get_event,
}

-- How the loop of `io::direct_read` ends: with nothing to note, with the end of the input, or with `EBADF`.
pub data ReadEnd : Type 0 where
  read_plain read_eof read_bad : ReadEnd

-- How the loop of `io::direct_write` ends: with nothing to note, with `EAGAIN`, with `EINVAL` or `EPIPE`, or
-- with `EBADF`.
pub data WriteEnd : Type 0 where
  write_plain write_again write_broken write_bad : WriteEnd

-- `valid_unsafe()`
unfoldable pub is_valid : TcpStatus → Bool
is_valid invalid = false
is_valid _ = true

-- `mark_invalid()`
abbrev pub mark_invalid : Tcp → Tcp
mark_invalid t = record t { status = invalid }

abbrev pub read_ends : ReadEnd → Tcp → Tcp
read_ends read_plain t = t
read_ends read_eof t = record t {
  status = set_readable false t.status [];
  support_epollrdhup = false;
}
read_ends read_bad t = mark_invalid t

-- `io::direct_read`
unfoldable pub io_direct_read : ReadEnd → Tcp → Tcp
io_direct_read r t = if is_valid t.status && readable t.status then read_ends r t else t

abbrev pub close_if_closed : TcpStatus → Tcp → Tcp
close_if_closed closed t = close t
close_if_closed _ t = t

-- `tcp::direct_read`
unfoldable pub direct_read : ReadEnd → Tcp → Tcp
direct_read r t = let t = io_direct_read r t in close_if_closed t.status t

abbrev pub write_ends : WriteEnd → Tcp → Tcp
write_ends write_plain t = t
write_ends write_again t = record t { write_busy = true }
write_ends write_broken t = record t { status = set_writable false t.status [] }
write_ends write_bad t = mark_invalid t

-- `io::direct_write`
unfoldable pub io_direct_write : WriteEnd → Tcp → Tcp
io_direct_write w t = if is_valid t.status && writable t.status then write_ends w t else t

abbrev pub is_connected : TcpStatus → Bool
is_connected connected = true
is_connected _ = false

-- `tcp::direct_write`
unfoldable pub direct_write : WriteEnd → Tcp → Tcp
direct_write w t =
    let t = io_direct_write w t in
    if is_valid t.status && not (writable t.status)
    then (if readable t.status && is_connected t.status
        then record t { status = shutdown_write }
        else close t)
    else t

pub record Answers : Type 0 where
  pub reconnects : ReconnectResult
  pub reads : ReadEnd
  pub writes : WriteEnd

-- What the end of `process_event` comes to for a status.
abbrev pub end_of_event : TcpStatus → Tcp → Option Events × Tcp
end_of_event closed t = (none, close t)
end_of_event peer_shutdown_write t = (none, close t)
end_of_event _ t = get_event t

-- The part of `process_event` behind the `switch`.
unfoldable pub after_switch : Answers → Events → Tcp → Option Events × Tcp
after_switch a ev t =
    let t = if ev.epollin then direct_read a.reads t else t in
    let t = if ev.epollrdhup then record t { status = set_readable false t.status [] } else t in
    let t = if not t.write_busy then direct_write a.writes t else t in end_of_event t.status t

-- What `process_event` does after `reconnect()`.
abbrev pub reconnected : TcpStatus → Answers → Events → Tcp → Option Events × Tcp
reconnected connecting a ev t = get_event t
reconnected connected a ev t = after_switch a ev t
reconnected _ a ev t = (none, t)

-- The `switch`.
unfoldable pub process_status : TcpStatus → Answers → Events → Tcp → Option Events × Tcp
process_status initializing a ev t = after_switch a ev t
process_status connecting a ev t = let t = reconnect a.reconnects t in reconnected t.status a ev t
process_status connected a ev t = after_switch a ev t
process_status peer_shutdown_write a ev t =
    if ev.epollin then (none, close t) else after_switch a ev t
process_status shutdown_write a ev t =
    after_switch a ev
      (if ev.epollout then record t { status = set_writable false t.status [] } else t)
process_status closed a ev t = (none, close t)
process_status invalid a ev t = (none, t)

-- `process_event`: the events to ask for, or `none` where it returns `false`.
unfoldable pub process_event : Answers → Events → Tcp → Option Events × Tcp
process_event a ev t = process_status t.status a ev t
