-- ===== src/Tcp/HalfClosed.antt =====
-- What `process_event` of `tcp` (io/tcp.cpp) does to half-closed connections.
use npoller.Base.{
  ◌≡◌, ◌⊎◌, inl, inr, refl, ap, ◌∙◌, Bool, true, false, not, if◌then◌else◌, [], Option, none, arith,
}
use npoller.Tcp.{
  TcpStatus, initializing, connecting, connected, peer_shutdown_write, shutdown_write, closed,
  invalid, Tcp, readable, writable, is_open, close, Events, get_event, set_readable, set_writable,
  exchange, next_readable, next_writable,
}
use npoller.Tcp.Process.{
  Answers, is_valid, ReadEnd, WriteEnd, read_plain, read_eof, read_bad, write_plain, write_again,
  write_broken, write_bad, io_direct_write, direct_write, end_of_event, after_switch,
  process_status, process_event, io_direct_read, direct_read,
}
use npoller.Tcp.Answer.{close-status}

-- A status that ends an event with the connection not open.
abbrev Ends : TcpStatus → Type 0
Ends s = (s ≡ peer_shutdown_write) ⊎ ((s ≡ closed) ⊎ (s ≡ invalid))

end_of_event-shut :
    (s : TcpStatus) (t : Tcp) → t.status ≡ s → Ends s → is_open (end_of_event s t).1.status ≡ false
unfolding get_event is_open
end_of_event-shut peer_shutdown_write t e h = close-status t
end_of_event-shut closed t e h = close-status t
end_of_event-shut invalid t e h = rw e refl
end_of_event-shut initializing t e h = ground (arith, h)
end_of_event-shut connecting t e h = ground (arith, h)
end_of_event-shut connected t e h = ground (arith, h)
end_of_event-shut shutdown_write t e h = ground (arith, h)

-- `direct_write` on a connection whose reading side is closed.
direct_write-Ends :
    (w : WriteEnd) (t : Tcp) → t.status ≡ peer_shutdown_write → Ends (direct_write w t).status
unfolding direct_write io_direct_write is_valid writable readable set_writable exchange
    next_writable close is_open
direct_write-Ends write_plain t e = ground arith
direct_write-Ends write_again t e = ground arith
direct_write-Ends write_broken t e = ground arith
direct_write-Ends write_bad t e = ground arith

-- `direct_write` on a connection whose writing side is closed.
direct_write-closes :
    (w : WriteEnd) (t : Tcp) → t.status ≡ shutdown_write → (direct_write w t).status ≡ closed
unfolding direct_write io_direct_write is_valid writable readable close is_open
direct_write-closes w t e = ground arith

-- A status in which nothing more can be written.
abbrev Unwritable : TcpStatus → Type 0
Unwritable s = (s ≡ shutdown_write) ⊎ ((s ≡ closed) ⊎ (s ≡ invalid))

direct_read-Unwritable :
    (r : ReadEnd) (t : Tcp)
    → Unwritable t.status
    → Unwritable (direct_read r t).status × ((direct_read r t).write_busy ≡ t.write_busy)
unfolding direct_read io_direct_read is_valid readable set_readable exchange next_readable close
    is_open
direct_read-Unwritable read_plain t h = ground (arith, h)
direct_read-Unwritable read_eof t h = ground (arith, h)
direct_read-Unwritable read_bad t h = ground (arith, h)

set_readable-Unwritable : (s : TcpStatus) → Unwritable s → Unwritable (set_readable false s [])
unfolding set_readable exchange next_readable
set_readable-Unwritable s h = ground (arith, h)

direct_write-Unwritable :
    (w : WriteEnd) (t : Tcp) → Unwritable t.status → Ends (direct_write w t).status
unfolding direct_write io_direct_write is_valid writable readable close is_open
direct_write-Unwritable w t h = ground (arith, h)

-- The three choices of `after_switch`.
unreadable :
    (P : TcpStatus → Type 0) (b : Bool) (t : Tcp)
    → P t.status
    → P (set_readable false t.status [])
    → P (if b then record t { status = set_readable false t.status [] } else t).status
unreadable P true t h k = k
unreadable P false t h k = h

end-shut :
    (idle : Bool) (w : WriteEnd) (t : Tcp)
    → (not idle ≡ true → Ends t.status)
    → Ends (direct_write w t).status
    → let v = if idle then direct_write w t else t in
      is_open (end_of_event v.status v).1.status ≡ false
end-shut true w t h k = end_of_event-shut (direct_write w t).status (direct_write w t) refl k
end-shut false w t h k = end_of_event-shut t.status t refl (h refl)

read_if :
    (b : Bool) (r : ReadEnd) (t : Tcp)
    → Unwritable t.status
    → Unwritable (if b then direct_read r t else t).status
      × ((if b then direct_read r t else t).write_busy ≡ t.write_busy)
read_if true r t h = direct_read-Unwritable r t h
read_if false r t h = (h, refl)

busy_kept :
    (b : Bool) (t : Tcp)
    → (if b then record t { status = set_readable false t.status [] } else t).write_busy
      ≡ t.write_busy
busy_kept true t = refl
busy_kept false t = refl

psw_unreadable :
    (s : TcpStatus) → s ≡ peer_shutdown_write → set_readable false s [] ≡ peer_shutdown_write
unfolding set_readable exchange next_readable
psw_unreadable s e = rw e refl

unread : (b : Bool) (r : ReadEnd) (t : Tcp) → b ≡ false → (if b then direct_read r t else t) ≡ t
unread true r t e = cc
unread false r t e = refl

after_switch-psw :
    (a : Answers) (ev : Events) (t : Tcp)
    → ev.epollin ≡ false
    → t.status ≡ peer_shutdown_write
    → is_open (after_switch a ev t).1.status ≡ false
unfolding after_switch
after_switch-psw a ev t quiet e =
    let t1 = if ev.epollin then direct_read a.reads t else t in
    let t2 = if ev.epollrdhup then record t1 { status = set_readable false t1.status [] } else t1 in
    let s1 : t1.status ≡ peer_shutdown_write =
      ap Tcp.status (unread ev.epollin a.reads t quiet) ∙ e in
    let s2 : t2.status ≡ peer_shutdown_write =
      unreadable (λ s. s ≡ peer_shutdown_write) ev.epollrdhup t1 s1 (psw_unreadable t1.status s1) in
    end-shut (not t2.write_busy) a.writes t2 (λ _. inl s2) (direct_write-Ends a.writes t2 s2)

after_switch-Unwritable :
    (a : Answers) (ev : Events) (t : Tcp)
    → t.write_busy ≡ false
    → Unwritable t.status
    → is_open (after_switch a ev t).1.status ≡ false
unfolding after_switch
after_switch-Unwritable a ev t idle h =
    let t1 = if ev.epollin then direct_read a.reads t else t in
    let t2 = if ev.epollrdhup then record t1 { status = set_readable false t1.status [] } else t1 in
    let (u1, b1) = read_if ev.epollin a.reads t h in
    let u2 : Unwritable t2.status =
      unreadable Unwritable ev.epollrdhup t1 u1 (set_readable-Unwritable t1.status u1) in
    let b2 : t2.write_busy ≡ false = busy_kept ev.epollrdhup t1 ∙ b1 ∙ idle in
    end-shut (not t2.write_busy) a.writes t2 (λ busy. let no_way = b2 in ground arith)
      (direct_write-Unwritable a.writes t2 u2)

either-shut :
    (b : Bool) (x y : Option Events × Tcp)
    → is_open x.1.status ≡ false
    → (b ≡ false → is_open y.1.status ≡ false)
    → is_open (if b then x else y).1.status ≡ false
either-shut true x y h k = h
either-shut false x y h k = k refl

unwritten :
    (b : Bool) (t : Tcp)
    → t.status ≡ shutdown_write
    → t.write_busy ≡ false
    → let v = if b then record t { status = set_writable false t.status [] } else t in
      (v.write_busy ≡ false) × Unwritable v.status
unfolding set_writable exchange next_writable
unwritten true t e idle = (idle, rw e (inl refl))
unwritten false t e idle = (idle, inl e)

-- No event leaves a half-closed connection open: neither one whose peer has shut down its writing side, nor
-- one whose own writing side is shut down while no write is waiting, whatever can still be read or written.
pub half_closed_ends :
    (a : Answers) (ev : Events) (t : Tcp)
    → (t.status ≡ peer_shutdown_write) ⊎ ((t.status ≡ shutdown_write) × (t.write_busy ≡ false))
    → is_open (process_event a ev t).1.status ≡ false
unfolding process_event process_status
half_closed_ends a ev t h = split t.status refl h
  where
    split :
        (s : TcpStatus)
        → t.status ≡ s
        → (s ≡ peer_shutdown_write) ⊎ ((s ≡ shutdown_write) × (t.write_busy ≡ false))
        → is_open (process_status s a ev t).1.status ≡ false
    split peer_shutdown_write e h =
        either-shut ev.epollin (none, close t) (after_switch a ev t) (close-status t)
          (λ q. after_switch-psw a ev t q e)
    split shutdown_write e (inl wrong) = cc
    split shutdown_write e (inr (_, idle)) =
        let (b, u) = unwritten ev.epollout t e idle in after_switch-Unwritable a ev _ b u
    split initializing e h = ground (arith, h)
    split connecting e h = ground (arith, h)
    split connected e h = ground (arith, h)
    split closed e h = ground (arith, h)
    split invalid e h = ground (arith, h)
