-- ===== src/Tcp/Invariant.antt =====
-- What the operations of a `tcp` (io/tcp.cpp) keep of its callback and its descriptor.
use npoller.Base.{
  ℕ, zero, suc, ◌+◌, ◌≤◌, ◌≡◌, refl, ◌∙◌, Bool, true, false, Bool-cases, inl, inr, ◌&&◌, [], ◌∷◌,
  length, length-append, if◌then◌else◌, Option, arith,
}
use npoller.Tcp.{
  TcpStatus, initializing, connecting, connected, peer_shutdown_write, shutdown_write, closed,
  invalid, Tcp, is_open, set_readable, set_writable, next_readable, next_writable, exchange,
  handle_connect_result, connect_success, connect_fail, close, ConnectResult, success, in_progress,
  already, is_connected, interrupted, failed, connect_round, connect_loop, is_initializing,
  is_connecting, connect, ReconnectResult, reached, no_option, still_connecting, connected_before,
  unreachable, reconnect_with, reconnect, readable, writable, Events, get_event, after_event,
}
use npoller.Tcp.Process.{
  ReadEnd, read_plain, read_eof, read_bad, WriteEnd, write_plain, write_again, write_broken,
  write_bad, is_valid, mark_invalid, read_ends, io_direct_read, close_if_closed, direct_read,
  write_ends, io_direct_write, direct_write, Answers, end_of_event, after_switch, reconnected,
  process_status, process_event,
}
use npoller.Tcp.Bits.{pending}
use npoller.Tcp.Process

-- Whether the callback is still set, as a number.
abbrev pub left : Bool → ℕ
left true = 1
left false = 0

pub record Inv (t : Tcp) : Type 0 where
  pub once : length t.answers + left t.has_connected_handler ≤ 1
  pub waiting : pending t.status ≡ true → t.has_connected_handler ≡ true
  pub descriptor : t.closes + left (is_open t.status) ≤ 1
  pub valid : t.valid ≡ true

-- What a change of status by `set_readable` or `set_writable` keeps.
abbrev pub Keeps : TcpStatus → TcpStatus → Type 0
Keeps s s' = (pending s' ≡ true → pending s ≡ true) × (left (is_open s') ≤ left (is_open s))

pub Keeps-set_readable : (to : Bool) (s : TcpStatus) → Keeps s (set_readable to s [])
unfolding set_readable exchange next_readable is_open
Keeps-set_readable true initializing = (λ e. refl, omega arith)
Keeps-set_readable true connecting = (λ e. refl, omega arith)
Keeps-set_readable true connected = (λ e. cc, omega arith)
Keeps-set_readable true peer_shutdown_write = (λ e. cc, omega arith)
Keeps-set_readable true shutdown_write = (λ e. cc, omega arith)
Keeps-set_readable true closed = (λ e. cc, omega arith)
Keeps-set_readable true invalid = (λ e. cc, omega arith)
Keeps-set_readable false initializing = (λ e. refl, omega arith)
Keeps-set_readable false connecting = (λ e. refl, omega arith)
Keeps-set_readable false connected = (λ e. cc, omega arith)
Keeps-set_readable false peer_shutdown_write = (λ e. cc, omega arith)
Keeps-set_readable false shutdown_write = (λ e. cc, omega arith)
Keeps-set_readable false closed = (λ e. cc, omega arith)
Keeps-set_readable false invalid = (λ e. cc, omega arith)

pub Keeps-set_writable : (to : Bool) (s : TcpStatus) → Keeps s (set_writable to s [])
unfolding set_writable exchange next_writable is_open
Keeps-set_writable true initializing = (λ e. refl, omega arith)
Keeps-set_writable true connecting = (λ e. refl, omega arith)
Keeps-set_writable true connected = (λ e. cc, omega arith)
Keeps-set_writable true peer_shutdown_write = (λ e. cc, omega arith)
Keeps-set_writable true shutdown_write = (λ e. cc, omega arith)
Keeps-set_writable true closed = (λ e. cc, omega arith)
Keeps-set_writable true invalid = (λ e. cc, omega arith)
Keeps-set_writable false initializing = (λ e. refl, omega arith)
Keeps-set_writable false connecting = (λ e. refl, omega arith)
Keeps-set_writable false connected = (λ e. cc, omega arith)
Keeps-set_writable false peer_shutdown_write = (λ e. cc, omega arith)
Keeps-set_writable false shutdown_write = (λ e. cc, omega arith)
Keeps-set_writable false closed = (λ e. cc, omega arith)
Keeps-set_writable false invalid = (λ e. cc, omega arith)

pub Inv-status :
    (t : Tcp) (s : TcpStatus) → Keeps t.status s → Inv t → Inv (record t { status = s })
Inv-status t s (pends, opens) v = record {
  once = v.once;
  waiting = λ e. v.waiting (pends e);
  descriptor = omega (arith, v.descriptor);
  valid = v.valid;
}

-- The callback is called at most once more, and nothing else changes.
handled :
    (b : Bool) (t : Tcp)
    → (length (handle_connect_result b t).answers
          + left (handle_connect_result b t).has_connected_handler
        ≡ length t.answers + left t.has_connected_handler)
      × ((handle_connect_result b t).status ≡ t.status)
      × ((handle_connect_result b t).closes ≡ t.closes)
      × ((handle_connect_result b t).valid ≡ t.valid)
unfolding handle_connect_result
handled b t = elim (Bool-cases t.has_connected_handler) [
  | inl set ↦ rw set (omega (arith, length-append {0} t.answers (b ∷ [])), refl, refl, refl)
  | inr unset ↦ rw unset (refl, refl, refl, refl)
]

connect_success-Inv : (t : Tcp) → is_open t.status ≡ true → Inv t → Inv (connect_success t)
unfolding connect_success is_open
connect_success-Inv t opened v =
    let t' : Tcp = record t { status = connected; write_busy = false; support_epollrdhup = true } in
    let (count, status, closes, valid) = handled true t' in
    let few : t.closes + 1 ≤ 1 = rw opened at v.descriptor in
    record {
      once = omega (arith, count, v.once);
      waiting = rw status (λ e. cc);
      descriptor = rw (status, closes) few;
      valid = valid ∙ v.valid;
    }

pub close-Inv : (t : Tcp) → Inv t → Inv (close t)
unfolding close is_open
close-Inv t v = elim (Bool-cases (is_open t.status)) [
  | inl opened ↦
      let few : t.closes + 1 ≤ 1 = rw opened at v.descriptor in
      rw opened (record {
        once = v.once;
        waiting = λ e. cc;
        descriptor = omega (arith, few);
        valid = v.valid;
      })
  | inr shut ↦
      rw shut
        (record { once = v.once; waiting = v.waiting; descriptor = v.descriptor; valid = v.valid })
]

-- A failed attempt tells the callback and closes.
give_up-Inv : (t : Tcp) → is_open t.status ≡ true → Inv t → Inv (close (connect_fail t))
unfolding close connect_fail is_open
give_up-Inv t opened v =
    let (count, status, closes, valid) = handled false t in
    let few : t.closes + 1 ≤ 1 = rw opened at v.descriptor in
    rw (status, opened)
      (record {
        once = omega (arith, count, v.once);
        waiting = λ e. cc;
        descriptor = omega (arith, closes, few);
        valid = valid ∙ v.valid;
      })

open_of_pending : (s : TcpStatus) → pending s ≡ true → is_open s ≡ true
unfolding is_open
open_of_pending initializing e = refl
open_of_pending connecting e = refl
open_of_pending connected e = cc
open_of_pending peer_shutdown_write e = cc
open_of_pending shutdown_write e = cc
open_of_pending closed e = cc
open_of_pending invalid e = cc

connecting-Keeps : (s : TcpStatus) → pending s ≡ true → Keeps s connecting
unfolding is_open
connecting-Keeps s e = (λ _. e, rw (open_of_pending s e) (omega arith))

-- One attempt keeps the invariant, and a connection for which there will be another is still pending.
connect_round-Inv :
    (r : ConnectResult) (t : Tcp)
    → pending t.status ≡ true
    → Inv t
    → Inv (connect_round r t).1
      × ((connect_round r t).0 ≡ true → pending (connect_round r t).1.status ≡ true)
unfolding connect_round
connect_round-Inv success t p v = (connect_success-Inv t (open_of_pending t.status p) v, λ e. cc)
connect_round-Inv in_progress t p v =
    (Inv-status t connecting (connecting-Keeps t.status p) v, λ e. cc)
connect_round-Inv already t p v = (Inv-status t connecting (connecting-Keeps t.status p) v, λ e. cc)
connect_round-Inv is_connected t p v =
    (connect_success-Inv t (open_of_pending t.status p) v, λ e. cc)
connect_round-Inv interrupted t p v = (v, λ e. p)
connect_round-Inv failed t p v = (give_up-Inv t (open_of_pending t.status p) v, λ e. cc)

connect_loop-Inv :
    (retries : ℕ) (results : ℕ → ConnectResult) (t : Tcp)
    → pending t.status ≡ true
    → Inv t
    → Inv (connect_loop retries results t)
unfolding connect_loop
connect_loop-Inv zero results t p v = (connect_round-Inv (results 0) t p v).0
connect_loop-Inv (suc retries) results t p v =
    let (after, again) = connect_round-Inv (results 0) t p v in
    elim (Bool-cases (connect_round (results 0) t).0) [
      | inl more ↦ rw more (connect_loop-Inv retries (λ n. results (n + 1)) _ (again more) after)
      | inr done ↦ rw done after
    ]

pub connect-Inv : (results : ℕ → ConnectResult) (t : Tcp) → Inv t → Inv (connect results t)
unfolding connect
connect-Inv results t v = elim (Bool-cases (is_initializing t.status)) [
  | inl fresh ↦ rw fresh (connect_loop-Inv 3 results t (rw fresh refl) v)
  | inr other ↦ rw other v
]

reconnect_with-Inv :
    (r : ReconnectResult) (t : Tcp) → pending t.status ≡ true → Inv t → Inv (reconnect_with r t)
unfolding reconnect_with is_open
reconnect_with-Inv reached t p v = connect_success-Inv t (open_of_pending t.status p) v
reconnect_with-Inv no_option t p v = Inv-status t closed (λ e. cc, omega arith) v
reconnect_with-Inv still_connecting t p v = Inv-status t connecting (connecting-Keeps t.status p) v
reconnect_with-Inv connected_before t p v = connect_success-Inv t (open_of_pending t.status p) v
reconnect_with-Inv unreachable t p v = give_up-Inv t (open_of_pending t.status p) v

pub reconnect-Inv : (r : ReconnectResult) (t : Tcp) → Inv t → Inv (reconnect r t)
unfolding reconnect
reconnect-Inv r t v = elim (Bool-cases (is_connecting t.status)) [
  | inl trying ↦ rw trying (reconnect_with-Inv r t (ground (arith, trying)) v)
  | inr other ↦ rw other v
]

pub get_event-Inv : (t : Tcp) → Inv t → Inv (get_event t).1
unfolding get_event
get_event-Inv t v = split t.status
  where
    split : (s : TcpStatus) → Inv (after_event s t)
    split initializing = v
    split connecting = v
    split connected = v
    split peer_shutdown_write = record {
      once = v.once;
      waiting = v.waiting;
      descriptor = v.descriptor;
      valid = v.valid;
    }
    split shutdown_write = v
    split closed = close-Inv t v
    split invalid = v

-- The status and two flags.
flags-Inv :
    (t : Tcp) (s : TcpStatus) (busy rdhup : Bool)
    → Keeps t.status s
    → Inv t
    → Inv (record t { status = s; write_busy = busy; support_epollrdhup = rdhup })
flags-Inv t s busy rdhup (pends, opens) v = record {
  once = v.once;
  waiting = λ e. v.waiting (pends e);
  descriptor = omega (arith, v.descriptor);
  valid = v.valid;
}

if-Inv : (b : Bool) (t u : Tcp) → Inv t → Inv u → Inv (if b then t else u)
if-Inv true t u v w = v
if-Inv false t u v w = w

Keeps-refl : (s : TcpStatus) → Keeps s s
Keeps-refl s = (λ e. e, omega arith)

pub mark_invalid-Inv : (t : Tcp) → Inv t → Inv (mark_invalid t)
unfolding is_open
mark_invalid-Inv t v = Inv-status t invalid (λ e. cc, omega arith) v

unreadable-Inv : (t : Tcp) → Inv t → Inv (record t { status = set_readable false t.status [] })
unreadable-Inv t v = Inv-status t _ (Keeps-set_readable false t.status) v

unwritable-Inv : (t : Tcp) → Inv t → Inv (record t { status = set_writable false t.status [] })
unwritable-Inv t v = Inv-status t _ (Keeps-set_writable false t.status) v

read_ends-Inv : (r : ReadEnd) (t : Tcp) → Inv t → Inv (read_ends r t)
read_ends-Inv read_plain t v = v
read_ends-Inv read_eof t v = flags-Inv t _ t.write_busy false (Keeps-set_readable false t.status) v
read_ends-Inv read_bad t v = mark_invalid-Inv t v

close_if_closed-Inv : (s : TcpStatus) (t : Tcp) → Inv t → Inv (close_if_closed s t)
close_if_closed-Inv initializing t v = v
close_if_closed-Inv connecting t v = v
close_if_closed-Inv connected t v = v
close_if_closed-Inv peer_shutdown_write t v = v
close_if_closed-Inv shutdown_write t v = v
close_if_closed-Inv closed t v = close-Inv t v
close_if_closed-Inv invalid t v = v

pub direct_read-Inv : (r : ReadEnd) (t : Tcp) → Inv t → Inv (direct_read r t)
unfolding direct_read io_direct_read
direct_read-Inv r t v =
    close_if_closed-Inv _ _
      (if-Inv (is_valid t.status && readable t.status) _ t (read_ends-Inv r t v) v)

write_ends-Inv : (w : WriteEnd) (t : Tcp) → Inv t → Inv (write_ends w t)
write_ends-Inv write_plain t v = v
write_ends-Inv write_again t v =
    flags-Inv t t.status true t.support_epollrdhup (Keeps-refl t.status) v
write_ends-Inv write_broken t v = unwritable-Inv t v
write_ends-Inv write_bad t v = mark_invalid-Inv t v

connected-Keeps : (s : TcpStatus) → Process.is_connected s ≡ true → Keeps s shutdown_write
unfolding is_open
connected-Keeps connected e = (λ p. cc, omega arith)
connected-Keeps initializing e = cc
connected-Keeps connecting e = cc
connected-Keeps peer_shutdown_write e = cc
connected-Keeps shutdown_write e = cc
connected-Keeps closed e = cc
connected-Keeps invalid e = cc

half_close-Inv :
    (t : Tcp)
    → Inv t
    → Inv (
        if readable t.status && Process.is_connected t.status
        then record t { status = shutdown_write }
        else close t)
half_close-Inv t v = elim (Bool-cases (Process.is_connected t.status)) [
  | inl plain ↦ rw plain (
      if-Inv (readable t.status && true) _ _
        (Inv-status t shutdown_write (connected-Keeps t.status plain) v) (close-Inv t v))
  | inr other ↦
      let never : (readable t.status && false) ≡ false = ground arith in
      rw (other, never) (close-Inv t v)
]

pub direct_write-Inv : (w : WriteEnd) (t : Tcp) → Inv t → Inv (direct_write w t)
unfolding direct_write io_direct_write
direct_write-Inv w t v =
    let u = if-Inv (is_valid t.status && writable t.status) _ t (write_ends-Inv w t v) v in
    if-Inv _ _ _ (half_close-Inv _ u) u

end_of_event-Inv : (s : TcpStatus) (t : Tcp) → Inv t → Inv (end_of_event s t).1
end_of_event-Inv initializing t v = get_event-Inv t v
end_of_event-Inv connecting t v = get_event-Inv t v
end_of_event-Inv connected t v = get_event-Inv t v
end_of_event-Inv peer_shutdown_write t v = close-Inv t v
end_of_event-Inv shutdown_write t v = get_event-Inv t v
end_of_event-Inv closed t v = close-Inv t v
end_of_event-Inv invalid t v = get_event-Inv t v

after_switch-Inv : (a : Answers) (ev : Events) (t : Tcp) → Inv t → Inv (after_switch a ev t).1
unfolding after_switch
after_switch-Inv a ev t v =
    let v1 = if-Inv ev.epollin _ t (direct_read-Inv a.reads t v) v in
    let v2 = if-Inv ev.epollrdhup _ _ (unreadable-Inv _ v1) v1 in
    end_of_event-Inv _ _ (if-Inv _ _ _ (direct_write-Inv a.writes _ v2) v2)

reconnected-Inv :
    (s : TcpStatus) (a : Answers) (ev : Events) (t : Tcp) → Inv t → Inv (reconnected s a ev t).1
reconnected-Inv initializing a ev t v = v
reconnected-Inv connecting a ev t v = get_event-Inv t v
reconnected-Inv connected a ev t v = after_switch-Inv a ev t v
reconnected-Inv peer_shutdown_write a ev t v = v
reconnected-Inv shutdown_write a ev t v = v
reconnected-Inv closed a ev t v = v
reconnected-Inv invalid a ev t v = v

answered-Inv :
    (b : Bool) (x y : Option Events × Tcp) → Inv x.1 → Inv y.1 → Inv (if b then x else y).1
answered-Inv true x y v w = v
answered-Inv false x y v w = w

process_status-Inv :
    (s : TcpStatus) (a : Answers) (ev : Events) (t : Tcp) → Inv t → Inv (process_status s a ev t).1
unfolding process_status
process_status-Inv initializing a ev t v = after_switch-Inv a ev t v
process_status-Inv connecting a ev t v = reconnected-Inv _ a ev _ (reconnect-Inv a.reconnects t v)
process_status-Inv connected a ev t v = after_switch-Inv a ev t v
process_status-Inv peer_shutdown_write a ev t v =
    answered-Inv ev.epollin _ _ (close-Inv t v) (after_switch-Inv a ev t v)
process_status-Inv shutdown_write a ev t v =
    after_switch-Inv a ev _ (if-Inv ev.epollout _ t (unwritable-Inv t v) v)
process_status-Inv closed a ev t v = close-Inv t v
process_status-Inv invalid a ev t v = v

pub process_event-Inv : (a : Answers) (ev : Events) (t : Tcp) → Inv t → Inv (process_event a ev t).1
unfolding process_event
process_event-Inv a ev t v = process_status-Inv t.status a ev t v
