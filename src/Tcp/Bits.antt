-- ===== src/Tcp/Bits.antt =====
-- `set_readable`, `set_writable` and `get_event` of `tcp` (io/tcp.cpp) by what they mean.
use npoller.Base.{
  ◌≡◌, refl, Bool, true, false, ◌||◌, ◌&&◌, if◌then◌else◌, ◌⊎◌, inl, inr, List, [], ◌∷◌, none, some,
}
use npoller.Tcp.{
  TcpStatus, initializing, connecting, connected, peer_shutdown_write, shutdown_write, closed,
  invalid, Tcp, readable, writable, is_open, set_readable, set_writable, next_readable,
  next_writable, exchange, event_of, get_event, close, after_event, is_initializing, is_connecting,
}

-- With no other thread at it, `set_readable(false)` makes any status unreadable and leaves writable what
-- was, and `set_readable(true)` makes an open one readable and changes no other.
readable_bit :
    (s : TcpStatus)
    → (readable (set_readable false s []) ≡ false)
      × (writable (set_readable false s []) ≡ writable s)
      × (readable (set_readable true s []) ≡ is_open s)
      × (is_open s ≡ false → set_readable true s [] ≡ s)
unfolding set_readable exchange next_readable readable writable is_open
readable_bit initializing = (refl, refl, refl, λ e. cc)
readable_bit connecting = (refl, refl, refl, λ e. cc)
readable_bit connected = (refl, refl, refl, λ e. cc)
readable_bit peer_shutdown_write = (refl, refl, refl, λ e. cc)
readable_bit shutdown_write = (refl, refl, refl, λ e. cc)
readable_bit closed = (refl, refl, refl, λ e. refl)
readable_bit invalid = (refl, refl, refl, λ e. refl)

-- With no other thread at it, `set_writable(false)` makes any status unwritable and leaves readable what
-- was, and `set_writable(true)` makes an open one writable and changes no other.
writable_bit :
    (s : TcpStatus)
    → (writable (set_writable false s []) ≡ false)
      × (readable (set_writable false s []) ≡ readable s)
      × (writable (set_writable true s []) ≡ is_open s)
      × (is_open s ≡ false → set_writable true s [] ≡ s)
unfolding set_writable exchange next_writable readable writable is_open
writable_bit initializing = (refl, refl, refl, λ e. cc)
writable_bit connecting = (refl, refl, refl, λ e. cc)
writable_bit connected = (refl, refl, refl, λ e. cc)
writable_bit peer_shutdown_write = (refl, refl, refl, λ e. cc)
writable_bit shutdown_write = (refl, refl, refl, λ e. cc)
writable_bit closed = (refl, refl, refl, λ e. refl)
writable_bit invalid = (refl, refl, refl, λ e. refl)

next_readable_of_connected : (s : TcpStatus) → next_readable true s connected ≡ connected
unfolding next_readable
next_readable_of_connected initializing = refl
next_readable_of_connected connecting = refl
next_readable_of_connected connected = refl
next_readable_of_connected peer_shutdown_write = refl
next_readable_of_connected shutdown_write = refl
next_readable_of_connected closed = refl
next_readable_of_connected invalid = refl

exchange_of_connected :
    (s : TcpStatus) (found : List TcpStatus)
    → exchange (next_readable true) s connected found ≡ connected
unfolding exchange
exchange_of_connected s [] = next_readable_of_connected s
exchange_of_connected s (t ∷ found) =
    rw (next_readable_of_connected s) (exchange_of_connected t found)

-- Once the loop of `set_readable(true)` has seen a status before the connection, it ends with `connected`,
-- whatever status other threads set meanwhile, `closed` and `invalid` too.
set_readable_overrides :
    (s : TcpStatus) (found : List TcpStatus)
    → (s ≡ initializing) ⊎ (s ≡ connecting)
    → set_readable true s found ≡ connected
unfolding set_readable exchange next_readable
set_readable_overrides s [] (inl e) = rw e
set_readable_overrides s [] (inr e) = rw e
set_readable_overrides s (t ∷ found) (inl e) = rw e (exchange_of_connected t found)
set_readable_overrides s (t ∷ found) (inr e) = rw e (exchange_of_connected t found)

-- A connection that is not there yet.
abbrev pub pending : TcpStatus → Bool
pending s = is_initializing s || is_connecting s

-- `get_event` gives nothing for a connection that is not open. For any other it asks for input if that
-- can be read or the connection is not there yet; for output if a write is waiting where both directions
-- are open, and elsewhere if output alone is open or the connection is not there yet; for the peer's
-- shutdown if input can be read; and never for edges. It changes neither the status nor the count of
-- closes.
pub get_event_lem :
    (t : Tcp)
    → ((get_event t).0 ≡ (
        if is_open t.status
        then some (record {
          epollin = readable t.status || pending t.status;
          epollout =
              if readable t.status && writable t.status
              then t.write_busy
              else writable t.status || pending t.status;
          epollrdhup = readable t.status;
          epollet = false;
        })
        else none))
      × ((get_event t).1.status ≡ t.status)
      × ((get_event t).1.closes ≡ t.closes)
unfolding get_event event_of is_open readable writable close
get_event_lem t = split t.status refl
  where
    split :
        (s : TcpStatus)
        → t.status ≡ s
        → (event_of s t.write_busy ≡ (
            if is_open s
            then some (record {
              epollin = readable s || pending s;
              epollout = if readable s && writable s then t.write_busy else writable s || pending s;
              epollrdhup = readable s;
              epollet = false;
            })
            else none))
          × ((after_event s t).status ≡ t.status)
          × ((after_event s t).closes ≡ t.closes)
    split initializing e = (refl, refl, refl)
    split connecting e = (refl, refl, refl)
    split connected e = (refl, refl, refl)
    split peer_shutdown_write e = (refl, refl, refl)
    split shutdown_write e = (refl, refl, refl)
    split closed e = (refl, rw e, rw e)
    split invalid e = (refl, refl, refl)
