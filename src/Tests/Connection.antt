-- ===== src/Tests/Connection.antt =====
-- `tcp` at concrete inputs.
use npoller.Base.{ℕ, zero, suc, ◌≤◌, ◌≡◌, refl, true, false, List, [], ◌∷◌, some, length}
use npoller.Tcp.{
  Tcp, initializing, connected, readable, writable, is_open, ConnectResult, in_progress,
  interrupted, reached, connect, connect_loop, connect_round, connect_success,
  handle_connect_result, reconnect, reconnect_with, get_event, close, destroy,
}
use npoller.Tcp.Bits.{pending, get_event_lem}
use npoller.Tcp.Lifecycle.{
  Call, call_connect, call_reconnect, call_close, call_get_event, run, step, IsNew,
  answered_and_closed_once, destroy_closes_again,
}

abbrev fresh : Tcp
fresh = record {
  status = initializing;
  write_busy = false;
  support_epollrdhup = true;
  has_connected_handler = true;
  answers = [];
  has_manager = true;
  valid = true;
  closes = 0;
}

fresh-IsNew : IsNew fresh
fresh-IsNew = record {
  status = refl;
  unanswered = refl;
  handler = refl;
  unclosed = refl;
  valid = refl;
}

-- Interrupted once, then under way, then reached.
abbrev answers : ℕ → ConnectResult
answers zero = interrupted
answers (suc n) = in_progress

abbrev opening : List Call
opening = call_connect answers ∷ call_get_event ∷ call_reconnect reached ∷ []

get_event_lem_example :
    ((get_event fresh).0
      ≡ some (record { epollin = true; epollout = true; epollrdhup = false; epollet = false }))
    × ((get_event fresh).1.status ≡ fresh.status)
    × ((get_event fresh).1.closes ≡ fresh.closes)
unfolding is_open readable writable
get_event_lem_example = get_event_lem fresh

abbrev calls : List Call
calls = call_connect answers ∷ call_reconnect reached ∷ call_close ∷ call_close ∷ []

answered_and_closed_once_example :
    (length (run calls fresh).answers ≤ 1)
    × (pending (run calls fresh).status ≡ true → length (run calls fresh).answers ≡ 0)
    × ((run calls fresh).closes ≤ 1)
    × (is_open (run calls fresh).status ≡ true → (run calls fresh).closes ≡ 0)
    × (is_open (run calls fresh).status ≡ true → (close (run calls fresh)).closes ≡ 1)
answered_and_closed_once_example = answered_and_closed_once calls fresh fresh-IsNew

opening-opens : (run opening fresh).status ≡ connected
unfolding run step connect connect_loop connect_round connect_success handle_connect_result
    reconnect reconnect_with get_event
opening-opens = refl

destroy_closes_again_example : (destroy (close (run opening fresh))).closes ≡ 2
destroy_closes_again_example =
    destroy_closes_again opening fresh fresh-IsNew (rw opening-opens (unfold is_open in refl))
