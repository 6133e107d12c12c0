-- ===== src/Tcp/Answer.antt =====
-- What `process_event` of `tcp` (io/tcp.cpp) answers.
use npoller.Base.{
  ◌≡◌, ◌⊎◌, ◌↔◌, inl, inr, refl, sym, ap, ◌∙◌, Bool, true, false, Bool-cases, if◌then◌else◌, Option,
  none, arith,
}
use npoller.Tcp.{
  TcpStatus, initializing, connecting, connected, peer_shutdown_write, shutdown_write, closed,
  invalid, Tcp, is_open, close, reconnect, reconnect_with, ReconnectResult, reached, no_option,
  still_connecting, connected_before, unreachable, connect_success, connect_fail,
  handle_connect_result, is_connecting, Events, event_of, get_event, after_event,
}
use npoller.Tcp.Process.{
  Answers, end_of_event, after_switch, reconnected, process_status, process_event,
}

-- An answer with events for an open connection, and none for another.
abbrev pub AnswersStatus : Option Events × Tcp → Type 0
AnswersStatus (asked, t) = asked ≡ event_of t.status t.write_busy

pub close-status : (t : Tcp) → is_open (close t).status ≡ false
unfolding close is_open
close-status t = elim (Bool-cases (is_open t.status)) [
  | inl opened ↦ rw opened refl
  | inr shut ↦ rw shut (shut)
]

event_of_shut : (s : TcpStatus) (busy : Bool) → is_open s ≡ false → event_of s busy ≡ none
unfolding event_of is_open
event_of_shut initializing busy e = cc
event_of_shut connecting busy e = cc
event_of_shut connected busy e = cc
event_of_shut peer_shutdown_write busy e = cc
event_of_shut shutdown_write busy e = cc
event_of_shut closed busy e = refl
event_of_shut invalid busy e = refl

close-Answers : (t : Tcp) → AnswersStatus (none, close t)
close-Answers t = sym (event_of_shut (close t).status (close t).write_busy (close-status t))

get_event-Answers : (t : Tcp) → AnswersStatus (get_event t)
unfolding get_event
get_event-Answers t = split t.status refl
  where
    split :
        (s : TcpStatus)
        → t.status ≡ s
        → event_of s t.write_busy ≡ event_of (after_event s t).status (after_event s t).write_busy
    split initializing e = rw e refl
    split connecting e = rw e refl
    split connected e = rw e refl
    split peer_shutdown_write e = rw e refl
    split shutdown_write e = rw e refl
    split closed e = event_of_shut closed t.write_busy (unfold is_open in refl) ∙ close-Answers t
    split invalid e = rw e refl

end_of_event-Answers : (s : TcpStatus) (t : Tcp) → AnswersStatus (end_of_event s t)
end_of_event-Answers initializing t = get_event-Answers t
end_of_event-Answers connecting t = get_event-Answers t
end_of_event-Answers connected t = get_event-Answers t
end_of_event-Answers peer_shutdown_write t = close-Answers t
end_of_event-Answers shutdown_write t = get_event-Answers t
end_of_event-Answers closed t = close-Answers t
end_of_event-Answers invalid t = get_event-Answers t

after_switch-Answers : (a : Answers) (ev : Events) (t : Tcp) → AnswersStatus (after_switch a ev t)
unfolding after_switch
after_switch-Answers a ev t = end_of_event-Answers _ _

-- Where `reconnect` can lead.
abbrev Reconnected : TcpStatus → Type 0
Reconnected s = (s ≡ connecting) ⊎ ((s ≡ connected) ⊎ (s ≡ closed))

handled-status : (b : Bool) (t : Tcp) → (handle_connect_result b t).status ≡ t.status
unfolding handle_connect_result
handled-status b t = ground arith

close_of_open : (t : Tcp) → is_open t.status ≡ true → (close t).status ≡ closed
unfolding close
close_of_open t e = rw e refl

reconnect_with-Reconnected :
    (r : ReconnectResult) (t : Tcp)
    → t.status ≡ connecting
    → Reconnected (reconnect_with r t).status
unfolding reconnect_with connect_success connect_fail is_open
reconnect_with-Reconnected reached t e = inr (inl (handled-status true _))
reconnect_with-Reconnected no_option t e = inr (inr refl)
reconnect_with-Reconnected still_connecting t e = inl refl
reconnect_with-Reconnected connected_before t e = inr (inl (handled-status true _))
reconnect_with-Reconnected unreachable t e =
    inr (
      inr (close_of_open (handle_connect_result false t) (ap is_open (handled-status false t ∙ e))))

reconnect-Reconnected :
    (r : ReconnectResult) (t : Tcp) → t.status ≡ connecting → Reconnected (reconnect r t).status
unfolding reconnect
reconnect-Reconnected r t e =
    let trying : is_connecting t.status ≡ true = ap is_connecting e in
    rw trying (reconnect_with-Reconnected r t e)

reconnected-Answers :
    (s : TcpStatus) (a : Answers) (ev : Events) (t : Tcp)
    → t.status ≡ s
    → Reconnected s
    → AnswersStatus (reconnected s a ev t)
reconnected-Answers connecting a ev t e r = get_event-Answers t
reconnected-Answers connected a ev t e r = after_switch-Answers a ev t
reconnected-Answers closed a ev t e r = rw e (unfold event_of in refl)
reconnected-Answers initializing a ev t e r = ground (arith, r)
reconnected-Answers peer_shutdown_write a ev t e r = ground (arith, r)
reconnected-Answers shutdown_write a ev t e r = ground (arith, r)
reconnected-Answers invalid a ev t e r = ground (arith, r)

either-Answers :
    (b : Bool) (x y : Option Events × Tcp)
    → AnswersStatus x
    → AnswersStatus y
    → AnswersStatus (if b then x else y)
either-Answers true x y h k = h
either-Answers false x y h k = k

shut_of_none : (s : TcpStatus) (busy : Bool) → event_of s busy ≡ none → is_open s ≡ false
unfolding event_of is_open
shut_of_none initializing busy e = cc
shut_of_none connecting busy e = cc
shut_of_none connected busy e = cc
shut_of_none peer_shutdown_write busy e = cc
shut_of_none shutdown_write busy e = cc
shut_of_none closed busy e = refl
shut_of_none invalid busy e = refl

process_status-Answers :
    (s : TcpStatus) (a : Answers) (ev : Events) (t : Tcp)
    → t.status ≡ s
    → AnswersStatus (process_status s a ev t)
unfolding process_status
process_status-Answers initializing a ev t e = after_switch-Answers a ev t
process_status-Answers connecting a ev t e =
    reconnected-Answers (reconnect a.reconnects t).status a ev (reconnect a.reconnects t) refl
      (reconnect-Reconnected a.reconnects t e)
process_status-Answers connected a ev t e = after_switch-Answers a ev t
process_status-Answers peer_shutdown_write a ev t e =
    either-Answers ev.epollin (none, close t) (after_switch a ev t) (close-Answers t)
      (after_switch-Answers a ev t)
process_status-Answers shutdown_write a ev t e = after_switch-Answers a ev _
process_status-Answers closed a ev t e = close-Answers t
process_status-Answers invalid a ev t e = rw e (unfold event_of in refl)

-- Whatever the system calls of `process_event` come to, it asks for the events that belong to the status and
-- the waiting write that it leaves, and for none, by answering `false`, exactly if the connection is then not
-- open.
pub process_event_lem :
    (a : Answers) (ev : Events) (t : Tcp)
    → let (asked, after) = process_event a ev t in
      (asked ≡ event_of after.status after.write_busy)
      × ((asked ≡ none) ↔ (is_open after.status ≡ false))
unfolding process_event
process_event_lem a ev t =
    let right = process_status-Answers t.status a ev t refl in
    let after = (process_status t.status a ev t).1 in
    (
      right,
      (
        λ e. shut_of_none after.status after.write_busy (sym right ∙ e),
        λ e. right ∙ event_of_shut after.status after.write_busy e,
      ),
    )
