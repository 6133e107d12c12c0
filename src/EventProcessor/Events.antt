-- ===== src/EventProcessor/Events.antt =====
-- What the event loop does with one socket (`process` and `process_instant_write` in
-- io/event_processor.cpp, `compare_status` in io/io.h): the object behind the pointer before and after,
-- and the call of `epoll_ctl` with `EPOLL_CTL_MOD`.
use npoller.Base.{
  ◌≡◌, ◌≢◌, ◌⊎◌, refl, Bool, true, false, not, ◌||◌, if◌then◌else◌, inl, inr, Option, none, arith,
}
use npoller.EventProcessor.Watch.{IoOps}

-- `!=` on two truth values.
abbrev pub differ : Bool → Bool → Bool
differ true b = not b
differ false b = b

module _ (ops : IoOps) where
  -- `compare_status`, whose third comparison is of the argument with itself.
  unfoldable pub compare_status : Bool → Bool → Bool → Bool → ops.Io → Bool
  compare_status was_readable was_writable was_support was_busy i =
      differ was_readable (ops.readable i)
      || (differ was_writable (ops.writable i)
          || (differ was_support was_support || differ was_busy (ops.write_busy i)))

  -- The call of `epoll_ctl`, with the events that were asked for.
  unfoldable pub modify : ops.Io → Option ops.Event × ops.Io → Option ops.Event × ops.Io
  modify before (asked, after) = (
    if compare_status (ops.readable before) (ops.writable before) (ops.support_epollrdhup before)
          (ops.write_busy before) after
        then asked
        else none,
    after,
  )

  -- One round of `process_instant_write`.
  unfoldable pub instant_write : ops.Io → Option ops.Event × ops.Io
  instant_write i =
      modify i (ops.get_event (ops.process_write (ops.direct_write (ops.write_flush i))))

  -- One event of `process` that is not the pipe's and whose descriptor is in the map.
  unfoldable pub handle_event : ops.Event → ops.Io → Option ops.Event × ops.Io
  handle_event e i = modify i (ops.process_event e i)

  differ_self : (b : Bool) → differ b b ≡ false
  differ_self true = refl
  differ_self false = refl

  differ_of : (a b : Bool) → b ≢ a → differ a b ≡ true
  differ_of true true h = absurd (h refl)
  differ_of true false h = refl
  differ_of false true h = refl
  differ_of false false h = absurd (h refl)

  compare-changed :
      (i j : ops.Io)
      → (ops.readable j ≢ ops.readable i)
        ⊎ ((ops.writable j ≢ ops.writable i) ⊎ (ops.write_busy j ≢ ops.write_busy i))
      → compare_status
          (ops.readable i)
          (ops.writable i)
          (ops.support_epollrdhup i)
          (ops.write_busy i)
          j
        ≡ true
  unfolding compare_status
  compare-changed i j (inl h) = rw (differ_of (ops.readable i) (ops.readable j) h) refl
  compare-changed i j (inr (inl h)) =
      let w = differ_of (ops.writable i) (ops.writable j) h in ground arith
  compare-changed i j (inr (inr h)) =
      let b = differ_of (ops.write_busy i) (ops.write_busy j) h in ground arith

  compare-same :
      (i j : ops.Io)
      → (ops.readable j ≡ ops.readable i)
        × (ops.writable j ≡ ops.writable i)
        × (ops.write_busy j ≡ ops.write_busy i)
      → compare_status
          (ops.readable i)
          (ops.writable i)
          (ops.support_epollrdhup i)
          (ops.write_busy i)
          j
        ≡ false
  unfolding compare_status
  compare-same i j (r, w, b) =
      rw
        (
          r,
          w,
          b,
          differ_self (ops.readable i),
          differ_self (ops.writable i),
          differ_self (ops.support_epollrdhup i),
          differ_self (ops.write_busy i),
        )
        refl

  -- After an event the loop gives `epoll` the events that the socket now asks for if its reading side, its
  -- writing side or its waiting write has changed. If none of them has, it gives it nothing, even where
  -- `support_epollrdhup` has changed and other events are asked for.
  pub handle_event_lem :
      (e : ops.Event) (i : ops.Io)
      → let j = (ops.process_event e i).1 in
        ((handle_event e i).1 ≡ j)
        × (((ops.readable j ≢ ops.readable i)
              ⊎ ((ops.writable j ≢ ops.writable i) ⊎ (ops.write_busy j ≢ ops.write_busy i)))
            → (handle_event e i).0 ≡ (ops.process_event e i).0)
        × ((ops.readable j ≡ ops.readable i)
              × (ops.writable j ≡ ops.writable i)
              × (ops.write_busy j ≡ ops.write_busy i)
            → (handle_event e i).0 ≡ none)
  unfolding handle_event modify
  handle_event_lem e i =
      let j = (ops.process_event e i).1 in
      (
        refl,
        λ changed. rw (compare-changed i j changed) refl,
        λ same. rw (compare-same i j same) refl,
      )
