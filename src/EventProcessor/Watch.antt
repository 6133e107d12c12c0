-- ===== src/EventProcessor/Watch.antt =====
-- What an `event_processor` watches: `add_io`, `remove_io` and `add_write_instant_task`
-- (io/event_processor.cpp). The socket is an interface here, which Tcp/Ops fills with `tcp`;
-- `tbb::concurrent_hash_map` is a list of pairs, and what `epoll_ctl` comes to is an argument.
use npoller.Base.{
  ℕ, zero, suc, ◌+◌, ◌≡◌, ◌==◌, Bool, true, false, not, ◌||◌, if◌then◌else◌, List, [], ◌∷◌, ◌++◌,
  Option, none, some, Outcome, ok, err, runtime_error, out_of_fuel,
}

-- What the event loop asks of a socket: an `io` or one of its subclasses.
pub record IoOps : Type 1 where
  pub Io : Type 0
  pub Event : Type 0
  pub fd : Io → ℕ
  pub valid_safe : Io → Bool
  pub readable : Io → Bool
  pub writable : Io → Bool
  pub write_busy : Io → Bool
  pub support_epollrdhup : Io → Bool
  -- `support_epollrdhup = false;`
  pub drop_epollrdhup : Io → Io
  pub get_event : Io → Option Event × Io
  pub mark_invalid : Io → Io
  -- whether its `manager` is this processor, which `remove_io` does not change
  pub managed_here : Io → Bool
  -- `manager` becomes this processor
  pub update_manager : Io → Io
  pub process_event : Event → Io → Option Event × Io
  pub write_flush : Io → Io
  pub direct_write : Io → Io
  pub process_write : Io → Io
  pub fd-drop : (i : Io) → fd (drop_epollrdhup i) ≡ fd i
  pub fd-update : (i : Io) → fd (update_manager i) ≡ fd i
  pub fd-get_event : (i : Io) → fd (get_event i).1 ≡ fd i
  pub dropped : (i : Io) → support_epollrdhup (drop_epollrdhup i) ≡ false
  pub get_event-dropped :
      (i : Io) → support_epollrdhup i ≡ false → support_epollrdhup (get_event i).1 ≡ false

-- `status_code`
pub data Status : Type 0 where
  initializing initialized invalid working ready_waiting waiting ready_close stop_work closed :
      Status

abbrev pub takes_io : Status → Bool
takes_io working = true
takes_io ready_waiting = true
takes_io _ = false

-- What `epoll_ctl` comes to.
pub data CtlResult : Type 0 where
  added ebadf einval eexist eperm other_error : CtlResult

abbrev pub find {ℓ} : {A : Type ℓ} → ℕ → List (ℕ × A) → Option A
find fd [] = none
find fd ((k, v) ∷ rest) = if k == fd then some v else find fd rest

abbrev pub erase {ℓ} : {A : Type ℓ} → ℕ → List (ℕ × A) → List (ℕ × A)
erase fd [] = []
erase fd ((k, v) ∷ rest) = if k == fd then rest else (k, v) ∷ erase fd rest

abbrev pub is_some {ℓ} : {A : Type ℓ} → Option A → Bool
is_some none = false
is_some (some a) = true

-- `epoll_ctl` with `EPOLL_CTL_DEL`, where it succeeds.
abbrev pub unwatch : ℕ → List ℕ → List ℕ
unwatch fd [] = []
unwatch fd (k ∷ rest) = if k == fd then rest else k ∷ unwatch fd rest

module _ (ops : IoOps) where
  -- `epoll` is what the kernel watches for this processor.
  pub record Processor : Type 0 where
    pub status : Status
    pub epfd : ℕ
    pub io_map : List (ℕ × ops.Io)
    pub ready_to_write : List ops.Io
    pub epoll : List ℕ

  -- Where one round of `add_io` from `retry:` on ends: a result, or another round.
  pub data Round : Type 0 where
    returns : Bool → ops.Io → Processor → Round
    throws : Round
    retry : ops.Io → Round

  -- `remove_io(int)`; `removed` is whether `epoll_ctl` succeeds.
  unfoldable pub remove_io : Bool → ℕ → Processor → Bool × Processor
  remove_io removed fd s =
      if not (is_some (find fd s.io_map))
      then (false, s)
      else if removed
      then (true, record s { io_map = erase fd s.io_map; epoll = unwatch fd s.epoll })
      else (false, record s { io_map = erase fd s.io_map })

  abbrev pub insert : ops.Io → Processor → Processor
  insert i s = record s { io_map = (ops.fd i, i) ∷ s.io_map; epoll = ops.fd i ∷ s.epoll }

  -- `update_manager(this)` on a socket that has just been added: if its manager is this processor already,
  -- it is removed again. A removal from another processor has no part here.
  unfoldable pub manage : ops.Io → Processor → Processor
  manage i s = if ops.managed_here i then (remove_io true (ops.fd i) s).1 else s

  unfoldable pub after_ctl : CtlResult → ops.Io → Processor → Round
  after_ctl added i s =
      returns true (ops.update_manager i) (manage i (insert (ops.update_manager i) s))
  after_ctl ebadf i s = returns false (ops.mark_invalid i) s
  after_ctl einval i s =
      if ops.support_epollrdhup i then retry (ops.drop_epollrdhup i) else returns false i s
  after_ctl eexist i s = throws
  after_ctl eperm i s = returns true i s
  after_ctl other_error i s = returns false i s

  unfoldable pub add_round : CtlResult → ops.Io → Processor → Round
  add_round result i s =
      if is_some (ops.get_event i).0
      then after_ctl result (ops.get_event i).1 s
      else returns false (ops.get_event i).1 s

  abbrev pub go_on :
      (ops.Io → Outcome (Bool × ops.Io × Processor)) → Round → Outcome (Bool × ops.Io × Processor)
  go_on again (returns b i s) = ok (b, i, s)
  go_on again throws = err runtime_error
  go_on again (retry i) = again i

  -- The rounds; `results` are what the calls of `epoll_ctl` come to, from the first on.
  unfoldable pub add_rounds :
      ℕ → (ℕ → CtlResult) → ops.Io → Processor → Outcome (Bool × ops.Io × Processor)
  add_rounds zero results i s = err out_of_fuel
  add_rounds (suc fuel) results i s =
      go_on (λ j. add_rounds fuel (λ n. results (n + 1)) j s) (add_round (results 0) i s)

  -- A null pointer is left out: the code reads `_io->id()` of it for its log. The `throw()` of the
  -- declaration, by which an exception that leaves it ends the program, is the caller's here.
  unfoldable pub add_io : (ℕ → CtlResult) → ops.Io → Processor → Outcome (Bool × ops.Io × Processor)
  add_io results i s =
      if not (takes_io s.status) || (not (ops.valid_safe i) || (ops.fd i == s.epfd))
      then ok (false, i, s)
      else if is_some (find (ops.fd i) s.io_map)
      then err runtime_error
      else add_rounds 2 results i s

  abbrev pub to_write : Option ops.Io → Processor → Bool × Processor
  to_write none s = (false, s)
  to_write (some i) s = (true, record s { ready_to_write = s.ready_to_write ++ (i ∷ []) })

  -- `add_write_instant_task(int)`, without its call of `notify_event`, which Shutdown models.
  unfoldable pub add_write_instant_task : ℕ → Processor → Bool × Processor
  add_write_instant_task fd s = to_write (find fd s.io_map) s
