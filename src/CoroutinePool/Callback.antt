-- ===== src/CoroutinePool/Callback.antt =====
-- `execute_callback` (coroutine_pool/coroutine_pool.h) between two threads, one access at a time: the worker
-- that runs the task calls `operator()` once, and the awaiting coroutine calls `set_callback` once, in
-- `await_suspend`. `try_lock` may fail even where the mutex is free, as its documentation allows.
use npoller.Base.{ℕ, ◌+◌, ◌≡◌, ltb, refl, Bool, true, false, not, ◌&&◌, if◌then◌else◌, arith}

-- Where `operator()` stands.
pub data RunPlace : Type 0 where
  -- before the lock
  run_before : RunPlace
  -- before the store of `has_ran`
  run_locked : RunPlace
  -- before the test of `callback`
  run_marked : RunPlace
  -- before the unlock
  run_called : RunPlace
  run_ended : RunPlace

-- Where `set_callback` stands, with `retry_times` in its loop.
pub data SetPlace : Type 0 where
  -- before the first look at `has_ran`
  set_before : SetPlace
  -- before `mutex.try_lock()`
  set_trying : ℕ → SetPlace
  -- `try_lock` has failed; before the look at `has_ran`
  set_refused : ℕ → SetPlace
  -- `try_lock` has succeeded; before the second look
  set_locked : SetPlace
  -- before the unlock, and what is then returned
  set_leaving : Bool → SetPlace
  set_ended : Bool → SetPlace

pub data Owner : Type 0 where
  nobody runner setter : Owner

-- `calls` counts how often the callback was called.
pub record Callback : Type 0 where
  pub mutex : Owner
  pub callback : Bool
  pub has_ran : Bool
  pub run_place : RunPlace
  pub set_place : SetPlace
  pub calls : ℕ

-- After a failed attempt: `while (retry_times++ < 3)`.
abbrev pub again : ℕ → SetPlace
again k = if ltb k 3 then set_trying (k + 1) else set_ended false

pub data Step (s : Callback) : Callback → Type 0 where
  lock :
      s.run_place ≡ run_before
      → s.mutex ≡ nobody
      → Step s (record s { mutex = runner; run_place = run_locked })
  mark : s.run_place ≡ run_locked → Step s (record s { has_ran = true; run_place = run_marked })
  call :
      s.run_place ≡ run_marked
      → Step s
          (record s { calls = if s.callback then s.calls + 1 else s.calls; run_place = run_called })
  unlock : s.run_place ≡ run_called → Step s (record s { mutex = nobody; run_place = run_ended })
  look :
      s.set_place ≡ set_before
      → Step s (record s { set_place = if s.has_ran then set_ended false else set_trying 0 })
  try_lock :
      (k : ℕ)
      → s.set_place ≡ set_trying k
      → s.mutex ≡ nobody
      → Step s (record s { mutex = setter; set_place = set_locked })
  fail_lock : (k : ℕ) → s.set_place ≡ set_trying k → Step s (record s { set_place = set_refused k })
  look_again :
      (k : ℕ)
      → s.set_place ≡ set_refused k
      → Step s (record s { set_place = if s.has_ran then set_ended false else again k })
  set :
      s.set_place ≡ set_locked
      → Step s (record s {
        callback = if not s.has_ran && not s.callback then true else s.callback;
        set_place = set_leaving (not s.has_ran && not s.callback);
      })
  set_unlock :
      (b : Bool)
      → s.set_place ≡ set_leaving b
      → Step s (record s { mutex = nobody; set_place = set_ended b })

pub data Reach (start : Callback) : Callback → Type 0 where
  here : Reach start start
  next : {s t : Callback} → Reach start s → Step s t → Reach start t

-- The constructor, before both calls.
abbrev pub new_callback : Callback
new_callback = record {
  mutex = nobody;
  callback = false;
  has_ran = false;
  run_place = run_before;
  set_place = set_before;
  calls = 0;
}

abbrev runs : RunPlace → Bool
runs run_locked = true
runs run_marked = true
runs run_called = true
runs _ = false

abbrev marked : RunPlace → Bool
marked run_before = false
marked run_locked = false
marked _ = true

abbrev past_call : RunPlace → Bool
past_call run_called = true
past_call run_ended = true
past_call _ = false

abbrev sets : SetPlace → Bool
sets set_locked = true
sets (set_leaving b) = true
sets _ = false

abbrev accepted : SetPlace → Bool
accepted (set_leaving b) = b
accepted (set_ended b) = b
accepted _ = false

abbrev is_runner : Owner → Bool
is_runner runner = true
is_runner _ = false

abbrev is_setter : Owner → Bool
is_setter setter = true
is_setter _ = false

record Inv (s : Callback) : Type 0 where
  run_owner : runs s.run_place ≡ is_runner s.mutex
  set_owner : sets s.set_place ≡ is_setter s.mutex
  ran : s.has_ran ≡ marked s.run_place
  set_once : s.callback ≡ accepted s.set_place
  called : s.calls ≡ (if past_call s.run_place && s.callback then 1 else 0)

Inv-new_callback : Inv new_callback
Inv-new_callback = record {
  run_owner = refl;
  set_owner = refl;
  ran = refl;
  set_once = refl;
  called = refl;
}

again-sets : (k : ℕ) → (sets (again k) ≡ false) × (accepted (again k) ≡ false)
again-sets k = ground arith

Step-Inv : {s t : Callback} → Step s t → Inv s → Inv t
Step-Inv {s} (lock e f) v = ground (arith, v.run_owner, v.set_owner, v.ran, v.set_once, v.called)
Step-Inv {s} (mark e) v = ground (arith, v.run_owner, v.set_owner, v.ran, v.set_once, v.called)
Step-Inv {s} (call e) v = ground (arith, v.run_owner, v.set_owner, v.ran, v.set_once, v.called)
Step-Inv {s} (unlock e) v = ground (arith, v.run_owner, v.set_owner, v.ran, v.set_once, v.called)
Step-Inv {s} (look e) v = ground (arith, v.run_owner, v.set_owner, v.ran, v.set_once, v.called)
Step-Inv {s} (try_lock k e f) v =
    ground (arith, v.run_owner, v.set_owner, v.ran, v.set_once, v.called)
Step-Inv {s} (fail_lock k e) v =
    ground (arith, v.run_owner, v.set_owner, v.ran, v.set_once, v.called)
Step-Inv {s} (look_again k e) v =
    let a = again-sets k in ground (arith, v.run_owner, v.set_owner, v.ran, v.set_once, v.called)
Step-Inv {s} (set e) v = ground (arith, v.run_owner, v.set_owner, v.ran, v.set_once, v.called)
Step-Inv {s} (set_unlock b e) v =
    ground (arith, v.run_owner, v.set_owner, v.ran, v.set_once, v.called)

Reach-Inv : {s t : Callback} → Inv s → Reach s t → Inv t
Reach-Inv v here = v
Reach-Inv v (next r st) = Step-Inv st (Reach-Inv v r)

-- However the two calls interleave, once both have ended the callback has been called exactly once if
-- `set_callback` has answered true, and never if it has answered false; and it is not called before
-- `has_ran` is set.
pub called_exactly :
    (s : Callback)
    → Reach new_callback s
    → ((b : Bool)
        → s.run_place ≡ run_ended
        → s.set_place ≡ set_ended b
        → s.calls ≡ (if b then 1 else 0))
      × (s.has_ran ≡ false → s.calls ≡ 0)
called_exactly s r =
    let v = Reach-Inv Inv-new_callback r in
    (λ b e f. ground (arith, v.set_once, v.called), λ e. ground (arith, v.ran, v.called))
