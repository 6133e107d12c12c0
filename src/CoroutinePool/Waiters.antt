-- ===== src/CoroutinePool/Waiters.antt =====
-- The coroutines that wait for the result of a `coroutine_task` (coroutine_pool/coroutine_pool.h): the calls
-- on its promise, one at a time, as its mutex orders them. A coroutine is a number; one that is resumed is
-- taken not to wait for the same task again meanwhile.
use npoller.Base.{
  ℕ, zero, suc, ◌+◌, ◌≡◌, Bool, true, false, not, if◌then◌else◌, Outcome, ok, err, runtime_error,
  ◌>>=◌, List, [], ◌∷◌, ◌++◌,
}

-- `promise_type`; `has_value` is whether `set_value` was called, and `resumed` are the coroutines resumed, in
-- order of time.
pub record Promise : Type 0 where
  pub waiters : List ℕ
  pub finish : Bool
  pub has_value : Bool
  pub resumed : List ℕ

-- The loop of `promise_type::add_waitor`; the number counts the rounds that are left, and the function says
-- which of them get the mutex.
unfoldable pub add_rounds : ℕ → (ℕ → Bool) → ℕ → Promise → Bool × Promise
add_rounds zero locks h p = (false, p)
add_rounds (suc left) locks h p =
    let rest = add_rounds left (λ k. locks (k + 1)) h p in
    if locks 0
    then (if not p.finish then (true, record p { waiters = p.waiters ++ (h ∷ []) }) else (false, p))
    else if p.finish
    then (false, p)
    else rest

-- `promise_type::add_waitor`
unfoldable pub promise_add_waitor : (ℕ → Bool) → ℕ → Promise → Bool × Promise
promise_add_waitor locks h p = if p.finish then (false, p) else add_rounds 4 locks h p

-- `coroutine_task::add_waitor`, where `done` is what its look at the future has said.
unfoldable pub add_waitor : Bool → (ℕ → Bool) → ℕ → Promise → Bool × Promise
add_waitor done locks h p = if not done then promise_add_waitor locks h p else (false, p)

-- `while (!waiters.empty()) { waiters.front().resume(); waiters.pop_front(); }`
unfoldable pub resume_each : List ℕ → List ℕ → List ℕ
resume_each [] resumed = resumed
resume_each (h ∷ waiters) resumed = resume_each waiters (resumed ++ (h ∷ []))

-- `resume_all_waitor`
unfoldable pub resume_all_waitor : Bool → Promise → Promise
resume_all_waitor finish p = record p {
  finish = if finish then finish else p.finish;
  waiters = [];
  resumed = resume_each p.waiters p.resumed;
}

-- `return_value`; `set_value` throws where the value has been set before.
unfoldable pub return_value : Promise → Outcome Promise
return_value p =
    if p.has_value
    then err runtime_error
    else ok (resume_all_waitor false (record p { has_value = true }))

-- `~promise_type`
unfoldable pub destroy : Promise → Promise
destroy p = resume_all_waitor true p

-- The calls before the promise is destroyed. `add_waitor` has looked at the future some time before.
pub data Call : Type 0 where
  call_add : Bool → (ℕ → Bool) → ℕ → Call
  call_return : Call

-- The promise, and the coroutines that `add_waitor` has answered true for.
unfoldable pub step : Call → Promise × List ℕ → Outcome (Promise × List ℕ)
step (call_add done locks h) (p, waiting) =
    let (added, q) = add_waitor done locks h p in
    ok (q, if added then waiting ++ (h ∷ []) else waiting)
step call_return (p, waiting) = return_value p >>= λ q. ok (q, waiting)

unfoldable pub run : List Call → Promise × List ℕ → Outcome (Promise × List ℕ)
run [] s = ok s
run (c ∷ calls) s = step c s >>= λ t. run calls t

-- How often a coroutine returns.
unfoldable pub returns : List Call → ℕ
returns [] = 0
returns (call_return ∷ calls) = suc (returns calls)
returns (call_add done locks h ∷ calls) = returns calls

abbrev pub new_promise : Promise
new_promise = record { waiters = []; finish = false; has_value = false; resumed = [] }

-- What `add_waitor` answers, and what it does.
abbrev Added : ℕ → Promise → Bool × Promise → Type 0
Added h p (added, q) = q ≡ (if added then record p { waiters = p.waiters ++ (h ∷ []) } else p)

-- Who was answered true has been resumed, or waits.
Kept : Promise × List ℕ → Type 0
Kept (p, waiting) = p.resumed ++ p.waiters ≡ waiting

-- A value that has been set, as a number.
abbrev set_before : Bool → ℕ
set_before true = 1
set_before false = 0

-- What calls come to that are allowed: they return, and keep the account.
record Ran (calls : List Call) (s : Promise × List ℕ) : Type 0 where
  after : Promise × List ℕ
  runs : run calls s ≡ ok after
  kept : Kept after
