-- ===== src/SpinLock/Plain.antt =====
-- `spin_lock` (spinlock/spin_lock.h), any number of threads, one atomic access of a thread at a time.
-- Only a thread that holds the lock is taken to call `unlock`, as the class expects of its users.
use npoller.Base.{
  ℕ, ◌≡◌, ◌≢◌, ◌⊎◌, inl, inr, refl, Bool, true, false, Bool-cases, ◌==◌, if◌then◌else◌, List, [],
  ◌∷◌, Outcome, ok, err, runtime_error, ◌>>=◌, arith,
}
use npoller.SpinLock.Backoff.{next_k}

-- `locked.compare_exchange_strong(expected, desired)`: whether it succeeds, and the new value.
abbrev pub compare_exchange : Bool → Bool → Bool → Bool × Bool
compare_exchange true true desired = (true, desired)
compare_exchange false false desired = (true, desired)
compare_exchange locked expected desired = (false, locked)

-- `try_lock()`
unfoldable pub try_lock : Bool → Bool × Bool
try_lock locked = compare_exchange locked false true

-- `unlock()`
unfoldable pub unlock : Bool → Outcome Bool
unlock locked =
    let (done, after) = compare_exchange locked true false in
    if done then ok after else err runtime_error

-- Where a thread stands.
pub data Place : Type 0 where
  outside : Place
  -- before the `compare_exchange_strong` of `lock()`, with its `k`
  trying : ℕ → Place
  -- in the inner loop of `lock()`
  waiting : ℕ → Place
  holding : Place

-- What a thread outside or inside the lock does next; one that is in `lock()` goes on with it.
pub data Wish : Type 0 where
  call_lock call_try_lock call_unlock : Wish

pub data Effect : Type 0 where
  effect : Place → Bool → Effect
  throws : Effect

abbrev place_after : Place → Place → Bool × Bool → Effect
place_after won lost (true, locked) = effect won locked
place_after won lost (false, locked) = effect lost locked

abbrev after_unlock : Outcome Bool → Effect
after_unlock (ok locked) = effect outside locked
after_unlock (err e) = throws

-- One atomic access of one thread.
unfoldable pub act : Wish → Place → Bool → Effect
act call_lock outside locked = effect (trying 1) locked
act call_try_lock outside locked = place_after holding outside (try_lock locked)
act call_unlock outside locked = effect outside locked
act wish (trying k) locked = place_after holding (waiting k) (compare_exchange locked false true)
act wish (waiting k) true = effect (waiting (next_k k)) true
act wish (waiting k) false = effect (trying k) false
act call_unlock holding locked = after_unlock (unlock locked)
act call_lock holding locked = effect holding locked
act call_try_lock holding locked = effect holding locked

pub record System : Type 0 where
  pub locked : Bool
  pub place : ℕ → Place

abbrev pub update : (ℕ → Place) → ℕ → Place → ℕ → Place
update f i p j = if j == i then p else f j

abbrev pub start : System
start = record { locked = false; place = λ _. outside }

abbrev pub apply : System → ℕ → Effect → Outcome System
apply s i (effect p locked) = ok (record { locked = locked; place = update s.place i p })
apply s i throws = err runtime_error

-- Thread `i` makes one access.
unfoldable pub step : System → ℕ → Wish → Outcome System
step s i wish = apply s i (act wish (s.place i) s.locked)

pub record Inv (s : System) : Type 0 where
  pub taken : (i : ℕ) → s.place i ≡ holding → s.locked ≡ true
  pub unique : (i j : ℕ) → s.place i ≡ holding → s.place j ≡ holding → i ≡ j
  -- A locked lock has an owner.
  pub owned : s.locked ≡ true → (i : ℕ) × (s.place i ≡ holding)

Inv-start : Inv start
Inv-start = record { taken = λ i e. cc; unique = λ i j e. cc; owned = λ e. cc }

-- What an access does to the lock, for a thread that holds only a locked lock.
act-cases :
    (wish : Wish) (p : Place) (locked : Bool)
    → (p ≡ holding → locked ≡ true)
    → (p' : Place) × (locked' : Bool) × (act wish p locked ≡ effect p' locked')
      × (((p' ≡ holding) × (p ≡ holding) × (locked' ≡ true))
          ⊎ (((p' ≡ holding) × (locked ≡ false) × (locked' ≡ true))
              ⊎ (((p' ≢ holding) × (p ≡ holding) × (locked' ≡ false))
                  ⊎ ((p' ≢ holding) × (p ≢ holding) × (locked' ≡ locked)))))
unfolding act try_lock unlock
act-cases call_lock outside l h = (trying 1, l, refl, inr (inr (inr (λ e. cc, λ e. cc, refl))))
act-cases call_try_lock outside true h =
    (outside, true, refl, inr (inr (inr (λ e. cc, λ e. cc, refl))))
act-cases call_try_lock outside false h = (holding, true, refl, inr (inl (refl, refl, refl)))
act-cases call_unlock outside l h = (outside, l, refl, inr (inr (inr (λ e. cc, λ e. cc, refl))))
act-cases wish (trying k) true h = (waiting k, true, refl, inr (inr (inr (λ e. cc, λ e. cc, refl))))
act-cases wish (trying k) false h = (holding, true, refl, inr (inl (refl, refl, refl)))
act-cases wish (waiting k) true h =
    (waiting (next_k k), true, refl, inr (inr (inr (λ e. cc, λ e. cc, refl))))
act-cases wish (waiting k) false h =
    (trying k, false, refl, inr (inr (inr (λ e. cc, λ e. cc, refl))))
act-cases call_unlock holding true h = (outside, false, refl, inr (inr (inl (λ e. cc, refl, refl))))
act-cases call_unlock holding false h = let no_way = h refl in cc
act-cases call_lock holding l h = (holding, l, refl, inl (refl, refl, h refl))
act-cases call_try_lock holding l h = (holding, l, refl, inl (refl, refl, h refl))

-- The invariant holds after any access that a thread can make in a state where it holds, and none of
-- them throws.
step-Inv :
    (s : System) (i : ℕ) (wish : Wish) → Inv s → (t : System) × (step s i wish ≡ ok t) × Inv t
unfolding step
step-Inv s i wish v =
    let (p, locked, runs, cases) = act-cases wish (s.place i) s.locked (v.taken i) in
    (
      record { locked = locked; place = update s.place i p },
      rw runs,
      record {
        taken = λ j e. ground (arith, cases, v.taken j, v.unique i j);
        unique = λ j k ej ek.
            ground (arith, cases, v.taken j, v.taken k, v.unique j k, v.unique i j, v.unique i k);
        owned = λ e. owner p locked cases e;
      },
    )
  where
    Cases : Place → Bool → Type 0
    Cases p locked =
        ((p ≡ holding) × (s.place i ≡ holding) × (locked ≡ true))
        ⊎ (((p ≡ holding) × (s.locked ≡ false) × (locked ≡ true))
            ⊎ (((p ≢ holding) × (s.place i ≡ holding) × (locked ≡ false))
                ⊎ ((p ≢ holding) × (s.place i ≢ holding) × (locked ≡ s.locked))))

    owner :
        (p : Place) (locked : Bool)
        → Cases p locked
        → locked ≡ true
        → (j : ℕ) × (update s.place i p j ≡ holding)
    owner p locked (inl c) e = (i, ground arith)
    owner p locked (inr (inl c)) e = (i, ground arith)
    owner p locked (inr (inr (inl c))) e = let wrong = c.2 in cc
    owner p locked (inr (inr (inr c))) e = let (j, h) = v.owned (ground arith) in (j, ground arith)

-- A schedule: which thread makes the next access, and what it calls if it is outside.
unfoldable pub run : List (ℕ × Wish) → System → Outcome System
run [] s = ok s
run ((i, wish) ∷ rest) s = step s i wish >>= λ t. run rest t

run-Inv :
    (schedule : List (ℕ × Wish)) (s : System)
    → Inv s
    → (t : System) × (run schedule s ≡ ok t) × Inv t
unfolding run
run-Inv [] s v = (s, refl, v)
run-Inv ((i, wish) ∷ rest) s v =
    let (t, runs, inv) = step-Inv s i wish v in
    let (u, goes, final) = run-Inv rest t inv in (u, rw runs goes, final)

-- Whatever the schedule and the number of threads, no `unlock` of a holder throws, two threads never
-- hold the lock at once, the lock is marked locked while one holds it, and free while none does.
pub mutual_exclusion :
    (schedule : List (ℕ × Wish))
    → (t : System) × (run schedule start ≡ ok t)
      × ((i j : ℕ) → t.place i ≡ holding → t.place j ≡ holding → i ≡ j)
      × ((i : ℕ) → t.place i ≡ holding → t.locked ≡ true)
      × (t.locked ≡ true → (i : ℕ) × (t.place i ≡ holding))
mutual_exclusion schedule =
    let (t, runs, v) = run-Inv schedule start Inv-start in (t, runs, v.unique, v.taken, v.owned)

-- The two accesses that leave the loops of `lock()` when the lock is free.
leave_waiting :
    (t : System) (i k : ℕ) (wish : Wish)
    → t.locked ≡ false
    → t.place i ≡ waiting k
    → step t i wish ≡ ok (record { locked = false; place = update t.place i (trying k) })
unfolding step act
leave_waiting t i k wish free at = rw (at, free)

take_free :
    (t : System) (i k : ℕ) (wish : Wish)
    → t.locked ≡ false
    → t.place i ≡ trying k
    → step t i wish ≡ ok (record { locked = true; place = update t.place i holding })
unfolding step act
take_free t i k wish free at = rw (at, free)

-- After any schedule, a thread that waits for a lock which no thread holds has it after two accesses of its
-- own that follow one another, with none of another thread between them.
pub waiting_gets_free_lock :
    (schedule : List (ℕ × Wish)) (t : System) (i k : ℕ) (wish : Wish)
    → run schedule start ≡ ok t
    → t.place i ≡ waiting k
    → ((j : ℕ) → t.place j ≢ holding)
    → (u : System) × (run ((i, wish) ∷ (i, wish) ∷ []) t ≡ ok u) × (u.place i ≡ holding)
unfolding run
waiting_gets_free_lock schedule t i k wish runs waits nobody =
    let t1 : System = record { locked = false; place = update t.place i (trying k) } in
    let u : System = record { locked = true; place = update t1.place i holding } in
    let same : (i == i) ≡ true = ground arith in
    let free : t.locked ≡ false = elim (Bool-cases t.locked) [
      | inl taken ↦
          let (t', r, v) = run-Inv schedule start Inv-start in
          let is : t' ≡ t = cc in
          let (j, h) = v.owned (rw is taken) in absurd (nobody j (rw is at h))
      | inr e ↦ e
    ] in
    (u, rw (leave_waiting t i k wish free waits, take_free t1 i k wish refl (rw same)), rw same)
