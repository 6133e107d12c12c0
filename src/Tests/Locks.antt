-- ===== src/Tests/Locks.antt =====
-- The spin locks at concrete inputs.
use npoller.Base.{
  ℕ, ◌<◌, ◌≡◌, ◌≢◌, ◌↔◌, refl, Bool, true, false, List, [], ◌∷◌, ok, err, runtime_error, All, arith,
}
use npoller.SpinLock.Backoff.{next_k}
use npoller.SpinLock.Plain
use npoller.SpinLock.Plain.{
  Place, Wish, outside, trying, waiting, holding, call_lock, call_try_lock, call_unlock,
  mutual_exclusion, waiting_gets_free_lock,
}
use npoller.SpinLock.Reentrant
use npoller.SpinLock.Reentrant.{
  ReentrantSpinLock, Action, acquire, release, reentrant_exclusion, reentrant_answers,
}

-- Thread 4 takes the lock, thread 5 waits, and thread 4 gives the lock back.
abbrev contended : List (ℕ × Wish)
contended =
    (4, call_try_lock) ∷ (5, call_lock) ∷ (5, call_lock) ∷ (5, call_lock) ∷ (4, call_unlock) ∷ []

mutual_exclusion_example :
    (t : Plain.System) × (Plain.run contended Plain.start ≡ ok t)
    × ((i j : ℕ) → t.place i ≡ holding → t.place j ≡ holding → i ≡ j)
    × ((i : ℕ) → t.place i ≡ holding → t.locked ≡ true)
    × (t.locked ≡ true → (i : ℕ) × (t.place i ≡ holding))
mutual_exclusion_example = mutual_exclusion contended

abbrev freed : Plain.System
freed = record {
  locked = false;
  place =
      Plain.update
        (Plain.update
          (Plain.update (Plain.update (Plain.update (λ _. outside) 4 holding) 5 (trying 1)) 5
            (waiting 1))
          5 (waiting 2))
        4 outside;
}

freed-runs : Plain.run contended Plain.start ≡ ok freed
unfolding Plain.run Plain.step Plain.act Plain.try_lock Plain.unlock next_k
freed-runs = refl

freed-nobody : (j : ℕ) → freed.place j ≢ holding
freed-nobody j = ground arith

waiting_gets_free_lock_example :
    (u : Plain.System) × (Plain.run ((5, call_lock) ∷ (5, call_lock) ∷ []) freed ≡ ok u)
    × (u.place 5 ≡ holding)
waiting_gets_free_lock_example =
    waiting_gets_free_lock contended freed 5 2 call_lock freed-runs refl freed-nobody

-- Thread 4 takes the lock twice and gives it back once; thread 5 tries to take it.
abbrev nested : List (ℕ × Action)
nested = (4, acquire) ∷ (4, acquire) ∷ (5, acquire) ∷ (4, release) ∷ []

nested-threads : All (λ e. e.0 ≢ 0) nested
nested-threads = (omega arith, (omega arith, (omega arith, (omega arith, tt))))

abbrev once : Reentrant.System
once = record {
  lock = record { count = 1; thread_id = 4 };
  depth = Reentrant.update (Reentrant.update (Reentrant.update (λ _. 0) 4 1) 4 2) 4 1;
}

once-runs : Reentrant.run nested Reentrant.start ≡ ok once
unfolding Reentrant.run Reentrant.step Reentrant.try_lock Reentrant.unlock
once-runs = refl

reentrant_exclusion_example :
    (t : Reentrant.System) × (Reentrant.run nested Reentrant.start ≡ ok t)
    × ((i j : ℕ) → 0 < t.depth i → 0 < t.depth j → i ≡ j)
    × ((i : ℕ) → 0 < t.depth i → t.lock.count ≡ t.depth i)
reentrant_exclusion_example = reentrant_exclusion nested nested-threads (omega arith)

reentrant_answers_example :
    ((l : ReentrantSpinLock) × (won : Bool) × (Reentrant.try_lock 5 once.lock ≡ ok (won, l))
      × ((won ≡ true) ↔ ((j : ℕ) → 0 < once.depth j → j ≡ 5)))
    × ((Reentrant.unlock 5 once.lock ≡ err runtime_error) ↔ (once.depth 5 ≡ 0))
reentrant_answers_example =
    reentrant_answers nested once 5 nested-threads (omega arith) (omega arith) once-runs
