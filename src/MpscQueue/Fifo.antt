-- ===== src/MpscQueue/Fifo.antt =====
-- As long as no two calls overlap, an `mpsc_queue` (queue/mpsc_queue.h) is a first-in first-out
-- queue, whichever thread pushes.
use npoller.Base.{
  ℕ, suc, ◌+◌, ◌-◌, ◌%◌, ◌^◌, ◌≤◌, ◌<◌, ◌≡◌, ◌≢◌, ◌⊎◌, inl, inr, refl, ap, ap₂, ◌∙◌, Bool-cases,
  true, false, ◌==◌, if◌then◌else◌, List, [], ◌∷◌, ◌++◌, length, length-append, drop, Option, none,
  some, Outcome, ok, err, runtime_error, add64, arith,
}
use native.Mathlib.Decide.{ℕ_discrete}
use npoller.MpscQueue.{
  ConcurrentQueue, MpscQueue, new_queue, initial_items, push, pop_shared, pop_from, try_pop,
}
use npoller.MpscQueue.Order.{Merges, Merges-from, Merges-local, Merges-shared}

-- The item that comes next, if there is one.
abbrev pub oldest {ℓ} : {A : Type ℓ} → List A → Option A
oldest [] = none
oldest (x ∷ xs) = some x

module _ {T : Type 0} (cq : ConcurrentQueue T) where
  -- `xs` are the items still to come, in the order of their numbers; `c` is the next number.
  pub record Represents (q : MpscQueue cq) (xs : List T) : Type 0 where
    pub c : ℕ
    pub consumed : q.consumed_index ≡ (c + 2 ^ 64 - 1) % 2 ^ 64
    pub counted : q.index ≡ c + length xs
    pub fits : q.index < 2 ^ 64
    pub merges : Merges c q.local_queue (cq.items q.concurrent_queue) xs

  pub new_queue-Represents :
      (empty : cq.Queue) (default : T) (id : ℕ)
      → cq.items empty ≡ []
      → Represents (new_queue cq empty default id 0) []
  unfolding new_queue initial_items
  new_queue-Represents empty default id e = record {
    c = 0;
    consumed = refl;
    counted = refl;
    fits = omega arith;
    merges = (refl, e);
  }

  -- `push` by any thread adds the item behind the others, as long as the counter does not wrap.
  pub push_lem :
      (caller : ℕ) (x : T) (q : MpscQueue cq) (xs : List T)
      → q.index + 1 < 2 ^ 64
      → Represents q xs
      → Represents (push cq caller x q) (xs ++ (x ∷ []))
  unfolding push
  push_lem caller x q xs room r = elim (Bool-cases (caller == q.thread_id)) [
    | inl own ↦ rw own (record {
      c = r.c;
      consumed = r.consumed;
      counted = omega (arith, r.counted, length-append {0} xs (x ∷ []));
      fits = omega arith;
      merges = Merges-local xs r.c q.index q.local_queue _ x r.counted r.merges;
    })
    | inr other ↦ rw other (record {
      c = r.c;
      consumed = r.consumed;
      counted = omega (arith, r.counted, length-append {0} xs (x ∷ []));
      fits = omega arith;
      merges =
          rw (cq.items-emplace q.concurrent_queue x)
            (Merges-shared xs r.c q.local_queue _ x r.merges);
    })
  ]

  -- What a pop gives back and leaves.
  abbrev Pops : Option T × MpscQueue cq → List T → Type 0
  Pops out xs = (out.0 ≡ oldest xs) × Represents out.1 (drop 1 xs)

  next_number :
      (q : MpscQueue cq) (c : ℕ)
      → q.consumed_index ≡ (c + 2 ^ 64 - 1) % 2 ^ 64
      → c < 2 ^ 64
      → add64 q.consumed_index 1 ≡ c
  next_number q c e lt = omega arith

  -- The next item is in the concurrent queue.
  pop_shared_of_cons :
      (q : MpscQueue cq) (x : T) (xs rest : List T) (r : Represents q (x ∷ xs))
      → cq.items q.concurrent_queue ≡ x ∷ rest
      → Merges (suc r.c) q.local_queue rest xs
      → Pops (pop_shared cq q) (x ∷ xs)
  unfolding pop_shared
  pop_shared_of_cons q x xs rest r e m =
      let (after, popped, left) = cq.try_pop_of_cons q.concurrent_queue x rest e in
      rw popped (
        refl,
        record {
          c = suc r.c;
          consumed = omega (arith, r.consumed, r.counted, r.fits);
          counted = omega (arith, r.counted);
          fits = r.fits;
          merges = rw left m;
        },
      )

  pop_from_lem :
      (l : List (T × ℕ)) (q : MpscQueue cq) (xs : List T) (r : Represents q xs)
      → q.local_queue ≡ l
      → Merges r.c l (cq.items q.concurrent_queue) xs
      → Pops (pop_from cq l q) xs
  unfolding pop_from pop_shared
  pop_from_lem [] q [] r el m = rw (cq.try_pop_of_nil q.concurrent_queue m.1) (refl, r)
  pop_from_lem (e ∷ l) q [] r el m = let none_local : ◌≡◌ {A = List (T × ℕ)} (e ∷ l) [] = m.0 in cc
  pop_from_lem [] q (x ∷ xs) r el (inl (rest, e, m)) = cc
  pop_from_lem [] q (x ∷ xs) r el (inr (rest, e, m)) = pop_shared_of_cons q x xs rest r e (rw el m)
  pop_from_lem ((y, n) ∷ l) q (x ∷ xs) r el (inl (rest, e, m)) =
      let next = next_number q r.c r.consumed (omega (arith, r.counted, r.fits)) in
      let item : y ≡ x = cc in
      let number : n ≡ r.c = cc in
      let left : l ≡ rest = cc in
      let own : (r.c == n) ≡ true = ground arith in
      rw (next, own)
        (
          ap some item,
          record {
            c = suc r.c;
            consumed = omega (arith, r.consumed, r.counted, r.fits);
            counted = omega (arith, r.counted);
            fits = r.fits;
            merges = rw left m;
          },
        )
  pop_from_lem ((y, n) ∷ l) q (x ∷ xs) r el (inr (rest, e, m)) =
      let later : suc r.c ≤ n = (Merges-from xs (suc r.c) ((y, n) ∷ l) rest m).0 in
      let next = next_number q r.c r.consumed (omega (arith, r.counted, r.fits)) in
      let other : (r.c == n) ≡ false = ground arith in
      rw (next, other) (pop_shared_of_cons q x xs rest r e (rw el m))

  -- `try_pop` by the owner returns the oldest item and takes it away, and returns `false` exactly when
  -- there is none; another thread gets an exception.
  pub try_pop_lem :
      (caller : ℕ) (q : MpscQueue cq) (xs : List T)
      → Represents q xs
      → ((caller ≡ q.thread_id)
          × ((q' : MpscQueue cq) × (try_pop cq caller q ≡ ok (oldest xs, q'))
              × Represents q' (drop 1 xs)))
        ⊎ ((caller ≢ q.thread_id) × (try_pop cq caller q ≡ err runtime_error))
  unfolding try_pop
  try_pop_lem caller q xs r = elim (ℕ_discrete caller q.thread_id) [
    | yes own ↦
        let test : (caller == q.thread_id) ≡ true = ground arith in
        let p = pop_from_lem q.local_queue q xs r refl r.merges in
        inl (
          own,
          (
            (pop_from cq q.local_queue q).1,
            rw test (ap (λ o. ok (o, (pop_from cq q.local_queue q).1)) p.0),
            p.1,
          ),
        )
    | no other ↦ let test : (caller == q.thread_id) ≡ false = ground arith in inr (other, rw test)
  ]

-- What is done to the queue, one call at a time.
pub data Call (T : Type 0) : Type 0 where
  push_by : ℕ → T → Call T
  pop_by : ℕ → Call T

module _ {T : Type 0} where
  -- A first-in first-out queue as a list: what the pops of the owner give back; another thread's fail.
  abbrev pub run_list : ℕ → List T → List (Call T) → List (Outcome (Option T))
  run_list owner xs [] = []
  run_list owner xs (push_by caller x ∷ calls) = run_list owner (xs ++ (x ∷ [])) calls
  run_list owner xs (pop_by caller ∷ calls) =
      if caller == owner
      then ok (oldest xs) ∷ run_list owner (drop 1 xs) calls
      else err runtime_error ∷ run_list owner xs calls

  -- How many numbers the calls take.
  abbrev pub pushes : List (Call T) → ℕ
  pushes [] = 0
  pushes (push_by caller x ∷ calls) = suc (pushes calls)
  pushes (pop_by caller ∷ calls) = pushes calls

module _ {T : Type 0} (cq : ConcurrentQueue T) where
  -- A pop that throws leaves the queue as it is.
  abbrev after :
      MpscQueue cq → Outcome (Option T × MpscQueue cq) → Outcome (Option T) × MpscQueue cq
  after q (ok (item, q')) = (ok item, q')
  after q (err e) = (err e, q)

  -- What the pops of a sequence of calls give back.
  unfoldable pub run : MpscQueue cq → List (Call T) → List (Outcome (Option T))
  run q [] = []
  run q (push_by caller x ∷ calls) = run (push cq caller x q) calls
  run q (pop_by caller ∷ calls) =
      let (out, q') = after q (try_pop cq caller q) in out ∷ run q' calls

  thread_id-push :
      (caller : ℕ) (x : T) (q : MpscQueue cq) → (push cq caller x q).thread_id ≡ q.thread_id
  unfolding push
  thread_id-push caller x q = ground arith

  index-push :
      (caller : ℕ) (x : T) (q : MpscQueue cq)
      → q.index + 1 < 2 ^ 64
      → (push cq caller x q).index ≡ q.index + 1
  unfolding push
  index-push caller x q h = ground arith

  kept-pop :
      (l : List (T × ℕ)) (q : MpscQueue cq)
      → ((pop_from cq l q).1.thread_id ≡ q.thread_id) × ((pop_from cq l q).1.index ≡ q.index)
  unfolding pop_from pop_shared
  kept-pop [] q = ground arith
  kept-pop ((x, n) ∷ l) q = ground arith

  try_pop_own :
      (caller : ℕ) (q : MpscQueue cq)
      → (caller == q.thread_id) ≡ true
      → try_pop cq caller q ≡ ok (pop_from cq q.local_queue q)
  unfolding try_pop
  try_pop_own caller q h = rw h

  try_pop_other :
      (caller : ℕ) (q : MpscQueue cq)
      → (caller == q.thread_id) ≡ false
      → try_pop cq caller q ≡ err runtime_error
  unfolding try_pop
  try_pop_other caller q h = rw h

  -- On a queue that represents a list, no sequence of calls, one at a time, tells an `mpsc_queue` from
  -- a first-in first-out queue with that list in it, as long as the counter of pushes does not wrap.
  pub run_refines :
      (calls : List (Call T)) (q : MpscQueue cq) (xs : List T)
      → q.index + pushes calls < 2 ^ 64
      → Represents cq q xs
      → run q calls ≡ run_list q.thread_id xs calls
  unfolding run
  run_refines [] q xs room r = refl
  run_refines (push_by caller x ∷ calls) q xs room r =
      run_refines calls (push cq caller x q) (xs ++ (x ∷ [])) (omega (arith, index-push caller x q))
        (push_lem cq caller x q xs (omega arith) r)
      ∙ ap (λ i. run_list i (xs ++ (x ∷ [])) calls) (thread_id-push caller x q)
  run_refines (pop_by caller ∷ calls) q xs room r = elim (Bool-cases (caller == q.thread_id)) [
    | inl own ↦
        let p = pop_from_lem cq q.local_queue q xs r refl r.merges in
        let kept = kept-pop q.local_queue q in
        rw (try_pop_own caller q own, own)
          (ap₂ ◌∷◌ (ap ok p.0) (
            run_refines calls (pop_from cq q.local_queue q).1 (drop 1 xs) (omega (arith, kept.1))
              p.1
            ∙ ap (λ i. run_list i (drop 1 xs) calls) kept.0))
    | inr other ↦
        rw (try_pop_other caller q other, other)
          (ap (λ t. err runtime_error ∷ t) (run_refines calls q xs room r))
  ]
