-- ===== src/MpscQueue/Progress.antt =====
-- What holds of an `mpsc_queue` (queue/mpsc_queue.h) under every interleaving of its threads.
use npoller.Base.{
  ℕ, suc, ◌+◌, ◌-◌, ◌%◌, ◌^◌, ◌≤◌, ◌<◌, ◌≡◌, ◌≢◌, inl, inr, refl, ap, Bool-cases, true, ◌==◌, List,
  [], ◌∷◌, ◌++◌, append-nil, Option, none, some, add64, arith,
}
use native.Mathlib.Numerals.{add-one}
use npoller.MpscQueue.{
  ConcurrentQueue, MpscQueue, new_queue, initial_items, push, pop_shared, pop_from, settle,
}
use npoller.MpscQueue.Threads.{
  total, total_local, total-append, total_local-append, Ascending, Ascending-append,
  Ascending-weaken, Ascending-room, System, list_of, Step, own_push, count, emplace, pop,
  start_system, Reach, here, next,
}

-- How many there are.
abbrev pub size : {T : Type 0} → List T → ℕ
size xs = total (λ _. 1) xs

module _ {T : Type 0} (cq : ConcurrentQueue T) where
  pub record Inv (s : System cq) : Type 0 where
    pub consumed : s.queue.consumed_index ≡ (size s.popped + 2 ^ 64 - 1) % 2 ^ 64
    pub index : s.queue.index ≡ size s.pushed
    pub balance :
        (w : T → ℕ)
        → total w s.pushed
          ≡ total w s.popped
            + total_local w s.queue.local_queue
            + total w (cq.items s.queue.concurrent_queue)
            + total w s.pending
    pub ascending : Ascending (size s.popped) s.queue.local_queue (size s.pushed)

  Inv-start :
      (empty : cq.Queue) (default : T) (id : ℕ)
      → cq.items empty ≡ []
      → Inv (start_system cq empty default id)
  unfolding new_queue initial_items total total_local
  Inv-start empty default id e = record {
    consumed = refl;
    index = refl;
    balance = λ w. rw e;
    ascending = omega arith;
  }

  own_push-Inv :
      (s : System cq) (x : T)
      → size (s.pushed ++ (x ∷ [])) < 2 ^ 64
      → Inv s
      → Inv
          (record s { queue = push cq s.queue.thread_id x s.queue; pushed = s.pushed ++ (x ∷ []) })
  unfolding push total
  own_push-Inv s x room v =
      let own : (s.queue.thread_id == s.queue.thread_id) ≡ true = ground arith in
      let longer : size (s.pushed ++ (x ∷ [])) ≡ size s.pushed + 1 =
        total-append (λ _. 1) s.pushed (x ∷ []) in
      rw own (record {
        consumed = v.consumed;
        index = omega (arith, v.index);
        balance = λ w. omega (
          arith,
          v.balance w,
          total-append w s.pushed (x ∷ []),
          total_local-append w s.queue.local_queue x s.queue.index,
        );
        ascending =
            rw (v.index, longer)
              (Ascending-append (size s.popped) (size s.pushed) s.queue.local_queue x v.ascending);
      })

  count-Inv :
      (s : System cq) (x : T)
      → size (s.pushed ++ (x ∷ [])) < 2 ^ 64
      → Inv s
      → Inv (record s {
        queue = record s.queue { index = add64 s.queue.index 1 };
        pending = s.pending ++ (x ∷ []);
        pushed = s.pushed ++ (x ∷ []);
      })
  unfolding total
  count-Inv s x room v =
      let longer : size (s.pushed ++ (x ∷ [])) ≡ size s.pushed + 1 =
        total-append (λ _. 1) s.pushed (x ∷ []) in
      record {
        consumed = v.consumed;
        index = omega (arith, v.index);
        balance = λ w. omega (
          arith,
          v.balance w,
          total-append w s.pushed (x ∷ []),
          total-append w s.pending (x ∷ []),
        );
        ascending =
            rw longer
              (Ascending-weaken (size s.popped) (size s.pushed) s.queue.local_queue v.ascending);
      }

  emplace-Inv :
      (s : System cq) (before after : List T) (x : T)
      → s.pending ≡ before ++ (x ∷ after)
      → Inv s
      → Inv (record s {
        queue = record s.queue { concurrent_queue = cq.emplace s.queue.concurrent_queue x };
        pending = before ++ after;
      })
  unfolding total
  emplace-Inv s before after x e v = record {
    consumed = v.consumed;
    index = v.index;
    balance = λ w. rw (cq.items-emplace s.queue.concurrent_queue x) (
        omega (
          arith,
          v.balance w,
          ap (total w) e,
          total-append w before (x ∷ after),
          total-append w before after,
          total-append w (cq.items s.queue.concurrent_queue) (x ∷ []),
        ));
    ascending = v.ascending;
  }

  -- The state after a pop that gave `out`.
  abbrev popped_to : System cq → Option T × MpscQueue cq → System cq
  popped_to s out = record s { queue = out.1; popped = s.popped ++ list_of cq out.0 }

  -- A pop from the concurrent queue, at a number that is not the owner's next.
  pop_shared-Inv :
      (s : System cq) (items : List T)
      → cq.items s.queue.concurrent_queue ≡ items
      → size s.pushed < 2 ^ 64
      → (0 < size items → Ascending (size s.popped + 1) s.queue.local_queue (size s.pushed))
      → Inv s
      → Inv (popped_to s (pop_shared cq s.queue))
  unfolding pop_shared total
  pop_shared-Inv s [] e room above v =
      rw (cq.try_pop_of_nil s.queue.concurrent_queue e, append-nil) v
  pop_shared-Inv s (x ∷ items) e room above v =
      let (rest, popped, left) = cq.try_pop_of_cons s.queue.concurrent_queue x items e in
      let longer : size (s.popped ++ (x ∷ [])) ≡ size s.popped + 1 =
        total-append (λ _. 1) s.popped (x ∷ []) in
      rw popped (record {
        consumed = rw longer (omega (arith, v.consumed, v.balance (λ _. 1)));
        index = v.index;
        balance = λ w.
            rw left (omega (arith, v.balance w, ap (total w) e, total-append w s.popped (x ∷ [])));
        ascending = rw longer (above (omega arith));
      })

  pop_from-Inv :
      (s : System cq) (l : List (T × ℕ))
      → s.queue.local_queue ≡ l
      → size s.pushed < 2 ^ 64
      → Inv s
      → Inv (popped_to s (pop_from cq l s.queue))
  unfolding pop_from total total_local
  pop_from-Inv s [] e room v =
      pop_shared-Inv s (cq.items s.queue.concurrent_queue) refl room
        (λ more. rw e (omega (arith, v.balance (λ _. 1)))) v
  pop_from-Inv s ((x, n) ∷ l) e room v =
      let asc : Ascending (size s.popped) ((x, n) ∷ l) (size s.pushed) = rw e at v.ascending in
      let less : size s.popped < 2 ^ 64 = omega (arith, v.balance (λ _. 1)) in
      let number : add64 s.queue.consumed_index 1 ≡ size s.popped = omega (arith, v.consumed) in
      let longer : size (s.popped ++ (x ∷ [])) ≡ size s.popped + 1 =
        total-append (λ _. 1) s.popped (x ∷ []) in
      elim (Bool-cases (size s.popped == n)) [
        | inl own ↦
            let here : n ≡ size s.popped = ground arith in
            rw (number, own)
              (record {
                consumed = rw longer (omega arith);
                index = v.index;
                balance = λ w.
                    omega
                      (arith, v.balance w, ap (total_local w) e, total-append w s.popped (x ∷ []));
                ascending = rw (longer, add-one) (rw here at asc.1);
              })
        | inr other ↦
            let later : size s.popped + 1 ≤ n = ground (arith, asc.0) in
            rw (number, other)
              (pop_shared-Inv s (cq.items s.queue.concurrent_queue) refl room
                (λ more. rw e (later, asc.1)) v)
      ]

  -- A step keeps the invariant, as long as the counter has not wrapped.
  Step-Inv : (s t : System cq) → Step cq s t → size t.pushed < 2 ^ 64 → Inv s → Inv t
  Step-Inv s t (own_push x) room v = own_push-Inv s x room v
  Step-Inv s t (count x) room v = count-Inv s x room v
  Step-Inv s t (emplace before after x e) room v = emplace-Inv s before after x e v
  Step-Inv s t pop room v = pop_from-Inv s s.queue.local_queue refl room v

  Step-le : (s t : System cq) → Step cq s t → size s.pushed ≤ size t.pushed
  Step-le s t (own_push x) = omega (arith, total-append (λ _. 1) s.pushed (x ∷ []))
  Step-le s t (count x) = omega (arith, total-append (λ _. 1) s.pushed (x ∷ []))
  Step-le s t (emplace before after x e) = omega arith
  Step-le s t pop = omega arith

  Reach-Inv : (start s : System cq) → Inv start → Reach cq start s → size s.pushed < 2 ^ 64 → Inv s
  Reach-Inv start s v here room = v
  Reach-Inv start s v (next {s = r} reach step) room =
      Step-Inv r s step room (Reach-Inv start r v reach (omega (arith, Step-le r s step)))

  -- From a new queue with `initial_size` 0, under every interleaving of fewer than 2^64 pushes, no item
  -- is lost and none comes twice: by any weight of items, what was pushed weighs as much as what was
  -- popped, with what waits in the deque, in the concurrent queue or in a push that is under way.
  pub nothing_lost :
      (empty : cq.Queue) (default : T) (id : ℕ) (s : System cq) (w : T → ℕ)
      → cq.items empty ≡ []
      → Reach cq (start_system cq empty default id) s
      → size s.pushed < 2 ^ 64
      → total w s.pushed
        ≡ total w s.popped
          + total_local w s.queue.local_queue
          + total w (cq.items s.queue.concurrent_queue)
          + total w s.pending
  nothing_lost empty default id s w e r room =
      (Reach-Inv (start_system cq empty default id) s (Inv-start empty default id e) r room).balance
        w

  pop_shared-none :
      (q : MpscQueue cq) (items : List T)
      → cq.items q.concurrent_queue ≡ items
      → (pop_shared cq q).0 ≡ none
      → cq.items q.concurrent_queue ≡ []
  unfolding pop_shared
  pop_shared-none q [] e fails = e
  pop_shared-none q (x ∷ items) e fails =
      let (rest, popped, left) = cq.try_pop_of_cons q.concurrent_queue x items e in
      let got : (settle cq (some (x, rest)) q).0 ≡ none = rw popped at fails in cc

  pop_from-none :
      (s : System cq) (l : List (T × ℕ))
      → s.queue.local_queue ≡ l
      → size s.pushed < 2 ^ 64
      → Inv s
      → s.pending ≡ []
      → (pop_from cq l s.queue).0 ≡ none
      → (w : T → ℕ) → total w s.pushed ≡ total w s.popped
  unfolding pop_from total total_local
  pop_from-none s [] e room v idle fails w =
      let none_shared = pop_shared-none s.queue _ refl fails in
      omega (arith, v.balance w, ap (total_local w) e, ap (total w) none_shared, ap (total w) idle)
  pop_from-none s ((x, n) ∷ l) e room v idle fails w =
      let asc : Ascending (size s.popped) ((x, n) ∷ l) (size s.pushed) = rw e at v.ascending in
      let less : size s.popped < 2 ^ 64 = omega (arith, v.balance (λ _. 1)) in
      let number : add64 s.queue.consumed_index 1 ≡ size s.popped = omega (arith, v.consumed) in
      elim (Bool-cases (size s.popped == n)) [
        | inl own ↦ let got : some x ≡ none = rw (number, own) at fails in cc
        | inr other ↦
            let none_shared = pop_shared-none s.queue _ refl (rw (number, other) at fails) in
            let later : n ≢ size s.popped = ground arith in
            absurd (
              omega (
                arith,
                asc.0,
                Ascending-room (suc n) (size s.pushed) l asc.1,
                v.balance (λ _. 1),
                ap (total_local (λ _. 1)) e,
                ap (total (λ _. 1)) none_shared,
                ap (total (λ _. 1)) idle,
              ))
      ]

  -- From a new queue with `initial_size` 0, under every interleaving of fewer than 2^64 pushes,
  -- `try_pop` by the owner finds nothing only if nothing is there: unless a push is under way, what was
  -- popped weighs as much as all that was pushed, by any weight of items.
  pub try_pop_progress :
      (empty : cq.Queue) (default : T) (id : ℕ) (s : System cq) (w : T → ℕ)
      → cq.items empty ≡ []
      → Reach cq (start_system cq empty default id) s
      → size s.pushed < 2 ^ 64
      → s.pending ≡ []
      → (pop_from cq s.queue.local_queue s.queue).0 ≡ none
      → total w s.pushed ≡ total w s.popped
  try_pop_progress empty default id s w e r room idle fails =
      pop_from-none s s.queue.local_queue refl room
        (Reach-Inv (start_system cq empty default id) s (Inv-start empty default id e) r room) idle
        fails w
