-- ===== src/ThreadPool/Wait.antt =====
-- The destructor of a `thread_pool` that waits for ever (coroutine_pool/threadpool.h).
use npoller.Base.{
  ℕ, zero, suc, ◌-◌, ◌*◌, ◌≤◌, ◌<◌, ◌≡◌, ◌≢◌, refl, sym, ap, ◌∙◌, true, false, Bool, Bool-cases,
  if◌then◌else◌, ◌==◌, inl, inr, List, [], ◌∷◌, ◌++◌, arith,
}
use npoller.ThreadPool.{
  Item, empty, Place, popping, running, checking, draining, drain_running, ended, pushing, over,
  Pool, is_running, move, Step, enqueue, enqueue_inside, pop, run, check, try_pop, run_again, leave,
  store_stop, push, join, Reach, here, next, new_pool,
}

Reach-trans : {s t u : Pool} → Reach s t → Reach t u → Reach s u
Reach-trans r here = r
Reach-trans r (next q st) = next (Reach-trans r q) st

-- All is pushed, nothing is left, no task runs, and worker `w` waits in `pop`.
record Stuck (w : ℕ) (s : Pool) : Type 0 where
  pushed : s.ending ≡ pushing 0
  nothing : s.m_tasks ≡ []
  worker : w < s.size
  waits : s.workers w ≡ popping
  idle : (u : ℕ) → is_running (s.workers u) ≡ false

move_idle :
    (f : ℕ → Place) (u : ℕ) (p : Place)
    → is_running p ≡ false
    → ((v : ℕ) → is_running (f v) ≡ false)
    → (v : ℕ) → is_running (move f u p v) ≡ false
move_idle f u p rests others v = elim (Bool-cases (v == u)) [
  | inl same ↦ rw same rests
  | inr other ↦ rw other (others v)
]

-- Another worker moves.
other_moves :
    (s : Pool) (w u : ℕ) (p q : Place)
    → s.workers w ≡ popping
    → s.workers u ≡ q
    → q ≢ popping
    → move s.workers u p w ≡ popping
other_moves s w u p q waits at_place apart = elim (Bool-cases (w == u)) [
  | inl same ↦
      let one : w ≡ u = ground arith in
      absurd (apart (sym at_place ∙ ap s.workers (sym one) ∙ waits))
  | inr other ↦ rw other waits
]

moved-Stuck :
    (s : Pool) (w u : ℕ) (p q : Place)
    → Stuck w s
    → s.workers u ≡ q
    → q ≢ popping
    → is_running p ≡ false
    → Stuck w (record s { workers = move s.workers u p })
moved-Stuck s w u p q v at_place apart rests = record {
  pushed = v.pushed;
  nothing = v.nothing;
  worker = v.worker;
  waits = other_moves s w u p q v.waits at_place apart;
  idle = move_idle s.workers u p rests v.idle;
}

rests_if : (stop : Bool) → is_running (if stop then draining else popping) ≡ false
unfolding is_running
rests_if true = refl
rests_if false = refl

Step-Stuck : (w : ℕ) {s t : Pool} → Step s t → Stuck w s → Stuck w t
unfolding is_running
Step-Stuck w {s} (enqueue t e) v = let no_way = v.pushed in cc
Step-Stuck w {s} (enqueue_inside u t h e) v = let no_way = v.idle u in cc
Step-Stuck w {s} (pop u x rest h e m) v = let no_way = v.nothing in cc
Step-Stuck w {s} (run u h e) v = moved-Stuck s w u checking running v e (λ f. cc) refl
Step-Stuck w {s} (check u h e) v = moved-Stuck s w u _ checking v e (λ f. cc) (rests_if s.stop)
Step-Stuck w {s} (try_pop u x rest h e m) v = let no_way = v.nothing in cc
Step-Stuck w {s} (run_again u h e) v = moved-Stuck s w u draining drain_running v e (λ f. cc) refl
Step-Stuck w {s} (leave u h e m) v = moved-Stuck s w u ended draining v e (λ f. cc) refl
Step-Stuck w {s} (store_stop e) v = let no_way = v.pushed in cc
Step-Stuck w {s} (push n e) v = let no_way = v.pushed in ground arith
Step-Stuck w {s} (join e all) v = let no_way = all w v.worker in let waits = v.waits in cc

Reach-Stuck : (w : ℕ) {s t : Pool} → Stuck w s → Reach s t → Stuck w t
Reach-Stuck w v here = v
Reach-Stuck w v (next r st) = Step-Stuck w st (Reach-Stuck w v r)

-- The destructor pushes all that it has to push.
push_all :
    (k : ℕ) (s : Pool)
    → s.ending ≡ pushing k
    → (t : Pool) × Reach s t × (t.ending ≡ pushing 0) × (t.workers ≡ s.workers) × (t.size ≡ s.size)
push_all zero s e = (s, here, e, refl, refl)
push_all (suc k) s e =
    let (t, r, p, w, z) =
      push_all k (record s { m_tasks = s.m_tasks ++ (empty ∷ []); ending = pushing k }) refl in
    (t, Reach-trans (next here (push k e)) r, p, w, z)

idle_again :
    (f : ℕ → Place)
    → ((u : ℕ) → is_running (f u) ≡ false)
    → (u : ℕ) → is_running (move (move f 0 drain_running) 0 draining u) ≡ false
unfolding is_running
idle_again f idle u = elim (Bool-cases (u == 0)) [
  | inl same ↦ rw same refl
  | inr other ↦ rw other (idle u)
]

-- Worker 0 empties the queue.
drain_all :
    (xs : List Item) (s : Pool)
    → s.m_tasks ≡ xs
    → 0 < s.size
    → s.workers 0 ≡ draining
    → ((u : ℕ) → is_running (s.workers u) ≡ false)
    → (t : Pool) × Reach s t
      × (t.m_tasks ≡ [])
      × (t.ending ≡ s.ending)
      × (t.workers 1 ≡ s.workers 1)
      × (t.size ≡ s.size)
      × ((u : ℕ) → is_running (t.workers u) ≡ false)
unfolding is_running
drain_all [] s e h at_place idle = (s, here, e, refl, refl, refl, idle)
drain_all (x ∷ xs) s e h at_place idle =
    let s1 = record s {
      m_tasks = xs;
      taken = s.taken ++ (x ∷ []);
      workers = move s.workers 0 drain_running;
    } in
    let s2 = record s1 { workers = move s1.workers 0 draining } in
    let (t, r, none, p, w, z, i) = drain_all xs s2 refl h refl (idle_again s.workers idle) in
    (
      t,
      Reach-trans (next (next here (try_pop 0 x xs h at_place e)) (run_again 0 h refl)) r,
      none,
      p,
      w,
      z,
      i,
    )

-- Worker 0 has run the first item and drains, and the others wait.
idle_start :
    (u : ℕ)
    → is_running (move (move (move (λ w. popping) 0 running) 0 checking) 0 draining u) ≡ false
unfolding is_running
idle_start u = elim (Bool-cases (u == 0)) [ inl same ↦ rw same refl | inr other ↦ rw other refl ]

-- A pool of two or more workers can come to a state from which its destructor never ends, whatever happens:
-- one worker has taken all that the destructor has pushed, and another still waits for an item.
pub destructor_can_wait :
    (n : ℕ) → 2 ≤ n → (s : Pool) × Reach (new_pool n) s × ((t : Pool) → Reach s t → t.ending ≢ over)
destructor_can_wait n two =
    let s0 = new_pool n in
    let room : 4 * n ≡ suc (4 * n - 1) = omega arith in
    let s1 : Pool = record s0 { stop = true; ending = pushing (4 * n) } in
    let s2 : Pool = record s1 { m_tasks = empty ∷ []; ending = pushing (4 * n - 1) } in
    let s3 : Pool = record s2 {
      m_tasks = [];
      taken = empty ∷ [];
      workers = move s2.workers 0 running;
    } in
    let s4 : Pool = record s3 { workers = move s3.workers 0 checking } in
    let s5 : Pool = record s4 { workers = move s4.workers 0 draining } in
    let r1 : Reach s0 s1 = next here (store_stop refl) in
    let r2 : Reach s0 s2 = next r1 (push (4 * n - 1) (ap pushing room)) in
    let r3 : Reach s0 s3 = next r2 (pop 0 empty [] (omega arith) refl refl) in
    let r4 : Reach s0 s4 = next r3 (run 0 (omega arith) refl) in
    let r5 : Reach s0 s5 = next r4 (check 0 (omega arith) refl) in
    let (s6, r6, pushed, workers, size) = push_all (4 * n - 1) s5 refl in
    let idle5 : (u : ℕ) → is_running (s5.workers u) ≡ false = idle_start in
    let (s7, r7, none, ending, waits, size', idle) =
      drain_all s6.m_tasks s6 refl (omega arith) (ap (λ f. f 0) workers)
        (λ u. ap (λ f. is_running (f u)) workers ∙ idle5 u) in
    let stuck : Stuck 1 s7 = record {
      pushed = ending ∙ pushed;
      nothing = none;
      worker = omega arith;
      waits = waits ∙ ap (λ f. f 1) workers;
      idle = idle;
    } in
    (
      s7,
      Reach-trans (Reach-trans r5 r6) r7,
      λ t r e. let v = Reach-Stuck 1 stuck r in let p = v.pushed in cc,
    )
