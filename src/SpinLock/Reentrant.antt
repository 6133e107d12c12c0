-- ===== src/SpinLock/Reentrant.antt =====
-- `reentrant_spin_lock` (spinlock/spin_lock.h): a thread may take it again while it holds it.
-- Thread 0 stands for `default_id`, which no running thread has. `count` changes only while its
-- owner is fixed, so it goes in one step with the atomic access before or after it. `lock()` is
-- `try_lock()` again and again, with pauses between (SpinLock/Backoff).
use npoller.Base.{
  ℕ, ◌+◌, ◌-◌, ◌%◌, ◌^◌, ◌≤◌, ◌<◌, ◌≡◌, ◌≢◌, ◌↔◌, inl, inr, refl, Bool, true, false, Bool-cases,
  ◌==◌, if◌then◌else◌, List, [], ◌∷◌, length, All, Outcome, ok, err, ◌>>=◌, runtime_error,
  undefined_behaviour, arith,
}

pub record ReentrantSpinLock : Type 0 where
  pub count : ℕ
  pub thread_id : ℕ

abbrev pub default_id : ℕ
default_id = 0

abbrev pub new_lock : ReentrantSpinLock
new_lock = record { count = 0; thread_id = default_id }

-- `count++` on an `int`.
abbrev count_up : ℕ → Outcome ℕ
count_up n = if n == 2 ^ 31 - 1 then err undefined_behaviour else ok (n + 1)

-- `try_lock()`, and one round of the loop of `lock()`: the exchange succeeds on a free lock; if it
-- fails it leaves the owner in `contained`.
unfoldable pub try_lock : ℕ → ReentrantSpinLock → Outcome (Bool × ReentrantSpinLock)
try_lock id l =
    if (l.thread_id == default_id)
    then (count_up l.count >>= λ n. ok (true, record { count = n; thread_id = id }))
    else if l.thread_id == id
    then (count_up l.count >>= λ n. ok (true, record l { count = n }))
    else ok (false, l)

-- `unlock()`; `--count` is taken modulo 2^32.
unfoldable pub unlock : ℕ → ReentrantSpinLock → Outcome ReentrantSpinLock
unlock id l =
    if id == l.thread_id
    then ok (
        let n = (l.count + 2 ^ 32 - 1) % 2 ^ 32 in
        if n == 0 then record { count = n; thread_id = default_id } else record l { count = n })
    else err runtime_error

pub data Action : Type 0 where
  acquire release : Action

-- The lock, and how often each thread has it.
pub record System : Type 0 where
  pub lock : ReentrantSpinLock
  pub depth : ℕ → ℕ

abbrev pub start : System
start = record { lock = new_lock; depth = λ _. 0 }

abbrev pub update : (ℕ → ℕ) → ℕ → ℕ → ℕ → ℕ
update f i v j = if j == i then v else f j

abbrev acquired : System → ℕ → Bool × ReentrantSpinLock → System
acquired s i (true, l) = record { lock = l; depth = update s.depth i (s.depth i + 1) }
acquired s i (false, l) = record s { lock = l }

-- An `unlock` that throws changes nothing.
abbrev released : System → ℕ → Outcome ReentrantSpinLock → System
released s i (ok l) = record { lock = l; depth = update s.depth i (s.depth i - 1) }
released s i (err e) = s

unfoldable pub step : System → ℕ → Action → Outcome System
step s i acquire = try_lock i s.lock >>= λ r. ok (acquired s i r)
step s i release = ok (released s i (unlock i s.lock))

unfoldable pub run : List (ℕ × Action) → System → Outcome System
run [] s = ok s
run ((i, action) ∷ rest) s = step s i action >>= λ t. run rest t

pub record Inv (s : System) : Type 0 where
  pub others : (j : ℕ) → j ≢ s.lock.thread_id → s.depth j ≡ 0
  pub counted : s.depth s.lock.thread_id ≡ s.lock.count
  pub free : s.lock.thread_id ≡ 0 → s.lock.count ≡ 0
  pub held : s.lock.count ≡ 0 → s.lock.thread_id ≡ 0

Inv-start : Inv start
Inv-start = record { others = λ j ne. refl; counted = refl; free = λ e. refl; held = λ e. refl }

acquire-Inv :
    (s : System) (i : ℕ)
    → i ≢ 0
    → s.lock.count + 1 < 2 ^ 31
    → Inv s
    → (t : System) × (step s i acquire ≡ ok t) × Inv t × (t.lock.count ≤ s.lock.count + 1)
unfolding step try_lock
acquire-Inv s i real room v =
    let more : (s.lock.count == 2 ^ 31 - 1) ≡ false = ground arith in
    elim (Bool-cases (s.lock.thread_id == 0)) [
      | inl unowned ↦ (
        record {
          lock = record { count = s.lock.count + 1; thread_id = i };
          depth = update s.depth i (s.depth i + 1);
        },
        rw (unowned, more),
        record {
          others = λ j ne. ground (arith, v.others j, v.counted, v.free);
          counted = ground (arith, v.others i, v.counted, v.free);
          free = λ e. absurd (real e);
          held = λ e. absurd (omega arith);
        },
        omega arith,
      )
      | inr owned ↦ elim (Bool-cases (s.lock.thread_id == i)) [
        | inl mine ↦ (
          record {
            lock = record s.lock { count = s.lock.count + 1 };
            depth = update s.depth i (s.depth i + 1);
          },
          rw (owned, mine, more),
          record {
            others = λ j ne. ground (arith, v.others j);
            counted = ground (arith, v.counted);
            free = λ e. ground arith;
            held = λ e. absurd (omega arith);
          },
          omega arith,
        )
        | inr theirs ↦ (s, rw (owned, theirs), v, omega arith)
      ]
    ]

count_down : (n : ℕ) → 0 < n → n < 2 ^ 31 → (n + 2 ^ 32 - 1) % 2 ^ 32 ≡ n - 1
count_down n some_left room = omega arith

release-Inv :
    (s : System) (i : ℕ)
    → i ≢ 0
    → s.lock.count < 2 ^ 31
    → Inv s
    → (t : System) × (step s i release ≡ ok t) × Inv t × (t.lock.count ≤ s.lock.count + 1)
unfolding step unlock
release-Inv s i real room v = elim (Bool-cases (i == s.lock.thread_id)) [
  | inr theirs ↦ (s, rw theirs, v, omega arith)
  | inl mine ↦
      let is : i ≡ s.lock.thread_id = ground arith in
      let some_left : 0 < s.lock.count = ground (arith, v.held) in
      let down = count_down s.lock.count some_left room in
      elim (Bool-cases ((s.lock.count - 1) == 0)) [
        | inl last ↦ (
          record {
            lock = record { count = s.lock.count - 1; thread_id = default_id };
            depth = update s.depth i (s.depth i - 1);
          },
          rw (mine, down, last),
          record {
            others = λ j ne. ground (arith, v.others j, v.counted);
            counted = ground (arith, v.others 0);
            free = λ e. ground arith;
            held = λ e. refl;
          },
          omega arith,
        )
        | inr more ↦ (
          record {
            lock = record s.lock { count = s.lock.count - 1 };
            depth = update s.depth i (s.depth i - 1);
          },
          rw (mine, down, more),
          record {
            others = λ j ne. ground (arith, v.others j);
            counted = ground (arith, v.counted);
            free = λ e. absurd (ground arith);
            held = λ e. absurd (ground arith);
          },
          omega arith,
        )
      ]
]

-- Each step is of a thread, and adds at most one to `count`.
run-Inv :
    (schedule : List (ℕ × Action)) (s : System)
    → All (λ e. e.0 ≢ 0) schedule
    → s.lock.count + length schedule < 2 ^ 31
    → Inv s
    → (t : System) × (run schedule s ≡ ok t)
      × Inv t
      × (t.lock.count ≤ s.lock.count + length schedule)
unfolding run
run-Inv [] s real room v = (s, refl, v, omega arith)
run-Inv ((i, acquire) ∷ rest) s (real, reals) room v =
    let (t, runs, inv, small) = acquire-Inv s i real (omega arith) v in
    let (u, goes, final, bound) = run-Inv rest t reals (omega arith) inv in
    (u, rw runs goes, final, omega arith)
run-Inv ((i, release) ∷ rest) s (real, reals) room v =
    let (t, runs, inv, small) = release-Inv s i real (omega arith) v in
    let (u, goes, final, bound) = run-Inv rest t reals (omega arith) inv in
    (u, rw runs goes, final, omega arith)

-- Whatever fewer than 2^31 calls of `try_lock` and `unlock` the threads make, in whatever order, no
-- call overflows `count`, two threads never have the lock at once, and `count` is how often its
-- owner has it.
pub reentrant_exclusion :
    (schedule : List (ℕ × Action))
    → All (λ e. e.0 ≢ 0) schedule
    → length schedule < 2 ^ 31
    → (t : System) × (run schedule start ≡ ok t)
      × ((i j : ℕ) → 0 < t.depth i → 0 < t.depth j → i ≡ j)
      × ((i : ℕ) → 0 < t.depth i → t.lock.count ≡ t.depth i)
reentrant_exclusion schedule real room =
    let (t, runs, v, _) = run-Inv schedule start real (omega arith) Inv-start in
    (
      t,
      runs,
      λ i j hi hj. ground (arith, v.others i, v.others j),
      λ i hi. ground (arith, v.others i, v.counted),
    )

try_lock-answer :
    (s : System) (i : ℕ)
    → i ≢ 0
    → s.lock.count + 1 < 2 ^ 31
    → Inv s
    → (l : ReentrantSpinLock) × (won : Bool) × (try_lock i s.lock ≡ ok (won, l))
      × ((won ≡ true) ↔ ((j : ℕ) → 0 < s.depth j → j ≡ i))
unfolding try_lock
try_lock-answer s i real room v =
    let more : (s.lock.count == 2 ^ 31 - 1) ≡ false = ground arith in
    elim (Bool-cases (s.lock.thread_id == 0)) [
      | inl unowned ↦ (
        record { count = s.lock.count + 1; thread_id = i },
        true,
        rw (unowned, more),
        (λ e j has. absurd (ground (arith, v.others j, v.counted, v.free)), λ alone. refl),
      )
      | inr owned ↦ elim (Bool-cases (s.lock.thread_id == i)) [
        | inl mine ↦ (
          record s.lock { count = s.lock.count + 1 },
          true,
          rw (owned, mine, more),
          (λ e j has. ground (arith, v.others j), λ alone. refl),
        )
        | inr theirs ↦ (
          s.lock,
          false,
          rw (owned, theirs),
          (λ e. cc, λ alone. absurd (ground (arith, alone s.lock.thread_id, v.counted, v.held))),
        )
      ]
    ]

unlock-answer :
    (s : System) (i : ℕ) → i ≢ 0 → Inv s → (unlock i s.lock ≡ err runtime_error) ↔ (s.depth i ≡ 0)
unfolding unlock
unlock-answer s i real v = elim (Bool-cases (i == s.lock.thread_id)) [
  | inr theirs ↦ (λ e. ground (arith, v.others i), λ e. rw theirs)
  | inl mine ↦ (
    λ throws. let wrong = rw mine at throws in cc,
    λ none_left. absurd (ground (arith, v.counted, v.held)),
  )
]

-- After fewer than 2^31 - 1 calls, `try_lock` gives a thread the lock if no other thread has it, and
-- refuses it otherwise; `unlock` throws exactly for a thread that does not have it.
pub reentrant_answers :
    (schedule : List (ℕ × Action)) (t : System) (i : ℕ)
    → All (λ e. e.0 ≢ 0) schedule
    → length schedule + 1 < 2 ^ 31
    → i ≢ 0
    → run schedule start ≡ ok t
    → ((l : ReentrantSpinLock) × (won : Bool) × (try_lock i t.lock ≡ ok (won, l))
        × ((won ≡ true) ↔ ((j : ℕ) → 0 < t.depth j → j ≡ i)))
      × ((unlock i t.lock ≡ err runtime_error) ↔ (t.depth i ≡ 0))
reentrant_answers schedule t i real room some_thread runs =
    let (t', runs', v', bound) = run-Inv schedule start real (omega arith) Inv-start in
    let is : t' ≡ t = cc in
    let v : Inv t = rw is at v' in
    let small : t.lock.count ≤ 0 + length schedule = rw is at bound in
    (try_lock-answer t i some_thread (omega arith) v, unlock-answer t i some_thread v)
