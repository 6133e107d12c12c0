-- ===== src/MemContainer.antt =====
-- `mem_container` (iobuffer/buffer.h): the store of free pages. `boost::lockfree::queue` is not
-- this repository's: it is a parameter, with the behaviour that its documentation gives it when one
-- thread at a time uses it. The shared mutex, which only the destructor takes alone, has no part here.
pub mod Laws
pub mod Capacity
pub mod Usage
use npoller.Base.{
  ℕ, ◌+◌, ◌-◌, ◌%◌, ◌^◌, ◌≡◌, ◌≢◌, ltb, leb, Bool, true, false, if◌then◌else◌, List, [], ◌∷◌, ◌++◌,
}

-- A queue of page addresses. `items` is what it holds, oldest first. What `pop` gives means
-- something only where the queue is not empty, as `pop(ret)` leaves `ret` unset otherwise.
pub record FreeQueue : Type 1 where
  pub Queue : Type 0
  pub empty : Queue → Bool
  pub pop : Queue → ℕ × Queue
  pub push : Queue → ℕ → Queue
  pub items : Queue → List ℕ
  pub empty-true : (q : Queue) → empty q ≡ true → items q ≡ []
  pub pop-items : (q : Queue) → empty q ≡ false → items q ≡ (pop q).0 ∷ items (pop q).1
  pub items-push : (q : Queue) (p : ℕ) → items (push q p) ≡ items q ++ (p ∷ [])

-- `MIN_CAPACITY`
abbrev pub min_capacity : ℕ
min_capacity = 0x100

-- `size` is a 32-bit `int`, kept as its bit pattern. `next` is the address of the next page that
-- `new char[DEFAULT_SIZE]` gives out: it names no page that is in use.
pub record MemContainer (Q : Type 0) : Type 0 where
  pub container : Q
  pub max_size : ℕ
  pub size : ℕ
  pub next : ℕ

-- The conversion of an `int` to `size_t`.
abbrev pub to_size : ℕ → ℕ
to_size n = if ltb n (2 ^ 31) then n else n + 2 ^ 64 - 2 ^ 32

abbrev pub clamp_capacity : ℕ → ℕ
clamp_capacity size = if ltb min_capacity size then size else min_capacity

module _ (fq : FreeQueue) where
  -- The constructor, over a queue that the caller has made.
  unfoldable pub new_container : fq.Queue → ℕ → ℕ → MemContainer fq.Queue
  new_container q size next = record {
    container = q;
    max_size = clamp_capacity size;
    size = 0;
    next = next;
  }

  unfoldable pub set_max : MemContainer fq.Queue → ℕ → MemContainer fq.Queue
  set_max m size = record m { max_size = clamp_capacity size }

  -- `new char[DEFAULT_SIZE]`
  unfoldable pub alloc : MemContainer fq.Queue → ℕ × MemContainer fq.Queue
  alloc m = (m.next, record m { next = m.next + 1 })

  -- The test of `empty()` and the `pop` are one step here, as one thread at a time calls it: under the shared
  -- lock two threads can both find the last page, and one then returns an unset pointer.
  unfoldable pub get : MemContainer fq.Queue → ℕ × MemContainer fq.Queue
  get m = if fq.empty m.container then alloc m else (
    (fq.pop m.container).0,
    record m { container = (fq.pop m.container).1; size = (m.size + 2 ^ 32 - 1) % 2 ^ 32 },
  )

  -- Past the limit the page is deleted, and its address is not used again.
  unfoldable pub push : MemContainer fq.Queue → ℕ → MemContainer fq.Queue
  push m p =
      if leb (to_size m.size) m.max_size
      then record m { container = fq.push m.container p; size = (m.size + 1) % 2 ^ 32 }
      else m
