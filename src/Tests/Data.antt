-- ===== src/Tests/Data.antt =====
-- Concrete inputs: a queue for `mem_container`, and buffers over a few pages.
use npoller.Base.{
  ℕ, ◌+◌, ◌-◌, ◌≡◌, refl, Bool, true, false, ◌==◌, ◌&&◌, if◌then◌else◌, List, [], ◌∷◌, ◌++◌, arith,
  inr,
}
use npoller.PageStore.{PageStore}
use npoller.Pages.{Cells, default_size}
use npoller.Pages.Bytes.{bytes}
use npoller.MemContainer.{FreeQueue, MemContainer}
use npoller.MemContainer.Laws.{page_store}
use npoller.IoBuffer.Block.{ControlBlock, Memory}
use npoller.IoBuffer.View.{Holds, Represents}

abbrev pub is_empty : List ℕ → Bool
is_empty [] = true
is_empty (x ∷ xs) = false

abbrev pub pop_first : List ℕ → ℕ × List ℕ
pop_first [] = (0, [])
pop_first (x ∷ xs) = (x, xs)

pub is_empty-nil : (q : List ℕ) → is_empty q ≡ true → q ≡ []
is_empty-nil [] h = refl
is_empty-nil (x ∷ xs) h = cc

pub pop_first-items : (q : List ℕ) → is_empty q ≡ false → q ≡ (pop_first q).0 ∷ (pop_first q).1
pop_first-items [] h = cc
pop_first-items (x ∷ xs) h = refl

abbrev pub list_queue : FreeQueue
list_queue = record {
  Queue = List ℕ;
  empty = is_empty;
  pop = pop_first;
  push = λ q p. q ++ (p ∷ []);
  items = λ q. q;
  empty-true = is_empty-nil;
  pop-items = pop_first-items;
  items-push = λ q p. refl;
}

abbrev pub list_store : PageStore
list_store = page_store list_queue

-- One free page, 3; the pages 7 and 8 are in use, and 9 is the next new one.
abbrev pub container : MemContainer (List ℕ)
container = record { container = 3 ∷ []; max_size = 256; size = 1; next = 9 }

-- The last byte of page 7 is 65, the first two of page 8 are 66 and 67.
abbrev pub cells : Cells
cells p o =
    if (p == 7) && (o == default_size - 1)
    then 65
    else if (p == 8) && (o == 0)
    then 66
    else if (p == 8) && (o == 1)
    then 67
    else 0

abbrev pub memory : Memory (MemContainer (List ℕ))
memory = record { cells = cells; store = container }

-- Three bytes over the border of two pages.
abbrev pub crossing : ControlBlock
crossing = record { buffer = 7 ∷ 8 ∷ []; begin = default_size - 1; end = default_size + 2 }

-- Two bytes at the beginning of a page.
abbrev pub at_start : ControlBlock
at_start = record { buffer = 8 ∷ []; begin = 0; end = 2 }

-- The last byte of a page.
abbrev pub at_end : ControlBlock
at_end = record { buffer = 7 ∷ []; begin = default_size - 1; end = default_size }

pub crossing-Holds : Holds cells crossing (65 ∷ 66 ∷ 67 ∷ [])
unfolding bytes
crossing-Holds = record { order = omega arith; within = omega arith; held = refl }

pub crossing-Represents : Represents list_store memory crossing (65 ∷ 66 ∷ 67 ∷ [])
crossing-Represents = record {
  owns = record {
    valid = record { distinct = (tt, tt); below = (omega arith, tt) };
    distinct = omega arith;
    ours = omega arith;
  };
  small = omega arith;
  view = inr crossing-Holds;
}

pub at_start-Holds : Holds cells at_start (66 ∷ 67 ∷ [])
unfolding bytes
at_start-Holds = record { order = omega arith; within = omega arith; held = refl }

pub at_start-Represents : Represents list_store memory at_start (66 ∷ 67 ∷ [])
at_start-Represents = record {
  owns = record {
    valid = record { distinct = (tt, tt); below = (omega arith, tt) };
    distinct = omega arith;
    ours = omega arith;
  };
  small = omega arith;
  view = inr at_start-Holds;
}

pub at_end-Holds : Holds cells at_end (65 ∷ [])
unfolding bytes
at_end-Holds = record { order = omega arith; within = omega arith; held = refl }

pub at_end-Represents : Represents list_store memory at_end (65 ∷ [])
at_end-Represents = record {
  owns = record {
    valid = record { distinct = (tt, tt); below = (omega arith, tt) };
    distinct = omega arith;
    ours = omega arith;
  };
  small = omega arith;
  view = inr at_end-Holds;
}
