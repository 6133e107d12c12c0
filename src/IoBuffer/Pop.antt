-- ===== src/IoBuffer/Pop.antt =====
-- The four `pop_back_n` and `pop_front_n` (iobuffer/io_buffer.cpp). The overloads that fill `dest`
-- have `_to` in their names here, and give back the bytes written with the number returned.
pub mod Discard
pub mod Front
pub mod Back
use npoller.Base.{
  ℕ, ◌+◌, ◌/◌, ◌==◌, ltb, leb, ◌&&◌, if◌then◌else◌, List, [], length, Outcome, ok, ◌>>=◌, npos,
  add64, sub64,
}
use npoller.PageStore.{PageStore}
use npoller.Pages.{default_size, page_at, copy_out}
use npoller.IoBuffer.Block.{ControlBlock, Memory, check, shrink_size}

-- `begin = -1; end = 0;`
abbrev pub reset : ControlBlock → ControlBlock
reset b = record b { begin = npos; end = 0 }

module _ (ps : PageStore) where
  -- `void pop_back_n(size_t)`
  unfoldable pub pop_back_n :
      ℕ → Memory ps.Store → ControlBlock → Outcome (Memory ps.Store × ControlBlock)
  pop_back_n size m b = do
    b ← check b
    if b.begin == npos then ok (m, b) else do
      let b =
          if ltb (sub64 b.end b.begin) size then reset b else record b { end = sub64 b.end size }
      b ← check b
      shrink_size ps m b

  -- `void pop_front_n(size_t)`
  unfoldable pub pop_front_n :
      ℕ → Memory ps.Store → ControlBlock → Outcome (Memory ps.Store × ControlBlock)
  pop_front_n size m b = do
    b ← check b
    if b.begin == npos
        then ok (m, b)
        else shrink_size ps m (
            if ltb (sub64 b.end b.begin) size
            then reset b
            else record b { begin = add64 b.begin size })

  -- The part of `pop_front_n` behind the test that shortens `size`.
  unfoldable pub take_front :
      ℕ → Memory ps.Store → ControlBlock → Outcome ((ℕ × List ℕ) × (Memory ps.Store × ControlBlock))
  take_front size m b = do
    block ← page_at b.buffer (b.begin / default_size)
    dest ← copy_out b.buffer block b.begin size m.cells
    let begin = add64 b.begin size
    after ← shrink_size ps m (if leb b.end begin then reset b else record b { begin = begin })
    ok ((size, dest), after)

  -- `size_t pop_front_n(char *dest, size_t)`
  unfoldable pub pop_front_n_to :
      ℕ → Memory ps.Store → ControlBlock → Outcome ((ℕ × List ℕ) × (Memory ps.Store × ControlBlock))
  pop_front_n_to size m b =
      if (b.begin == npos) && leb b.end b.begin
      then ok ((0, []), (m, reset b))
      else take_front
          (if leb b.end (sub64 (add64 b.begin size) 1) then sub64 b.end b.begin else size) m b

  -- The part of `pop_back_n` behind the last test that shortens `size`.
  unfoldable pub take_back :
      ℕ
      → ℕ
      → Memory ps.Store
      → ControlBlock
      → Outcome ((ℕ × List ℕ) × (Memory ps.Store × ControlBlock))
  take_back from size m b = do
    block ← page_at b.buffer (from / default_size)
    dest ← copy_out b.buffer block from size m.cells
    let end = sub64 b.end size
    after ← shrink_size ps m (if leb end b.begin then reset b else record b { end = end })
    ok ((size, dest), after)

  -- `size_t pop_back_n(char *dest, size_t)`; its `n` is `end - size`, not `end - begin - size`.
  unfoldable pub pop_back_n_to :
      ℕ → Memory ps.Store → ControlBlock → Outcome ((ℕ × List ℕ) × (Memory ps.Store × ControlBlock))
  pop_back_n_to size m b =
      let held = sub64 b.end b.begin in
      let n = if leb size held then sub64 b.end size else 0 in
      let size = if leb size held then size else held in
      let from = add64 b.begin n in
      if (b.begin == npos) && leb b.end b.begin
      then ok ((0, []), (m, reset b))
      else if leb held n
      then ok ((0, []), (m, b))
      else take_back from (if leb b.end (sub64 (add64 from size) 1) then sub64 b.end from else size)
          m b
