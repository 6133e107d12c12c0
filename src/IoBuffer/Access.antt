-- ===== src/IoBuffer/Access.antt =====
-- `get`, `get_n` and `set` (iobuffer/io_buffer.cpp).
pub mod Reads
use npoller.Base.{
  ℕ, ◌+◌, ◌/◌, ◌%◌, ◌==◌, ltb, leb, ◌&&◌, ◌||◌, if◌then◌else◌, List, [], Outcome, ok, err, ◌>>=◌,
  logic_error, npos, add64, sub64,
}
use npoller.Pages.{Cells, write, default_size, page_at, copy_out}
use npoller.IoBuffer.Block.{ControlBlock}

unfoldable pub get : ℕ → Cells → ControlBlock → Outcome ℕ
get n c b = if leb (sub64 b.end b.begin) n || (b.begin == npos) then err logic_error else do
  p ← page_at b.buffer (add64 b.begin n / default_size)
  ok (c p (add64 b.begin n % default_size))

-- The number returned, the bytes written to `dest`, and the block.
unfoldable pub get_n : ℕ → ℕ → Cells → ControlBlock → Outcome ((ℕ × List ℕ) × ControlBlock)
get_n n size c b =
    if (b.begin == npos) && leb b.end b.begin
    then ok ((0, []), record b { begin = npos; end = 0 })
    else if leb (sub64 b.end b.begin) n
    then ok ((0, []), b)
    else do
      let from = add64 b.begin n
      let size = if leb b.end (sub64 (add64 from size) 1) then sub64 b.end from else size
      block ← page_at b.buffer (from / default_size)
      dest ← copy_out b.buffer block from size c
      ok ((size, dest), b)

-- The guard of the source is `n > end - begin`.
unfoldable pub set : ℕ → ℕ → Cells → ControlBlock → Outcome Cells
set n byte c b = if ltb (sub64 b.end b.begin) n then err logic_error else do
  p ← page_at b.buffer (add64 b.begin n / default_size)
  ok (write c p (add64 b.begin n % default_size) byte)
