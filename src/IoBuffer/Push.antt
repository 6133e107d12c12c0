-- ===== src/IoBuffer/Push.antt =====
-- `push_back_n` and `push_front_n` (iobuffer/io_buffer.cpp). The bytes behind the pointer `src` and
-- their number `size` are one list, and `none` is the null pointer.
pub mod Back
pub mod Front
use npoller.Base.{
  ℕ, zero, suc, ◌+◌, ◌/◌, ◌==◌, ltb, if◌then◌else◌, List, [], ◌∷◌, ◌++◌, length, Option, none, some,
  Outcome, ok, err, ◌>>=◌, out_of_fuel, npos, add64, sub64,
}
use npoller.PageStore.{PageStore}
use npoller.Pages.{Cells, default_size, page_at, copy_in}
use npoller.IoBuffer.Block.{ControlBlock, Memory, capacity, check}

-- The bytes that a call hands over: none behind a null pointer.
abbrev pub source_bytes : Option (List ℕ) → List ℕ
source_bytes none = []
source_bytes (some src) = src

module _ (ps : PageStore) where
  -- `while (need > _buffer.size() * DEFAULT_SIZE) _buffer.push_back(mem.get());`
  unfoldable pub grow_back : ℕ → ℕ → ps.Store → List ℕ → Outcome (ps.Store × List ℕ)
  grow_back zero need s buffer = err out_of_fuel
  grow_back (suc fuel) need s buffer =
      let next = grow_back fuel need (ps.get s).1 (buffer ++ ((ps.get s).0 ∷ [])) in
      if ltb (capacity buffer) need then next else ok (s, buffer)

  -- `while (size > _buffer.size() * DEFAULT_SIZE) _buffer.push_front(mem.get());`
  unfoldable pub grow_empty : ℕ → ℕ → ps.Store → List ℕ → Outcome (ps.Store × List ℕ)
  grow_empty zero size s buffer = err out_of_fuel
  grow_empty (suc fuel) size s buffer =
      let next = grow_empty fuel size (ps.get s).1 ((ps.get s).0 ∷ buffer) in
      if ltb (capacity buffer) size then next else ok (s, buffer)

  -- `while (size > begin)`, a page in front for each round.
  unfoldable pub grow_front : ℕ → ℕ → ps.Store → ControlBlock → Outcome (ps.Store × ControlBlock)
  grow_front zero size s b = err out_of_fuel
  grow_front (suc fuel) size s b =
      let next = grow_front fuel size (ps.get s).1 (record b {
        buffer = (ps.get s).0 ∷ b.buffer;
        begin = add64 b.begin default_size;
        end = add64 b.end default_size;
      }) in
      if ltb b.begin size then next else ok (s, b)

  -- The loops of `push_back_n`: room behind `end`, then the copy.
  unfoldable pub append_bytes :
      List ℕ → Memory ps.Store → ControlBlock → Outcome (Memory ps.Store × ControlBlock)
  append_bytes src m b = do
    let need = add64 (length src) b.end
    (s, buffer) ← grow_back (need + 1) need m.store b.buffer
    block ← page_at buffer (b.end / default_size)
    c ← copy_in buffer block b.end src m.cells
    ok (
      record { cells = c; store = s },
      record b { buffer = buffer; end = add64 b.end (length src) },
    )

  -- The part of `push_back_n` behind its early return.
  unfoldable pub push_back_bytes :
      List ℕ → Memory ps.Store → ControlBlock → Outcome (Memory ps.Store × ControlBlock)
  push_back_bytes src m b =
      append_bytes src m (if b.begin == npos then record b { begin = 0; end = 0 } else b)

  unfoldable pub push_back_n :
      Option (List ℕ) → Memory ps.Store → ControlBlock → Outcome (Memory ps.Store × ControlBlock)
  push_back_n src m b = do
    b ← check b
    elim src [
      | none ↦ ok (m, b)
      | some bytes ↦ if length bytes == 0 then ok (m, b) else push_back_bytes bytes m b
    ]

  -- The room that `push_front_n` makes: `begin` is where the new bytes go.
  unfoldable pub make_front_room : ℕ → ps.Store → ControlBlock → Outcome (ps.Store × ControlBlock)
  make_front_room size s b =
      if b.begin == npos
      then (do
        (s, buffer) ← grow_empty (size + 1) size s b.buffer
        ok (s, record { buffer = buffer; begin = 0; end = add64 0 size }))
      else (do
        (s, b) ← grow_front (size + 1) size s b
        ok (s, record b { begin = sub64 b.begin size }))

  -- The copy at the end of `push_front_n`.
  unfoldable pub prepend_bytes :
      List ℕ → ps.Store × ControlBlock → Cells → Outcome (Memory ps.Store × ControlBlock)
  prepend_bytes src (s, b) cells = do
    block ← page_at b.buffer (b.begin / default_size)
    c ← copy_in b.buffer block b.begin src cells
    ok (record { cells = c; store = s }, b)

  unfoldable pub push_front_bytes :
      List ℕ → Memory ps.Store → ControlBlock → Outcome (Memory ps.Store × ControlBlock)
  push_front_bytes src m b = do
    b ← check b
    room ← make_front_room (length src) m.store b
    prepend_bytes src room m.cells

  -- The early return stands before `check()`.
  unfoldable pub push_front_n :
      Option (List ℕ) → Memory ps.Store → ControlBlock → Outcome (Memory ps.Store × ControlBlock)
  push_front_n none m b = ok (m, b)
  push_front_n (some src) m b = if length src == 0 then ok (m, b) else push_front_bytes src m b
