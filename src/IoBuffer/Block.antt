-- ===== src/IoBuffer/Block.antt =====
-- The control block of an `io_buffer`, `check`, `__size` and `__shrink_size`
-- (iobuffer/io_buffer.h). A buffer is its control block and the memory that all buffers share: the
-- bytes of the pages and the store of free pages.
use npoller.Base.{
  ℕ, zero, suc, ◌+◌, ◌/◌, ◌==◌, ltb, leb, ◌||◌, if◌then◌else◌, List, [], ◌∷◌, length, drop, init,
  last?, Outcome, ok, err, checked, ◌>>=◌, logic_error, out_of_fuel, npos, sub64, mul64,
}
use npoller.PageStore.{PageStore}
use npoller.Pages.{Cells, default_size, page_at}

-- `struct control_block`
pub record ControlBlock : Type 0 where
  pub buffer : List ℕ
  pub begin : ℕ
  pub end : ℕ

-- The constructor `io_buffer()`.
abbrev pub new_block : ControlBlock
new_block = record { buffer = []; begin = npos; end = 0 }

-- What the buffers share: the bytes of all pages, and the static `mem`.
pub record Memory (S : Type 0) : Type 0 where
  pub cells : Cells
  pub store : S

-- `_buffer.size() * DEFAULT_SIZE`
abbrev pub capacity : List ℕ → ℕ
capacity buffer = mul64 (length buffer) default_size

unfoldable pub check : ControlBlock → Outcome ControlBlock
check b =
    if (b.begin == npos) || ((b.end == 0) || leb b.end b.begin)
    then ok (record b { begin = npos; end = 0 })
    else if ltb (capacity b.buffer) (sub64 b.end b.begin)
    then err logic_error
    else ok b

unfoldable pub size : ControlBlock → ℕ
size b = if (b.begin == npos) || (b.end == 0) then 0 else sub64 b.end b.begin

module _ (ps : PageStore) where
  -- `while (!_buffer.empty()) { mem.push(_buffer[0]); _buffer.pop_front(); }`
  unfoldable pub release_all : ps.Store → List ℕ → ps.Store
  release_all s [] = s
  release_all s (p ∷ qs) = release_all (ps.push s p) qs

  -- The loop that gives back the pages before `begin`.
  unfoldable pub drop_front : ℕ → ps.Store → ControlBlock → Outcome (ps.Store × ControlBlock)
  drop_front zero s b = err out_of_fuel
  drop_front (suc fuel) s b =
      let next = page_at b.buffer 0 >>= λ p. drop_front fuel (ps.push s p) (record b {
        buffer = drop 1 b.buffer;
        begin = sub64 b.begin default_size;
        end = sub64 b.end default_size;
      }) in
      if ltb 0 (b.begin / default_size) then next else ok (s, b)

  -- The loop that gives back the pages behind the one of `end`.
  unfoldable pub drop_back : ℕ → ps.Store → ControlBlock → Outcome (ps.Store × ControlBlock)
  drop_back zero s b = err out_of_fuel
  drop_back (suc fuel) s b =
      let next = checked (last? b.buffer) >>= λ p.
      drop_back fuel (ps.push s p) (record b { buffer = init b.buffer }) in
      if ltb (b.end / default_size + 1) (length b.buffer) then next else ok (s, b)

  -- `__shrink_size`, with fuel for as many rounds as there are pages to give back.
  unfoldable pub do_shrink_size : ps.Store → ControlBlock → Outcome (ps.Store × ControlBlock)
  do_shrink_size s b = do
    b ← check b
    if b.begin == npos then ok (release_all s b.buffer, record b { buffer = [] }) else do
      (s, b) ← drop_front (b.begin / default_size + 1) s b
      drop_back (length b.buffer + 1) s b

  -- `shrink_size()`, and a call of `__shrink_size()` on the whole state.
  unfoldable pub shrink_size :
      Memory ps.Store → ControlBlock → Outcome (Memory ps.Store × ControlBlock)
  shrink_size m b = do (s, b) ← do_shrink_size m.store b; ok (record m { store = s }, b)
