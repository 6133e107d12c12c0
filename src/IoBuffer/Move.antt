-- ===== src/IoBuffer/Move.antt =====
-- `pop_front_to_other_back_n` and `pop_back_to_other_front_n` (iobuffer/io_buffer.cpp) move bytes from one
-- end of a buffer to the opposite end of another or of itself. Here: what their four parts share.

pub mod Frame
pub mod Span
pub mod Owned
pub mod Beside
pub mod Start
pub mod ToBack
pub mod ToFront
pub mod SelfBack
pub mod SelfFront
pub mod Either
pub mod Turning
use npoller.Base.{
  ℕ, zero, suc, ◌+◌, ◌*◌, ◌/◌, ◌%◌, ◌==◌, ltb, leb, not, ◌&&◌, ◌||◌, if◌then◌else◌, List, [], ◌∷◌,
  ◌++◌, length, drop, init, last?, Outcome, ok, err, checked, ◌>>=◌, npos, add64, sub64,
}
use npoller.PageStore.{PageStore}
use npoller.Pages.{Cells, default_size, page_at}
use npoller.IoBuffer.Block.{ControlBlock, Memory, check, shrink_size}

module _ (ps : PageStore) where
  -- Two buffers with control blocks of their own, `*this` and `other`, and the memory.
  pub record Two : Type 0 where
    pub memory : Memory ps.Store
    pub this : ControlBlock
    pub other : ControlBlock

  -- One buffer, which is both `*this` and `other`.
  pub record One : Type 0 where
    pub memory : Memory ps.Store
    pub this : ControlBlock

  -- `check(); __shrink_size();`
  unfoldable pub check_and_shrink : One → Outcome One
  check_and_shrink t = do
    this ← check t.this
    (m, this) ← shrink_size ps t.memory this
    ok (record { memory = m; this = this })

  -- The first page for an `other` without pages: one that `*this` does not use, or a new one.
  unfoldable pub lend_page : Two → Outcome Two
  lend_page t =
      if ltb (sub64 t.this.end 1 / default_size) (sub64 (length t.this.buffer) 1)
      then (checked (last? t.this.buffer) >>= λ p. ok (record t {
        this = record t.this { buffer = init t.this.buffer };
        other = record t.other { buffer = t.other.buffer ++ (p ∷ []) };
      }))
      else if ltb 0 (t.this.begin / default_size)
      then (page_at t.this.buffer 0 >>= λ p. ok (record t {
        this = record {
          buffer = drop 1 t.this.buffer;
          begin = sub64 t.this.begin default_size;
          end = sub64 t.this.end default_size;
        };
        other = record t.other { buffer = t.other.buffer ++ (p ∷ []) };
      }))
      else ok (record t {
        memory = record t.memory { store = (ps.alloc t.memory.store).1 };
        other = record t.other { buffer = t.other.buffer ++ ((ps.alloc t.memory.store).0 ∷ []) };
      })

  -- An empty `other` begins and ends where `at` says, within a page.
  unfoldable pub start_other : (ControlBlock → ℕ) → Two → Outcome Two
  start_other at_pos t =
      if t.other.begin == npos
      then (do
        t ← (if length t.other.buffer == 0 then lend_page t else ok t)
        ok (record t {
          other = record t.other {
            begin = at_pos t.this % default_size;
            end = at_pos t.this % default_size;
          };
        }))
      else ok t

  -- `check(); other.check();`
  unfoldable pub check_both : Two → Outcome Two
  check_both t = do
    this ← check t.this
    other ← check t.other
    ok (record t { this = this; other = other })

  -- `__shrink_size(); other.__shrink_size();`
  unfoldable pub shrink_both : Two → Outcome Two
  shrink_both t = do
    (m, this) ← shrink_size ps t.memory t.this
    (m, other) ← shrink_size ps m t.other
    ok (record { memory = m; this = this; other = other })
