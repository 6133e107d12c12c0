-- ===== src/IoBuffer/Move/ToBack.antt =====
-- `other_pop_front_to_back_n` (iobuffer/io_buffer.cpp).
pub mod Bytes
pub mod Pages
pub mod Aligned
pub mod Law
use npoller.Base.{
  ℕ, zero, suc, ◌+◌, ◌-◌, ◌*◌, ◌/◌, ◌%◌, ◌==◌, ltb, leb, not, ◌&&◌, ◌||◌, if◌then◌else◌, List, [],
  ◌∷◌, ◌++◌, length, drop, set, Outcome, ok, err, ◌>>=◌, out_of_fuel, npos, add64, sub64,
}
use npoller.PageStore.{PageStore}
use npoller.Pages.{Cells, default_size, page_at, block_for, write}
use npoller.IoBuffer.Block.{ControlBlock, Memory, capacity}
use npoller.IoBuffer.Move.{Two, start_other, check_both, shrink_both}

module _ (ps : PageStore) where
  -- One byte from the page `from` to the page `to`, and the counting up behind it.
  unfoldable pub copy_one : ℕ → ℕ → Two ps → Two ps
  copy_one from to t = record {
    memory = record t.memory {
      cells =
          write t.memory.cells to (t.other.end % default_size)
            (t.memory.cells from (t.this.begin % default_size));
    };
    this = record t.this { begin = add64 t.this.begin 1 };
    other = record t.other { end = add64 t.other.end 1 };
  }

  -- The page for the next byte, where the last page of `other` is full.
  unfoldable pub make_back_room : Two ps → Outcome (Two ps)
  make_back_room t =
      if t.other.end == capacity t.other.buffer
      then (if leb default_size t.this.begin
          then (page_at t.this.buffer 0 >>= λ p. ok (record t {
            this = record {
              buffer = drop 1 t.this.buffer;
              begin = sub64 t.this.begin default_size;
              end = sub64 t.this.end default_size;
            };
            other = record t.other { buffer = t.other.buffer ++ (p ∷ []) };
          }))
          else if ltb 0 (length t.other.buffer) && leb default_size t.other.begin
          then (page_at t.other.buffer 0 >>= λ p. ok (record t {
            other = record {
              buffer = drop 1 (t.other.buffer ++ (p ∷ []));
              begin = sub64 t.other.begin default_size;
              end = sub64 t.other.end default_size;
            };
          }))
          else ok (record t {
            memory = record t.memory { store = (ps.alloc t.memory.store).1 };
            other = record t.other {
              buffer = t.other.buffer ++ ((ps.alloc t.memory.store).0 ∷ []);
            };
          }))
      else ok t

  -- The loop over the bytes; `from` and `to` are the cached pages.
  unfoldable pub move_bytes : ℕ → ℕ → ℕ → Two ps → Outcome (Two ps)
  move_bytes zero from to t = ok t
  move_bytes (suc n) from to t = do
    t ← make_back_room t
    to ← block_for t.other.buffer to t.other.end
    from ← block_for t.this.buffer from t.this.begin
    move_bytes n from to (copy_one from to t)

  -- The loop that fills a page that has been begun, before whole pages are moved.
  unfoldable pub fill_page : ℕ → ℕ → ℕ → Two ps → Two ps
  fill_page zero from to t = t
  fill_page (suc n) from to t = fill_page n from to (copy_one from to t)

  -- One whole page, `p`: it changes places with a free one of `other`, or moves.
  unfoldable pub hand_page : Two ps → ℕ → Outcome (Two ps)
  hand_page t p =
      if not (t.other.end == capacity t.other.buffer)
      then (page_at t.other.buffer (t.other.end / default_size) >>= λ q. ok (record t {
        this = record t.this {
          buffer = set t.this.buffer (t.this.begin / default_size) q;
          begin = add64 t.this.begin default_size;
        };
        other = record t.other {
          buffer = set t.other.buffer (t.other.end / default_size) p;
          end = add64 t.other.end default_size;
        };
      }))
      else if not (t.this.begin == 0)
      then (page_at t.this.buffer 0 >>= λ f. ok (record t {
        this = record t.this {
          buffer = drop 1 (set t.this.buffer (t.this.begin / default_size) f);
          end = sub64 t.this.end default_size;
        };
        other = record t.other {
          buffer = t.other.buffer ++ (p ∷ []);
          end = add64 t.other.end default_size;
        };
      }))
      else ok (record t {
        this = record t.this { buffer = drop 1 t.this.buffer; end = sub64 t.this.end default_size };
        other = record t.other {
          buffer = t.other.buffer ++ (p ∷ []);
          end = add64 t.other.end default_size;
        };
      })

  unfoldable pub move_page : Two ps → Outcome (Two ps)
  move_page t = page_at t.this.buffer (t.this.begin / default_size) >>= λ p. hand_page t p

  -- The loop over whole pages, and the number of bytes that are left.
  unfoldable pub move_pages : ℕ → ℕ → Two ps → Outcome (ℕ × Two ps)
  move_pages zero n t = err out_of_fuel
  move_pages (suc fuel) n t =
      let next = move_page t >>= λ t. move_pages fuel (n - default_size) t in
      if ltb default_size n then next else ok (n, t)

  -- The part for more than two pages of bytes that lie alike in both buffers.
  unfoldable pub move_aligned : ℕ → Two ps → Outcome (ℕ × Two ps)
  move_aligned n t =
      let first = t.this.begin % default_size in
      if (sub64 t.this.begin t.other.end % default_size == 0) && ltb (2 * default_size) n
      then (if first == 0 then move_pages (n / default_size + 1) n t else (do
        from ← page_at t.this.buffer (t.this.begin / default_size)
        to ← page_at t.other.buffer (t.other.end / default_size)
        let n = n - (default_size - first)
        move_pages (n / default_size + 1) n (fill_page (default_size - first) from to t)))
      else ok (n, t)

  -- The cached pages before the loop over the bytes; a null pointer is address 0.
  unfoldable pub move_rest : ℕ × Two ps → Outcome (Two ps)
  move_rest (n, t) = do
    from ← page_at t.this.buffer (t.this.begin / default_size)
    to ←
        (if t.other.end % default_size == 0
          then ok 0
          else page_at t.other.buffer (sub64 t.other.end 1 / default_size))
    move_bytes n from to t

  -- Behind the early return.
  unfoldable pub move_to_back : ℕ → Two ps → Outcome (Two ps)
  move_to_back n t = do
    let held = sub64 t.this.end t.this.begin
    t ← start_other ps (λ b. b.begin) t
    r ← move_aligned (if leb held n then held else n) t
    t ← move_rest r
    t ← check_both ps t
    shrink_both ps t

  unfoldable pub other_pop_front_to_back_n : ℕ → Two ps → Outcome (Two ps)
  other_pop_front_to_back_n n t =
      check_both ps t >>= λ t. if (t.this.begin == npos) || (n == 0) then ok t else move_to_back n t
