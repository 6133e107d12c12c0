-- ===== src/IoBuffer/Move/SelfBack.antt =====
-- `self_pop_front_to_back_n` (iobuffer/io_buffer.cpp).
pub mod Bytes
pub mod Pages
pub mod Aligned
pub mod Law
use npoller.Base.{
  ℕ, zero, suc, ◌+◌, ◌-◌, ◌*◌, ◌/◌, ◌%◌, ◌==◌, ltb, leb, not, ◌&&◌, ◌||◌, if◌then◌else◌, [], ◌∷◌,
  ◌++◌, drop, set, Outcome, ok, err, ◌>>=◌, out_of_fuel, npos, add64, sub64,
}
use npoller.PageStore.{PageStore}
use npoller.Pages.{default_size, page_at, block_for, write}
use npoller.IoBuffer.Block.{capacity, check}
use npoller.IoBuffer.Move.{One, check_and_shrink}

module _ (ps : PageStore) where
  -- One byte from the page `from` to the page `to`, and the counting up behind it.
  unfoldable pub copy_one : ℕ → ℕ → One ps → One ps
  copy_one from to t = record {
    memory = record t.memory {
      cells =
          write t.memory.cells to (t.this.end % default_size)
            (t.memory.cells from (t.this.begin % default_size));
    };
    this = record t.this { begin = add64 t.this.begin 1; end = add64 t.this.end 1 };
  }

  -- The page for the next byte, where the last page is full.
  unfoldable pub make_back_room : One ps → Outcome (One ps)
  make_back_room t =
      if t.this.end == capacity t.this.buffer
      then (if leb default_size t.this.begin
          then (page_at t.this.buffer 0 >>= λ p. ok (record t {
            this = record {
              buffer = drop 1 (t.this.buffer ++ (p ∷ []));
              begin = sub64 t.this.begin default_size;
              end = sub64 t.this.end default_size;
            };
          }))
          else ok (record {
            memory = record t.memory { store = (ps.alloc t.memory.store).1 };
            this = record t.this { buffer = t.this.buffer ++ ((ps.alloc t.memory.store).0 ∷ []) };
          }))
      else ok t

  -- The loop over the bytes; `from` and `to` are the cached pages.
  unfoldable pub move_bytes : ℕ → ℕ → ℕ → One ps → Outcome (One ps)
  move_bytes zero from to t = ok t
  move_bytes (suc n) from to t = do
    t ← make_back_room t
    to ← block_for t.this.buffer to t.this.end
    from ← block_for t.this.buffer from t.this.begin
    move_bytes n from to (copy_one from to t)

  -- The loop that fills a page that has been begun, before whole pages are moved.
  unfoldable pub fill_page : ℕ → ℕ → ℕ → One ps → One ps
  fill_page zero from to t = t
  fill_page (suc n) from to t = fill_page n from to (copy_one from to t)

  -- The first page with bytes, `p`: it changes places with the free one behind the bytes, or becomes the last.
  unfoldable pub hand_page : One ps → ℕ → Outcome (One ps)
  hand_page t p =
      if not (t.this.end == capacity t.this.buffer)
      then (page_at t.this.buffer (t.this.end / default_size) >>= λ q. ok (record t {
        this = record {
          buffer =
              set (set t.this.buffer (t.this.end / default_size) p) (t.this.begin / default_size) q;
          begin = add64 t.this.begin default_size;
          end = add64 t.this.end default_size;
        };
      }))
      else if not (t.this.begin == 0)
      then (page_at t.this.buffer 0 >>= λ f. ok (record t {
        this = record t.this {
          buffer = drop 1 (set (t.this.buffer ++ (p ∷ [])) (t.this.begin / default_size) f);
        };
      }))
      else ok (record t { this = record t.this { buffer = drop 1 (t.this.buffer ++ (p ∷ [])) } })

  unfoldable pub move_page : One ps → Outcome (One ps)
  move_page t = page_at t.this.buffer (t.this.begin / default_size) >>= λ p. hand_page t p

  -- The loop over whole pages, and the number of bytes that are left.
  unfoldable pub move_pages : ℕ → ℕ → One ps → Outcome (ℕ × One ps)
  move_pages zero n t = err out_of_fuel
  move_pages (suc fuel) n t =
      let next = move_page t >>= λ t. move_pages fuel (n - default_size) t in
      if ltb default_size n then next else ok (n, t)

  -- The part for more than two pages of bytes, where the bytes are whole pages.
  unfoldable pub move_aligned : ℕ → One ps → Outcome (ℕ × One ps)
  move_aligned n t =
      let first = t.this.begin % default_size in
      let begun = if first == 0 then 0 else default_size - first in
      if (sub64 t.this.end t.this.begin % default_size == 0) && ltb (2 * default_size) n
      then (do
        from ← page_at t.this.buffer (t.this.begin / default_size)
        to ← page_at t.this.buffer (sub64 t.this.end 1 / default_size)
        let n = n - begun
        move_pages (n / default_size + 1) n (fill_page begun from to t))
      else ok (n, t)

  -- The cached pages before the loop over the bytes.
  unfoldable pub move_rest : ℕ × One ps → Outcome (One ps)
  move_rest (n, t) = do
    from ← page_at t.this.buffer (t.this.begin / default_size)
    to ← page_at t.this.buffer (sub64 t.this.end 1 / default_size)
    move_bytes n from to t

  -- Behind the early return.
  unfoldable pub rotate : ℕ → One ps → Outcome (One ps)
  rotate n t = do r ← move_aligned n t; t ← move_rest r; check_and_shrink ps t

  unfoldable pub self_pop_front_to_back_n : ℕ → One ps → Outcome (One ps)
  self_pop_front_to_back_n n t = do
    this ← check t.this
    (if (this.begin == npos) || (n == 0) || leb (sub64 this.end this.begin) n
        then ok (record t { this = this })
        else rotate n (record t { this = this }))
