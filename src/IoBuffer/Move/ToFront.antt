-- ===== src/IoBuffer/Move/ToFront.antt =====
-- `other_pop_back_to_front_n` (iobuffer/io_buffer.cpp).
pub mod Bytes
pub mod Pages
pub mod Aligned
pub mod Law
use npoller.Base.{
  ℕ, zero, suc, ◌+◌, ◌-◌, ◌*◌, ◌/◌, ◌%◌, ◌==◌, ltb, leb, not, ◌&&◌, if◌then◌else◌, ◌∷◌, length,
  init, last?, set, Outcome, ok, err, checked, ◌>>=◌, out_of_fuel, npos, add64, sub64,
}
use npoller.PageStore.{PageStore}
use npoller.Pages.{default_size, page_at, write}
use npoller.IoBuffer.Move.{Two, start_other, check_both, shrink_both}

module _ (ps : PageStore) where
  -- The counting down of `other.begin`, one byte from the page `from` to the page `to`, and the counting
  -- down of `end`.
  unfoldable pub copy_one : ℕ → ℕ → Two ps → Two ps
  copy_one from to t = record {
    memory = record t.memory {
      cells =
          write t.memory.cells to (sub64 t.other.begin 1 % default_size)
            (t.memory.cells from (sub64 t.this.end 1 % default_size));
    };
    this = record t.this { end = sub64 t.this.end 1 };
    other = record t.other { begin = sub64 t.other.begin 1 };
  }

  -- A page before the first of `other`.
  unfoldable pub make_front_room : Two ps → Outcome (Two ps)
  make_front_room t =
      if ltb (sub64 t.this.end 1 / default_size) (sub64 (length t.this.buffer) 1)
      then (checked (last? t.this.buffer) >>= λ p. ok (record t {
        this = record t.this { buffer = init t.this.buffer };
        other = record {
          buffer = p ∷ t.other.buffer;
          begin = add64 t.other.begin default_size;
          end = add64 t.other.end default_size;
        };
      }))
      else if ltb 0 (length t.other.buffer)
          && ltb (sub64 t.other.end 1 / default_size) (sub64 (length t.other.buffer) 1)
      then (checked (last? t.other.buffer) >>= λ p. ok (record t {
        other = record {
          buffer = init (p ∷ t.other.buffer);
          begin = add64 t.other.begin default_size;
          end = add64 t.other.end default_size;
        };
      }))
      else ok (record t {
        memory = record t.memory { store = (ps.alloc t.memory.store).1 };
        other = record {
          buffer = (ps.alloc t.memory.store).0 ∷ t.other.buffer;
          begin = add64 t.other.begin default_size;
          end = add64 t.other.end default_size;
        };
      })

  -- Where `other` begins at 0: the page, and the cached pages again.
  unfoldable pub refresh : ℕ → ℕ → Two ps → Outcome (ℕ × ℕ × Two ps)
  refresh from to t =
      if t.other.begin == 0
      then (do
        t ← make_front_room t
        from ← page_at t.this.buffer (sub64 t.this.end 1 / default_size)
        to ← page_at t.other.buffer (t.other.begin / default_size)
        ok (from, to, t))
      else ok (from, to, t)

  -- The loop over the bytes; `from` and `to` are the cached pages.
  unfoldable pub move_bytes : ℕ → ℕ → ℕ → Two ps → Outcome (Two ps)
  move_bytes zero from to t = ok t
  move_bytes (suc n) from to t = do
    (from, to, t) ← refresh from to t
    to ←
        (if t.other.begin % default_size == 0
          then page_at t.other.buffer (sub64 t.other.begin 1 / default_size)
          else ok to)
    from ←
        (if t.this.end % default_size == 0
          then page_at t.this.buffer (sub64 t.this.end 1 / default_size)
          else ok from)
    move_bytes n from to (copy_one from to t)

  -- The loop that empties a page that is not full, before whole pages are moved.
  unfoldable pub fill_page : ℕ → ℕ → ℕ → Two ps → Two ps
  fill_page zero from to t = t
  fill_page (suc n) from to t = fill_page n from to (copy_one from to t)

  -- One whole page, `p`: it changes places with a free one of `other`, or moves.
  unfoldable pub hand_page : Two ps → ℕ → Outcome (Two ps)
  hand_page t p =
      if not (t.other.begin == 0)
      then (page_at t.other.buffer (sub64 t.other.begin 1 / default_size) >>= λ q. ok (record t {
        this = record t.this {
          buffer = set t.this.buffer (sub64 t.this.end 1 / default_size) q;
          end = sub64 t.this.end default_size;
        };
        other = record t.other {
          buffer = set t.other.buffer (sub64 t.other.begin 1 / default_size) p;
          begin = sub64 t.other.begin default_size;
        };
      }))
      else if ltb (sub64 t.this.end 1 / default_size) (sub64 (length t.this.buffer) 1)
      then (checked (last? t.this.buffer) >>= λ f. ok (record t {
        this = record t.this {
          buffer = init (set t.this.buffer (sub64 t.this.end 1 / default_size) f);
          end = sub64 t.this.end default_size;
        };
        other = record t.other {
          buffer = p ∷ t.other.buffer;
          end = add64 t.other.end default_size;
        };
      }))
      else ok (record t {
        this = record t.this { buffer = init t.this.buffer; end = sub64 t.this.end default_size };
        other = record t.other {
          buffer = p ∷ t.other.buffer;
          end = add64 t.other.end default_size;
        };
      })

  unfoldable pub move_page : Two ps → Outcome (Two ps)
  move_page t = page_at t.this.buffer (sub64 t.this.end 1 / default_size) >>= λ p. hand_page t p

  -- The loop over whole pages, and the number of bytes that are left.
  unfoldable pub move_pages : ℕ → ℕ → Two ps → Outcome (ℕ × Two ps)
  move_pages zero n t = err out_of_fuel
  move_pages (suc fuel) n t =
      let next = move_page t >>= λ t. move_pages fuel (n - default_size) t in
      if ltb default_size n then next else ok (n, t)

  -- The part for more than two pages of bytes that lie alike in both buffers.
  unfoldable pub move_aligned : ℕ → Two ps → Outcome (ℕ × Two ps)
  move_aligned n t =
      let last = sub64 t.this.end 1 % default_size in
      let begun = if ltb (last + 1) default_size then last + 1 else 0 in
      if (sub64 t.this.end t.other.begin % default_size == 0) && ltb (2 * default_size) n
      then (do
        from ← page_at t.this.buffer (sub64 t.this.end 1 / default_size)
        to ← page_at t.other.buffer (t.other.begin / default_size)
        let n = n - begun
        move_pages (n / default_size + 1) n (fill_page begun from to t))
      else ok (n, t)

  -- The cached pages before the loop over the bytes.
  unfoldable pub move_rest : ℕ × Two ps → Outcome (Two ps)
  move_rest (n, t) = do
    from ← page_at t.this.buffer (sub64 t.this.end 1 / default_size)
    to ← page_at t.other.buffer (t.other.begin / default_size)
    move_bytes n from to t

  -- Behind the early return.
  unfoldable pub move_to_front : ℕ → Two ps → Outcome (Two ps)
  move_to_front n t = do
    let held = sub64 t.this.end t.this.begin
    t ← start_other ps (λ b. b.end) t
    r ← move_aligned (if leb held n then held else n) t
    t ← move_rest r
    t ← check_both ps t
    shrink_both ps t

  unfoldable pub other_pop_back_to_front_n : ℕ → Two ps → Outcome (Two ps)
  other_pop_back_to_front_n n t =
      check_both ps t >>= λ t. if t.this.begin == npos then ok t else move_to_front n t
