-- ===== src/IoBuffer/Move/SelfFront.antt =====
-- `self_pop_back_to_front_n` (iobuffer/io_buffer.cpp).
pub mod Bytes
pub mod Pages
pub mod Aligned
pub mod Law
use npoller.Base.{
  ℕ, zero, suc, ◌+◌, ◌-◌, ◌*◌, ◌/◌, ◌%◌, ◌^◌, ◌==◌, ltb, leb, not, ◌&&◌, ◌||◌, if◌then◌else◌, ◌∷◌,
  length, init, last?, set, Outcome, ok, err, undefined_behaviour, checked, ◌>>=◌, out_of_fuel,
  npos, add64, sub64,
}
use npoller.PageStore.{PageStore}
use npoller.Pages.{default_size, page_at, write}
use npoller.IoBuffer.Block.{check}
use npoller.IoBuffer.Move.{One, check_and_shrink}

-- `int last_valid_block_index = i; last_valid_block_index++`, as the index that it is then. Counting up the
-- greatest `int` and an index below 0 are undefined.
unfoldable pub int_index : ℕ → Outcome ℕ
int_index i =
    let j = (i % 2 ^ 32 + 1) % 2 ^ 32 in if ltb j (2 ^ 31) then ok j else err undefined_behaviour

module _ (ps : PageStore) where
  -- The counting down of `begin`, one byte from the page `from` to the page `to`, and the counting down of
  -- `end`.
  unfoldable pub copy_one : ℕ → ℕ → One ps → One ps
  copy_one from to t = record {
    memory = record t.memory {
      cells =
          write t.memory.cells to (sub64 t.this.begin 1 % default_size)
            (t.memory.cells from (sub64 t.this.end 1 % default_size));
    };
    this = record t.this { begin = sub64 t.this.begin 1; end = sub64 t.this.end 1 };
  }

  -- A page before the first: the last one, where it has no byte, or a new one.
  unfoldable pub make_front_room : One ps → Outcome (One ps)
  make_front_room t =
      if ltb (sub64 t.this.end 1 / default_size) (sub64 (length t.this.buffer) 1)
      then (checked (last? t.this.buffer) >>= λ p. ok (record t {
        this = record {
          buffer = init (p ∷ t.this.buffer);
          begin = add64 t.this.begin default_size;
          end = add64 t.this.end default_size;
        };
      }))
      else ok (record {
        memory = record t.memory { store = (ps.alloc t.memory.store).1 };
        this = record {
          buffer = (ps.alloc t.memory.store).0 ∷ t.this.buffer;
          begin = add64 t.this.begin default_size;
          end = add64 t.this.end default_size;
        };
      })

  -- Where the bytes begin at 0: the page, and the cached pages again.
  unfoldable pub refresh : ℕ → ℕ → One ps → Outcome (ℕ × ℕ × One ps)
  refresh from to t =
      if t.this.begin == 0
      then (do
        t ← make_front_room t
        to ← page_at t.this.buffer (sub64 t.this.begin 1 / default_size)
        from ← page_at t.this.buffer (sub64 t.this.end 1 / default_size)
        ok (from, to, t))
      else ok (from, to, t)

  -- The loop over the bytes; `from` and `to` are the cached pages.
  unfoldable pub move_bytes : ℕ → ℕ → ℕ → One ps → Outcome (One ps)
  move_bytes zero from to t = ok t
  move_bytes (suc n) from to t = do
    (from, to, t) ← refresh from to t
    to ←
        (if t.this.begin % default_size == 0
          then page_at t.this.buffer (sub64 t.this.begin 1 / default_size)
          else ok to)
    from ←
        (if t.this.end % default_size == 0
          then page_at t.this.buffer (sub64 t.this.end 1 / default_size)
          else ok from)
    move_bytes n from to (copy_one from to t)

  -- The loop that empties a page that is not full, before whole pages are moved.
  unfoldable pub fill_page : ℕ → ℕ → ℕ → One ps → One ps
  fill_page zero from to t = t
  fill_page (suc n) from to t = fill_page n from to (copy_one from to t)

  -- The last page with bytes, `p`: it changes places with the free one before the bytes, or becomes the first.
  unfoldable pub hand_page : One ps → ℕ → Outcome (One ps)
  hand_page t p =
      let i = sub64 t.this.end 1 / default_size in
      if not (t.this.begin == 0)
      then (page_at t.this.buffer (sub64 t.this.begin 1 / default_size) >>= λ q. ok (record t {
        this = record {
          buffer = set (set t.this.buffer (sub64 t.this.begin 1 / default_size) p) i q;
          begin = sub64 t.this.begin default_size;
          end = sub64 t.this.end default_size;
        };
      }))
      else if ltb i (sub64 (length t.this.buffer) 1)
      then (do
        j ← int_index i
        f ← checked (last? (p ∷ t.this.buffer))
        ok (record t { this = record t.this { buffer = init (set (p ∷ t.this.buffer) j f) } }))
      else ok (record t { this = record t.this { buffer = init (p ∷ t.this.buffer) } })

  unfoldable pub move_page : One ps → Outcome (One ps)
  move_page t = page_at t.this.buffer (sub64 t.this.end 1 / default_size) >>= λ p. hand_page t p

  -- The loop over whole pages, and the number of bytes that are left.
  unfoldable pub move_pages : ℕ → ℕ → One ps → Outcome (ℕ × One ps)
  move_pages zero n t = err out_of_fuel
  move_pages (suc fuel) n t =
      let next = move_page t >>= λ t. move_pages fuel (n - default_size) t in
      if ltb default_size n then next else ok (n, t)

  -- The part for more than two pages of bytes, where the bytes are whole pages.
  unfoldable pub move_aligned : ℕ → One ps → Outcome (ℕ × One ps)
  move_aligned n t =
      let last = sub64 t.this.end 1 % default_size in
      let begun = if ltb (last + 1) default_size then last + 1 else 0 in
      if (sub64 t.this.end t.this.begin % default_size == 0) && ltb (2 * default_size) n
      then (do
        to ← page_at t.this.buffer (t.this.begin / default_size)
        from ← page_at t.this.buffer (sub64 t.this.end 1 / default_size)
        let n = n - begun
        move_pages (n / default_size + 1) n (fill_page begun from to t))
      else ok (n, t)

  -- The cached pages before the loop over the bytes.
  unfoldable pub move_rest : ℕ × One ps → Outcome (One ps)
  move_rest (n, t) = do
    to ← page_at t.this.buffer (t.this.begin / default_size)
    from ← page_at t.this.buffer (sub64 t.this.end 1 / default_size)
    move_bytes n from to t

  -- Behind the early return.
  unfoldable pub rotate : ℕ → One ps → Outcome (One ps)
  rotate n t = do r ← move_aligned n t; t ← move_rest r; check_and_shrink ps t

  unfoldable pub self_pop_back_to_front_n : ℕ → One ps → Outcome (One ps)
  self_pop_back_to_front_n n t = do
    this ← check t.this
    (if (this.begin == npos) || (n == 0) || leb (sub64 this.end this.begin) n
        then ok (record t { this = this })
        else rotate n (record t { this = this }))
