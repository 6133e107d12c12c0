-- ===== src/IoBuffer/Move/SelfBack/Bytes.antt =====
-- The loop over the bytes of `self_pop_front_to_back_n` (iobuffer/io_buffer.cpp).
use npoller.Base.{
  ℕ, ◌+◌, ◌-◌, ◌*◌, ◌/◌, ◌^◌, ◌≤◌, ◌<◌, ◌≡◌, inl, inr, refl, Bool-cases, ◌==◌, leb, List, [], ◌∷◌,
  ◌++◌, append-nil, append_assoc, length, length-append, get_or, Outcome, ok, ◌>>=◌, drop, add64,
  sub64, arith,
}
use npoller.PageStore.{PageStore}
use npoller.Pages.{default_size, page_at}
use npoller.Pages.Copy.{IsCached, block_for_lem, IsCached-next, IsCached-drop_page, IsCached-append}
use npoller.IoBuffer.Block.{Memory, capacity}
use npoller.IoBuffer.Move.{One}
use npoller.IoBuffer.Move.Span.{Span-first, Span-put_back, Span-append_pages, Span-drop_page}
use npoller.IoBuffer.Move.Owned.{Owns-to_back, Owns-alloc}
use npoller.IoBuffer.Move.Turning.{Turning}
use npoller.IoBuffer.Move.SelfBack.{copy_one, make_back_room, move_bytes}

module _ (ps : PageStore) where
  abbrev one : Memory ps.Store → List ℕ → ℕ → ℕ → One ps
  one m buffer begin end = record {
    memory = m;
    this = record { buffer = buffer; begin = begin; end = end };
  }

  -- The state behind `make_back_room`, with `from` and `to` still cached.
  record Room (from to : ℕ) (t : One ps) (xs : List ℕ) (out : Outcome (One ps)) : Type 0 where
    after : One ps
    runs : out ≡ ok after
    turning : Turning ps after xs
    room : after.this.end < length after.this.buffer * default_size
    no_more : after.this.end ≤ t.this.end
    from_cached : IsCached after.this.buffer from after.this.begin
    to_cached : IsCached after.this.buffer to after.this.end

  -- The first page becomes the last.
  turn_page :
      (from to : ℕ) (m : Memory ps.Store) (buffer : List ℕ) (b e : ℕ) (xs : List ℕ)
      → default_size ≤ b
      → b < e
      → e ≡ length buffer * default_size
      → Turning ps (one m buffer b e) xs
      → IsCached buffer from b
      → Room from to (one m buffer b e) xs (
          page_at buffer 0 >>= λ p.
          ok (one m (drop 1 (buffer ++ (p ∷ []))) (sub64 b default_size) (sub64 e default_size)))
  turn_page from to m [] b e xs h more full v cached = absurd (omega arith)
  turn_page from to m (p ∷ rest) b e xs h more full v cached =
      let sm = v.small in
      let eb : sub64 b default_size ≡ b - default_size = omega arith in
      let ee : sub64 e default_size ≡ e - default_size = omega arith in
      let len = length-append rest (p ∷ []) in
      record {
        after = one m (rest ++ (p ∷ [])) (b - default_size) (e - default_size);
        runs = rw (eb, ee) refl;
        turning = record {
          owns = Owns-to_back ps m.store p rest v.owns;
          span =
              Span-append_pages m.cells rest (b - default_size) (e - default_size) xs (p ∷ [])
                (Span-drop_page m.cells p rest b e xs h v.span);
          small = omega arith;
        };
        room = omega arith;
        no_more = omega arith;
        from_cached =
            IsCached-append rest (p ∷ []) from (b - default_size)
              (IsCached-drop_page p rest from b h cached);
        to_cached = λ inside. absurd (inside (omega arith));
      }

  new_page :
      (from to : ℕ) (m : Memory ps.Store) (buffer : List ℕ) (b e : ℕ) (xs : List ℕ)
      → e + default_size < 2 ^ 63
      → b < e
      → e ≡ length buffer * default_size
      → Turning ps (one m buffer b e) xs
      → IsCached buffer from b
      → Room from to (one m buffer b e) xs (
          ok (
            one
              (record m { store = (ps.alloc m.store).1 })
              (buffer ++ ((ps.alloc m.store).0 ∷ []))
              b
              e))
  new_page from to m buffer b e xs bound more full v cached =
      let p = (ps.alloc m.store).0 in
      let len = length-append buffer (p ∷ []) in
      record {
        after = one (record m { store = (ps.alloc m.store).1 }) (buffer ++ (p ∷ [])) b e;
        runs = refl;
        turning = record {
          owns =
              Owns-to_back ps (ps.alloc m.store).1 p buffer (Owns-alloc ps m.store buffer v.owns);
          span = Span-append_pages m.cells buffer b e xs (p ∷ []) v.span;
          small = omega arith;
        };
        room = omega arith;
        no_more = omega arith;
        from_cached = IsCached-append buffer (p ∷ []) from b cached;
        to_cached = λ inside. absurd (inside (omega arith));
      }

  make_back_room_lem :
      (from to : ℕ) (t : One ps) (x : ℕ) (xs : List ℕ)
      → t.this.end + default_size < 2 ^ 63
      → Turning ps t (x ∷ xs)
      → IsCached t.this.buffer from t.this.begin
      → IsCached t.this.buffer to t.this.end
      → Room from to t (x ∷ xs) (make_back_room ps t)
  unfolding make_back_room
  make_back_room_lem from to t x xs bound v cached cached' =
      let (more, _, _) =
        Span-first t.memory.cells t.this.buffer t.this.begin t.this.end x xs v.span in
      let exact : capacity t.this.buffer ≡ length t.this.buffer * default_size =
        omega (arith, v.small) in
      elim (Bool-cases (t.this.end == capacity t.this.buffer)) [
        | inr roomy ↦ rw roomy (record {
          after = t;
          runs = refl;
          turning = v;
          room = let e = roomy in let w = v.span.within in ground arith;
          no_more = omega arith;
          from_cached = cached;
          to_cached = cached';
        })
        | inl is_full ↦
            let full : t.this.end ≡ length t.this.buffer * default_size =
              let e = is_full in ground arith in
            elim (Bool-cases (leb default_size t.this.begin)) [
              | inl free ↦
                  rw (is_full, free)
                    (turn_page from to t.memory t.this.buffer t.this.begin t.this.end (x ∷ xs)
                      (ground arith) more full v cached)
              | inr used ↦
                  rw (is_full, used)
                    (new_page from to t.memory t.this.buffer t.this.begin t.this.end (x ∷ xs) bound
                      more full v cached)
            ]
      ]

  -- The state behind one byte, with the pages of both positions cached.
  pub record Copied (t after : One ps) (from to : ℕ) (xs : List ℕ) : Type 0 where
    pub turning : Turning ps after xs
    pub begins : after.this.begin ≡ t.this.begin + 1
    pub ends : after.this.end ≡ t.this.end + 1
    pub pages : after.this.buffer ≡ t.this.buffer
    pub from_cached : IsCached after.this.buffer from after.this.begin
    pub to_cached : IsCached after.this.buffer to after.this.end

  pub copy_one_lem :
      (t : One ps) (x : ℕ) (xs : List ℕ)
      → t.this.end < length t.this.buffer * default_size
      → Turning ps t (x ∷ xs)
      → let from = get_or t.this.buffer (t.this.begin / default_size) 0 in
        let to = get_or t.this.buffer (t.this.end / default_size) 0 in
        Copied t (copy_one ps from to t) from to (xs ++ (x ∷ []))
  unfolding copy_one
  copy_one_lem t x xs room v =
      let c = t.memory.cells in
      let (more, same, _) = Span-first c t.this.buffer t.this.begin t.this.end x xs v.span in
      let sm = v.small in
      let eb : add64 t.this.begin 1 ≡ t.this.begin + 1 = omega arith in
      let ee : add64 t.this.end 1 ≡ t.this.end + 1 = omega arith in
      let longer =
        Span-put_back c t.this.buffer t.this.begin t.this.end (x ∷ xs) x v.owns.distinct room
          v.span in
      let (_, _, turned) =
        Span-first _ t.this.buffer t.this.begin (t.this.end + 1) x (xs ++ (x ∷ [])) longer in
      rw (eb, ee, same)
        (record {
          turning = record { owns = v.owns; span = turned; small = v.small };
          begins = refl;
          ends = refl;
          pages = refl;
          from_cached = IsCached-next t.this.buffer t.this.begin (omega arith);
          to_cached = IsCached-next t.this.buffer t.this.end room;
        })

  pub record Turned (out : Outcome (One ps)) (xs : List ℕ) : Type 0 where
    pub result : One ps
    pub runs : out ≡ ok result
    pub turning : Turning ps result xs

  -- The loop returns, and has moved the bytes `ws`.
  pub move_bytes_lem :
      (ws : List ℕ) (from to : ℕ) (t : One ps) (xs : List ℕ)
      → t.this.end + length ws + default_size < 2 ^ 63
      → Turning ps t (ws ++ xs)
      → IsCached t.this.buffer from t.this.begin
      → IsCached t.this.buffer to t.this.end
      → Turned (move_bytes ps (length ws) from to t) (xs ++ ws)
  unfolding move_bytes
  move_bytes_lem [] from to t xs bound v cached cached' = record {
    result = t;
    runs = refl;
    turning = rw append-nil v;
  }
  move_bytes_lem (w ∷ ws) from to t xs bound v cached cached' =
      let r = make_back_room_lem from to t w (ws ++ xs) (omega arith) v cached cached' in
      let a = r.after in
      let n = r.no_more in
      let (more, _, _) =
        Span-first a.memory.cells a.this.buffer a.this.begin a.this.end w (ws ++ xs)
          r.turning.span in
      let wi = r.turning.span.within in
      let to_page = block_for_lem a.this.buffer to a.this.end r.room r.to_cached in
      let from_page = block_for_lem a.this.buffer from a.this.begin (omega arith) r.from_cached in
      let c = copy_one_lem a w (ws ++ xs) r.room r.turning in
      let ends = c.ends in
      let from' = get_or a.this.buffer (a.this.begin / default_size) 0 in
      let to' = get_or a.this.buffer (a.this.end / default_size) 0 in
      let rest =
        move_bytes_lem ws from' to' (copy_one ps from' to' a) (xs ++ (w ∷ [])) (omega arith)
          (rw append_assoc at c.turning) c.from_cached c.to_cached in
      record {
        result = rest.result;
        runs = rw (r.runs, to_page, from_page) rest.runs;
        turning = rw append_assoc at rest.turning;
      }
