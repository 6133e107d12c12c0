-- ===== src/IoBuffer/Move/ToBack/Bytes.antt =====
-- The loop over the bytes of `other_pop_front_to_back_n` (iobuffer/io_buffer.cpp).
use npoller.Base.{
  ℕ, ◌+◌, ◌-◌, ◌*◌, ◌/◌, ◌^◌, ◌≤◌, ◌<◌, ◌≡◌, inl, inr, refl, Bool-cases, ◌==◌, leb, ltb, ◌&&◌, List,
  [], ◌∷◌, ◌++◌, append-nil, append_assoc, length, length-append, get_or, Outcome, ok, ◌>>=◌, drop,
  add64, sub64, Distinct-apart, Distinct-append_right, arith,
}
use npoller.PageStore.{PageStore}
use npoller.Pages.{default_size, page_at}
use npoller.Pages.Copy.{IsCached, block_for_lem, IsCached-next, IsCached-drop_page}
use npoller.IoBuffer.Block.{Memory, capacity}
use npoller.IoBuffer.Move.{Two}
use npoller.IoBuffer.Move.Span.{
  Span-first, Span-write_apart, Span-put_back, Span-append_pages, Span-drop_page,
}
use npoller.IoBuffer.Move.Owned.{Moving, Owns-to_back, Owns-middle_front, Owns-alloc}
use npoller.IoBuffer.Move.ToBack.{copy_one, make_back_room, move_bytes}

module _ (ps : PageStore) where
  -- The state behind `make_back_room`, with `from` and `to` still cached.
  record Room (from to : ℕ) (t : Two ps) (xs ys : List ℕ) (out : Outcome (Two ps)) : Type 0 where
    after : Two ps
    runs : out ≡ ok after
    moving : Moving ps after xs ys
    room : after.other.end < length after.other.buffer * default_size
    no_more : after.other.end ≤ t.other.end
    from_cached : IsCached after.this.buffer from after.this.begin
    to_cached : IsCached after.other.buffer to after.other.end

  abbrev two : Memory ps.Store → List ℕ → ℕ → ℕ → List ℕ → ℕ → ℕ → Two ps
  two m buffer begin end buffer' begin' end' = record {
    memory = m;
    this = record { buffer = buffer; begin = begin; end = end };
    other = record { buffer = buffer'; begin = begin'; end = end' };
  }

  -- The first page of `*this` becomes the last of `other`.
  page_from_this :
      (from to : ℕ) (m : Memory ps.Store) (buffer : List ℕ) (b e : ℕ) (buffer' : List ℕ) (b' e' : ℕ)
      (xs ys : List ℕ)
      → e' + default_size < 2 ^ 63
      → b < e
      → default_size ≤ b
      → e' ≡ length buffer' * default_size
      → Moving ps (two m buffer b e buffer' b' e') xs ys
      → IsCached buffer from b
      → Room from to (two m buffer b e buffer' b' e') xs ys (
          page_at buffer 0 >>= λ p. ok (
            two m
              (drop 1 buffer)
              (sub64 b default_size)
              (sub64 e default_size)
              (buffer' ++ (p ∷ []))
              b'
              e'))
  page_from_this from to m [] b e buffer' b' e' xs ys small some_byte h full v cached =
      let w = v.this_span.within in absurd (omega arith)
  page_from_this from to m (p ∷ rest) b e buffer' b' e' xs ys small some_byte h full v cached =
      let w = v.this_span.within in
      let sm = v.this_small in
      let eb : sub64 b default_size ≡ b - default_size = omega arith in
      let ee : sub64 e default_size ≡ e - default_size = omega arith in
      let len = length-append buffer' (p ∷ []) in
      record {
        after = two m rest (b - default_size) (e - default_size) (buffer' ++ (p ∷ [])) b' e';
        runs = rw (eb, ee) refl;
        moving = record {
          owns = rw append_assoc at (Owns-to_back ps m.store p (rest ++ buffer') v.owns);
          this_span = Span-drop_page m.cells p rest b e xs h v.this_span;
          other_span = Span-append_pages m.cells buffer' b' e' ys (p ∷ []) v.other_span;
          this_small = omega arith;
          other_small = omega arith;
        };
        room = omega arith;
        no_more = omega arith;
        from_cached = IsCached-drop_page p rest from b h cached;
        to_cached = λ inside. absurd (inside (omega arith));
      }

  -- The first page of `other` becomes its last.
  page_from_other :
      (from to : ℕ) (m : Memory ps.Store) (buffer : List ℕ) (b e : ℕ) (buffer' : List ℕ) (b' e' : ℕ)
      (xs ys : List ℕ)
      → e' + default_size < 2 ^ 63
      → default_size ≤ b'
      → e' ≡ length buffer' * default_size
      → Moving ps (two m buffer b e buffer' b' e') xs ys
      → IsCached buffer from b
      → Room from to (two m buffer b e buffer' b' e') xs ys (
          page_at buffer' 0 >>= λ p. ok (
            two m buffer b e
              (drop 1 (buffer' ++ (p ∷ [])))
              (sub64 b' default_size)
              (sub64 e' default_size)))
  page_from_other from to m buffer b e [] b' e' xs ys small h full v cached =
      let w = v.other_span.order in absurd (omega arith)
  page_from_other from to m buffer b e (q ∷ rest) b' e' xs ys small h full v cached =
      let o = v.other_span.order in
      let sm = v.other_small in
      let eb : sub64 b' default_size ≡ b' - default_size = omega arith in
      let ee : sub64 e' default_size ≡ e' - default_size = omega arith in
      let len = length-append rest (q ∷ []) in
      record {
        after = two m buffer b e (rest ++ (q ∷ [])) (b' - default_size) (e' - default_size);
        runs = rw (eb, ee) refl;
        moving = record {
          owns = rw append_assoc at (
              Owns-to_back ps m.store q (buffer ++ rest)
                (Owns-middle_front ps m.store buffer q rest v.owns));
          this_span = v.this_span;
          other_span =
              Span-append_pages m.cells rest (b' - default_size) (e' - default_size) ys (q ∷ [])
                (Span-drop_page m.cells q rest b' e' ys h v.other_span);
          this_small = v.this_small;
          other_small = omega arith;
        };
        room = omega arith;
        no_more = omega arith;
        from_cached = cached;
        to_cached = λ inside. absurd (inside (omega arith));
      }

  new_page :
      (from to : ℕ) (m : Memory ps.Store) (buffer : List ℕ) (b e : ℕ) (buffer' : List ℕ) (b' e' : ℕ)
      (xs ys : List ℕ)
      → e' + default_size < 2 ^ 63
      → e' ≡ length buffer' * default_size
      → Moving ps (two m buffer b e buffer' b' e') xs ys
      → IsCached buffer from b
      → Room from to (two m buffer b e buffer' b' e') xs ys (
          ok (
            two
              (record m { store = (ps.alloc m.store).1 })
              buffer
              b
              e
              (buffer' ++ ((ps.alloc m.store).0 ∷ []))
              b'
              e'))
  new_page from to m buffer b e buffer' b' e' xs ys small full v cached =
      let p = (ps.alloc m.store).0 in
      let len = length-append buffer' (p ∷ []) in
      record {
        after =
            two (record m { store = (ps.alloc m.store).1 }) buffer b e (buffer' ++ (p ∷ [])) b' e';
        runs = refl;
        moving = record {
          owns = rw append_assoc at (
              Owns-to_back ps (ps.alloc m.store).1 p (buffer ++ buffer')
                (Owns-alloc ps m.store (buffer ++ buffer') v.owns));
          this_span = v.this_span;
          other_span = Span-append_pages m.cells buffer' b' e' ys (p ∷ []) v.other_span;
          this_small = v.this_small;
          other_small = omega arith;
        };
        room = omega arith;
        no_more = omega arith;
        from_cached = cached;
        to_cached = λ inside. absurd (inside (omega arith));
      }

  make_back_room_lem :
      (from to : ℕ) (t : Two ps) (x : ℕ) (xs ys : List ℕ)
      → t.other.end + default_size < 2 ^ 63
      → Moving ps t (x ∷ xs) ys
      → IsCached t.this.buffer from t.this.begin
      → IsCached t.other.buffer to t.other.end
      → Room from to t (x ∷ xs) ys (make_back_room ps t)
  unfolding make_back_room
  make_back_room_lem from to t x xs ys small v cached cached' =
      let first =
        Span-first t.memory.cells t.this.buffer t.this.begin t.this.end x xs v.this_span in
      let exact : capacity t.other.buffer ≡ length t.other.buffer * default_size =
        omega (arith, v.other_small) in
      elim (Bool-cases (t.other.end == capacity t.other.buffer)) [
        | inr roomy ↦ rw roomy (record {
          after = t;
          runs = refl;
          moving = v;
          room = let e = roomy in let w = v.other_span.within in ground arith;
          no_more = omega arith;
          from_cached = cached;
          to_cached = cached';
        })
        | inl is_full ↦
            let full : t.other.end ≡ length t.other.buffer * default_size =
              let e = is_full in ground arith in
            elim (Bool-cases (leb default_size t.this.begin)) [
              | inl free ↦
                  rw (is_full, free)
                    (page_from_this from to t.memory t.this.buffer t.this.begin t.this.end
                      t.other.buffer t.other.begin t.other.end (x ∷ xs) ys small first.0
                      (ground arith) full v cached)
              | inr used ↦
                  elim (Bool-cases
                    (ltb 0 (length t.other.buffer) && leb default_size t.other.begin)) [
                      | inl free ↦
                          rw (is_full, used, free)
                            (page_from_other from to t.memory t.this.buffer t.this.begin t.this.end
                              t.other.buffer t.other.begin t.other.end (x ∷ xs) ys small
                              (ground arith) full v cached)
                      | inr none ↦
                          rw (is_full, used, none)
                            (new_page from to t.memory t.this.buffer t.this.begin t.this.end
                              t.other.buffer t.other.begin t.other.end (x ∷ xs) ys small full v
                              cached)
                    ]
            ]
      ]

  pub copy_one_lem :
      (t : Two ps) (x : ℕ) (xs ys : List ℕ)
      → t.other.end < length t.other.buffer * default_size
      → Moving ps t (x ∷ xs) ys
      → let from = get_or t.this.buffer (t.this.begin / default_size) 0 in
        let to = get_or t.other.buffer (t.other.end / default_size) 0 in
        Moving ps (copy_one ps from to t) xs (ys ++ (x ∷ []))
        × ((copy_one ps from to t).other.end ≡ t.other.end + 1)
        × IsCached t.this.buffer from (copy_one ps from to t).this.begin
        × IsCached t.other.buffer to (copy_one ps from to t).other.end
        × ((copy_one ps from to t).this.buffer ≡ t.this.buffer)
        × ((copy_one ps from to t).other.buffer ≡ t.other.buffer)
        × ((copy_one ps from to t).this.begin ≡ t.this.begin + 1)
  unfolding copy_one
  copy_one_lem t x xs ys room v =
      let from = get_or t.this.buffer (t.this.begin / default_size) 0 in
      let to = get_or t.other.buffer (t.other.end / default_size) 0 in
      let c = t.memory.cells in
      let (some_byte, same, less) =
        Span-first c t.this.buffer t.this.begin t.this.end x xs v.this_span in
      let w = v.this_span.within in
      let sm = v.this_small in
      let sm' = v.other_small in
      let eb : add64 t.this.begin 1 ≡ t.this.begin + 1 = omega arith in
      let ee : add64 t.other.end 1 ≡ t.other.end + 1 = omega arith in
      let apart =
        Distinct-apart t.this.buffer t.other.buffer (t.other.end / default_size) v.owns.distinct
          (omega arith) in
      (
        rw (eb, ee, same)
            (record {
              owns = v.owns;
              this_span =
                  Span-write_apart c t.this.buffer (t.this.begin + 1) t.this.end xs to _ x apart
                    less;
              other_span =
                  Span-put_back c t.other.buffer t.other.begin t.other.end ys x
                    (Distinct-append_right t.this.buffer t.other.buffer v.owns.distinct) room
                    v.other_span;
              this_small = v.this_small;
              other_small = v.other_small;
            }),
        ee,
        rw eb (IsCached-next t.this.buffer t.this.begin (omega arith)),
        rw ee (IsCached-next t.other.buffer t.other.end room),
        refl,
        refl,
        eb,
      )

  pub record Moved (out : Outcome (Two ps)) (xs ys : List ℕ) : Type 0 where
    pub result : Two ps
    pub runs : out ≡ ok result
    pub moving : Moving ps result xs ys

  -- The loop returns, and has moved the bytes `ws`.
  pub move_bytes_lem :
      (ws : List ℕ) (from to : ℕ) (t : Two ps) (xs ys : List ℕ)
      → t.other.end + length ws + default_size < 2 ^ 63
      → Moving ps t (ws ++ xs) ys
      → IsCached t.this.buffer from t.this.begin
      → IsCached t.other.buffer to t.other.end
      → Moved (move_bytes ps (length ws) from to t) xs (ys ++ ws)
  unfolding move_bytes
  move_bytes_lem [] from to t xs ys small v cached cached' = record {
    result = t;
    runs = refl;
    moving = rw append-nil v;
  }
  move_bytes_lem (w ∷ ws) from to t xs ys small v cached cached' =
      let r = make_back_room_lem from to t w (ws ++ xs) ys (omega arith) v cached cached' in
      let a = r.after in
      let n = r.no_more in
      let (some_byte, same, less) =
        Span-first a.memory.cells a.this.buffer a.this.begin a.this.end w (ws ++ xs)
          r.moving.this_span in
      let wi = r.moving.this_span.within in
      let to_page = block_for_lem a.other.buffer to a.other.end r.room r.to_cached in
      let from_page = block_for_lem a.this.buffer from a.this.begin (omega arith) r.from_cached in
      let (moving, one_more, c, c', same_pages, same_pages', _) =
        copy_one_lem a w (ws ++ xs) ys r.room r.moving in
      let from' = get_or a.this.buffer (a.this.begin / default_size) 0 in
      let to' = get_or a.other.buffer (a.other.end / default_size) 0 in
      let rest =
        move_bytes_lem ws from' to' (copy_one ps from' to' a) xs (ys ++ (w ∷ [])) (omega arith)
          moving (rw same_pages c) (rw same_pages' c') in
      record {
        result = rest.result;
        runs = rw (r.runs, to_page, from_page) rest.runs;
        moving = rw append_assoc at rest.moving;
      }
