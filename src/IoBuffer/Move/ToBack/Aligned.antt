-- ===== src/IoBuffer/Move/ToBack/Aligned.antt =====
-- The part of `other_pop_front_to_back_n` (iobuffer/io_buffer.cpp) for bytes that lie alike in both buffers.
use npoller.Base.{
  ℕ, ◌+◌, ◌-◌, ◌*◌, ◌/◌, ◌%◌, ◌^◌, ◌≤◌, ◌<◌, ◌≡◌, ◌≢◌, inl, inr, refl, sym, ap, subst, ◌∙◌,
  Bool-cases, ◌==◌, ltb, ◌&&◌, List, [], ◌∷◌, ◌++◌, append-nil, append_assoc, length, take, drop,
  take-append-drop, length-take, length-drop, get_or, with_two, ◌>>=◌, sub64, arith,
}
use npoller.PageStore.{PageStore}
use npoller.Pages.{default_size, page_at}
use npoller.IoBuffer.Push.Back.{page_at_lem}
use npoller.IoBuffer.Move.{Two}
use npoller.IoBuffer.Move.Span.{Span-split}
use npoller.IoBuffer.Move.Owned.{Moving}
use npoller.IoBuffer.Move.ToBack.{copy_one, fill_page, move_aligned, move_pages}
use npoller.IoBuffer.Move.ToBack.Bytes.{copy_one_lem}
use npoller.IoBuffer.Move.ToBack.Pages.{Part, Part-behind, move_pages_lem}

module _ (ps : PageStore) where
  -- The state behind `fill_page`.
  record Filled (t : Two ps) (n : ℕ) (after : Two ps) (xs ys : List ℕ) : Type 0 where
    moving : Moving ps after xs ys
    begins : after.this.begin ≡ t.this.begin + n
    ends : after.other.end ≡ t.other.end + n

  fill_page_lem :
      (ws : List ℕ) (from to : ℕ) (t : Two ps) (xs ys : List ℕ)
      → t.this.begin % default_size + length ws ≤ default_size
      → t.other.end % default_size + length ws ≤ default_size
      → t.other.end + length ws ≤ length t.other.buffer * default_size
      → (0 < length ws → from ≡ get_or t.this.buffer (t.this.begin / default_size) 0)
      → (0 < length ws → to ≡ get_or t.other.buffer (t.other.end / default_size) 0)
      → Moving ps t (ws ++ xs) ys
      → Filled t (length ws) (fill_page ps (length ws) from to t) xs (ys ++ ws)
  unfolding fill_page
  fill_page_lem [] from to t xs ys h h' room f f' v = record {
    moving = rw append-nil v;
    begins = omega arith;
    ends = omega arith;
  }
  fill_page_lem (w ∷ ws) from to t xs ys h h' room f f' v =
      let (moving, one_more, _, _, pages, pages', one_less) =
        copy_one_lem ps t w (ws ++ xs) ys (omega arith) v in
      let from' = get_or t.this.buffer (t.this.begin / default_size) 0 in
      let to' = get_or t.other.buffer (t.other.end / default_size) 0 in
      let next = copy_one ps from' to' t in
      let rest =
        fill_page_lem ws from' to' next xs (ys ++ (w ∷ [])) (omega arith) (omega arith)
          (rw pages' (omega arith))
          (λ some. rw pages (ap (λ i. get_or t.this.buffer i 0) (omega arith)))
          (λ some. rw pages' (ap (λ i. get_or t.other.buffer i 0) (omega arith))) moving in
      let b = rest.begins in
      let e = rest.ends in
      rw (f (omega arith), f' (omega arith))
        (record {
          moving = rw append_assoc at rest.moving;
          begins = omega arith;
          ends = omega arith;
        })

  -- The page that has been begun, and the whole ones behind it.
  fill_first :
      (zs : List ℕ) (t : Two ps) (xs ys : List ℕ)
      → t.other.end + length zs + default_size < 2 ^ 63
      → t.this.begin % default_size ≢ 0
      → t.other.end % default_size ≡ t.this.begin % default_size
      → 2 * default_size < length zs
      → Moving ps t (zs ++ xs) ys
      → Part ps t zs xs ys (do
        from ← page_at t.this.buffer (t.this.begin / default_size)
        to ← page_at t.other.buffer (t.other.end / default_size)
        let n = length zs - (default_size - t.this.begin % default_size)
        move_pages ps
            (n / default_size + 1)
            n
            (fill_page ps (default_size - t.this.begin % default_size) from to t))
  fill_first zs t xs ys small begun alike many v =
      let k = default_size - t.this.begin % default_size in
      let ws = take k zs in
      let rest = drop k zs in
      let split = take-append-drop k zs in
      let len : length ws ≡ k = omega (arith, length-take k zs) in
      let left : length rest ≡ length zs - k = length-drop k zs in
      let v' : Moving ps t (ws ++ (rest ++ xs)) ys =
        subst (λ l. Moving ps t l ys) (ap (λ l. l ++ xs) (sym split) ∙ append_assoc ws rest xs) v in
      let (le, _, _) =
        Span-split t.memory.cells t.this.buffer t.this.begin t.this.end ws (rest ++ xs)
          v'.this_span in
      let w = v.this_span.within in
      let w' = v.other_span.within in
      let page = page_at_lem t.this.buffer t.this.begin (omega arith) in
      let page' = page_at_lem t.other.buffer t.other.end (omega arith) in
      let from = get_or t.this.buffer (t.this.begin / default_size) 0 in
      let to = get_or t.other.buffer (t.other.end / default_size) 0 in
      let a = fill_page ps k from to t in
      let r : Filled t k a (rest ++ xs) (ys ++ ws) = rw len at (
        fill_page_lem ws from to t (rest ++ xs) ys (omega arith) (omega arith) (omega arith)
          (λ some. refl) (λ some. refl) v') in
      let b = r.begins in
      let e = r.ends in
      let q : Part ps a rest xs (ys ++ ws)
          (move_pages ps ((length zs - k) / default_size + 1) (length zs - k) a) =
        rw left at (
          move_pages_lem ps (length rest / default_size + 1) rest a xs (ys ++ ws) (omega arith)
            (omega arith) (omega arith) (omega arith) r.moving) in
      Part-behind ps t a ws rest zs xs ys _ _ split (e ∙ ap (λ n. t.other.end + n) (sym len))
        (omega arith) (with_two _ _ _ _ _ page page') q

  pub move_aligned_lem :
      (zs : List ℕ) (t : Two ps) (xs ys : List ℕ)
      → t.other.end + length zs + default_size < 2 ^ 63
      → Moving ps t (zs ++ xs) ys
      → Part ps t zs xs ys (move_aligned ps (length zs) t)
  unfolding move_aligned
  move_aligned_lem zs t xs ys small v =
      elim (Bool-cases (
        (sub64 t.this.begin t.other.end % default_size == 0)
        && ltb (2 * default_size) (length zs))) [
          | inr other_way ↦ rw other_way (record {
            done = [];
            left = zs;
            result = t;
            all = refl;
            runs = refl;
            moving = rw append-nil v;
            ended = refl;
            some_left = λ some. some;
          })
          | inl alike ↦
              let (same, many) : (sub64 t.this.begin t.other.end % default_size ≡ 0)
                  × (2 * default_size < length zs) =
                let e = alike in ground arith in
              let o = v.this_span.order in
              let w = v.this_span.within in
              let sm = v.this_small in
              let same_place : t.other.end % default_size ≡ t.this.begin % default_size =
                omega arith in
              elim (Bool-cases (t.this.begin % default_size == 0)) [
                | inl at_page ↦
                    let zero_first : t.this.begin % default_size ≡ 0 =
                      let e = at_page in ground arith in
                    rw (alike, at_page)
                      (move_pages_lem ps (length zs / default_size + 1) zs t xs ys (omega arith)
                        small zero_first (omega arith) v)
                | inr begun ↦
                    let ne : t.this.begin % default_size ≢ 0 = let e = begun in ground arith in
                    rw (alike, begun) (fill_first zs t xs ys small ne same_place many v)
              ]
        ]
