-- ===== src/IoBuffer/Move/SelfBack/Pages.antt =====
-- The whole pages of `self_pop_front_to_back_n` (iobuffer/io_buffer.cpp).
use npoller.Base.{
  ℕ, suc, ◌+◌, ◌-◌, ◌*◌, ◌/◌, ◌%◌, ◌^◌, ◌≤◌, ◌<◌, ◌≡◌, ◌≢◌, inl, inr, refl, sym, ap, subst, ◌∙◌,
  Bool-cases, ◌==◌, List, [], ◌∷◌, ◌++◌, append_assoc, length, length-append, length-set, get_or,
  get_or-set, get_or-append_here, set, set-append, drop, around, around_two, Outcome, ok, ◌>>=◌,
  add64, arith,
}
use npoller.PageStore.{PageStore}
use npoller.Pages.{default_size, page_at}
use npoller.Pages.Bytes.{bytes}
use npoller.IoBuffer.Block.{Memory, capacity}
use npoller.IoBuffer.Push.Back.{page_at_lem}
use npoller.IoBuffer.View.{Owns}
use npoller.IoBuffer.Move.{One}
use npoller.IoBuffer.Move.Span.{
  Span, Span-split, Span-extend, Span-set_page, Span-append_pages, Span-drop_page,
}
use npoller.IoBuffer.Move.Owned.{Owns-to_back, Owns-swap}
use npoller.IoBuffer.Move.Turning.{Turning}
use npoller.IoBuffer.Move.ToBack.Pages.{page_bytes}
use npoller.IoBuffer.Move.SelfBack.{hand_page, move_page}

module _ (ps : PageStore) where
  abbrev one : Memory ps.Store → List ℕ → ℕ → ℕ → One ps
  one m buffer begin end = record {
    memory = m;
    this = record { buffer = buffer; begin = begin; end = end };
  }

  -- The state behind one page, with a whole page next again.
  pub record Paged (t : One ps) (xs : List ℕ) (out : Outcome (One ps)) : Type 0 where
    pub after : One ps
    pub runs : out ≡ ok after
    pub turning : Turning ps after xs
    pub begin_aligned : after.this.begin % default_size ≡ 0
    pub end_aligned : after.this.end % default_size ≡ 0
    pub end_bound : after.this.end ≤ t.this.end + default_size

  -- The bytes `ws` at the front stand behind the end as well, and the front is given up.
  turned-Span :
      (m : Memory ps.Store) (buffer : List ℕ) (b e : ℕ) (ws xs : List ℕ)
      → length ws ≡ default_size
      → e + default_size ≤ length buffer * default_size
      → bytes m.cells buffer e default_size ≡ ws
      → Span m.cells buffer b e (ws ++ xs)
      → Span m.cells buffer (b + default_size) (e + default_size) (xs ++ ws)
  turned-Span m buffer b e ws xs len room more s =
      let longer : Span m.cells buffer b (e + default_size) (ws ++ (xs ++ ws)) =
        rw append_assoc at
          (Span-extend m.cells buffer b e (ws ++ xs) ws default_size room more s) in
      let (_, _, less) = Span-split m.cells buffer b (e + default_size) ws (xs ++ ws) longer in
      rw len at less

  -- The page changes places with the free one behind the end.
  swap_page :
      (m : Memory ps.Store) (buffer : List ℕ) (b e : ℕ) (ws xs : List ℕ)
      → length ws ≡ default_size
      → b % default_size ≡ 0
      → e % default_size ≡ 0
      → e < length buffer * default_size
      → Turning ps (one m buffer b e) (ws ++ xs)
      → Paged (one m buffer b e) (xs ++ ws) (
          page_at buffer (e / default_size) >>= λ q. ok (
            one m
              (set
                (set buffer (e / default_size) (get_or buffer (b / default_size) 0))
                (b / default_size)
                q)
              (add64 b default_size)
              (add64 e default_size)))
  swap_page m buffer b e ws xs len al al' room v =
      let (le, held, _) = Span-split m.cells buffer b e ws xs v.span in
      let sm = v.small in
      let p = get_or buffer (b / default_size) 0 in
      let q = get_or buffer (e / default_size) 0 in
      let buffer1 = set buffer (e / default_size) p in
      let l1 = length-set buffer (e / default_size) p in
      let l2 = length-set buffer1 (b / default_size) q in
      let eb : add64 b default_size ≡ b + default_size = omega arith in
      let ee : add64 e default_size ≡ e + default_size = omega arith in
      let (front, middle, back, e1, e2) =
        around_two buffer (b / default_size) (e / default_size) 0 (omega arith) (omega arith) in
      record {
        after = one m (set buffer1 (b / default_size) q) (b + default_size) (e + default_size);
        runs = rw (page_at_lem buffer e room, eb, ee) refl;
        turning = record {
          owns =
              subst (Owns ps m.store) (sym e2)
                (Owns-swap ps m.store front p middle q back (subst (Owns ps m.store) e1 v.owns));
          span =
              Span-set_page m.cells buffer1 (b + default_size) (e + default_size) (xs ++ ws)
                (b / default_size) q (inl (omega arith))
                (turned-Span m buffer1 b e ws xs len (omega arith)
                  (page_bytes ps m.cells buffer buffer1 b e ws al al'
                    (get_or-set buffer (e / default_size) p 0 (omega arith)) held len)
                  (Span-set_page m.cells buffer b e (ws ++ xs) (e / default_size) p
                    (inr (omega arith)) v.span));
          small = omega arith;
        };
        begin_aligned = omega arith;
        end_aligned = omega arith;
        end_bound = omega arith;
      }

  -- No page is free behind the end: the page goes there, and the first takes its place.
  trade_page :
      (m : Memory ps.Store) (buffer : List ℕ) (b e : ℕ) (ws xs : List ℕ)
      → length ws ≡ default_size
      → b % default_size ≡ 0
      → b ≢ 0
      → e + default_size < 2 ^ 63
      → e ≡ length buffer * default_size
      → Turning ps (one m buffer b e) (ws ++ xs)
      → Paged (one m buffer b e) (xs ++ ws) (
          page_at buffer 0 >>= λ f. ok (
            one m
              (drop 1
                (set (buffer ++ (get_or buffer (b / default_size) 0 ∷ [])) (b / default_size) f))
              b
              e))
  trade_page m [] b e ws xs len al ne bound full v =
      let (le, held, _) = Span-split m.cells [] b e ws xs v.span in absurd (omega arith)
  trade_page m (f ∷ rest) b e ws xs len al ne bound full v =
      let (le, held, _) = Span-split m.cells (f ∷ rest) b e ws xs v.span in
      let sm = v.small in
      let i = (b - default_size) / default_size in
      let index : b / default_size ≡ suc i = omega arith in
      let p = get_or rest i 0 in
      let (front, back, e1, e2) = around rest i f 0 (omega arith) in
      let buffer1 = (f ∷ rest) ++ (p ∷ []) in
      let len' = length-append rest (p ∷ []) in
      let index' : e / default_size ≡ length (f ∷ rest) = omega arith in
      let l = length-set (rest ++ (p ∷ [])) i f in
      let eb : b + default_size - default_size ≡ b = omega arith in
      let ee : e + default_size - default_size ≡ e = omega arith in
      let placed : get_or buffer1 (e / default_size) 0 ≡ get_or (f ∷ rest) (b / default_size) 0 =
        rw (index, index') (get_or-append_here (f ∷ rest) [] p 0) in
      let turned : Span m.cells buffer1 (b + default_size) (e + default_size) (xs ++ ws) =
        turned-Span m buffer1 b e ws xs len (omega arith)
          (page_bytes ps m.cells (f ∷ rest) buffer1 b e ws al (omega arith) placed held len)
          (Span-append_pages m.cells (f ∷ rest) b e (ws ++ xs) (p ∷ []) v.span) in
      record {
        after = one m (set (rest ++ (p ∷ [])) i f) b e;
        runs = rw index refl;
        turning = record {
          owns =
              subst (Owns ps m.store)
                (sym (set-append rest (p ∷ []) i f (omega arith) ∙ ap (λ l. l ++ (p ∷ [])) e2))
                (Owns-to_back ps m.store p (front ++ (f ∷ back)) (
                  Owns-swap ps m.store [] f front p back
                    (subst (λ l. Owns ps m.store (f ∷ l)) e1 v.owns)));
          span =
              rw (eb, ee) at
                (Span-drop_page m.cells f (set (rest ++ (p ∷ [])) i f) (b + default_size)
                  (e + default_size) (xs ++ ws) (omega arith)
                  (Span-set_page m.cells buffer1 (b + default_size) (e + default_size) (xs ++ ws)
                    (suc i) f (inl (omega arith)) turned));
          small = omega arith;
        };
        begin_aligned = al;
        end_aligned = omega arith;
        end_bound = omega arith;
      }

  -- The first page becomes the last.
  turn_page :
      (m : Memory ps.Store) (buffer : List ℕ) (b e : ℕ) (ws xs : List ℕ)
      → length ws ≡ default_size
      → b ≡ 0
      → e + default_size < 2 ^ 63
      → e ≡ length buffer * default_size
      → Turning ps (one m buffer b e) (ws ++ xs)
      → Paged
          (one m buffer b e)
          (xs ++ ws)
          (ok (one m (drop 1 (buffer ++ (get_or buffer (b / default_size) 0 ∷ []))) b e))
  turn_page m [] b e ws xs len at_start bound full v =
      let (le, held, _) = Span-split m.cells [] b e ws xs v.span in absurd (omega arith)
  turn_page m (p ∷ rest) b e ws xs len at_start bound full v =
      let (le, held, _) = Span-split m.cells (p ∷ rest) b e ws xs v.span in
      let sm = v.small in
      let index : b / default_size ≡ 0 = omega arith in
      let index' : e / default_size ≡ length (p ∷ rest) = omega arith in
      let buffer1 = (p ∷ rest) ++ (p ∷ []) in
      let len' = length-append rest (p ∷ []) in
      let eb : b + default_size - default_size ≡ b = omega arith in
      let ee : e + default_size - default_size ≡ e = omega arith in
      let placed : get_or buffer1 (e / default_size) 0 ≡ get_or (p ∷ rest) (b / default_size) 0 =
        rw (index, index') (get_or-append_here (p ∷ rest) [] p 0) in
      let turned : Span m.cells buffer1 (b + default_size) (e + default_size) (xs ++ ws) =
        turned-Span m buffer1 b e ws xs len (omega arith)
          (page_bytes ps m.cells (p ∷ rest) buffer1 b e ws (omega arith) (omega arith) placed held
            len)
          (Span-append_pages m.cells (p ∷ rest) b e (ws ++ xs) (p ∷ []) v.span) in
      record {
        after = one m (rest ++ (p ∷ [])) b e;
        runs = rw index refl;
        turning = record {
          owns = Owns-to_back ps m.store p rest v.owns;
          span =
              rw (eb, ee) at
                (Span-drop_page m.cells p (rest ++ (p ∷ [])) (b + default_size) (e + default_size)
                  (xs ++ ws) (omega arith) turned);
          small = omega arith;
        };
        begin_aligned = omega arith;
        end_aligned = omega arith;
        end_bound = omega arith;
      }

  pub move_page_lem :
      (ws : List ℕ) (t : One ps) (xs : List ℕ)
      → length ws ≡ default_size
      → t.this.end + default_size < 2 ^ 63
      → t.this.begin % default_size ≡ 0
      → t.this.end % default_size ≡ 0
      → Turning ps t (ws ++ xs)
      → Paged t (xs ++ ws) (move_page ps t)
  unfolding move_page hand_page
  move_page_lem ws t xs len bound al al' v =
      let (le, _, _) =
        Span-split t.memory.cells t.this.buffer t.this.begin t.this.end ws xs v.span in
      let w = v.span.within in
      let sm = v.small in
      let page = page_at_lem t.this.buffer t.this.begin (omega arith) in
      let exact : capacity t.this.buffer ≡ length t.this.buffer * default_size = omega arith in
      elim (Bool-cases (t.this.end == capacity t.this.buffer)) [
        | inr roomy ↦
            let room : t.this.end < length t.this.buffer * default_size =
              let e = roomy in ground arith in
            rw (page, roomy)
              (swap_page t.memory t.this.buffer t.this.begin t.this.end ws xs len al al' room v)
        | inl is_full ↦
            let full : t.this.end ≡ length t.this.buffer * default_size =
              let e = is_full in ground arith in
            elim (Bool-cases (t.this.begin == 0)) [
              | inr some_before ↦
                  let ne : t.this.begin ≢ 0 = let e = some_before in ground arith in
                  rw (page, is_full, some_before)
                    (trade_page t.memory t.this.buffer t.this.begin t.this.end ws xs len al ne bound
                      full v)
              | inl at_start ↦
                  rw (page, is_full, at_start)
                    (turn_page t.memory t.this.buffer t.this.begin t.this.end ws xs len
                      (let e = at_start in ground arith) bound full v)
            ]
      ]
