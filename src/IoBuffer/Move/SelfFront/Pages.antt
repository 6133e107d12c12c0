-- ===== src/IoBuffer/Move/SelfFront/Pages.antt =====
-- The whole pages of `self_pop_back_to_front_n` (iobuffer/io_buffer.cpp).
use npoller.Base.{
  ℕ, zero, suc, ◌+◌, ◌-◌, ◌*◌, ◌/◌, ◌%◌, ◌^◌, ◌≤◌, ◌<◌, ◌≡◌, ◌≢◌, inl, inr, refl, sym, ap, ap₂,
  subst, ◌∙◌, true, false, Bool-cases, ◌==◌, ltb, List, [], ◌∷◌, ◌++◌, append_assoc, length,
  length-append, length-set, get_or, get_or-set, set, set-append, set_comm, around, around_two,
  init, last?, init-append, last?-append, unsnoc, some, Outcome, ok, ◌>>=◌, sub64, arith,
  get_or-append_here, get_or-append_left,
}
use npoller.PageStore.{PageStore}
use npoller.Pages.{Cells, default_size, page_at}
use npoller.Pages.Bytes.{bytes}
use npoller.IoBuffer.Block.{Memory}
use npoller.IoBuffer.View.{Owns}
use npoller.IoBuffer.Move.{One}
use npoller.IoBuffer.Move.Span.{Span, Span-length, Span-set_page, Span-cons_page, Span-drop_last}
use npoller.IoBuffer.Move.Span.Front.{Span-front, Span-extend_front}
use npoller.IoBuffer.Move.Owned.{Owns-to_front, Owns-swap}
use npoller.IoBuffer.Move.Turning.{Turning}
use npoller.IoBuffer.Move.ToBack.Pages.{page_bytes}
use npoller.IoBuffer.Move.SelfFront.{int_index, hand_page, move_page}
use npoller.IoBuffer.Move.SelfFront.Bytes.{page_before_lem}

pub held_at :
    (c : Cells) (buffer : List ℕ) (e : ℕ) (ws : List ℕ)
    → length ws ≡ default_size
    → bytes c buffer (e - length ws) (length ws) ≡ ws
    → bytes c buffer (e - default_size) (length ws) ≡ ws
held_at c buffer e ws len held = ap (λ k. bytes c buffer (e - k) (length ws)) (sym len) ∙ held

module _ (ps : PageStore) where
  abbrev one : Memory ps.Store → List ℕ → ℕ → ℕ → One ps
  one m buffer begin end = record {
    memory = m;
    this = record { buffer = buffer; begin = begin; end = end };
  }

  -- The state behind one page, with a whole page next again.
  pub record Paged (xs : List ℕ) (out : Outcome (One ps)) : Type 0 where
    pub after : One ps
    pub runs : out ≡ ok after
    pub turning : Turning ps after xs
    pub begin_aligned : after.this.begin % default_size ≡ 0
    pub end_aligned : after.this.end % default_size ≡ 0

  -- The bytes `ws` at the end stand before the front as well, and the end is given up.
  turned_front-Span :
      (m : Memory ps.Store) (buffer : List ℕ) (b e : ℕ) (xs ws : List ℕ)
      → length ws ≡ default_size
      → default_size ≤ b
      → bytes m.cells buffer (b - default_size) default_size ≡ ws
      → Span m.cells buffer b e (xs ++ ws)
      → Span m.cells buffer (b - default_size) (e - default_size) (ws ++ xs)
  turned_front-Span m buffer b e xs ws len room more s =
      let longer : Span m.cells buffer (b - default_size) e ((ws ++ xs) ++ ws) =
        subst (Span m.cells buffer (b - default_size) e) (sym (append_assoc ws xs ws))
          (Span-extend_front m.cells buffer b e (xs ++ ws) ws default_size room more s) in
      let (_, _, less) = Span-front m.cells buffer (b - default_size) e (ws ++ xs) ws longer in
      rw len at less

  -- The page changes places with the free one before the bytes.
  swap_page :
      (m : Memory ps.Store) (buffer : List ℕ) (b e : ℕ) (xs ws : List ℕ)
      → length ws ≡ default_size
      → b % default_size ≡ 0
      → e % default_size ≡ 0
      → b ≢ 0
      → Turning ps (one m buffer b e) (xs ++ ws)
      → Paged (ws ++ xs) (
          page_at buffer (sub64 b 1 / default_size) >>= λ q. ok (
            one m
              (set
                (set buffer (sub64 b 1 / default_size) (get_or buffer ((e - 1) / default_size) 0))
                (sub64 e 1 / default_size)
                q)
              (sub64 b default_size)
              (sub64 e default_size)))
  swap_page m buffer b e xs ws len al al' ne v =
      let (le, held, _) = Span-front m.cells buffer b e xs ws v.span in
      let sm = v.small in
      let w = v.span.within in
      let i = (e - default_size) / default_size in
      let j = (b - default_size) / default_size in
      let p = get_or buffer i 0 in
      let q = get_or buffer j 0 in
      let buffer1 = set buffer j p in
      let l1 = length-set buffer j p in
      let l2 = length-set buffer1 i q in
      let last : (e - 1) / default_size ≡ i = omega arith in
      let last' : sub64 e 1 / default_size ≡ i = omega arith in
      let first : (b - 1) / default_size ≡ j = omega arith in
      let first' : sub64 b 1 / default_size ≡ j = omega arith in
      let eb : sub64 b default_size ≡ b - default_size = omega arith in
      let ee : sub64 e default_size ≡ e - default_size = omega arith in
      let page : page_at buffer j ≡ ok q =
        rw (first', first) at (page_before_lem buffer b (omega arith) (omega arith) v.small) in
      let (front, middle, back, e1, e2) = around_two buffer j i 0 (omega arith) (omega arith) in
      rw (last, last', first', page, eb, ee)
        (record {
          after = one m (set buffer1 i q) (b - default_size) (e - default_size);
          runs = refl;
          turning = record {
            owns =
                subst (Owns ps m.store) (sym (set_comm buffer j i p q (omega arith) ∙ e2))
                  (Owns-swap ps m.store front q middle p back (subst (Owns ps m.store) e1 v.owns));
            span =
                Span-set_page m.cells buffer1 (b - default_size) (e - default_size) (ws ++ xs) i q
                  (inr (omega arith))
                  (turned_front-Span m buffer1 b e xs ws len (omega arith)
                    (page_bytes ps m.cells buffer buffer1 (e - default_size) (b - default_size) ws
                      (omega arith) (omega arith) (get_or-set buffer j p 0 (omega arith))
                      (held_at m.cells buffer e ws len held) len)
                    (Span-set_page m.cells buffer b e (xs ++ ws) j p (inl (omega arith)) v.span));
            small = omega arith;
          };
          begin_aligned = omega arith;
          end_aligned = omega arith;
        })

  -- The bytes of the page `p` that has come before all others.
  first_page :
      (m : Memory ps.Store) (buffer : List ℕ) (p e : ℕ) (xs ws : List ℕ)
      → length ws ≡ default_size
      → e % default_size ≡ 0
      → p ≡ get_or buffer ((e - default_size) / default_size) 0
      → Span m.cells buffer 0 e (xs ++ ws)
      → Span m.cells (p ∷ buffer) 0 e (ws ++ xs)
  first_page m buffer p e xs ws len al same s =
      let (le, held, _) = Span-front m.cells buffer 0 e xs ws s in
      let back : e + default_size - default_size ≡ e = omega arith in
      rw back at (
        turned_front-Span m (p ∷ buffer) default_size (e + default_size) xs ws len (omega arith)
          (page_bytes ps m.cells buffer (p ∷ buffer) (e - default_size) 0 ws (omega arith)
            (omega arith) same (held_at m.cells buffer e ws len held) len)
          (Span-cons_page m.cells buffer 0 e (xs ++ ws) p s))

  -- A page of which no byte is held takes the place, and goes from the end.
  trade_page :
      (m : Memory ps.Store) (front : List ℕ) (f e : ℕ) (xs ws : List ℕ)
      → length ws ≡ default_size
      → e % default_size ≡ 0
      → 0 < e
      → e ≤ length front * default_size
      → Turning ps (one m (front ++ (f ∷ [])) 0 e) (xs ++ ws)
      → let i = (e - default_size) / default_size in
        Turning ps (one m (get_or front i 0 ∷ set front i f) 0 e) (ws ++ xs)
  trade_page m front f e xs ws len al more room v =
      let i = (e - default_size) / default_size in
      let p = get_or front i 0 in
      let s = Span-drop_last m.cells front f 0 e (xs ++ ws) room v.span in
      let turned = first_page m front p e xs ws len al refl s in
      let (before, after, e1, e2) = around front i f 0 (omega arith) in
      let o : Owns ps m.store (f ∷ (before ++ (p ∷ after))) =
        subst (λ l. Owns ps m.store (f ∷ l)) e1 (Owns-to_front ps m.store f front v.owns) in
      let l = length-set front i f in
      let l' = length-append front (f ∷ []) in
      let sm = v.small in
      record {
        owns =
            subst (λ l. Owns ps m.store (p ∷ l)) (sym e2)
              (Owns-swap ps m.store [] f before p after o);
        span =
            Span-set_page m.cells (p ∷ front) 0 e (ws ++ xs) (suc i) f (inr (omega arith)) turned;
        small = omega arith;
      }

  -- The last page becomes the first.
  turn_page :
      (m : Memory ps.Store) (front : List ℕ) (p e : ℕ) (xs ws : List ℕ)
      → length ws ≡ default_size
      → e % default_size ≡ 0
      → e ≡ (length front + 1) * default_size
      → Turning ps (one m (front ++ (p ∷ [])) 0 e) (xs ++ ws)
      → Turning ps (one m (p ∷ front) 0 e) (ws ++ xs)
  turn_page m front p e xs ws len al full v =
      let index : (e - default_size) / default_size ≡ length front = omega arith in
      let here : p ≡ get_or (front ++ (p ∷ [])) ((e - default_size) / default_size) 0 =
        rw index (sym (get_or-append_here front [] p 0)) in
      let l' = length-append front (p ∷ []) in
      let sm = v.small in
      record {
        owns = Owns-to_front ps m.store p front v.owns;
        span =
            Span-drop_last m.cells (p ∷ front) p 0 e (ws ++ xs) (omega arith)
              (first_page m (front ++ (p ∷ [])) p e xs ws len al here v.span);
        small = omega arith;
      }

  -- The index of a page fits an `int` below 2^31 pages.
  int_index_lem : (i : ℕ) → i + 1 < 2 ^ 31 → int_index i ≡ ok (i + 1)
  unfolding int_index
  int_index_lem i small =
      let same : (i % 2 ^ 32 + 1) % 2 ^ 32 ≡ i + 1 = omega arith in
      let fits : ltb (i + 1) (2 ^ 31) ≡ true = ground arith in rw (same, fits) refl

  -- Where the bytes begin at 0.
  from_zero :
      (m : Memory ps.Store) (buffer front : List ℕ) (f e : ℕ) (xs ws : List ℕ)
      → buffer ≡ front ++ (f ∷ [])
      → length ws ≡ default_size
      → e % default_size ≡ 0
      → 0 < e
      → length (xs ++ ws) ≤ (2 ^ 31 - 1) * default_size
      → Turning ps (one m buffer 0 e) (xs ++ ws)
      → Paged
          (ws ++ xs)
          (hand_page ps (one m buffer 0 e) (get_or buffer ((e - 1) / default_size) 0))
  unfolding hand_page
  from_zero m buffer front f e xs ws split len al more bound v =
      let i = (e - default_size) / default_size in
      let w = v.span.within in
      let sm = v.small in
      let count : length buffer ≡ length front + 1 =
        ap length split ∙ length-append front (f ∷ []) in
      let last : (e - 1) / default_size ≡ i = omega arith in
      let last' : sub64 e 1 / default_size ≡ i = omega arith in
      let v' : Turning ps (one m (front ++ (f ∷ [])) 0 e) (xs ++ ws) =
        subst (λ l. Turning ps (one m l 0 e) (xs ++ ws)) split v in
      elim (Bool-cases (ltb i (sub64 (length buffer) 1))) [
        | inl spare ↦
            let held = Span-length m.cells buffer 0 e (xs ++ ws) v.span in
            let index = int_index_lem i (omega arith) in
            let room : i < length front = let h = spare in ground arith in
            let here : get_or buffer i 0 ≡ get_or front i 0 =
              ap (λ l. get_or l i 0) split ∙ get_or-append_left front (f ∷ []) i 0 room in
            let final : (p : ℕ) → last? (p ∷ buffer) ≡ some f =
              λ p. ap (λ l. last? (p ∷ l)) split ∙ last?-append (p ∷ front) f in
            let next : i + 1 ≡ suc i = omega arith in
            let kept : (p : ℕ) → init (set (p ∷ buffer) (i + 1) f) ≡ p ∷ set front i f = λ p.
              ap (λ k. init (set (p ∷ buffer) k f)) next
              ∙ ap (λ l. init (p ∷ l))
                  (ap (λ l. set l i f) split ∙ set-append front (f ∷ []) i f room)
              ∙ init-append (p ∷ set front i f) f in
            rw
              (
                last',
                spare,
                index,
                final (get_or buffer ((e - 1) / default_size) 0),
                last,
                here,
                kept (get_or front i 0),
              )
              (record {
                after = one m (get_or front i 0 ∷ set front i f) 0 e;
                runs = refl;
                turning = trade_page m front f e xs ws len al more (omega arith) v';
                begin_aligned = refl;
                end_aligned = al;
              })
        | inr used ↦
            let full : length front ≤ i = let h = used in ground arith in
            let index : i ≡ length front = omega arith in
            let here : get_or buffer i 0 ≡ f =
              ap₂ (λ l k. get_or l k 0) split index ∙ get_or-append_here front [] f 0 in
            let kept : init (get_or buffer ((e - 1) / default_size) 0 ∷ buffer) ≡ f ∷ front =
              ap (λ p. init (p ∷ buffer)) (ap (λ k. get_or buffer k 0) last ∙ here)
              ∙ ap (λ l. init (f ∷ l)) split
              ∙ init-append (f ∷ front) f in
            rw (last', used, kept)
              (record {
                after = one m (f ∷ front) 0 e;
                runs = refl;
                turning = turn_page m front f e xs ws len al (omega arith) v';
                begin_aligned = refl;
                end_aligned = al;
              })
      ]

  move_page_explicit :
      (m : Memory ps.Store) (buffer : List ℕ) (b e : ℕ) (xs ws : List ℕ)
      → length ws ≡ default_size
      → b % default_size ≡ 0
      → e % default_size ≡ 0
      → length (xs ++ ws) ≤ (2 ^ 31 - 1) * default_size
      → Turning ps (one m buffer b e) (xs ++ ws)
      → Paged
          (ws ++ xs)
          (hand_page ps (one m buffer b e) (get_or buffer ((e - 1) / default_size) 0))
  unfolding hand_page
  move_page_explicit m buffer zero e xs ws len al al' bound v =
      let (le, _, _) = Span-front m.cells buffer 0 e xs ws v.span in
      let w = v.span.within in
      let (front, f, split) = unsnoc buffer (omega arith) in
      from_zero m buffer front f e xs ws split len al' (omega arith) bound v
  move_page_explicit m buffer (suc b) e xs ws len al al' bound v =
      let set : (suc b == 0) ≡ false = ground arith in
      rw set (swap_page m buffer (suc b) e xs ws len al al' (omega arith) v)

  pub move_page_lem :
      (ws : List ℕ) (t : One ps) (xs : List ℕ)
      → length ws ≡ default_size
      → t.this.begin % default_size ≡ 0
      → t.this.end % default_size ≡ 0
      → length (xs ++ ws) ≤ (2 ^ 31 - 1) * default_size
      → Turning ps t (xs ++ ws)
      → Paged (ws ++ xs) (move_page ps t)
  unfolding move_page
  move_page_lem ws t xs len al al' bound v =
      let (le, _, _) =
        Span-front t.memory.cells t.this.buffer t.this.begin t.this.end xs ws v.span in
      rw (page_before_lem t.this.buffer t.this.end (omega arith) v.span.within v.small)
        (move_page_explicit t.memory t.this.buffer t.this.begin t.this.end xs ws len al al' bound v)
