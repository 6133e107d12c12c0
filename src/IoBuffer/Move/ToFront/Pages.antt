-- ===== src/IoBuffer/Move/ToFront/Pages.antt =====
-- The whole pages of `other_pop_back_to_front_n` (iobuffer/io_buffer.cpp).
use npoller.Base.{
  ℕ, zero, suc, ◌+◌, ◌-◌, ◌*◌, ◌/◌, ◌%◌, ◌^◌, ◌≤◌, ◌<◌, ◌≡◌, ◌≢◌, inl, inr, refl, sym, ap, ap₂,
  subst, ◌∙◌, false, Bool-cases, ◌==◌, ltb, List, [], ◌∷◌, ◌++◌, append_assoc, length,
  length-append, length-set, get_or, get_or-set, get_or-append_here, get_or-append_left, set,
  set-append, around, init, last?, init-append, last?-append, unsnoc, some, Outcome, ok, ◌>>=◌,
  add64, sub64, arith,
}
use npoller.PageStore.{PageStore}
use npoller.Pages.{default_size, page_at}
use npoller.IoBuffer.Block.{Memory}
use npoller.IoBuffer.View.{Owns}
use npoller.IoBuffer.Move.{Two}
use npoller.IoBuffer.Move.Span.{Span, Span-set_page, Span-cons_page, Span-drop_last}
use npoller.IoBuffer.Move.Span.Front.{Span-front, Span-extend_front}
use npoller.IoBuffer.Move.Owned.{Moving, Owns-swap}
use npoller.IoBuffer.Move.ToBack.Pages.{page_bytes, regroup}
use npoller.IoBuffer.Move.ToFront.{hand_page, move_page}
use npoller.IoBuffer.Move.SelfFront.Bytes.{page_before_lem}
use npoller.IoBuffer.Move.SelfFront.Pages.{held_at}

module _ (ps : PageStore) where
  abbrev two : Memory ps.Store → List ℕ → ℕ → ℕ → List ℕ → ℕ → ℕ → Two ps
  two m buffer begin end buffer' begin' end' = record {
    memory = m;
    this = record { buffer = buffer; begin = begin; end = end };
    other = record { buffer = buffer'; begin = begin'; end = end' };
  }

  -- The state behind one page, with whole pages next in both buffers again.
  pub record Paged (pages begin : ℕ) (xs ys : List ℕ) (out : Outcome (Two ps)) : Type 0 where
    pub after : Two ps
    pub runs : out ≡ ok after
    pub moving : Moving ps after xs ys
    pub this_aligned : after.this.end % default_size ≡ 0
    pub other_aligned : after.other.begin % default_size ≡ 0
    pub no_more :
        length after.other.buffer * default_size + begin
        ≤ pages * default_size + default_size + after.other.begin
    pub room : after.other.begin < length after.other.buffer * default_size

  -- The page changes places with the free one before the bytes of `other`.
  swap_page :
      (m : Memory ps.Store) (buffer : List ℕ) (b e : ℕ) (buffer' : List ℕ) (b' e' : ℕ)
      (xs ws ys : List ℕ)
      → length ws ≡ default_size
      → e % default_size ≡ 0
      → b' % default_size ≡ 0
      → b' ≢ 0
      → Moving ps (two m buffer b e buffer' b' e') (xs ++ ws) ys
      → Paged (length buffer') b' xs (ws ++ ys) (
          page_at buffer' (sub64 b' 1 / default_size) >>= λ q. ok (
            two m
              (set buffer (sub64 e 1 / default_size) q)
              b
              (sub64 e default_size)
              (set buffer' (sub64 b' 1 / default_size) (get_or buffer ((e - 1) / default_size) 0))
              (sub64 b' default_size)
              e'))
  swap_page m buffer b e buffer' b' e' xs ws ys len al al' ne v =
      let (le, held, less) = Span-front m.cells buffer b e xs ws v.this_span in
      let sm = v.this_small in
      let sm' = v.other_small in
      let w = v.this_span.within in
      let w' = v.other_span.within in
      let o' = v.other_span.order in
      let i = (e - default_size) / default_size in
      let j = (b' - default_size) / default_size in
      let p = get_or buffer i 0 in
      let q = get_or buffer' j 0 in
      let l = length-set buffer i q in
      let l' = length-set buffer' j p in
      let last : (e - 1) / default_size ≡ i = omega arith in
      let last' : sub64 e 1 / default_size ≡ i = omega arith in
      let first : (b' - 1) / default_size ≡ j = omega arith in
      let first' : sub64 b' 1 / default_size ≡ j = omega arith in
      let eb : sub64 b' default_size ≡ b' - default_size = omega arith in
      let ee : sub64 e default_size ≡ e - default_size = omega arith in
      let page : page_at buffer' j ≡ ok q =
        rw (first', first) at
          (page_before_lem buffer' b' (omega arith) (omega arith) v.other_small) in
      let (front, back, e1, e2) = around buffer i q 0 (omega arith) in
      let (front', back', e3, e4) = around buffer' j p 0 (omega arith) in
      let kept : Span m.cells buffer b (e - default_size) xs = rw len at less in
      rw (last, last', first', page, eb, ee)
        (record {
          after =
              two m (set buffer i q) b (e - default_size) (set buffer' j p) (b' - default_size) e';
          runs = refl;
          moving = record {
            owns =
                subst (Owns ps m.store) (sym (ap₂ ◌++◌ e2 e4 ∙ regroup front q back front' p back'))
                  (Owns-swap ps m.store front p (back ++ front') q back' (
                    subst (Owns ps m.store) (ap₂ ◌++◌ e1 e3 ∙ regroup front p back front' q back')
                      v.owns));
            this_span =
                Span-set_page m.cells buffer b (e - default_size) xs i q (inr (omega arith)) kept;
            other_span =
                Span-extend_front m.cells (set buffer' j p) b' e' ys ws default_size (omega arith)
                  (page_bytes ps m.cells buffer (set buffer' j p) (e - default_size)
                    (b' - default_size) ws (omega arith) (omega arith)
                    (get_or-set buffer' j p 0 (omega arith)) (held_at m.cells buffer e ws len held)
                    len)
                  (Span-set_page m.cells buffer' b' e' ys j p (inl (omega arith)) v.other_span);
            this_small = omega arith;
            other_small = omega arith;
          };
          this_aligned = omega arith;
          other_aligned = omega arith;
          no_more = omega arith;
          room = omega arith;
        })

  -- The page `p` comes before the pages of `other`.
  first_page :
      (m : Memory ps.Store) (buffer : List ℕ) (b e p : ℕ) (buffer' : List ℕ) (e' : ℕ)
      (xs ws ys : List ℕ)
      → length ws ≡ default_size
      → e % default_size ≡ 0
      → p ≡ get_or buffer ((e - default_size) / default_size) 0
      → Span m.cells buffer b e (xs ++ ws)
      → Span m.cells buffer' 0 e' ys
      → Span m.cells (p ∷ buffer') 0 (e' + default_size) (ws ++ ys)
  first_page m buffer b e p buffer' e' xs ws ys len al same s s' =
      let (le, held, _) = Span-front m.cells buffer b e xs ws s in
      Span-extend_front m.cells (p ∷ buffer') default_size (e' + default_size) ys ws default_size
        (omega arith)
        (page_bytes ps m.cells buffer (p ∷ buffer') (e - default_size) 0 ws (omega arith)
          (omega arith) same (held_at m.cells buffer e ws len held) len)
        (Span-cons_page m.cells buffer' 0 e' ys p s')

  -- A page of which no byte is held takes the place, and the page goes to `other`.
  trade_page :
      (m : Memory ps.Store) (front : List ℕ) (f b e : ℕ) (buffer' : List ℕ) (e' : ℕ)
      (xs ws ys : List ℕ)
      → length ws ≡ default_size
      → e % default_size ≡ 0
      → e ≤ length front * default_size
      → length buffer' * default_size + default_size < 2 ^ 63
      → Moving ps (two m (front ++ (f ∷ [])) b e buffer' 0 e') (xs ++ ws) ys
      → let i = (e - default_size) / default_size in
        Moving ps
          (two m
            (set front i f)
            b
            (e - default_size)
            (get_or front i 0 ∷ buffer')
            0
            (e' + default_size))
          xs
          (ws ++ ys)
  trade_page m front f b e buffer' e' xs ws ys len al room bound v =
      let i = (e - default_size) / default_size in
      let p = get_or front i 0 in
      let s = Span-drop_last m.cells front f b e (xs ++ ws) room v.this_span in
      let (le, held, less) = Span-front m.cells front b e xs ws s in
      let (before, after, e1, e2) = around front i f 0 (omega arith) in
      let kept : Span m.cells front b (e - default_size) xs = rw len at less in
      let l = length-set front i f in
      let l' = length-append front (f ∷ []) in
      let sm = v.this_small in
      record {
        owns =
            subst (Owns ps m.store)
              (sym (ap (λ l. l ++ (p ∷ buffer')) e2 ∙ regroup before f after [] p buffer'))
              (Owns-swap ps m.store before p (after ++ []) f buffer' (
                subst (Owns ps m.store)
                  (append_assoc front (f ∷ []) buffer'
                    ∙ ap (λ l. l ++ (f ∷ buffer')) e1
                    ∙ regroup before p after [] f buffer')
                  v.owns));
        this_span =
            Span-set_page m.cells front b (e - default_size) xs i f (inr (omega arith)) kept;
        other_span = first_page m front b e p buffer' e' xs ws ys len al refl s v.other_span;
        this_small = omega arith;
        other_small = omega arith;
      }

  -- The last page goes to `other`.
  give_page :
      (m : Memory ps.Store) (front : List ℕ) (p b e : ℕ) (buffer' : List ℕ) (e' : ℕ)
      (xs ws ys : List ℕ)
      → length ws ≡ default_size
      → e % default_size ≡ 0
      → e ≡ (length front + 1) * default_size
      → length buffer' * default_size + default_size < 2 ^ 63
      → Moving ps (two m (front ++ (p ∷ [])) b e buffer' 0 e') (xs ++ ws) ys
      → Moving ps
          (two m front b (e - default_size) (p ∷ buffer') 0 (e' + default_size))
          xs
          (ws ++ ys)
  give_page m front p b e buffer' e' xs ws ys len al full bound v =
      let (le, held, less) = Span-front m.cells (front ++ (p ∷ [])) b e xs ws v.this_span in
      let kept : Span m.cells (front ++ (p ∷ [])) b (e - default_size) xs = rw len at less in
      let index : (e - default_size) / default_size ≡ length front = omega arith in
      let here : p ≡ get_or (front ++ (p ∷ [])) ((e - default_size) / default_size) 0 =
        rw index (sym (get_or-append_here front [] p 0)) in
      let l' = length-append front (p ∷ []) in
      let sm = v.this_small in
      record {
        owns = subst (Owns ps m.store) (append_assoc front (p ∷ []) buffer') v.owns;
        this_span = Span-drop_last m.cells front p b (e - default_size) xs (omega arith) kept;
        other_span =
            first_page m (front ++ (p ∷ [])) b e p buffer' e' xs ws ys len al here v.this_span
              v.other_span;
        this_small = omega arith;
        other_small = omega arith;
      }

  -- Where `other` begins at 0.
  from_zero :
      (m : Memory ps.Store) (buffer front : List ℕ) (f b e : ℕ) (buffer' : List ℕ) (e' : ℕ)
      (xs ws ys : List ℕ)
      → buffer ≡ front ++ (f ∷ [])
      → length ws ≡ default_size
      → e % default_size ≡ 0
      → 0 < e
      → length buffer' * default_size + default_size < 2 ^ 63
      → Moving ps (two m buffer b e buffer' 0 e') (xs ++ ws) ys
      → Paged
          (length buffer')
          0
          xs
          (ws ++ ys)
          (hand_page ps (two m buffer b e buffer' 0 e') (get_or buffer ((e - 1) / default_size) 0))
  unfolding hand_page
  from_zero m buffer front f b e buffer' e' xs ws ys split len al more bound v =
      let i = (e - default_size) / default_size in
      let w = v.this_span.within in
      let w' = v.other_span.within in
      let sm = v.this_small in
      let count : length buffer ≡ length front + 1 =
        ap length split ∙ length-append front (f ∷ []) in
      let last : (e - 1) / default_size ≡ i = omega arith in
      let last' : sub64 e 1 / default_size ≡ i = omega arith in
      let ee : sub64 e default_size ≡ e - default_size = omega arith in
      let ee' : add64 e' default_size ≡ e' + default_size = omega arith in
      let v' : Moving ps (two m (front ++ (f ∷ [])) b e buffer' 0 e') (xs ++ ws) ys =
        subst (λ l. Moving ps (two m l b e buffer' 0 e') (xs ++ ws) ys) split v in
      elim (Bool-cases (ltb i (sub64 (length buffer) 1))) [
        | inl spare ↦
            let room : i < length front = let h = spare in ground arith in
            let here : get_or buffer ((e - 1) / default_size) 0 ≡ get_or front i 0 =
              ap₂ (λ l k. get_or l k 0) split last ∙ get_or-append_left front (f ∷ []) i 0 room in
            let final : last? buffer ≡ some f = ap last? split ∙ last?-append front f in
            let kept : init (set buffer i f) ≡ set front i f =
              ap init (ap (λ l. set l i f) split ∙ set-append front (f ∷ []) i f room)
              ∙ init-append (set front i f) f in
            rw (last', spare, final, here, kept, ee, ee')
              (record {
                after =
                    two m (set front i f) b (e - default_size) (get_or front i 0 ∷ buffer') 0
                      (e' + default_size);
                runs = refl;
                moving = trade_page m front f b e buffer' e' xs ws ys len al (omega arith) bound v';
                this_aligned = omega arith;
                other_aligned = refl;
                no_more = omega arith;
                room = omega arith;
              })
        | inr used ↦
            let full : length front ≤ i = let h = used in ground arith in
            let index : i ≡ length front = omega arith in
            let here : get_or buffer ((e - 1) / default_size) 0 ≡ f =
              ap₂ (λ l k. get_or l k 0) split (last ∙ index) ∙ get_or-append_here front [] f 0 in
            let kept : init buffer ≡ front = ap init split ∙ init-append front f in
            rw (last', used, here, kept, ee, ee')
              (record {
                after = two m front b (e - default_size) (f ∷ buffer') 0 (e' + default_size);
                runs = refl;
                moving = give_page m front f b e buffer' e' xs ws ys len al (omega arith) bound v';
                this_aligned = omega arith;
                other_aligned = refl;
                no_more = omega arith;
                room = omega arith;
              })
      ]

  move_page_explicit :
      (m : Memory ps.Store) (buffer : List ℕ) (b e : ℕ) (buffer' : List ℕ) (b' e' : ℕ)
      (xs ws ys : List ℕ)
      → length ws ≡ default_size
      → length buffer' * default_size + default_size < 2 ^ 63 + b'
      → e % default_size ≡ 0
      → b' % default_size ≡ 0
      → Moving ps (two m buffer b e buffer' b' e') (xs ++ ws) ys
      → Paged
          (length buffer')
          b'
          xs
          (ws ++ ys)
          (hand_page ps (two m buffer b e buffer' b' e') (get_or buffer ((e - 1) / default_size) 0))
  unfolding hand_page
  move_page_explicit m buffer b e buffer' zero e' xs ws ys len bound al al' v =
      let (le, _, _) = Span-front m.cells buffer b e xs ws v.this_span in
      let w = v.this_span.within in
      let (front, f, split) = unsnoc buffer (omega arith) in
      from_zero m buffer front f b e buffer' e' xs ws ys split len al (omega arith) (omega arith) v
  move_page_explicit m buffer b e buffer' (suc b') e' xs ws ys len bound al al' v =
      let set : (suc b' == 0) ≡ false = ground arith in
      rw set (swap_page m buffer b e buffer' (suc b') e' xs ws ys len al al' (omega arith) v)

  pub move_page_lem :
      (ws : List ℕ) (t : Two ps) (xs ys : List ℕ)
      → length ws ≡ default_size
      → length t.other.buffer * default_size + default_size < 2 ^ 63 + t.other.begin
      → t.this.end % default_size ≡ 0
      → t.other.begin % default_size ≡ 0
      → Moving ps t (xs ++ ws) ys
      → Paged (length t.other.buffer) t.other.begin xs (ws ++ ys) (move_page ps t)
  unfolding move_page
  move_page_lem ws t xs ys len bound al al' v =
      let (le, _, _) =
        Span-front t.memory.cells t.this.buffer t.this.begin t.this.end xs ws v.this_span in
      rw (page_before_lem t.this.buffer t.this.end (omega arith) v.this_span.within v.this_small) (
        move_page_explicit t.memory t.this.buffer t.this.begin t.this.end t.other.buffer
          t.other.begin t.other.end xs ws ys len bound al al' v)
