-- ===== src/IoBuffer/Move/ToBack/Pages.antt =====
-- The loop over whole pages of `other_pop_front_to_back_n` (iobuffer/io_buffer.cpp).
use npoller.Base.{
  ℕ, zero, suc, ◌+◌, ◌-◌, ◌*◌, ◌/◌, ◌%◌, ◌^◌, ◌<◌, ◌≡◌, ◌≢◌, inl, inr, refl, sym, ap, ap₂, subst,
  get_or-append_here, ◌∙◌, true, Bool-cases, ◌==◌, ltb, ltb→lt, take, take-append-drop, length-take,
  length-drop, List, [], ◌∷◌, ◌++◌, append-nil, append_assoc, length, length-append, length-set,
  get_or, get_or-set, set, drop, around, Outcome, ok, ◌>>=◌, add64, sub64, arith,
}
use npoller.PageStore.{PageStore}
use npoller.Pages.{Cells, default_size, page_at}
use npoller.Pages.Bytes.{bytes, bytes-within_page}
use npoller.IoBuffer.Block.{Memory, capacity}
use npoller.IoBuffer.Push.Back.{page_at_lem}
use npoller.IoBuffer.View.{Owns}
use npoller.IoBuffer.Move.{Two}
use npoller.IoBuffer.Move.Span.{
  Span-split, Span-extend, Span-set_page, Span-append_pages, Span-drop_page,
}
use npoller.IoBuffer.Move.Owned.{Moving, Owns-to_back, Owns-swap}
use npoller.IoBuffer.Move.ToBack.{hand_page, move_page, move_pages}

pub regroup :
    (xs : List ℕ) (p : ℕ) (ys zs : List ℕ) (q : ℕ) (us : List ℕ)
    → (xs ++ (p ∷ ys)) ++ (zs ++ (q ∷ us)) ≡ xs ++ (p ∷ ((ys ++ zs) ++ (q ∷ us)))
regroup xs p ys zs q us =
    append_assoc xs (p ∷ ys) (zs ++ (q ∷ us))
    ∙ ap (λ l. xs ++ (p ∷ l)) (sym (append_assoc ys zs (q ∷ us)))

module _ (ps : PageStore) where
  abbrev two : Memory ps.Store → List ℕ → ℕ → ℕ → List ℕ → ℕ → ℕ → Two ps
  two m buffer begin end buffer' begin' end' = record {
    memory = m;
    this = record { buffer = buffer; begin = begin; end = end };
    other = record { buffer = buffer'; begin = begin'; end = end' };
  }

  -- The state behind one page, with whole pages next in both buffers again.
  record Paged (t : Two ps) (xs ys : List ℕ) (out : Outcome (Two ps)) : Type 0 where
    after : Two ps
    runs : out ≡ ok after
    moving : Moving ps after xs ys
    this_aligned : after.this.begin % default_size ≡ 0
    other_aligned : after.other.end % default_size ≡ 0
    one_more : after.other.end ≡ t.other.end + default_size

  -- The bytes of a page that has come to the end of `other`.
  pub page_bytes :
      (c : Cells) (buffer buffer' : List ℕ) (b e' : ℕ) (ws : List ℕ)
      → b % default_size ≡ 0
      → e' % default_size ≡ 0
      → get_or buffer' (e' / default_size) 0 ≡ get_or buffer (b / default_size) 0
      → bytes c buffer b (length ws) ≡ ws
      → length ws ≡ default_size
      → bytes c buffer' e' default_size ≡ ws
  page_bytes c buffer buffer' b e' ws al al' same held len =
      bytes-within_page c buffer' buffer e' b default_size same (al' ∙ sym al) (omega arith)
      ∙ ap (bytes c buffer b) (sym len)
      ∙ held

  -- The page changes places with the free one behind the end of `other`.
  swap_page :
      (m : Memory ps.Store) (buffer : List ℕ) (b e : ℕ) (buffer' : List ℕ) (b' e' : ℕ)
      (ws xs ys : List ℕ)
      → length ws ≡ default_size
      → b % default_size ≡ 0
      → e' % default_size ≡ 0
      → e' < length buffer' * default_size
      → Moving ps (two m buffer b e buffer' b' e') (ws ++ xs) ys
      → Paged (two m buffer b e buffer' b' e') xs (ys ++ ws) (
          page_at buffer' (e' / default_size) >>= λ q. ok (
            two m
              (set buffer (b / default_size) q)
              (add64 b default_size)
              e
              (set buffer' (e' / default_size) (get_or buffer (b / default_size) 0))
              b'
              (add64 e' default_size)))
  swap_page m buffer b e buffer' b' e' ws xs ys len al al' room v =
      let (le, held, less) = Span-split m.cells buffer b e ws xs v.this_span in
      let w = v.this_span.within in
      let sm = v.this_small in
      let sm' = v.other_small in
      let p = get_or buffer (b / default_size) 0 in
      let q = get_or buffer' (e' / default_size) 0 in
      let eb : add64 b default_size ≡ b + length ws = omega arith in
      let ee : add64 e' default_size ≡ e' + default_size = omega arith in
      let (front, back, e1, e2) = around buffer (b / default_size) q 0 (omega arith) in
      let (front', back', e3, e4) = around buffer' (e' / default_size) p 0 (omega arith) in
      let buffer2 = set buffer' (e' / default_size) p in
      let l = length-set buffer (b / default_size) q in
      let l' = length-set buffer' (e' / default_size) p in
      record {
        after =
            two m (set buffer (b / default_size) q) (b + length ws) e buffer2 b'
              (e' + default_size);
        runs = rw (page_at_lem buffer' e' room, eb, ee) refl;
        moving = record {
          owns =
              subst (Owns ps m.store) (sym (ap₂ ◌++◌ e2 e4 ∙ regroup front q back front' p back')) (
                Owns-swap ps m.store front p (back ++ front') q back' (
                  subst (Owns ps m.store) (ap₂ ◌++◌ e1 e3 ∙ regroup front p back front' q back')
                    v.owns));
          this_span =
              Span-set_page m.cells buffer (b + length ws) e xs (b / default_size) q
                (inl (omega arith)) less;
          other_span =
              Span-extend m.cells buffer2 b' e' ys ws default_size (omega arith)
                (page_bytes m.cells buffer buffer2 b e' ws al al'
                  (get_or-set buffer' (e' / default_size) p 0 (omega arith)) held len)
                (Span-set_page m.cells buffer' b' e' ys (e' / default_size) p (inr (omega arith))
                  v.other_span);
          this_small = omega arith;
          other_small = omega arith;
        };
        this_aligned = omega arith;
        other_aligned = omega arith;
        one_more = refl;
      }

  -- No page is free in `other`: the page moves, and the first of `*this` takes its place.
  trade_page :
      (m : Memory ps.Store) (buffer : List ℕ) (b e : ℕ) (buffer' : List ℕ) (b' e' : ℕ)
      (ws xs ys : List ℕ)
      → length ws ≡ default_size
      → e' + default_size < 2 ^ 63
      → b % default_size ≡ 0
      → b ≢ 0
      → e' ≡ length buffer' * default_size
      → Moving ps (two m buffer b e buffer' b' e') (ws ++ xs) ys
      → Paged (two m buffer b e buffer' b' e') xs (ys ++ ws) (
          page_at buffer 0 >>= λ f. ok (
            two m
              (drop 1 (set buffer (b / default_size) f))
              b
              (sub64 e default_size)
              (buffer' ++ (get_or buffer (b / default_size) 0 ∷ []))
              b'
              (add64 e' default_size)))
  trade_page m [] b e buffer' b' e' ws xs ys len small al ne full v =
      let (le, held, less) = Span-split m.cells [] b e ws xs v.this_span in
      let w = v.this_span.within in absurd (omega arith)
  trade_page m (f ∷ rest) b e buffer' b' e' ws xs ys len small al ne full v =
      let (le, held, less) = Span-split m.cells (f ∷ rest) b e ws xs v.this_span in
      let w = v.this_span.within in
      let sm = v.this_small in
      let i = (b - default_size) / default_size in
      let index : b / default_size ≡ suc i = omega arith in
      let p = get_or rest i 0 in
      let ee : sub64 e default_size ≡ e - default_size = omega arith in
      let ee' : add64 e' default_size ≡ e' + default_size = omega arith in
      let eb : b + length ws - default_size ≡ b = omega arith in
      let (front, back, e1, e2) = around rest i f 0 (omega arith) in
      let len' = length-append buffer' (p ∷ []) in
      let l = length-set rest i f in
      let moved : get_or (buffer' ++ (p ∷ [])) (e' / default_size) 0 ≡ p =
        let index' : e' / default_size ≡ length buffer' = omega arith in
        rw index' (get_or-append_here buffer' [] p 0) in
      record {
        after =
            two m (set rest i f) b (e - default_size) (buffer' ++ (p ∷ [])) b' (e' + default_size);
        runs = rw (index, ee, ee') refl;
        moving = record {
          owns =
              subst (Owns ps m.store)
                (append_assoc front (f ∷ (back ++ buffer')) (p ∷ [])
                  ∙ ap (λ l. front ++ (f ∷ l)) (append_assoc back buffer' (p ∷ []))
                  ∙ sym (append_assoc front (f ∷ back) (buffer' ++ (p ∷ [])))
                  ∙ ap (λ l. l ++ (buffer' ++ (p ∷ []))) (sym e2))
                (Owns-to_back ps m.store p (front ++ (f ∷ (back ++ buffer'))) (
                  Owns-swap ps m.store [] f front p (back ++ buffer') (
                    subst (λ l. Owns ps m.store (f ∷ l))
                      (ap (λ l. l ++ buffer') e1 ∙ append_assoc front (p ∷ back) buffer') v.owns)));
          this_span =
              Span-set_page m.cells rest b (e - default_size) xs i f (inl (omega arith))
                (rw eb at (Span-drop_page m.cells f rest (b + length ws) e xs (omega arith) less));
          other_span =
              Span-extend m.cells (buffer' ++ (p ∷ [])) b' e' ys ws default_size (omega arith)
                (page_bytes m.cells (f ∷ rest) (buffer' ++ (p ∷ [])) b e' ws al (omega arith)
                  (rw index moved) held len)
                (Span-append_pages m.cells buffer' b' e' ys (p ∷ []) v.other_span);
          this_small = omega arith;
          other_small = omega arith;
        };
        this_aligned = al;
        other_aligned = omega arith;
        one_more = refl;
      }

  -- The first page of `*this` moves.
  give_page :
      (m : Memory ps.Store) (buffer : List ℕ) (b e : ℕ) (buffer' : List ℕ) (b' e' : ℕ)
      (ws xs ys : List ℕ)
      → length ws ≡ default_size
      → e' + default_size < 2 ^ 63
      → b ≡ 0
      → e' ≡ length buffer' * default_size
      → Moving ps (two m buffer b e buffer' b' e') (ws ++ xs) ys
      → Paged (two m buffer b e buffer' b' e') xs (ys ++ ws) (
          ok (
            two m
              (drop 1 buffer)
              b
              (sub64 e default_size)
              (buffer' ++ (get_or buffer (b / default_size) 0 ∷ []))
              b'
              (add64 e' default_size)))
  give_page m [] b e buffer' b' e' ws xs ys len small zero_b full v =
      let (le, held, less) = Span-split m.cells [] b e ws xs v.this_span in
      let w = v.this_span.within in absurd (omega arith)
  give_page m (p ∷ rest) b e buffer' b' e' ws xs ys len small zero_b full v =
      let (le, held, less) = Span-split m.cells (p ∷ rest) b e ws xs v.this_span in
      let w = v.this_span.within in
      let sm = v.this_small in
      let ee : sub64 e default_size ≡ e - default_size = omega arith in
      let ee' : add64 e' default_size ≡ e' + default_size = omega arith in
      let eb : b + length ws - default_size ≡ b = omega arith in
      let index : b / default_size ≡ 0 = omega arith in
      let len' = length-append buffer' (p ∷ []) in
      let index' : e' / default_size ≡ length buffer' = omega arith in
      record {
        after = two m rest b (e - default_size) (buffer' ++ (p ∷ [])) b' (e' + default_size);
        runs = rw (index, ee, ee') refl;
        moving = record {
          owns = rw append_assoc at (Owns-to_back ps m.store p (rest ++ buffer') v.owns);
          this_span =
              rw eb at (Span-drop_page m.cells p rest (b + length ws) e xs (omega arith) less);
          other_span =
              Span-extend m.cells (buffer' ++ (p ∷ [])) b' e' ys ws default_size (omega arith)
                (page_bytes m.cells (p ∷ rest) (buffer' ++ (p ∷ [])) b e' ws (omega arith)
                  (omega arith) (rw (index, index') (get_or-append_here buffer' [] p 0)) held len)
                (Span-append_pages m.cells buffer' b' e' ys (p ∷ []) v.other_span);
          this_small = omega arith;
          other_small = omega arith;
        };
        this_aligned = omega arith;
        other_aligned = omega arith;
        one_more = refl;
      }

  move_page_lem :
      (ws : List ℕ) (t : Two ps) (xs ys : List ℕ)
      → length ws ≡ default_size
      → t.other.end + default_size < 2 ^ 63
      → t.this.begin % default_size ≡ 0
      → t.other.end % default_size ≡ 0
      → Moving ps t (ws ++ xs) ys
      → Paged t xs (ys ++ ws) (move_page ps t)
  unfolding move_page hand_page
  move_page_lem ws t xs ys len small al al' v =
      let (le, held, less) =
        Span-split t.memory.cells t.this.buffer t.this.begin t.this.end ws xs v.this_span in
      let w = v.this_span.within in
      let sm = v.other_small in
      let page = page_at_lem t.this.buffer t.this.begin (omega arith) in
      let exact : capacity t.other.buffer ≡ length t.other.buffer * default_size = omega arith in
      elim (Bool-cases (t.other.end == capacity t.other.buffer)) [
        | inr roomy ↦
            let room : t.other.end < length t.other.buffer * default_size =
              let e = roomy in let w' = v.other_span.within in ground arith in
            rw (page, roomy)
              (swap_page t.memory t.this.buffer t.this.begin t.this.end t.other.buffer t.other.begin
                t.other.end ws xs ys len al al' room v)
        | inl is_full ↦
            let full : t.other.end ≡ length t.other.buffer * default_size =
              let e = is_full in ground arith in
            elim (Bool-cases (t.this.begin == 0)) [
              | inr some_before ↦
                  let ne : t.this.begin ≢ 0 = let e = some_before in ground arith in
                  rw (page, is_full, some_before)
                    (trade_page t.memory t.this.buffer t.this.begin t.this.end t.other.buffer
                      t.other.begin t.other.end ws xs ys len small al ne full v)
              | inl at_start ↦
                  rw (page, is_full, at_start)
                    (give_page t.memory t.this.buffer t.this.begin t.this.end t.other.buffer
                      t.other.begin t.other.end ws xs ys len small
                      (let e = at_start in ground arith) full v)
            ]
      ]

  -- What a part of the call comes to that moves some of the bytes `zs` and says how many are left.
  pub record Part (t : Two ps) (zs xs ys : List ℕ) (out : Outcome (ℕ × Two ps)) : Type 0 where
    pub done : List ℕ
    pub left : List ℕ
    pub result : Two ps
    pub all : zs ≡ done ++ left
    pub runs : out ≡ ok (length left, result)
    pub moving : Moving ps result (left ++ xs) (ys ++ done)
    pub ended : result.other.end + length left ≡ t.other.end + length zs
    pub some_left : 0 < length zs → 0 < length left

  -- A part that comes behind the move of the bytes `ws`.
  pub Part-behind :
      (t a : Two ps) (ws rest zs xs ys : List ℕ) (out out' : Outcome (ℕ × Two ps))
      → ws ++ rest ≡ zs
      → a.other.end ≡ t.other.end + length ws
      → 0 < length rest
      → out' ≡ out
      → Part a rest xs (ys ++ ws) out
      → Part t zs xs ys out'
  Part-behind t a ws rest zs xs ys out out' split ends more same p =
      let count : length zs ≡ length ws + length rest =
        ap length (sym split) ∙ length-append ws rest in
      let e = p.ended in
      record {
        done = ws ++ p.done;
        left = p.left;
        result = p.result;
        all = sym split ∙ ap (λ l. ws ++ l) p.all ∙ sym (append_assoc ws p.done p.left);
        runs = same ∙ p.runs;
        moving = subst (Moving ps p.result (p.left ++ xs)) (append_assoc ys ws p.done) p.moving;
        ended = omega arith;
        some_left = λ h. p.some_left more;
      }

  -- One round of the loop, and the rest of it.
  round :
      (fuel : ℕ) (zs : List ℕ) (t : Two ps) (ws rest xs ys : List ℕ)
      → ws ++ rest ≡ zs
      → length ws ≡ default_size
      → ltb default_size (length zs) ≡ true
      → (one : Paged t (rest ++ xs) (ys ++ ws) (move_page ps t))
      → Part one.after rest xs (ys ++ ws) (move_pages ps fuel (length rest) one.after)
      → Part t zs xs ys (move_pages ps (suc fuel) (length zs) t)
  unfolding move_pages
  round fuel zs t ws rest xs ys split len many one p =
      let more = ltb→lt default_size (length zs) many in
      let count : length zs ≡ length ws + length rest =
        ap length (sym split) ∙ length-append ws rest in
      let left : length zs - default_size ≡ length rest = omega arith in
      let step = one.one_more in
      Part-behind t one.after ws rest zs xs ys _ _ split (omega arith) (omega arith)
        (rw (many, one.runs, left) refl) p

  pub move_pages_lem :
      (fuel : ℕ) (zs : List ℕ) (t : Two ps) (xs ys : List ℕ)
      → length zs / default_size < fuel
      → t.other.end + length zs + default_size < 2 ^ 63
      → t.this.begin % default_size ≡ 0
      → t.other.end % default_size ≡ 0
      → Moving ps t (zs ++ xs) ys
      → Part t zs xs ys (move_pages ps fuel (length zs) t)
  unfolding move_pages
  move_pages_lem zero zs t xs ys f small al al' v = absurd (omega arith)
  move_pages_lem (suc fuel) zs t xs ys f small al al' v =
      elim (Bool-cases (ltb default_size (length zs))) [
        | inr few ↦ record {
          done = [];
          left = zs;
          result = t;
          all = refl;
          runs = rw few refl;
          moving = rw append-nil v;
          ended = refl;
          some_left = λ h. h;
        }
        | inl many ↦
            let more = ltb→lt default_size (length zs) many in
            let ws = take default_size zs in
            let rest = drop default_size zs in
            let split = take-append-drop default_size zs in
            let len : length ws ≡ default_size = omega (arith, length-take default_size zs) in
            let count = length-drop default_size zs in
            let one = move_page_lem ws t (rest ++ xs) ys len (omega arith) al al' (
              subst (λ l. Moving ps t l ys)
                (ap (λ l. l ++ xs) (sym split) ∙ append_assoc ws rest xs) v) in
            let step = one.one_more in
            round fuel zs t ws rest xs ys split len many one (
              move_pages_lem fuel rest one.after xs (ys ++ ws) (omega arith) (omega arith)
                one.this_aligned one.other_aligned one.moving)
      ]
