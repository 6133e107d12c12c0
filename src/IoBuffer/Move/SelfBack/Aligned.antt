-- ===== src/IoBuffer/Move/SelfBack/Aligned.antt =====
-- The part of `self_pop_front_to_back_n` (iobuffer/io_buffer.cpp) that moves whole pages.
use npoller.Base.{
  ℕ, zero, suc, ◌+◌, ◌-◌, ◌*◌, ◌/◌, ◌%◌, ◌^◌, ◌≤◌, ◌<◌, ◌≡◌, inl, inr, refl, sym, ap, subst, ◌∙◌,
  true, Bool-cases, ◌==◌, ltb, ltb→lt, ◌&&◌, if◌then◌else◌, List, [], ◌∷◌, ◌++◌, append-nil,
  append_assoc, length, length-append, take, drop, take-append-drop, length-take, length-drop,
  get_or, Outcome, ok, with_two, ◌>>=◌, sub64, arith,
}
use npoller.PageStore.{PageStore}
use npoller.Pages.{default_size, page_at}
use npoller.IoBuffer.Push.Back.{page_at_lem}
use npoller.IoBuffer.Move.{One}
use npoller.IoBuffer.Move.Span.{Span-split}
use npoller.IoBuffer.Move.Turning.{Turning}
use npoller.IoBuffer.Move.SelfBack.{copy_one, fill_page, move_aligned, move_page, move_pages}
use npoller.IoBuffer.Move.SelfBack.Bytes.{copy_one_lem}
use npoller.IoBuffer.Move.SelfBack.Pages.{Paged, move_page_lem}

module _ (ps : PageStore) where
  -- What a part of the call comes to that moves some of the bytes `zs` behind `xs` and says how many are left.
  pub record Part (t : One ps) (zs xs : List ℕ) (out : Outcome (ℕ × One ps)) : Type 0 where
    pub done : List ℕ
    pub left : List ℕ
    pub result : One ps
    pub all : zs ≡ done ++ left
    pub runs : out ≡ ok (length left, result)
    pub turning : Turning ps result (left ++ (xs ++ done))
    pub end_bound : result.this.end + length left ≤ t.this.end + length zs
    pub some_left : 0 < length zs → 0 < length left

  -- Nothing is moved.
  Part-none :
      (t : One ps) (zs xs : List ℕ) → Turning ps t (zs ++ xs) → Part t zs xs (ok (length zs, t))
  Part-none t zs xs v = record {
    done = [];
    left = zs;
    result = t;
    all = refl;
    runs = refl;
    turning = rw append-nil v;
    end_bound = omega arith;
    some_left = λ h. h;
  }

  -- A part that comes behind the move of the bytes `ws`.
  Part-behind :
      (t a : One ps) (ws rest zs xs : List ℕ) (out out' : Outcome (ℕ × One ps))
      → ws ++ rest ≡ zs
      → a.this.end ≤ t.this.end + length ws
      → 0 < length rest
      → out' ≡ out
      → Part a rest (xs ++ ws) out
      → Part t zs xs out'
  Part-behind t a ws rest zs xs out out' split ends more same p =
      let count : length zs ≡ length ws + length rest =
        ap length (sym split) ∙ length-append ws rest in
      let e = p.end_bound in
      record {
        done = ws ++ p.done;
        left = p.left;
        result = p.result;
        all = sym split ∙ ap (λ l. ws ++ l) p.all ∙ sym (append_assoc ws p.done p.left);
        runs = same ∙ p.runs;
        turning =
            subst (λ l. Turning ps p.result (p.left ++ l)) (append_assoc xs ws p.done) p.turning;
        end_bound = omega arith;
        some_left = λ h. p.some_left more;
      }

  -- The bytes `ws` and those behind them.
  first_and_rest :
      (t : One ps) (k : ℕ) (zs xs : List ℕ)
      → Turning ps t (zs ++ xs)
      → Turning ps t (take k zs ++ (drop k zs ++ xs))
  first_and_rest t k zs xs v =
      subst (Turning ps t)
        (ap (λ l. l ++ xs) (sym (take-append-drop k zs)) ∙ append_assoc (take k zs) (drop k zs) xs)
        v

  -- One round of the loop, and the rest of it.
  round :
      (fuel : ℕ) (zs : List ℕ) (t : One ps) (ws rest xs : List ℕ)
      → ws ++ rest ≡ zs
      → length ws ≡ default_size
      → ltb default_size (length zs) ≡ true
      → (one : Paged ps t ((rest ++ xs) ++ ws) (move_page ps t))
      → Part one.after rest (xs ++ ws) (move_pages ps fuel (length rest) one.after)
      → Part t zs xs (move_pages ps (suc fuel) (length zs) t)
  unfolding move_pages
  round fuel zs t ws rest xs split len many one p =
      let more = ltb→lt default_size (length zs) many in
      let count : length zs ≡ length ws + length rest =
        ap length (sym split) ∙ length-append ws rest in
      let left : length zs - default_size ≡ length rest = omega arith in
      let e = one.end_bound in
      Part-behind t one.after ws rest zs xs _ _ split (omega arith) (omega arith)
        (rw (many, one.runs, left) refl) p

  move_pages_lem :
      (fuel : ℕ) (zs : List ℕ) (t : One ps) (xs : List ℕ)
      → length zs / default_size < fuel
      → t.this.end + length zs + default_size < 2 ^ 63
      → t.this.begin % default_size ≡ 0
      → t.this.end % default_size ≡ 0
      → Turning ps t (zs ++ xs)
      → Part t zs xs (move_pages ps fuel (length zs) t)
  unfolding move_pages
  move_pages_lem zero zs t xs f bound al al' v = absurd (omega arith)
  move_pages_lem (suc fuel) zs t xs f bound al al' v =
      elim (Bool-cases (ltb default_size (length zs))) [
        | inr few ↦ rw few (Part-none t zs xs v)
        | inl many ↦
            let more = ltb→lt default_size (length zs) many in
            let ws = take default_size zs in
            let rest = drop default_size zs in
            let len : length ws ≡ default_size = omega (arith, length-take default_size zs) in
            let count = length-drop default_size zs in
            let one =
              move_page_lem ps ws t (rest ++ xs) len (omega arith) al al'
                (first_and_rest t default_size zs xs v) in
            let e = one.end_bound in
            round fuel zs t ws rest xs (take-append-drop default_size zs) len many one (
              move_pages_lem fuel rest one.after (xs ++ ws) (omega arith) (omega arith)
                one.begin_aligned one.end_aligned
                (subst (Turning ps one.after) (append_assoc rest xs ws) one.turning))
      ]

  -- The state behind `fill_page`.
  record Filled (t : One ps) (n : ℕ) (after : One ps) (xs : List ℕ) : Type 0 where
    turning : Turning ps after xs
    begins : after.this.begin ≡ t.this.begin + n
    ends : after.this.end ≡ t.this.end + n

  fill_page_lem :
      (ws : List ℕ) (from to : ℕ) (t : One ps) (xs : List ℕ)
      → t.this.begin % default_size + length ws ≤ default_size
      → t.this.end % default_size + length ws ≤ default_size
      → t.this.end + length ws ≤ length t.this.buffer * default_size
      → (0 < length ws → from ≡ get_or t.this.buffer (t.this.begin / default_size) 0)
      → (0 < length ws → to ≡ get_or t.this.buffer (t.this.end / default_size) 0)
      → Turning ps t (ws ++ xs)
      → Filled t (length ws) (fill_page ps (length ws) from to t) (xs ++ ws)
  unfolding fill_page
  fill_page_lem [] from to t xs h h' room f f' v = record {
    turning = rw append-nil v;
    begins = omega arith;
    ends = omega arith;
  }
  fill_page_lem (w ∷ ws) from to t xs h h' room f f' v =
      let c = copy_one_lem ps t w (ws ++ xs) (omega arith) v in
      let from' = get_or t.this.buffer (t.this.begin / default_size) 0 in
      let to' = get_or t.this.buffer (t.this.end / default_size) 0 in
      let next = copy_one ps from' to' t in
      let begins = c.begins in
      let ends = c.ends in
      let pages = c.pages in
      let rest =
        fill_page_lem ws from' to' next (xs ++ (w ∷ [])) (omega arith) (omega arith)
          (rw pages (omega arith))
          (λ more. rw pages (ap (λ i. get_or t.this.buffer i 0) (omega arith)))
          (λ more. rw pages (ap (λ i. get_or t.this.buffer i 0) (omega arith)))
          (subst (Turning ps next) (append_assoc ws xs (w ∷ [])) c.turning) in
      let b = rest.begins in
      let e = rest.ends in
      rw (f (omega arith), f' (omega arith))
        (record {
          turning = rw append_assoc at rest.turning;
          begins = omega arith;
          ends = omega arith;
        })

  -- The page that has been begun, and the whole ones behind it.
  fill_first :
      (k : ℕ) (zs : List ℕ) (t : One ps) (xs : List ℕ)
      → t.this.end + length zs + default_size < 2 ^ 63
      → t.this.end % default_size ≡ t.this.begin % default_size
      → (t.this.begin % default_size + k) % default_size ≡ 0
      → k < default_size
      → 2 * default_size < length zs
      → Turning ps t (zs ++ xs)
      → Part t zs xs (do
        from ← page_at t.this.buffer (t.this.begin / default_size)
        to ← page_at t.this.buffer (sub64 t.this.end 1 / default_size)
        let n = length zs - k
        move_pages ps (n / default_size + 1) n (fill_page ps k from to t))
  fill_first k zs t xs bound alike to_end short many v =
      let ws = take k zs in
      let rest = drop k zs in
      let len : length ws ≡ k = omega (arith, length-take k zs) in
      let left : length rest ≡ length zs - k = length-drop k zs in
      let v' = first_and_rest t k zs xs v in
      let (le, _, _) =
        Span-split t.memory.cells t.this.buffer t.this.begin t.this.end zs xs v.span in
      let w = v.span.within in
      let back : sub64 t.this.end 1 ≡ t.this.end - 1 = omega (arith, v.small) in
      let from = get_or t.this.buffer (t.this.begin / default_size) 0 in
      let to = get_or t.this.buffer ((t.this.end - 1) / default_size) 0 in
      let page' : page_at t.this.buffer (sub64 t.this.end 1 / default_size) ≡ ok to =
        rw back (page_at_lem t.this.buffer (t.this.end - 1) (omega arith)) in
      let a = fill_page ps k from to t in
      let r : Filled t k a ((rest ++ xs) ++ ws) = rw len at (
        fill_page_lem ws from to t (rest ++ xs) (omega arith) (omega arith) (omega arith)
          (λ more. refl) (λ more. ap (λ i. get_or t.this.buffer i 0) (omega arith)) v') in
      let b = r.begins in
      let e = r.ends in
      let q : Part a rest (xs ++ ws)
          (move_pages ps ((length zs - k) / default_size + 1) (length zs - k) a) =
        rw left at (
          move_pages_lem (length rest / default_size + 1) rest a (xs ++ ws) (omega arith)
            (omega arith) (omega arith) (omega arith)
            (subst (Turning ps a) (append_assoc rest xs ws) r.turning)) in
      Part-behind t a ws rest zs xs _ _ (take-append-drop k zs) (omega arith) (omega arith)
        (with_two _ _ _ _ _ (page_at_lem t.this.buffer t.this.begin (omega arith)) page') q

  pub move_aligned_lem :
      (zs : List ℕ) (t : One ps) (xs : List ℕ)
      → t.this.end + length zs + default_size < 2 ^ 63
      → Turning ps t (zs ++ xs)
      → Part t zs xs (move_aligned ps (length zs) t)
  unfolding move_aligned
  move_aligned_lem zs t xs bound v =
      elim (Bool-cases (
        (sub64 t.this.end t.this.begin % default_size == 0)
        && ltb (2 * default_size) (length zs))) [
          | inr other_way ↦ rw other_way (Part-none t zs xs v)
          | inl alike ↦
              let (same, many) : (sub64 t.this.end t.this.begin % default_size ≡ 0)
                  × (2 * default_size < length zs) =
                let e = alike in ground arith in
              let o = v.span.order in
              let w = v.span.within in
              let sm = v.small in
              let same_place : t.this.end % default_size ≡ t.this.begin % default_size =
                omega arith in
              let k =
                if t.this.begin % default_size == 0
                then 0
                else default_size - t.this.begin % default_size in
              let (to_end, short) : ((t.this.begin % default_size + k) % default_size ≡ 0)
                  × (k < default_size) =
                ground arith in
              rw alike (fill_first k zs t xs bound same_place to_end short many v)
        ]
