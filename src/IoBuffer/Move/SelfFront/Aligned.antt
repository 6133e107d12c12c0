-- ===== src/IoBuffer/Move/SelfFront/Aligned.antt =====
-- The part of `self_pop_back_to_front_n` (iobuffer/io_buffer.cpp) that moves whole pages.
use npoller.Base.{
  ℕ, zero, suc, ◌+◌, ◌-◌, ◌*◌, ◌/◌, ◌%◌, ◌^◌, ◌≤◌, ◌<◌, ◌≡◌, inl, inr, refl, sym, ap, subst, ◌∙◌,
  true, Bool-cases, ◌==◌, ltb, ltb→lt, ◌&&◌, if◌then◌else◌, List, [], ◌∷◌, ◌++◌, append-nil,
  append_assoc, length, length-append, take, drop, take-append-drop, length-take, length-drop,
  unsnoc, get_or, Outcome, ok, with_two, ◌>>=◌, sub64, arith,
}
use npoller.PageStore.{PageStore}
use npoller.Pages.{default_size, page_at}
use npoller.IoBuffer.Push.Back.{page_at_lem}
use npoller.IoBuffer.Move.{One}
use npoller.IoBuffer.Move.Span.Front.{Span-front}
use npoller.IoBuffer.Move.Turning.{Turning}
use npoller.IoBuffer.Move.SelfFront.{copy_one, fill_page, move_aligned, move_page, move_pages}
use npoller.IoBuffer.Move.SelfFront.Bytes.{copy_one_lem, page_before_lem}
use npoller.IoBuffer.Move.SelfFront.Pages.{Paged, move_page_lem}

module _ (ps : PageStore) where
  -- What a part of the call comes to that moves some of the bytes `zs` before `xs` and says how many are left.
  pub record Part (zs xs : List ℕ) (out : Outcome (ℕ × One ps)) : Type 0 where
    pub done : List ℕ
    pub left : List ℕ
    pub result : One ps
    pub all : zs ≡ left ++ done
    pub runs : out ≡ ok (length left, result)
    pub turning : Turning ps result ((done ++ xs) ++ left)
    pub some_left : 0 < length zs → 0 < length left

  -- Nothing is moved.
  Part-none :
      (t : One ps) (zs xs : List ℕ) → Turning ps t (xs ++ zs) → Part zs xs (ok (length zs, t))
  Part-none t zs xs v = record {
    done = [];
    left = zs;
    result = t;
    all = sym (append-nil zs);
    runs = refl;
    turning = v;
    some_left = λ h. h;
  }

  -- A part that comes behind the move of the bytes `ws`.
  Part-behind :
      (ws rest zs xs : List ℕ) (out out' : Outcome (ℕ × One ps))
      → rest ++ ws ≡ zs
      → 0 < length rest
      → out' ≡ out
      → Part rest (ws ++ xs) out
      → Part zs xs out'
  Part-behind ws rest zs xs out out' split more same p = record {
    done = p.done ++ ws;
    left = p.left;
    result = p.result;
    all = sym split ∙ ap (λ l. l ++ ws) p.all ∙ append_assoc p.left p.done ws;
    runs = same ∙ p.runs;
    turning =
        subst (λ l. Turning ps p.result (l ++ p.left)) (sym (append_assoc p.done ws xs)) p.turning;
    some_left = λ h. p.some_left more;
  }

  -- The bytes before the last `k`, and those.
  front_and_last :
      (t : One ps) (k : ℕ) (zs xs : List ℕ)
      → Turning ps t (xs ++ zs)
      → Turning ps t ((xs ++ take (length zs - k) zs) ++ drop (length zs - k) zs)
  front_and_last t k zs xs v =
      subst (Turning ps t)
        (ap (λ l. xs ++ l) (sym (take-append-drop (length zs - k) zs))
          ∙ sym (append_assoc xs (take (length zs - k) zs) (drop (length zs - k) zs)))
        v

  -- One round of the loop, and the rest of it.
  round :
      (fuel : ℕ) (zs : List ℕ) (t : One ps) (ws rest xs : List ℕ)
      → rest ++ ws ≡ zs
      → length ws ≡ default_size
      → ltb default_size (length zs) ≡ true
      → (one : Paged ps (ws ++ (xs ++ rest)) (move_page ps t))
      → Part rest (ws ++ xs) (move_pages ps fuel (length rest) one.after)
      → Part zs xs (move_pages ps (suc fuel) (length zs) t)
  unfolding move_pages
  round fuel zs t ws rest xs split len many one p =
      let more = ltb→lt default_size (length zs) many in
      let count : length zs ≡ length rest + length ws =
        ap length (sym split) ∙ length-append rest ws in
      let left : length zs - default_size ≡ length rest = omega arith in
      Part-behind ws rest zs xs _ _ split (omega arith) (rw (many, one.runs, left) refl) p

  move_pages_lem :
      (fuel : ℕ) (zs : List ℕ) (t : One ps) (xs : List ℕ)
      → length zs / default_size < fuel
      → t.this.begin % default_size ≡ 0
      → t.this.end % default_size ≡ 0
      → length (xs ++ zs) ≤ (2 ^ 31 - 1) * default_size
      → Turning ps t (xs ++ zs)
      → Part zs xs (move_pages ps fuel (length zs) t)
  unfolding move_pages
  move_pages_lem zero zs t xs f al al' bound v = absurd (omega arith)
  move_pages_lem (suc fuel) zs t xs f al al' bound v =
      elim (Bool-cases (ltb default_size (length zs))) [
        | inr few ↦ rw few (Part-none t zs xs v)
        | inl many ↦
            let more = ltb→lt default_size (length zs) many in
            let rest = take (length zs - default_size) zs in
            let ws = drop (length zs - default_size) zs in
            let len : length ws ≡ default_size =
              omega (arith, length-drop (length zs - default_size) zs) in
            let count = length-take (length zs - default_size) zs in
            let total = length-append xs zs in
            let total' = length-append (xs ++ rest) ws in
            let total'' = length-append xs rest in
            let few' = length-append (ws ++ xs) rest in
            let few'' = length-append ws xs in
            let one =
              move_page_lem ps ws t (xs ++ rest) len al al' (omega arith)
                (front_and_last t default_size zs xs v) in
            round fuel zs t ws rest xs (take-append-drop (length zs - default_size) zs) len many one
              (move_pages_lem fuel rest one.after (ws ++ xs) (omega arith) one.begin_aligned
                one.end_aligned (omega arith)
                (subst (Turning ps one.after) (sym (append_assoc ws xs rest)) one.turning))
      ]

  -- The state behind `fill_page`.
  record Filled (t : One ps) (n : ℕ) (after : One ps) (xs : List ℕ) : Type 0 where
    turning : Turning ps after xs
    begins : after.this.begin ≡ t.this.begin - n
    ends : after.this.end ≡ t.this.end - n

  fill_page_lem :
      (n : ℕ) (ws : List ℕ) (from to : ℕ) (t : One ps) (xs : List ℕ)
      → length ws ≡ n
      → n ≤ t.this.begin % default_size
      → n ≤ t.this.end % default_size
      → (0 < n → from ≡ get_or t.this.buffer ((t.this.end - 1) / default_size) 0)
      → (0 < n → to ≡ get_or t.this.buffer ((t.this.begin - 1) / default_size) 0)
      → Turning ps t (xs ++ ws)
      → Filled t n (fill_page ps n from to t) (ws ++ xs)
  unfolding fill_page
  fill_page_lem zero [] from to t xs len h h' f f' v = record {
    turning = rw append-nil at v;
    begins = omega arith;
    ends = omega arith;
  }
  fill_page_lem zero (w ∷ ws) from to t xs len h h' f f' v = absurd (omega arith)
  fill_page_lem (suc n) ws from to t xs len h h' f f' v =
      let (front, x, split) = unsnoc ws (omega arith) in
      let count : length ws ≡ length front + 1 = ap length split ∙ length-append front (x ∷ []) in
      let v' : Turning ps t ((xs ++ front) ++ (x ∷ [])) =
        subst (Turning ps t) (ap (λ l. xs ++ l) split ∙ sym (append_assoc xs front (x ∷ []))) v in
      let c = copy_one_lem ps t x (xs ++ front) (omega arith) v' in
      let from' = get_or t.this.buffer ((t.this.end - 1) / default_size) 0 in
      let to' = get_or t.this.buffer ((t.this.begin - 1) / default_size) 0 in
      let next = copy_one ps from' to' t in
      let begins = c.begins in
      let ends = c.ends in
      let pages = c.pages in
      let rest =
        fill_page_lem n front from' to' next (x ∷ xs) (omega arith) (omega arith) (omega arith)
          (λ more. rw pages (ap (λ i. get_or t.this.buffer i 0) (omega arith)))
          (λ more. rw pages (ap (λ i. get_or t.this.buffer i 0) (omega arith))) c.turning in
      let b = rest.begins in
      let e = rest.ends in
      let a = fill_page ps n from' to' next in
      let turned : Turning ps a (ws ++ xs) =
        subst (Turning ps a) (sym (append_assoc front (x ∷ []) xs) ∙ ap (λ l. l ++ xs) (sym split))
          rest.turning in
      rw (f (omega arith), f' (omega arith))
        (record { turning = turned; begins = omega arith; ends = omega arith })

  -- The page that is not full, and the whole ones before it.
  fill_first :
      (k : ℕ) (zs : List ℕ) (t : One ps) (xs : List ℕ)
      → t.this.end % default_size ≡ t.this.begin % default_size
      → t.this.end % default_size ≡ k
      → 2 * default_size < length zs
      → length (xs ++ zs) ≤ (2 ^ 31 - 1) * default_size
      → Turning ps t (xs ++ zs)
      → Part zs xs (do
        to ← page_at t.this.buffer (t.this.begin / default_size)
        from ← page_at t.this.buffer (sub64 t.this.end 1 / default_size)
        let n = length zs - k
        move_pages ps (n / default_size + 1) n (fill_page ps k from to t))
  fill_first k zs t xs alike begun many bound v =
      let rest = take (length zs - k) zs in
      let ws = drop (length zs - k) zs in
      let len : length ws ≡ k = omega (arith, length-drop (length zs - k) zs) in
      let left : length rest ≡ length zs - k = omega (arith, length-take (length zs - k) zs) in
      let total = length-append xs zs in
      let less = length-append (ws ++ xs) rest in
      let less' = length-append ws xs in
      let v' = front_and_last t k zs xs v in
      let (le, _, _) =
        Span-front t.memory.cells t.this.buffer t.this.begin t.this.end xs zs v.span in
      let w = v.span.within in
      let from = get_or t.this.buffer ((t.this.end - 1) / default_size) 0 in
      let to = get_or t.this.buffer (t.this.begin / default_size) 0 in
      let a = fill_page ps k from to t in
      let r : Filled t k a (ws ++ (xs ++ rest)) =
        fill_page_lem k ws from to t (xs ++ rest) len (omega arith) (omega arith) (λ more. refl)
          (λ more. ap (λ i. get_or t.this.buffer i 0) (omega arith)) v' in
      let b = r.begins in
      let e = r.ends in
      let q : Part rest (ws ++ xs)
          (move_pages ps ((length zs - k) / default_size + 1) (length zs - k) a) =
        rw left at (
          move_pages_lem (length rest / default_size + 1) rest a (ws ++ xs) (omega arith)
            (omega arith) (omega arith) (omega arith)
            (subst (Turning ps a) (sym (append_assoc ws xs rest)) r.turning)) in
      Part-behind ws rest zs xs _ _ (take-append-drop (length zs - k) zs) (omega arith)
        (with_two _ _ _ _ _ (page_at_lem t.this.buffer t.this.begin (omega arith))
          (page_before_lem t.this.buffer t.this.end (omega arith) w v.small))
        q

  pub move_aligned_lem :
      (zs : List ℕ) (t : One ps) (xs : List ℕ)
      → length (xs ++ zs) ≤ (2 ^ 31 - 1) * default_size
      → Turning ps t (xs ++ zs)
      → Part zs xs (move_aligned ps (length zs) t)
  unfolding move_aligned
  move_aligned_lem zs t xs bound v =
      elim (Bool-cases (
        (sub64 t.this.end t.this.begin % default_size == 0)
        && ltb (2 * default_size) (length zs))) [
          | inr other_way ↦ rw other_way (Part-none t zs xs v)
          | inl alike ↦
              let (same, many) : (sub64 t.this.end t.this.begin % default_size ≡ 0)
                  × (2 * default_size < length zs) =
                let e = alike in ground arith in
              let o = v.span.order in
              let (le, _, _) =
                Span-front t.memory.cells t.this.buffer t.this.begin t.this.end xs zs v.span in
              let w = v.span.within in
              let sm = v.small in
              let same_place : t.this.end % default_size ≡ t.this.begin % default_size =
                omega arith in
              let last = sub64 t.this.end 1 % default_size in
              let k = if ltb (last + 1) default_size then last + 1 else 0 in
              let back : sub64 t.this.end 1 ≡ t.this.end - 1 = omega arith in
              let begun : t.this.end % default_size ≡ k = ground arith in
              rw alike (fill_first k zs t xs same_place begun many bound v)
        ]
