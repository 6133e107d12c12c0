-- ===== src/IoBuffer/Move/ToFront/Aligned.antt =====
-- The part of `other_pop_back_to_front_n` (iobuffer/io_buffer.cpp) that moves whole pages.
use npoller.Base.{
  ℕ, zero, suc, ◌+◌, ◌-◌, ◌*◌, ◌/◌, ◌%◌, ◌^◌, ◌≤◌, ◌<◌, ◌≡◌, inl, inr, refl, sym, ap, subst, ◌∙◌,
  true, Bool-cases, ◌==◌, ltb, ltb→lt, ◌&&◌, if◌then◌else◌, List, [], ◌∷◌, ◌++◌, append-nil,
  append_assoc, length, length-append, take, drop, take-append-drop, length-take, length-drop,
  unsnoc, get_or, Outcome, ok, with_two, ◌>>=◌, sub64, arith,
}
use npoller.PageStore.{PageStore}
use npoller.Pages.{default_size, page_at}
use npoller.IoBuffer.Push.Back.{page_at_lem}
use npoller.IoBuffer.Move.{Two}
use npoller.IoBuffer.Move.Span.Front.{Span-front}
use npoller.IoBuffer.Move.Owned.{Moving}
use npoller.IoBuffer.Move.ToFront.{copy_one, fill_page, move_aligned, move_page, move_pages}
use npoller.IoBuffer.Move.SelfFront.Bytes.{page_before_lem}
use npoller.IoBuffer.Move.ToFront.Bytes.{copy_one_lem}
use npoller.IoBuffer.Move.ToFront.Pages.{Paged, move_page_lem}

module _ (ps : PageStore) where
  -- What a part of the call comes to that moves some of the bytes `zs` before `ys` and says how many are left.
  pub record Part (t : Two ps) (zs xs ys : List ℕ) (out : Outcome (ℕ × Two ps)) : Type 0 where
    pub done : List ℕ
    pub left : List ℕ
    pub result : Two ps
    pub all : zs ≡ left ++ done
    pub runs : out ≡ ok (length left, result)
    pub moving : Moving ps result (xs ++ left) (done ++ ys)
    pub no_more :
        length result.other.buffer * default_size + length left + t.other.begin
        ≤ length t.other.buffer * default_size + length zs + result.other.begin
    pub room : result.other.begin < length result.other.buffer * default_size
    pub some_left : 0 < length zs → 0 < length left

  -- Nothing is moved.
  Part-none :
      (t : Two ps) (zs xs ys : List ℕ)
      → t.other.begin < length t.other.buffer * default_size
      → Moving ps t (xs ++ zs) ys
      → Part t zs xs ys (ok (length zs, t))
  Part-none t zs xs ys room v = record {
    done = [];
    left = zs;
    result = t;
    all = sym (append-nil zs);
    runs = refl;
    moving = v;
    no_more = omega arith;
    room = room;
    some_left = λ h. h;
  }

  -- A part that comes behind the move of the bytes `ws`.
  Part-behind :
      (t a : Two ps) (ws rest zs xs ys : List ℕ) (out out' : Outcome (ℕ × Two ps))
      → rest ++ ws ≡ zs
      → length a.other.buffer * default_size + t.other.begin
        ≤ length t.other.buffer * default_size + length ws + a.other.begin
      → 0 < length rest
      → out' ≡ out
      → Part a rest xs (ws ++ ys) out
      → Part t zs xs ys out'
  Part-behind t a ws rest zs xs ys out out' split grown more same p =
      let count : length zs ≡ length rest + length ws =
        ap length (sym split) ∙ length-append rest ws in
      let n = p.no_more in
      record {
        done = p.done ++ ws;
        left = p.left;
        result = p.result;
        all = sym split ∙ ap (λ l. l ++ ws) p.all ∙ append_assoc p.left p.done ws;
        runs = same ∙ p.runs;
        moving =
            subst (Moving ps p.result (xs ++ p.left)) (sym (append_assoc p.done ws ys)) p.moving;
        no_more = omega arith;
        room = p.room;
        some_left = λ h. p.some_left more;
      }

  -- The bytes before the last `k`, and those.
  front_and_last :
      (t : Two ps) (k : ℕ) (zs xs ys : List ℕ)
      → Moving ps t (xs ++ zs) ys
      → Moving ps t ((xs ++ take (length zs - k) zs) ++ drop (length zs - k) zs) ys
  front_and_last t k zs xs ys v =
      subst (λ l. Moving ps t l ys)
        (ap (λ l. xs ++ l) (sym (take-append-drop (length zs - k) zs))
          ∙ sym (append_assoc xs (take (length zs - k) zs) (drop (length zs - k) zs)))
        v

  -- One round of the loop, and the rest of it.
  round :
      (fuel : ℕ) (zs : List ℕ) (t : Two ps) (ws rest xs ys : List ℕ)
      → rest ++ ws ≡ zs
      → length ws ≡ default_size
      → ltb default_size (length zs) ≡ true
      → (one : Paged ps
          (length t.other.buffer)
          t.other.begin
          (xs ++ rest)
          (ws ++ ys)
          (move_page ps t))
      → Part one.after rest xs (ws ++ ys) (move_pages ps fuel (length rest) one.after)
      → Part t zs xs ys (move_pages ps (suc fuel) (length zs) t)
  unfolding move_pages
  round fuel zs t ws rest xs ys split len many one p =
      let more = ltb→lt default_size (length zs) many in
      let count : length zs ≡ length rest + length ws =
        ap length (sym split) ∙ length-append rest ws in
      let left : length zs - default_size ≡ length rest = omega arith in
      let n = one.no_more in
      Part-behind t one.after ws rest zs xs ys _ _ split (omega arith) (omega arith)
        (rw (many, one.runs, left) refl) p

  move_pages_lem :
      (fuel : ℕ) (zs : List ℕ) (t : Two ps) (xs ys : List ℕ)
      → length zs / default_size < fuel
      → length t.other.buffer * default_size + length zs + default_size < 2 ^ 63 + t.other.begin
      → t.other.begin < length t.other.buffer * default_size
      → t.this.end % default_size ≡ 0
      → t.other.begin % default_size ≡ 0
      → Moving ps t (xs ++ zs) ys
      → Part t zs xs ys (move_pages ps fuel (length zs) t)
  unfolding move_pages
  move_pages_lem zero zs t xs ys f bound room al al' v = absurd (omega arith)
  move_pages_lem (suc fuel) zs t xs ys f bound room al al' v =
      elim (Bool-cases (ltb default_size (length zs))) [
        | inr few ↦ rw few (Part-none t zs xs ys room v)
        | inl many ↦
            let more = ltb→lt default_size (length zs) many in
            let rest = take (length zs - default_size) zs in
            let ws = drop (length zs - default_size) zs in
            let len : length ws ≡ default_size =
              omega (arith, length-drop (length zs - default_size) zs) in
            let count = length-take (length zs - default_size) zs in
            let one =
              move_page_lem ps ws t (xs ++ rest) ys len (omega arith) al al'
                (front_and_last t default_size zs xs ys v) in
            let n = one.no_more in
            round fuel zs t ws rest xs ys (take-append-drop (length zs - default_size) zs) len many
              one
              (move_pages_lem fuel rest one.after xs (ws ++ ys) (omega arith) (omega arith) one.room
                one.this_aligned one.other_aligned one.moving)
      ]

  -- The state behind `fill_page`.
  record Filled (t : Two ps) (n : ℕ) (after : Two ps) (xs ys : List ℕ) : Type 0 where
    moving : Moving ps after xs ys
    begins : after.other.begin ≡ t.other.begin - n
    ends : after.this.end ≡ t.this.end - n
    pages : after.other.buffer ≡ t.other.buffer

  fill_page_lem :
      (n : ℕ) (ws : List ℕ) (from to : ℕ) (t : Two ps) (xs ys : List ℕ)
      → length ws ≡ n
      → n ≤ t.other.begin % default_size
      → n ≤ t.this.end % default_size
      → (0 < n → from ≡ get_or t.this.buffer ((t.this.end - 1) / default_size) 0)
      → (0 < n → to ≡ get_or t.other.buffer ((t.other.begin - 1) / default_size) 0)
      → Moving ps t (xs ++ ws) ys
      → Filled t n (fill_page ps n from to t) xs (ws ++ ys)
  unfolding fill_page
  fill_page_lem zero [] from to t xs ys len h h' f f' v = record {
    moving = rw append-nil at v;
    begins = omega arith;
    ends = omega arith;
    pages = refl;
  }
  fill_page_lem zero (w ∷ ws) from to t xs ys len h h' f f' v = absurd (omega arith)
  fill_page_lem (suc n) ws from to t xs ys len h h' f f' v =
      let (front, x, split) = unsnoc ws (omega arith) in
      let count : length ws ≡ length front + 1 = ap length split ∙ length-append front (x ∷ []) in
      let v' : Moving ps t ((xs ++ front) ++ (x ∷ [])) ys =
        subst (λ l. Moving ps t l ys)
          (ap (λ l. xs ++ l) split ∙ sym (append_assoc xs front (x ∷ []))) v in
      let c = copy_one_lem ps t x (xs ++ front) ys (omega arith) v' in
      let from' = get_or t.this.buffer ((t.this.end - 1) / default_size) 0 in
      let to' = get_or t.other.buffer ((t.other.begin - 1) / default_size) 0 in
      let next = copy_one ps from' to' t in
      let begins = c.begins in
      let ends = c.ends in
      let pages = c.this_pages in
      let pages' = c.other_pages in
      let rest =
        fill_page_lem n front from' to' next xs (x ∷ ys) (omega arith) (omega arith) (omega arith)
          (λ more. rw pages (ap (λ i. get_or t.this.buffer i 0) (omega arith)))
          (λ more. rw pages' (ap (λ i. get_or t.other.buffer i 0) (omega arith))) c.moving in
      let b = rest.begins in
      let e = rest.ends in
      let a = fill_page ps n from' to' next in
      let moved : Moving ps a xs (ws ++ ys) =
        subst (Moving ps a xs)
          (sym (append_assoc front (x ∷ []) ys) ∙ ap (λ l. l ++ ys) (sym split)) rest.moving in
      rw (f (omega arith), f' (omega arith))
        (record {
          moving = moved;
          begins = omega arith;
          ends = omega arith;
          pages = rest.pages ∙ pages';
        })

  -- The page that is not full, and the whole ones before it.
  fill_first :
      (k : ℕ) (zs : List ℕ) (t : Two ps) (xs ys : List ℕ)
      → length t.other.buffer * default_size + length zs + default_size < 2 ^ 63 + t.other.begin
      → t.other.begin < length t.other.buffer * default_size
      → t.this.end % default_size ≡ t.other.begin % default_size
      → t.this.end % default_size ≡ k
      → 2 * default_size < length zs
      → Moving ps t (xs ++ zs) ys
      → Part t zs xs ys (do
        from ← page_at t.this.buffer (sub64 t.this.end 1 / default_size)
        to ← page_at t.other.buffer (t.other.begin / default_size)
        let n = length zs - k
        move_pages ps (n / default_size + 1) n (fill_page ps k from to t))
  fill_first k zs t xs ys bound room alike begun many v =
      let rest = take (length zs - k) zs in
      let ws = drop (length zs - k) zs in
      let len : length ws ≡ k = omega (arith, length-drop (length zs - k) zs) in
      let left : length rest ≡ length zs - k = omega (arith, length-take (length zs - k) zs) in
      let v' = front_and_last t k zs xs ys v in
      let (le, _, _) =
        Span-front t.memory.cells t.this.buffer t.this.begin t.this.end xs zs v.this_span in
      let w = v.this_span.within in
      let from = get_or t.this.buffer ((t.this.end - 1) / default_size) 0 in
      let to = get_or t.other.buffer (t.other.begin / default_size) 0 in
      let a = fill_page ps k from to t in
      let r : Filled t k a (xs ++ rest) (ws ++ ys) =
        fill_page_lem k ws from to t (xs ++ rest) ys len (omega arith) (omega arith) (λ more. refl)
          (λ more. ap (λ i. get_or t.other.buffer i 0) (omega arith)) v' in
      let b = r.begins in
      let e = r.ends in
      let pages : length a.other.buffer ≡ length t.other.buffer = ap length r.pages in
      let q : Part a rest xs (ws ++ ys)
          (move_pages ps ((length zs - k) / default_size + 1) (length zs - k) a) =
        rw left at (
          move_pages_lem (length rest / default_size + 1) rest a xs (ws ++ ys) (omega arith)
            (omega arith) (omega arith) (omega arith) (omega arith) r.moving) in
      Part-behind t a ws rest zs xs ys _ _ (take-append-drop (length zs - k) zs) (omega arith)
        (omega arith)
        (with_two _ _ _ _ _ (page_before_lem t.this.buffer t.this.end (omega arith) w v.this_small)
          (page_at_lem t.other.buffer t.other.begin room))
        q

  pub move_aligned_lem :
      (zs : List ℕ) (t : Two ps) (xs ys : List ℕ)
      → length t.other.buffer * default_size + length zs + default_size < 2 ^ 63 + t.other.begin
      → t.other.begin < length t.other.buffer * default_size
      → Moving ps t (xs ++ zs) ys
      → Part t zs xs ys (move_aligned ps (length zs) t)
  unfolding move_aligned
  move_aligned_lem zs t xs ys bound room v =
      elim (Bool-cases (
        (sub64 t.this.end t.other.begin % default_size == 0)
        && ltb (2 * default_size) (length zs))) [
          | inr other_way ↦ rw other_way (Part-none t zs xs ys room v)
          | inl alike ↦
              let (same, many) : (sub64 t.this.end t.other.begin % default_size ≡ 0)
                  × (2 * default_size < length zs) =
                let e = alike in ground arith in
              let (le, _, _) =
                Span-front t.memory.cells t.this.buffer t.this.begin t.this.end xs zs v.this_span in
              let w = v.this_span.within in
              let sm = v.this_small in
              let sm' = v.other_small in
              let same_place : t.this.end % default_size ≡ t.other.begin % default_size =
                omega arith in
              let last = sub64 t.this.end 1 % default_size in
              let k = if ltb (last + 1) default_size then last + 1 else 0 in
              let back : sub64 t.this.end 1 ≡ t.this.end - 1 = omega arith in
              let begun : t.this.end % default_size ≡ k = ground arith in
              rw alike (fill_first k zs t xs ys bound room same_place begun many v)
        ]
