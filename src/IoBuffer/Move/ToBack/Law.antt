-- ===== src/IoBuffer/Move/ToBack/Law.antt =====
-- `other_pop_front_to_back_n` (iobuffer/io_buffer.cpp) as a whole.
use npoller.Base.{
  ℕ, ◌+◌, ◌-◌, ◌*◌, ◌/◌, ◌%◌, ◌^◌, ◌<◌, ◌≡◌, ◌≢◌, inl, inr, refl, sym, ap, subst, ◌∙◌, true,
  Bool-cases, ◌==◌, ◌||◌, leb, if◌then◌else◌, List, [], ◌++◌, append-nil, append_assoc, length,
  take, drop, take-append-drop, length-take, take-nil, take_zero, drop_zero, drop-nil, get_or,
  get_elem?-eq-get_or, ok, chained, ◌>>=◌, npos, sub64, arith,
}
use npoller.PageStore.{PageStore}
use npoller.Pages.{default_size}
use npoller.Pages.Copy.{IsCached}
use npoller.IoBuffer.Push.Back.{page_at_lem}
use npoller.IoBuffer.View.{Holds}
use npoller.IoBuffer.Move.{Two, check_both, shrink_both}
use npoller.IoBuffer.Move.Span.{Span-split, Span-length}
use npoller.IoBuffer.Move.Owned.{Moving}
use npoller.IoBuffer.Move.Beside.{Both, BecomeBoth, finish_lem, check_both_lem}
use npoller.IoBuffer.Move.Start.{start_other_lem}
use npoller.IoBuffer.Move.ToBack.{move_aligned, move_rest, move_to_back, other_pop_front_to_back_n}
use npoller.IoBuffer.Move.ToBack.Bytes.{Moved, move_bytes_lem}
use npoller.IoBuffer.Move.ToBack.Aligned.{move_aligned_lem}

module _ (ps : PageStore) where
  move_rest_lem :
      (ws : List ℕ) (t : Two ps) (xs ys : List ℕ)
      → 0 < length ws
      → t.other.end + length ws + default_size < 2 ^ 63
      → Moving ps t (ws ++ xs) ys
      → Moved ps (move_rest ps (length ws, t)) xs (ys ++ ws)
  unfolding move_rest
  move_rest_lem ws t xs ys some small v =
      let (le, _, _) =
        Span-split t.memory.cells t.this.buffer t.this.begin t.this.end ws xs v.this_span in
      let w = v.this_span.within in
      let w' = v.other_span.within in
      let page = page_at_lem t.this.buffer t.this.begin (omega arith) in
      let from = get_or t.this.buffer (t.this.begin / default_size) 0 in
      let cached : IsCached t.this.buffer from t.this.begin =
        λ inside. get_elem?-eq-get_or t.this.buffer (t.this.begin / default_size) 0 (omega arith) in
      elim (Bool-cases (t.other.end % default_size == 0)) [
        | inl at_page ↦
            let e : t.other.end % default_size ≡ 0 = let e = at_page in ground arith in
            rw (page, at_page)
              (move_bytes_lem ps ws from 0 t xs ys small v cached (λ inside. absurd (inside e)))
        | inr begun ↦
            let ne : t.other.end % default_size ≢ 0 = let e = begun in ground arith in
            let index : sub64 t.other.end 1 / default_size ≡ t.other.end / default_size =
              omega arith in
            let page' = page_at_lem t.other.buffer t.other.end (omega arith) in
            rw (page, begun, index, page')
              (move_bytes_lem ps ws from (get_or t.other.buffer (t.other.end / default_size) 0) t xs
                ys small v cached
                (λ inside.
                  get_elem?-eq-get_or t.other.buffer (t.other.end / default_size) 0 (omega arith)))
      ]

  -- The two parts of the move, behind `start_other`.
  moved_lem :
      (zs : List ℕ) (t : Two ps) (xs ys : List ℕ)
      → 0 < length zs
      → t.other.end + length zs + default_size < 2 ^ 63
      → Moving ps t (zs ++ xs) ys
      → Moved ps (move_aligned ps (length zs) t >>= λ r. move_rest ps r) xs (ys ++ zs)
  moved_lem zs t xs ys some small v =
      let p = move_aligned_lem ps zs t xs ys small v in
      let e = p.ended in
      let r =
        move_rest_lem p.left p.result xs (ys ++ p.done) (p.some_left some) (omega arith) p.moving in
      record {
        result = r.result;
        runs = rw p.runs r.runs;
        moving =
            subst (Moving ps r.result xs)
              (append_assoc ys p.done p.left ∙ ap (λ l. ys ++ l) (sym p.all)) r.moving;
      }

  move_to_back_lem :
      (n : ℕ) (t : Two ps) (xs ys : List ℕ)
      → n ≢ 0
      → t.other.end + length xs + 2 * default_size < 2 ^ 63
      → Holds t.memory.cells t.this xs
      → Both ps t xs ys
      → BecomeBoth ps (move_to_back ps n t) (drop n xs) (ys ++ take n xs)
  unfolding move_to_back
  move_to_back_lem n t xs ys some small h v =
      let o = h.order in
      let w = h.within in
      let sm = v.this_small in
      let held : length xs ≡ t.this.end - t.this.begin =
        Span-length t.memory.cells t.this.buffer t.this.begin t.this.end xs
          (record { order = omega arith; within = h.within; held = h.held }) in
      let taken = length-take n xs in
      let count : (if leb (sub64 t.this.end t.this.begin) n
            then sub64 t.this.end t.this.begin
            else n)
          ≡ length (take n xs) =
        ground arith in
      let s = start_other_lem ps (λ b. b.begin) t xs ys h v in
      let b = s.end_bound in
      let m : Moving ps s.after (take n xs ++ drop n xs) ys =
        subst (λ l. Moving ps s.after l ys) (sym (take-append-drop n xs)) s.moving in
      let r = moved_lem (take n xs) s.after (drop n xs) ys (omega arith) (omega arith) m in
      rw (s.runs, count)
        (subst (λ out. BecomeBoth ps out (drop n xs) (ys ++ take n xs))
          (sym (
            chained (move_aligned ps (length (take n xs)) s.after) (move_rest ps)
              (λ t. check_both ps t >>= λ t. shrink_both ps t) r.result r.runs))
          (finish_lem ps r.result (drop n xs) (ys ++ take n xs) r.moving))

  -- On two well-formed buffers of bytes `xs` and `ys` that share no page, where the past position of the
  -- second, the bytes `xs` and two pages more stay below 2^63, the call returns, and leaves well-formed
  -- buffers, the first of `xs` without its first `n` bytes, the second of `ys` with these behind.
  pub other_pop_front_to_back_n_lem :
      (n : ℕ) (t : Two ps) (xs ys : List ℕ)
      → t.other.end + length xs + 2 * default_size < 2 ^ 63
      → Both ps t xs ys
      → BecomeBoth ps (other_pop_front_to_back_n ps n t) (drop n xs) (ys ++ take n xs)
  unfolding other_pop_front_to_back_n
  other_pop_front_to_back_n_lem n t xs ys small v =
      rw (check_both_lem ps t xs ys v) (elim (Bool-cases ((t.this.begin == npos) || (n == 0))) [
        | inr more ↦
            let (set, some) : (t.this.begin ≢ npos) × (n ≢ 0) = let e = more in ground arith in
            rw more (elim v.this_view [
              | inl e ↦ absurd (set e.unset)
              | inr h ↦ move_to_back_lem n t xs ys some small h v
            ])
        | inl none ↦ rw none (unchanged none)
      ])
    where
      same : take n xs ≡ [] → drop n xs ≡ xs → BecomeBoth ps (ok t) (drop n xs) (ys ++ take n xs)
      same e e' = rw (e, e', append-nil) (record { result = t; runs = refl; both = v })

      unchanged :
          (t.this.begin == npos) || (n == 0) ≡ true
          → BecomeBoth ps (ok t) (drop n xs) (ys ++ take n xs)
      unchanged e = elim v.this_view [
        | inl none ↦
            same (ap (take n) none.nothing ∙ take-nil n)
              (ap (drop n) none.nothing ∙ drop-nil n ∙ sym none.nothing)
        | inr h ↦
            let o = h.order in
            let w = h.within in
            let sm = v.this_small in
            let z : n ≡ 0 = ground arith in same (take_zero n xs z) (drop_zero n xs z)
      ]
