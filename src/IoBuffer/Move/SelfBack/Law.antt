-- ===== src/IoBuffer/Move/SelfBack/Law.antt =====
-- `self_pop_front_to_back_n` (iobuffer/io_buffer.cpp) as a whole.
use npoller.Base.{
  ℕ, ◌+◌, ◌-◌, ◌/◌, ◌^◌, ◌≤◌, ◌<◌, ◌≡◌, ◌≢◌, ◌⊎◌, inl, inr, refl, sym, ap, ap₂, subst, ◌∙◌, true,
  Bool-cases, ◌==◌, ◌||◌, leb, if◌then◌else◌, List, ◌++◌, append-nil, append_assoc, length,
  length-append, take, drop, take-append-drop, length-take, take-nil, drop-nil, take_zero,
  drop_zero, take_all, drop_all, get_or, get_elem?-eq-get_or, ok, npos, sub64, arith,
}
use npoller.PageStore.{PageStore}
use npoller.Pages.{default_size}
use npoller.Pages.Copy.{IsCached}
use npoller.IoBuffer.Push.Back.{page_at_lem}
use npoller.IoBuffer.View.{Holds, Represents, check-Represents}
use npoller.IoBuffer.Move.{One}
use npoller.IoBuffer.Move.Span.{Span, Span-split, Span-length}
use npoller.IoBuffer.Move.Turning.{Turning, BecomeOne, check_and_shrink_lem}
use npoller.IoBuffer.Move.SelfBack.{move_rest, rotate, self_pop_front_to_back_n}
use npoller.IoBuffer.Move.SelfBack.Bytes.{Turned, move_bytes_lem}
use npoller.IoBuffer.Move.SelfBack.Aligned.{move_aligned_lem}

module _ (ps : PageStore) where
  move_rest_lem :
      (ws : List ℕ) (t : One ps) (xs : List ℕ)
      → 0 < length ws
      → t.this.end + length ws + default_size < 2 ^ 63
      → Turning ps t (ws ++ xs)
      → Turned ps (move_rest ps (length ws, t)) (xs ++ ws)
  unfolding move_rest
  move_rest_lem ws t xs more bound v =
      let (le, _, _) =
        Span-split t.memory.cells t.this.buffer t.this.begin t.this.end ws xs v.span in
      let w = v.span.within in
      let back : sub64 t.this.end 1 ≡ t.this.end - 1 = omega arith in
      let page = page_at_lem t.this.buffer t.this.begin (omega arith) in
      let page' = page_at_lem t.this.buffer (t.this.end - 1) (omega arith) in
      let from = get_or t.this.buffer (t.this.begin / default_size) 0 in
      let to = get_or t.this.buffer ((t.this.end - 1) / default_size) 0 in
      let cached : IsCached t.this.buffer from t.this.begin =
        λ inside. get_elem?-eq-get_or t.this.buffer (t.this.begin / default_size) 0 (omega arith) in
      let cached' : IsCached t.this.buffer to t.this.end = λ inside.
        let same : t.this.end / default_size ≡ (t.this.end - 1) / default_size = omega arith in
        rw same
          (get_elem?-eq-get_or t.this.buffer ((t.this.end - 1) / default_size) 0 (omega arith)) in
      rw (page, back, page') (move_bytes_lem ps ws from to t xs bound v cached cached')

  rotate_lem :
      (zs : List ℕ) (t : One ps) (xs : List ℕ)
      → 0 < length zs
      → t.this.end + length zs + default_size < 2 ^ 63
      → Turning ps t (zs ++ xs)
      → BecomeOne ps (rotate ps (length zs) t) (xs ++ zs)
  unfolding rotate
  rotate_lem zs t xs more bound v =
      let p = move_aligned_lem ps zs t xs bound v in
      let e = p.end_bound in
      let r =
        move_rest_lem p.left p.result (xs ++ p.done) (p.some_left more) (omega arith) p.turning in
      let turned : Turning ps r.result (xs ++ zs) =
        subst (Turning ps r.result) (append_assoc xs p.done p.left ∙ ap (λ l. xs ++ l) (sym p.all))
          r.turning in
      let count = length-append xs zs in
      rw (p.runs, r.runs) (check_and_shrink_lem ps r.result (xs ++ zs) (omega arith) turned)

  -- On a well-formed buffer of bytes `xs` whose past position, bytes and a page more stay below 2^63, the call
  -- returns, and leaves a well-formed buffer with the first `n` bytes behind the others, which is `xs` itself
  -- if it has no more than `n` bytes.
  pub self_pop_front_to_back_n_lem :
      (n : ℕ) (t : One ps) (xs : List ℕ)
      → t.this.end + length xs + default_size < 2 ^ 63
      → Represents ps t.memory t.this xs
      → BecomeOne ps (self_pop_front_to_back_n ps n t) (drop n xs ++ take n xs)
  unfolding self_pop_front_to_back_n
  self_pop_front_to_back_n_lem n t xs bound r =
      rw (check-Represents ps t.memory t.this xs r) (elim r.view [
        | inl e ↦
            let unset : (t.this.begin == npos) || (n == 0) || leb (sub64 t.this.end t.this.begin) n
                ≡ true =
              let u = e.unset in ground arith in
            rw unset (
              stays (
                ap₂ ◌++◌ (ap (drop n) e.nothing ∙ drop-nil n) (ap (take n) e.nothing ∙ take-nil n)
                ∙ sym e.nothing))
        | inr h ↦ of_Holds h
      ])
    where
      stays : drop n xs ++ take n xs ≡ xs → BecomeOne ps (ok t) (drop n xs ++ take n xs)
      stays e = rw e (record { result = t; runs = refl; represents = r })

      of_Holds :
          Holds t.memory.cells t.this xs
          → BecomeOne ps
              (if (t.this.begin == npos) || (n == 0) || leb (sub64 t.this.end t.this.begin) n
                then ok t
                else rotate ps n t)
              (drop n xs ++ take n xs)
      of_Holds h =
          let o = h.order in
          let w = h.within in
          let sm = r.small in
          let s : Span t.memory.cells t.this.buffer t.this.begin t.this.end xs = record {
            order = omega arith;
            within = h.within;
            held = h.held;
          } in
          let held : length xs ≡ t.this.end - t.this.begin =
            Span-length t.memory.cells t.this.buffer t.this.begin t.this.end xs s in
          elim (Bool-cases
            ((t.this.begin == npos) || (n == 0) || leb (sub64 t.this.end t.this.begin) n)) [
              | inl none ↦
                  let few : (n ≡ 0) ⊎ (length xs ≤ n) = let e = none in ground arith in
                  rw none (
                    stays (elim few [
                      | inl z ↦ ap₂ ◌++◌ (drop_zero n xs z) (take_zero n xs z) ∙ append-nil xs
                      | inr all ↦ ap₂ ◌++◌ (drop_all n xs all) (take_all n xs all)
                    ]))
              | inr part ↦
                  let (more, less) : (n ≢ 0) × (n < length xs) = let e = part in ground arith in
                  let count : length (take n xs) ≡ n = omega (arith, length-take n xs) in
                  let v : Turning ps t (take n xs ++ drop n xs) = record {
                    owns = r.owns;
                    span = rw take-append-drop s;
                    small = r.small;
                  } in
                  rw part (
                    rw count at
                      (rotate_lem (take n xs) t (drop n xs) (omega arith) (omega arith) v))
            ]
