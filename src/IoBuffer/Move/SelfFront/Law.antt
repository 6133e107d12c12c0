-- ===== src/IoBuffer/Move/SelfFront/Law.antt =====
-- `self_pop_back_to_front_n` (iobuffer/io_buffer.cpp) as a whole.
use npoller.Base.{
  ℕ, ◌+◌, ◌-◌, ◌*◌, ◌/◌, ◌^◌, ◌≤◌, ◌<◌, ◌≡◌, ◌≢◌, ◌⊎◌, inl, inr, refl, sym, ap, subst, ◌∙◌, true,
  Bool-cases, ◌==◌, ◌||◌, leb, if◌then◌else◌, List, ◌++◌, append_assoc, length, length-append, take,
  drop, take-append-drop, length-drop, take_zero, drop_zero, take_all, drop_all, append-nil, get_or,
  get_elem?-eq-get_or, ok, npos, sub64, arith,
}
use npoller.PageStore.{PageStore}
use npoller.Pages.{default_size}
use npoller.Pages.Copy.{IsCached}
use npoller.IoBuffer.Push.Back.{page_at_lem}
use npoller.IoBuffer.View.{Holds, Represents, check-Represents}
use npoller.IoBuffer.Move.{One}
use npoller.IoBuffer.Move.Span.{Span, Span-length}
use npoller.IoBuffer.Move.Span.Front.{Span-front}
use npoller.IoBuffer.Move.Turning.{Turning, BecomeOne, check_and_shrink_lem}
use npoller.IoBuffer.Move.SelfFront.{move_rest, rotate, self_pop_back_to_front_n}
use npoller.IoBuffer.Move.SelfFront.Bytes.{Turned, move_bytes_lem, page_before_lem, IsCached-before}
use npoller.IoBuffer.Move.SelfFront.Aligned.{move_aligned_lem}

module _ (ps : PageStore) where
  move_rest_lem :
      (ws : List ℕ) (t : One ps) (xs : List ℕ)
      → 0 < length ws
      → length (xs ++ ws) + 2 * default_size < 2 ^ 63
      → Turning ps t (xs ++ ws)
      → Turned ps (move_rest ps (length ws, t)) (ws ++ xs)
  unfolding move_rest
  move_rest_lem ws t xs more bound v =
      let (le, _, _) =
        Span-front t.memory.cells t.this.buffer t.this.begin t.this.end xs ws v.span in
      let w = v.span.within in
      let page = page_at_lem t.this.buffer t.this.begin (omega arith) in
      let page' = page_before_lem t.this.buffer t.this.end (omega arith) w v.small in
      let to = get_or t.this.buffer (t.this.begin / default_size) 0 in
      let from = get_or t.this.buffer ((t.this.end - 1) / default_size) 0 in
      let cached : IsCached t.this.buffer to t.this.begin =
        λ inside. get_elem?-eq-get_or t.this.buffer (t.this.begin / default_size) 0 (omega arith) in
      rw (page, page')
        (move_bytes_lem ps (length ws) ws from to t xs refl bound v
          (IsCached-before t.this.buffer t.this.end (omega arith) w) cached)

  rotate_lem :
      (zs : List ℕ) (t : One ps) (xs : List ℕ)
      → 0 < length zs
      → length (xs ++ zs) ≤ (2 ^ 31 - 1) * default_size
      → Turning ps t (xs ++ zs)
      → BecomeOne ps (rotate ps (length zs) t) (zs ++ xs)
  unfolding rotate
  rotate_lem zs t xs more bound v =
      let p = move_aligned_lem ps zs t xs bound v in
      let count : length zs ≡ length p.left + length p.done =
        ap length p.all ∙ length-append p.left p.done in
      let total = length-append xs zs in
      let total' = length-append (p.done ++ xs) p.left in
      let total'' = length-append p.done xs in
      let r =
        move_rest_lem p.left p.result (p.done ++ xs) (p.some_left more) (omega arith) p.turning in
      let turned : Turning ps r.result (zs ++ xs) =
        subst (Turning ps r.result)
          (sym (append_assoc p.left p.done xs) ∙ ap (λ l. l ++ xs) (sym p.all)) r.turning in
      let whole = length-append zs xs in
      rw (p.runs, r.runs) (check_and_shrink_lem ps r.result (zs ++ xs) (omega arith) turned)

  -- On a well-formed buffer of bytes `xs`, no more than the bytes of 2^31 - 1 pages, the call returns, and
  -- leaves a well-formed buffer with the last `n` bytes before the others, which is `xs` itself if it has no
  -- more than `n` bytes.
  pub self_pop_back_to_front_n_lem :
      (n : ℕ) (t : One ps) (xs : List ℕ)
      → length xs ≤ (2 ^ 31 - 1) * default_size
      → Represents ps t.memory t.this xs
      → BecomeOne ps
          (self_pop_back_to_front_n ps n t)
          (drop (length xs - n) xs ++ take (length xs - n) xs)
  unfolding self_pop_back_to_front_n
  self_pop_back_to_front_n_lem n t xs bound r =
      rw (check-Represents ps t.memory t.this xs r) (elim r.view [
        | inl e ↦
            let unset : (t.this.begin == npos) || (n == 0) || leb (sub64 t.this.end t.this.begin) n
                ≡ true =
              let u = e.unset in ground arith in
            let none : length xs ≡ 0 = ap length e.nothing in rw unset (stays (omega arith))
        | inr h ↦ of_Holds h
      ])
    where
      stays :
          length xs - n ≡ 0
          → BecomeOne ps (ok t) (drop (length xs - n) xs ++ take (length xs - n) xs)
      stays e =
          rw (drop_zero (length xs - n) xs e, take_zero (length xs - n) xs e, append-nil xs)
            (record { result = t; runs = refl; represents = r })

      unmoved : n ≡ 0 → BecomeOne ps (ok t) (drop (length xs - n) xs ++ take (length xs - n) xs)
      unmoved z =
          rw (drop_all (length xs - n) xs (omega arith), take_all (length xs - n) xs (omega arith))
            (record { result = t; runs = refl; represents = r })

      of_Holds :
          Holds t.memory.cells t.this xs
          → BecomeOne ps
              (if (t.this.begin == npos) || (n == 0) || leb (sub64 t.this.end t.this.begin) n
                then ok t
                else rotate ps n t)
              (drop (length xs - n) xs ++ take (length xs - n) xs)
      of_Holds h =
          let o = h.order in
          let w = h.within in
          let sm = r.small in
          let s : Span t.memory.cells t.this.buffer t.this.begin t.this.end xs = record {
            order = omega arith;
            within = h.within;
            held = h.held;
          } in
          let held : length xs ≡ t.this.end - t.this.begin =
            Span-length t.memory.cells t.this.buffer t.this.begin t.this.end xs s in
          elim (Bool-cases
            ((t.this.begin == npos) || (n == 0) || leb (sub64 t.this.end t.this.begin) n)) [
              | inl none ↦
                  let few : (n ≡ 0) ⊎ (length xs ≤ n) = let e = none in ground arith in
                  rw none (elim few [ inl z ↦ unmoved z | inr all ↦ stays (omega arith) ])
              | inr part ↦
                  let (more, less) : (n ≢ 0) × (n < length xs) = let e = part in ground arith in
                  let k = length xs - n in
                  let count : length (drop k xs) ≡ n = omega (arith, length-drop k xs) in
                  let total : length (take k xs ++ drop k xs) ≡ length xs =
                    ap length (take-append-drop k xs) in
                  let v : Turning ps t (take k xs ++ drop k xs) = record {
                    owns = r.owns;
                    span = rw take-append-drop s;
                    small = r.small;
                  } in
                  rw part (
                    rw count at
                      (rotate_lem (drop k xs) t (take k xs) (omega arith) (omega arith) v))
            ]
