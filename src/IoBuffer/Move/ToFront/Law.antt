-- ===== src/IoBuffer/Move/ToFront/Law.antt =====
-- `other_pop_back_to_front_n` (iobuffer/io_buffer.cpp) as a whole.
use npoller.Base.{
  ℕ, ◌+◌, ◌-◌, ◌*◌, ◌/◌, ◌^◌, ◌<◌, ◌≡◌, inl, inr, refl, sym, ap, subst, ◌∙◌, true, false, ◌==◌, leb,
  if◌then◌else◌, List, [], ◌++◌, append_assoc, length, length-append, take, drop, take-append-drop,
  length-take, length-drop, take-nil, drop-nil, get_or, get_elem?-eq-get_or, ok, chained, ◌>>=◌,
  npos, sub64, dec_lt, arith,
}
use npoller.PageStore.{PageStore}
use npoller.Pages.{default_size}
use npoller.Pages.Copy.{IsCached}
use npoller.IoBuffer.Push.Back.{page_at_lem}
use npoller.IoBuffer.View.{Holds}
use npoller.IoBuffer.Move.{Two, check_both, shrink_both}
use npoller.IoBuffer.Move.Span.{Span-length}
use npoller.IoBuffer.Move.Owned.{Moving}
use npoller.IoBuffer.Move.Beside.{Both, BecomeBoth, finish_lem, check_both_lem}
use npoller.IoBuffer.Move.Start.{start_other_lem}
use npoller.IoBuffer.Move.SelfFront.Bytes.{page_before_lem, IsCached-before}
use npoller.IoBuffer.Move.ToFront.{
  move_aligned, move_rest, move_to_front, other_pop_back_to_front_n,
}
use npoller.IoBuffer.Move.ToFront.Bytes.{Moved, move_bytes_lem}
use npoller.IoBuffer.Move.ToFront.Aligned.{move_aligned_lem}

module _ (ps : PageStore) where
  move_rest_lem :
      (ws : List ℕ) (t : Two ps) (xs ys : List ℕ)
      → 0 < length xs + length ws
      → length t.other.buffer * default_size + length ws + default_size < 2 ^ 63 + t.other.begin
      → t.other.begin < length t.other.buffer * default_size
      → Moving ps t (xs ++ ws) ys
      → Moved ps (move_rest ps (length ws, t)) xs (ws ++ ys)
  unfolding move_rest
  move_rest_lem ws t xs ys more bound room v =
      let total = length-append xs ws in
      let held =
        Span-length t.memory.cells t.this.buffer t.this.begin t.this.end (xs ++ ws) v.this_span in
      let w = v.this_span.within in
      let page = page_before_lem t.this.buffer t.this.end (omega arith) w v.this_small in
      let page' = page_at_lem t.other.buffer t.other.begin room in
      let from = get_or t.this.buffer ((t.this.end - 1) / default_size) 0 in
      let to = get_or t.other.buffer (t.other.begin / default_size) 0 in
      let cached : IsCached t.other.buffer to t.other.begin = λ inside.
        get_elem?-eq-get_or t.other.buffer (t.other.begin / default_size) 0 (omega arith) in
      rw (page, page')
        (move_bytes_lem ps (length ws) ws from to t xs ys refl bound (omega arith) v
          (IsCached-before t.this.buffer t.this.end (omega arith) w) cached)

  -- The two parts of the move, behind `start_other`.
  moved_lem :
      (zs : List ℕ) (t : Two ps) (xs ys : List ℕ)
      → 0 < length xs + length zs
      → length t.other.buffer * default_size + length zs + default_size < 2 ^ 63 + t.other.begin
      → t.other.begin < length t.other.buffer * default_size
      → Moving ps t (xs ++ zs) ys
      → Moved ps (move_aligned ps (length zs) t >>= λ r. move_rest ps r) xs (zs ++ ys)
  moved_lem zs t xs ys more bound room v =
      let p = move_aligned_lem ps zs t xs ys bound room v in
      let n = p.no_more in
      let some_byte : 0 < length xs + length p.left = elim (dec_lt 0 (length zs)) [
        | yes some_to_move ↦ let left = p.some_left some_to_move in omega arith
        | no none ↦ omega arith
      ] in
      let r =
        move_rest_lem p.left p.result xs (p.done ++ ys) some_byte (omega arith) p.room p.moving in
      record {
        result = r.result;
        runs = rw p.runs r.runs;
        moving =
            subst (Moving ps r.result xs)
              (sym (append_assoc p.left p.done ys) ∙ ap (λ l. l ++ ys) (sym p.all)) r.moving;
      }

  move_to_front_lem :
      (n : ℕ) (t : Two ps) (xs ys : List ℕ)
      → length t.other.buffer * default_size + length xs + 3 * default_size < 2 ^ 63
      → Holds t.memory.cells t.this xs
      → Both ps t xs ys
      → BecomeBoth ps
          (move_to_front ps n t)
          (take (length xs - n) xs)
          (drop (length xs - n) xs ++ ys)
  unfolding move_to_front
  move_to_front_lem n t xs ys small h v =
      let o = h.order in
      let w = h.within in
      let sm = v.this_small in
      let k = length xs - n in
      let held : length xs ≡ t.this.end - t.this.begin =
        Span-length t.memory.cells t.this.buffer t.this.begin t.this.end xs
          (record { order = omega arith; within = h.within; held = h.held }) in
      let kept = length-take k xs in
      let moved = length-drop k xs in
      let count : (if leb (sub64 t.this.end t.this.begin) n
            then sub64 t.this.end t.this.begin
            else n)
          ≡ length (drop k xs) =
        ground arith in
      let s = start_other_lem ps (λ b. b.end) t xs ys h v in
      let pages = s.no_more in
      let m : Moving ps s.after (take k xs ++ drop k xs) ys =
        subst (λ l. Moving ps s.after l ys) (sym (take-append-drop k xs)) s.moving in
      let r = moved_lem (drop k xs) s.after (take k xs) ys (omega arith) (omega arith) s.room m in
      rw (s.runs, count)
        (subst (λ out. BecomeBoth ps out (take k xs) (drop k xs ++ ys))
          (sym (
            chained (move_aligned ps (length (drop k xs)) s.after) (move_rest ps)
              (λ t. check_both ps t >>= λ t. shrink_both ps t) r.result r.runs))
          (finish_lem ps r.result (take k xs) (drop k xs ++ ys) r.moving))

  -- On two well-formed buffers of bytes `xs` and `ys` that share no page, where the pages of the second, the
  -- bytes `xs` and three pages more stay below 2^63, the call returns, and leaves well-formed buffers, the
  -- first of `xs` without its last `n` bytes, or empty, the second of those bytes with `ys` behind.
  pub other_pop_back_to_front_n_lem :
      (n : ℕ) (t : Two ps) (xs ys : List ℕ)
      → length t.other.buffer * default_size + length xs + 3 * default_size < 2 ^ 63
      → Both ps t xs ys
      → BecomeBoth ps
          (other_pop_back_to_front_n ps n t)
          (take (length xs - n) xs)
          (drop (length xs - n) xs ++ ys)
  unfolding other_pop_back_to_front_n
  other_pop_back_to_front_n_lem n t xs ys small v =
      rw (check_both_lem ps t xs ys v) (elim v.this_view [
        | inl e ↦
            let unset : (t.this.begin == npos) ≡ true = let u = e.unset in ground arith in
            rw unset (unchanged e.nothing)
        | inr h ↦
            let o = h.order in
            let w = h.within in
            let sm = v.this_small in
            let set : (t.this.begin == npos) ≡ false = ground arith in
            rw set (move_to_front_lem n t xs ys small h v)
      ])
    where
      same :
          (k : ℕ)
          → take k xs ≡ xs
          → drop k xs ≡ []
          → BecomeBoth ps (ok t) (take k xs) (drop k xs ++ ys)
      same k e e' = rw (e, e') (record { result = t; runs = refl; both = v })

      unchanged :
          xs ≡ [] → BecomeBoth ps (ok t) (take (length xs - n) xs) (drop (length xs - n) xs ++ ys)
      unchanged e =
          same (length xs - n) (ap (take (length xs - n)) e ∙ take-nil (length xs - n) ∙ sym e)
            (ap (drop (length xs - n)) e ∙ drop-nil (length xs - n))
