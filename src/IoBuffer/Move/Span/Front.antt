-- ===== src/IoBuffer/Move/Span/Front.antt =====
-- What bytes less or more are to the bytes of a buffer (iobuffer/io_buffer.cpp) whose last bytes go to the front.
use npoller.Base.{
  ℕ, ◌+◌, ◌-◌, ◌/◌, ◌%◌, ◌≤◌, ◌<◌, ◌≡◌, inr, sym, ap, ap₂, ◌∙◌, List, [], ◌∷◌, ◌++◌, length,
  length-append, get_or, Distinct, arith,
}
use npoller.Pages.{Cells, default_size, write}
use npoller.Pages.Bytes.{
  bytes, byte_at, bytes-append, bytes-write_span_out, bytes-write_span_self, write_span,
}
use npoller.IoBuffer.Move.Span.{Span, Span-length, Span-split}

module _ (c : Cells) (buffer : List ℕ) (begin end : ℕ) where
  -- The last bytes go, and what is left before them.
  pub Span-front :
      (xs ws : List ℕ)
      → Span c buffer begin end (xs ++ ws)
      → (begin + length ws ≤ end)
        × (bytes c buffer (end - length ws) (length ws) ≡ ws)
        × Span c buffer begin (end - length ws) xs
  Span-front xs ws s =
      let (le, held, less) = Span-split c buffer begin end xs ws s in
      let len : length xs + length ws ≡ end - begin =
        sym (length-append xs ws) ∙ Span-length c buffer begin end (xs ++ ws) s in
      let o = less.order in
      (
        omega arith,
        ap₂ (bytes c buffer) (omega arith) (omega arith) ∙ less.held,
        record {
          order = omega arith;
          within = omega (arith, s.within);
          held = ap (bytes c buffer begin) (omega arith) ∙ held;
        },
      )

  -- The last byte.
  pub Span-last :
      (xs : List ℕ) (x : ℕ)
      → Span c buffer begin end (xs ++ (x ∷ []))
      → (begin < end) × (byte_at c buffer (end - 1) ≡ x) × Span c buffer begin (end - 1) xs
  unfolding bytes
  Span-last xs x s =
      let (le, held, less) = Span-front xs (x ∷ []) s in
      let one : byte_at c buffer (end - 1) ∷ [] ≡ x ∷ [] = held in (omega arith, cc, less)

  -- One byte more at the front.
  pub Span-put_front :
      (xs : List ℕ) (x : ℕ)
      → Distinct buffer
      → 0 < begin
      → Span c buffer begin end xs
      → Span
          (write c (get_or buffer ((begin - 1) / default_size) 0) ((begin - 1) % default_size) x)
          buffer
          (begin - 1)
          end
          (x ∷ xs)
  unfolding write_span
  Span-put_front xs x d room s =
      let c' = write_span buffer (begin - 1) (x ∷ []) c in
      let o = s.order in
      let w = s.within in
      let after : bytes c' buffer (begin - 1 + 1) (end - begin) ≡ xs =
        ap (λ k. bytes c' buffer k (end - begin)) (omega arith)
        ∙ bytes-write_span_out buffer d (x ∷ []) (begin - 1) begin (end - begin) c (omega arith)
            (omega arith) (inr (omega arith))
        ∙ s.held in
      let before : bytes c' buffer (begin - 1) 1 ≡ x ∷ [] =
        bytes-write_span_self buffer d (x ∷ []) (begin - 1) c (omega arith) in
      record {
        order = omega arith;
        within = w;
        held =
            ap (bytes c' buffer (begin - 1)) (omega arith)
            ∙ bytes-append c' buffer (begin - 1) 1 (end - begin)
            ∙ ap₂ ◌++◌ before after;
      }

  -- Bytes that stand before the front already.
  pub Span-extend_front :
      (xs ws : List ℕ) (n : ℕ)
      → n ≤ begin
      → bytes c buffer (begin - n) n ≡ ws
      → Span c buffer begin end xs
      → Span c buffer (begin - n) end (ws ++ xs)
  Span-extend_front xs ws n room e s =
      let o = s.order in
      record {
        order = omega arith;
        within = s.within;
        held =
            ap (bytes c buffer (begin - n)) (omega arith)
            ∙ bytes-append c buffer (begin - n) n (end - begin)
            ∙ ap₂ ◌++◌ e (ap (λ k. bytes c buffer k (end - begin)) (omega arith) ∙ s.held);
      }
