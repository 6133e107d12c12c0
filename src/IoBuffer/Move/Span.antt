-- ===== src/IoBuffer/Move/Span.antt =====
-- The bytes between `begin` and `end` of a buffer (iobuffer/io_buffer.cpp), none included, and what a byte
-- or a page more or less at either end is to them.
pub mod Front
use npoller.Base.{
  ℕ, suc, ◌+◌, ◌-◌, ◌*◌, ◌/◌, ◌%◌, ◌≤◌, ◌<◌, ◌≡◌, ◌≢◌, ◌⊎◌, set, length-set, take, drop,
  take-length-append, drop-length-append, inl, sym, ap, ap₂, ◌∙◌, List, [], ◌∷◌, ◌++◌, length,
  length-append, get_or, All, Distinct, arith,
}
use npoller.Pages.{Cells, default_size, write}
use npoller.Pages.Bytes.{
  bytes, bytes-take, bytes-drop, bytes-set_page, byte_at, length-bytes, bytes-append,
  bytes-append_pages, bytes-cons_page, bytes-write_apart, bytes-write_span_out,
  bytes-write_span_self, write_span,
}

pub record Span (c : Cells) (buffer : List ℕ) (begin end : ℕ) (xs : List ℕ) : Type 0 where
  pub order : begin ≤ end
  pub within : end ≤ length buffer * default_size
  pub held : bytes c buffer begin (end - begin) ≡ xs

module _ (c : Cells) (buffer : List ℕ) (begin end : ℕ) where
  pub Span-length : (xs : List ℕ) → Span c buffer begin end xs → length xs ≡ end - begin
  Span-length xs s = ap length (sym s.held) ∙ length-bytes c buffer begin (end - begin)

  -- The first byte.
  pub Span-first :
      (x : ℕ) (xs : List ℕ)
      → Span c buffer begin end (x ∷ xs)
      → (begin < end) × (byte_at c buffer begin ≡ x) × Span c buffer (begin + 1) end xs
  unfolding bytes
  Span-first x xs s =
      let len : suc (length xs) ≡ end - begin = Span-length (x ∷ xs) s in
      let count : end - begin ≡ suc (end - (begin + 1)) = omega arith in
      let all : byte_at c buffer begin ∷ bytes c buffer (begin + 1) (end - (begin + 1)) ≡ x ∷ xs =
        ap (bytes c buffer begin) (sym count) ∙ s.held in
      (omega arith, cc, record { order = omega arith; within = s.within; held = cc })

  pub Span-write_apart :
      (xs : List ℕ) (block offset x : ℕ)
      → All (λ p. p ≢ block) buffer
      → Span c buffer begin end xs
      → Span (write c block offset x) buffer begin end xs
  Span-write_apart xs block offset x apart s = record {
    order = s.order;
    within = s.within;
    held =
        bytes-write_apart c buffer block offset x begin (end - begin) apart
          (omega (arith, s.order, s.within))
        ∙ s.held;
  }

  -- One byte more at the end.
  pub Span-put_back :
      (xs : List ℕ) (x : ℕ)
      → Distinct buffer
      → end < length buffer * default_size
      → Span c buffer begin end xs
      → Span
          (write c (get_or buffer (end / default_size) 0) (end % default_size) x)
          buffer
          begin
          (end + 1)
          (xs ++ (x ∷ []))
  unfolding write_span
  Span-put_back xs x d room s =
      let c' = write_span buffer end (x ∷ []) c in
      let before : bytes c' buffer begin (end - begin) ≡ xs =
        bytes-write_span_out buffer d (x ∷ []) end begin (end - begin) c (omega arith)
          (omega (arith, s.order)) (inl (omega (arith, s.order)))
        ∙ s.held in
      let after : bytes c' buffer (begin + (end - begin)) 1 ≡ x ∷ [] =
        ap (λ k. bytes c' buffer k 1) (omega (arith, s.order))
        ∙ bytes-write_span_self buffer d (x ∷ []) end c (omega arith) in
      record {
        order = omega (arith, s.order);
        within = omega arith;
        held =
            ap (bytes c' buffer begin) (omega (arith, s.order))
            ∙ bytes-append c' buffer begin (end - begin) 1
            ∙ ap₂ ◌++◌ before after;
      }

  -- The first bytes, and what is left without them.
  pub Span-split :
      (ws xs : List ℕ)
      → Span c buffer begin end (ws ++ xs)
      → (begin + length ws ≤ end)
        × (bytes c buffer begin (length ws) ≡ ws)
        × Span c buffer (begin + length ws) end xs
  Span-split ws xs s =
      let len : length ws + length xs ≡ end - begin =
        sym (length-append ws xs) ∙ Span-length (ws ++ xs) s in
      (
        omega (arith, s.order),
        bytes-take c buffer begin (length ws) (end - begin) (omega arith)
            ∙ ap (take (length ws)) s.held
            ∙ take-length-append ws xs,
        record {
          order = omega (arith, s.order);
          within = s.within;
          held =
              ap (bytes c buffer (begin + length ws)) (omega arith)
              ∙ bytes-drop c buffer begin (length ws) (end - begin) (omega arith)
              ∙ ap (drop (length ws)) s.held
              ∙ drop-length-append ws xs;
        },
      )

  -- Bytes that stand behind the end already.
  pub Span-extend :
      (xs ws : List ℕ) (n : ℕ)
      → end + n ≤ length buffer * default_size
      → bytes c buffer end n ≡ ws
      → Span c buffer begin end xs
      → Span c buffer begin (end + n) (xs ++ ws)
  Span-extend xs ws n room e s = record {
    order = omega (arith, s.order);
    within = room;
    held =
        ap (bytes c buffer begin) (omega (arith, s.order))
        ∙ bytes-append c buffer begin (end - begin) n
        ∙ ap₂ ◌++◌ s.held (ap (λ k. bytes c buffer k n) (omega (arith, s.order)) ∙ e);
  }

  -- Another page in the place of one that holds none of the bytes.
  pub Span-set_page :
      (xs : List ℕ) (i q : ℕ)
      → ((i + 1) * default_size ≤ begin) ⊎ (end ≤ i * default_size)
      → Span c buffer begin end xs
      → Span c (set buffer i q) begin end xs
  Span-set_page xs i q apart s = record {
    order = s.order;
    within = omega (arith, s.within, length-set buffer i q);
    held = bytes-set_page c buffer i q begin (end - begin) (omega (arith, apart, s.order)) ∙ s.held;
  }

  -- A page that holds none of the bytes goes from the front.
  pub Span-append_pages :
      (xs qs : List ℕ) → Span c buffer begin end xs → Span c (buffer ++ qs) begin end xs
  Span-append_pages xs qs s = record {
    order = s.order;
    within = omega (arith, s.within, length-append buffer qs);
    held =
        bytes-append_pages c buffer qs begin (end - begin) (omega (arith, s.order, s.within))
        ∙ s.held;
  }

  pub Span-cons_page :
      (xs : List ℕ) (p : ℕ)
      → Span c buffer begin end xs
      → Span c (p ∷ buffer) (begin + default_size) (end + default_size) xs
  Span-cons_page xs p s = record {
    order = omega (arith, s.order);
    within = omega (arith, s.within);
    held =
        ap (bytes c (p ∷ buffer) (begin + default_size)) (omega (arith, s.order))
        ∙ bytes-cons_page c p buffer begin (end - begin)
        ∙ s.held;
  }

-- The first page goes, if no byte stands in it.
pub Span-drop_page :
    (c : Cells) (p : ℕ) (buffer : List ℕ) (begin end : ℕ) (xs : List ℕ)
    → default_size ≤ begin
    → Span c (p ∷ buffer) begin end xs
    → Span c buffer (begin - default_size) (end - default_size) xs
Span-drop_page c p buffer begin end xs h s = record {
  order = omega (arith, s.order);
  within = omega (arith, s.within, s.order);
  held =
      sym (
        bytes-cons_page c p buffer (begin - default_size)
          (end - default_size - (begin - default_size)))
      ∙ ap₂ (bytes c (p ∷ buffer)) (omega arith) (omega (arith, s.order))
      ∙ s.held;
}

-- The last page goes, if no byte stands in it.
pub Span-drop_last :
    (c : Cells) (buffer : List ℕ) (p begin end : ℕ) (xs : List ℕ)
    → end ≤ length buffer * default_size
    → Span c (buffer ++ (p ∷ [])) begin end xs
    → Span c buffer begin end xs
Span-drop_last c buffer p begin end xs h s = record {
  order = s.order;
  within = h;
  held =
      sym (bytes-append_pages c buffer (p ∷ []) begin (end - begin) (omega (arith, s.order)))
      ∙ s.held;
}
