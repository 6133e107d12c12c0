-- ===== src/IoBuffer/Move/Turning.antt =====
-- One buffer whose bytes go from one end to the other (iobuffer/io_buffer.cpp).
use npoller.Base.{ℕ, ◌*◌, ◌^◌, ◌<◌, ◌≡◌, inr, refl, List, length, Outcome, ok, arith}
use npoller.PageStore.{PageStore}
use npoller.Pages.{default_size}
use npoller.IoBuffer.View.{Owns, Holds, Represents, check-Represents}
use npoller.IoBuffer.Shrink.{shrink_size_lem}
use npoller.IoBuffer.Move.{One, check_and_shrink}
use npoller.IoBuffer.Move.Span.{Span, Span-length}

module _ (ps : PageStore) where
  pub record Turning (t : One ps) (xs : List ℕ) : Type 0 where
    pub owns : Owns ps t.memory.store t.this.buffer
    pub span : Span t.memory.cells t.this.buffer t.this.begin t.this.end xs
    pub small : length t.this.buffer * default_size < 2 ^ 63

  -- The call returns, and the buffer is then well-formed and holds `xs`.
  pub record BecomeOne (out : Outcome (One ps)) (xs : List ℕ) : Type 0 where
    pub result : One ps
    pub runs : out ≡ ok result
    pub represents : Represents ps result.memory result.this xs

  -- The end of both moves inside one buffer.
  pub check_and_shrink_lem :
      (t : One ps) (xs : List ℕ)
      → 0 < length xs
      → Turning t xs
      → BecomeOne (check_and_shrink ps t) xs
  unfolding check_and_shrink
  check_and_shrink_lem t xs more v =
      let len = Span-length t.memory.cells t.this.buffer t.this.begin t.this.end xs v.span in
      let h : Holds t.memory.cells t.this xs = record {
        order = omega arith;
        within = v.span.within;
        held = v.span.held;
      } in
      let r : Represents ps t.memory t.this xs = record {
        owns = v.owns;
        small = v.small;
        view = inr h;
      } in
      let s = (shrink_size_lem ps t.memory t.this xs r).0 in
      record {
        result = record { memory = s.memory; this = s.block };
        runs = rw (check-Represents ps t.memory t.this xs r, s.runs) refl;
        represents = s.represents;
      }
