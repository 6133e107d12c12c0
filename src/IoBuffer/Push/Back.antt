-- ===== src/IoBuffer/Push/Back.antt =====
-- `push_back_n` (iobuffer/io_buffer.cpp) appends.
use npoller.Base.{
  ℕ, zero, suc, ◌+◌, ◌-◌, ◌*◌, ◌/◌, ◌^◌, ◌≤◌, ◌<◌, ◌≡◌, ◌⊎◌, inl, inr, ap, ap₂, ◌∙◌, List, [], ◌∷◌,
  ◌++◌, append-nil, append_assoc, length, length-append, get_or, get_elem?-eq-get_or, ltb, ltb→lt,
  ltb_false→le, Bool-cases, true, false, ◌==◌, Option, none, some, Outcome, ok, checked, add64,
  npos, arith,
}
use npoller.PageStore.{PageStore}
use npoller.Pages.{default_size, page_at}
use npoller.Pages.Bytes.{
  bytes, bytes-append, bytes-append_pages, bytes-write_span_out, bytes-write_span_self, write_span,
}
use npoller.Pages.Copy.{copy_in_lem}
use npoller.IoBuffer.Block.{ControlBlock, Memory, capacity}
use npoller.IoBuffer.Push.{grow_back, append_bytes, push_back_bytes, push_back_n, source_bytes}
use npoller.IoBuffer.View.{
  Owns, Holds, IsEmpty, Represents, Becomes, Owns-get_back, check-Represents, stays, bytes_none,
}

-- A page that a position in range lies in.
pub page_at_lem :
    (buffer : List ℕ) (pos : ℕ)
    → pos < length buffer * default_size
    → page_at buffer (pos / default_size) ≡ ok (get_or buffer (pos / default_size) 0)
page_at_lem buffer pos h =
    ap checked (get_elem?-eq-get_or buffer (pos / default_size) 0 (omega arith))

module _ (ps : PageStore) where
  record Grown (out : Outcome (ps.Store × List ℕ)) (old : List ℕ) (need : ℕ) : Type 0 where
    store : ps.Store
    added : List ℕ
    runs : out ≡ ok (store, old ++ added)
    owns : Owns ps store (old ++ added)
    enough : need ≤ length (old ++ added) * default_size
    small : length (old ++ added) * default_size < 2 ^ 63

  -- The loop ends, with room for `need` bytes and the old pages in front.
  grow_back_lem :
      (fuel need : ℕ) (s : ps.Store) (buffer : List ℕ)
      → need - length buffer * default_size < fuel
      → need + default_size < 2 ^ 63
      → length buffer * default_size < 2 ^ 63
      → Owns ps s buffer
      → Grown (grow_back ps fuel need s buffer) buffer need
  unfolding grow_back
  grow_back_lem zero need s buffer f room small o = absurd (omega arith)
  grow_back_lem (suc fuel) need s buffer f room small o =
      elim (Bool-cases (ltb (capacity buffer) need)) [
        | inl t ↦
            let lt : capacity buffer < need = ltb→lt _ _ t in
            let one = (ps.get s).0 ∷ [] in
            let len : length (buffer ++ one) ≡ length buffer + 1 = length-append buffer one in
            let r =
              grow_back_lem fuel need (ps.get s).1 (buffer ++ one) (omega arith) room (omega arith)
                (Owns-get_back ps s buffer o) in
            let same : (buffer ++ one) ++ r.added ≡ buffer ++ (one ++ r.added) =
              append_assoc buffer one r.added in
            record {
              store = r.store;
              added = one ++ r.added;
              runs = rw t (rw same at r.runs);
              owns = rw same at r.owns;
              enough = rw same at r.enough;
              small = rw same at r.small;
            }
        | inr t ↦ record {
          store = s;
          added = [];
          runs = rw (t, append-nil);
          owns = rw append-nil o;
          enough = rw append-nil (omega (arith, ltb_false→le _ _ t));
          small = rw append-nil small;
        }
      ]

  append_bytes_lem :
      (src : List ℕ) (m : Memory ps.Store) (b : ControlBlock) (xs : List ℕ)
      → 0 < length src
      → b.end + length src + default_size < 2 ^ 63
      → length b.buffer * default_size < 2 ^ 63
      → b.begin ≤ b.end
      → b.end ≤ length b.buffer * default_size
      → bytes m.cells b.buffer b.begin (b.end - b.begin) ≡ xs
      → Owns ps m.store b.buffer
      → Becomes ps (append_bytes ps src m b) (xs ++ src)
  unfolding append_bytes
  append_bytes_lem src m b xs pos room small order within held o =
      let need : ℕ = add64 (length src) b.end in
      let exact : need ≡ length src + b.end = omega arith in
      let g = grow_back_lem (need + 1) need m.store b.buffer (omega arith) (omega arith) small o in
      let pages = b.buffer ++ g.added in
      let fits : b.end + length src ≤ length pages * default_size = omega (arith, g.enough) in
      let c = write_span pages b.end src m.cells in
      let copied =
        copy_in_lem pages src (get_or pages (b.end / default_size) 0) b.end m.cells fits
          (λ _. get_elem?-eq-get_or pages (b.end / default_size) 0 (omega arith)) in
      let before : bytes c pages b.begin (b.end - b.begin) ≡ xs =
        bytes-write_span_out pages g.owns.distinct src b.end b.begin (b.end - b.begin) m.cells fits
          (omega arith) (inl (omega arith))
        ∙ bytes-append_pages m.cells b.buffer g.added b.begin (b.end - b.begin) (omega arith)
        ∙ held in
      let after : bytes c pages (b.begin + (b.end - b.begin)) (length src) ≡ src =
        ap (λ k. bytes c pages k (length src)) (omega arith)
        ∙ bytes-write_span_self pages g.owns.distinct src b.end m.cells fits in
      record {
        memory = record { cells = c; store = g.store };
        block = record b { buffer = pages; end = add64 b.end (length src) };
        runs = rw (g.runs, page_at_lem pages b.end (omega arith), copied);
        represents = record {
          owns = g.owns;
          small = g.small;
          view = inr (record {
            order = omega arith;
            within = omega arith;
            held =
                ap (bytes c pages b.begin) (omega arith)
                ∙ bytes-append c pages b.begin (b.end - b.begin) (length src)
                ∙ ap₂ ◌++◌ before after;
          });
        };
      }

  push_back_bytes_lem :
      (src : List ℕ) (m : Memory ps.Store) (b : ControlBlock) (xs : List ℕ)
      → 0 < length src
      → b.end + length src + default_size < 2 ^ 63
      → Represents ps m b xs
      → Becomes ps (push_back_bytes ps src m b) (xs ++ src)
  unfolding push_back_bytes
  push_back_bytes_lem src m b xs pos room r = split r.view
    where
      split :
          IsEmpty b xs ⊎ Holds m.cells b xs → Becomes ps (push_back_bytes ps src m b) (xs ++ src)
      split (inl e) =
          let fresh : (b.begin == npos) ≡ true = ground arith in
          rw (fresh, e.nothing)
            (append_bytes_lem src m (record b { begin = 0; end = 0 }) [] pos (omega arith) r.small
              (omega arith) (omega arith) (bytes_none m.cells b.buffer 0) r.owns)
      split (inr h) =
          let used : (b.begin == npos) ≡ false = ground (arith, r.small) in
          rw used (
            append_bytes_lem src m b xs pos room r.small (omega (arith, h.order)) h.within h.held
              r.owns)

  -- `push_back_n` on a well-formed buffer returns and appends the bytes of `src`: it adds nothing if
  -- `src` is null or has no bytes, and it never throws nor touches a byte out of range, provided
  -- that `end`, the new bytes and one page fit into half the address space.
  pub push_back_n_lem :
      (src : Option (List ℕ)) (m : Memory ps.Store) (b : ControlBlock) (xs : List ℕ)
      → b.end + length (source_bytes src) + default_size < 2 ^ 63
      → Represents ps m b xs
      → Becomes ps (push_back_n ps src m b) (xs ++ source_bytes src)
  unfolding push_back_n
  push_back_n_lem none m b xs room r =
      rw (check-Represents ps m b xs r, append-nil) (stays ps m b xs r)
  push_back_n_lem (some []) m b xs room r =
      rw (check-Represents ps m b xs r, append-nil) (stays ps m b xs r)
  push_back_n_lem (some (x ∷ src)) m b xs room r =
      let some_bytes : (length (x ∷ src) == 0) ≡ false = ground arith in
      rw (check-Represents ps m b xs r, some_bytes)
        (push_back_bytes_lem (x ∷ src) m b xs (omega arith) room r)
