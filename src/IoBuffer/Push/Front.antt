-- ===== src/IoBuffer/Push/Front.antt =====
-- `push_front_n` (iobuffer/io_buffer.cpp) puts bytes in front.
use npoller.Base.{
  ℕ, zero, suc, ◌+◌, ◌-◌, ◌*◌, ◌/◌, ◌^◌, ◌≤◌, ◌<◌, ◌≡◌, ◌⊎◌, inl, inr, sym, ap, ap₂, ◌∙◌, List, [],
  ◌∷◌, ◌++◌, length, get_or, get_elem?-eq-get_or, ltb, ltb→lt, ltb_false→le, Bool-cases, true,
  false, ◌==◌, Option, none, some, Outcome, ok, ◌>>=◌, add64, sub64, npos, arith,
}
use npoller.PageStore.{PageStore}
use npoller.Pages.{Cells, default_size}
use npoller.Pages.Bytes.{
  bytes, bytes-append, bytes-cons_page, bytes-write_span_out, bytes-write_span_self, write_span,
}
use npoller.Pages.Copy.{copy_in_lem}
use npoller.IoBuffer.Block.{ControlBlock, Memory, capacity}
use npoller.IoBuffer.Push.{
  grow_empty, grow_front, make_front_room, prepend_bytes, push_front_bytes, push_front_n,
  source_bytes,
}
use npoller.IoBuffer.Push.Back.{page_at_lem}
use npoller.IoBuffer.View.{
  Owns, Holds, IsEmpty, Represents, Becomes, Owns-get_front, check-Represents, stays, bytes_none,
}

module _ (ps : PageStore) where
  record Grown (out : Outcome (ps.Store × List ℕ)) (size : ℕ) : Type 0 where
    store : ps.Store
    buffer : List ℕ
    runs : out ≡ ok (store, buffer)
    owns : Owns ps store buffer
    enough : size ≤ length buffer * default_size
    small : length buffer * default_size < 2 ^ 63

  grow_empty_lem :
      (fuel size : ℕ) (s : ps.Store) (buffer : List ℕ)
      → size - length buffer * default_size < fuel
      → size + default_size < 2 ^ 63
      → length buffer * default_size < 2 ^ 63
      → Owns ps s buffer
      → Grown (grow_empty ps fuel size s buffer) size
  unfolding grow_empty
  grow_empty_lem zero size s buffer f room small o = absurd (omega arith)
  grow_empty_lem (suc fuel) size s buffer f room small o =
      elim (Bool-cases (ltb (capacity buffer) size)) [
        | inl t ↦
            let lt : capacity buffer < size = ltb→lt _ _ t in
            let r =
              grow_empty_lem fuel size (ps.get s).1 ((ps.get s).0 ∷ buffer) (omega arith) room
                (omega arith) (Owns-get_front ps s buffer o) in
            record {
              store = r.store;
              buffer = r.buffer;
              runs = rw t r.runs;
              owns = r.owns;
              enough = r.enough;
              small = r.small;
            }
        | inr t ↦ record {
          store = s;
          buffer = buffer;
          runs = rw t;
          owns = o;
          enough = omega (arith, ltb_false→le _ _ t);
          small = small;
        }
      ]

  -- Room for `size` bytes before the bytes `xs`, which end at `end`.
  record Room (out : Outcome (ps.Store × ControlBlock)) (c : Cells) (size : ℕ) (xs : List ℕ)
      : Type 0 where
    store : ps.Store
    block : ControlBlock
    runs : out ≡ ok (store, block)
    owns : Owns ps store block.buffer
    small : length block.buffer * default_size < 2 ^ 63
    room : block.begin + size ≤ block.end
    within : block.end ≤ length block.buffer * default_size
    held : bytes c block.buffer (block.begin + size) (block.end - (block.begin + size)) ≡ xs

  Holds-get_front :
      (c : Cells) (p : ℕ) (b : ControlBlock) (xs : List ℕ)
      → length b.buffer * default_size + default_size < 2 ^ 63
      → Holds c b xs
      → Holds c
          (record b {
            buffer = p ∷ b.buffer;
            begin = add64 b.begin default_size;
            end = add64 b.end default_size;
          })
          xs
  Holds-get_front c p b xs small h = record {
    order = omega (arith, h.order, h.within);
    within = omega (arith, h.within);
    held =
        ap₂ (bytes c (p ∷ b.buffer)) (omega (arith, h.order, h.within))
          (omega (arith, h.order, h.within))
        ∙ bytes-cons_page c p b.buffer b.begin (b.end - b.begin)
        ∙ h.held;
  }

  -- The loop ends with `begin` at `size` or behind it, and the bytes are the same.
  grow_front_lem :
      (fuel size : ℕ) (s : ps.Store) (b : ControlBlock) (c : Cells) (xs : List ℕ)
      → size - b.begin < fuel
      → length b.buffer * default_size < 2 ^ 63
      → (b.begin < size → length b.buffer * default_size + (size - b.begin) + default_size < 2 ^ 63)
      → Owns ps s b.buffer
      → Holds c b xs
      → (out : ps.Store × ControlBlock) × (grow_front ps fuel size s b ≡ ok out)
        × (Owns ps out.0 out.1.buffer
            × Holds c out.1 xs
            × (length out.1.buffer * default_size < 2 ^ 63)
            × (size ≤ out.1.begin))
  unfolding grow_front
  grow_front_lem zero size s b c xs f small room o h = absurd (omega arith)
  grow_front_lem (suc fuel) size s b c xs f small room o h = elim (Bool-cases (ltb b.begin size)) [
    | inl t ↦
        let lt : b.begin < size = ltb→lt _ _ t in
        let exact : add64 b.begin default_size ≡ b.begin + default_size =
          omega (arith, h.order, h.within) in
        let (out, runs, rest) =
          grow_front_lem fuel size (ps.get s).1
            (record b {
              buffer = (ps.get s).0 ∷ b.buffer;
              begin = add64 b.begin default_size;
              end = add64 b.end default_size;
            })
            c xs (omega arith) (omega (arith, room lt)) (λ more. omega (arith, room lt))
            (Owns-get_front ps s b.buffer o)
            (Holds-get_front c (ps.get s).0 b xs (omega (arith, room lt)) h) in
        (out, rw t runs, rest)
    | inr t ↦ ((s, b), rw t, (o, h, small, ltb_false→le _ _ t))
  ]

  make_front_room_lem :
      (size : ℕ) (m : Memory ps.Store) (b : ControlBlock) (xs : List ℕ)
      → 0 < size
      → length b.buffer * default_size + size + default_size < 2 ^ 63
      → Represents ps m b xs
      → Room (make_front_room ps size m.store b) m.cells size xs
  unfolding make_front_room
  make_front_room_lem size m b xs pos bound r = split r.view
    where
      split :
          IsEmpty b xs ⊎ Holds m.cells b xs
          → Room (make_front_room ps size m.store b) m.cells size xs
      split (inl e) =
          let fresh : (b.begin == npos) ≡ true = ground arith in
          let g =
            grow_empty_lem (size + 1) size m.store b.buffer (omega arith) (omega arith) r.small
              r.owns in
          record {
            store = g.store;
            block = record { buffer = g.buffer; begin = 0; end = add64 0 size };
            runs = rw (fresh, g.runs);
            owns = g.owns;
            small = g.small;
            room = omega arith;
            within = omega (arith, g.enough);
            held =
                ap (bytes m.cells g.buffer (0 + size)) (omega arith)
                ∙ bytes_none m.cells g.buffer (0 + size)
                ∙ sym e.nothing;
          }
      split (inr h) =
          let used : (b.begin == npos) ≡ false = ground (arith, r.small) in
          let (out, runs, kept) =
            grow_front_lem (size + 1) size m.store b m.cells xs (omega arith) r.small
              (λ _. omega arith) r.owns h in
          record {
            store = out.0;
            block = record out.1 { begin = sub64 out.1.begin size };
            runs = rw (used, runs);
            owns = kept.0;
            small = kept.2;
            room = omega (arith, kept.1.order, kept.1.within);
            within = kept.1.within;
            held =
                ap₂ (bytes m.cells out.1.buffer) (omega (arith, kept.1.order, kept.1.within))
                  (omega (arith, kept.1.order, kept.1.within))
                ∙ kept.1.held;
          }

  -- The copy into the room that was made.
  prepend_bytes_lem :
      (src : List ℕ) (out : Outcome (ps.Store × ControlBlock)) (c : Cells) (xs : List ℕ)
      → 0 < length src
      → Room out c (length src) xs
      → Becomes ps (out >>= λ room. prepend_bytes ps src room c) (src ++ xs)
  unfolding prepend_bytes
  prepend_bytes_lem src out c xs pos r =
      let b = r.block in
      let fits : b.begin + length src ≤ length b.buffer * default_size =
        omega (arith, r.room, r.within) in
      let c' = write_span b.buffer b.begin src c in
      let copied =
        copy_in_lem b.buffer src (get_or b.buffer (b.begin / default_size) 0) b.begin c fits
          (λ _. get_elem?-eq-get_or b.buffer (b.begin / default_size) 0 (omega arith)) in
      let rest = b.end - (b.begin + length src) in
      let after : bytes c' b.buffer (b.begin + length src) rest ≡ xs =
        bytes-write_span_out b.buffer r.owns.distinct src b.begin (b.begin + length src) rest c fits
          (omega (arith, r.room, r.within)) (inr (omega arith))
        ∙ r.held in
      record {
        memory = record { cells = c'; store = r.store };
        block = b;
        runs = rw (r.runs, page_at_lem b.buffer b.begin (omega arith), copied);
        represents = record {
          owns = r.owns;
          small = r.small;
          view = inr (record {
            order = omega (arith, r.room);
            within = r.within;
            held =
                ap (bytes c' b.buffer b.begin) (omega (arith, r.room))
                ∙ bytes-append c' b.buffer b.begin (length src) rest
                ∙ ap₂ ◌++◌ (bytes-write_span_self b.buffer r.owns.distinct src b.begin c fits)
                    after;
          });
        };
      }

  -- `push_front_n` on a well-formed buffer returns and puts the bytes of `src` in front: it adds
  -- nothing if `src` is null or has no bytes, and it never throws nor touches a byte out of range,
  -- provided that the pages, the new bytes and one page more fit into half the address space.
  pub push_front_n_lem :
      (src : Option (List ℕ)) (m : Memory ps.Store) (b : ControlBlock) (xs : List ℕ)
      → length b.buffer * default_size + length (source_bytes src) + default_size < 2 ^ 63
      → Represents ps m b xs
      → Becomes ps (push_front_n ps src m b) (source_bytes src ++ xs)
  unfolding push_front_n push_front_bytes
  push_front_n_lem none m b xs room r = stays ps m b xs r
  push_front_n_lem (some []) m b xs room r = stays ps m b xs r
  push_front_n_lem (some (x ∷ src)) m b xs room r =
      let some_bytes : (length (x ∷ src) == 0) ≡ false = ground arith in
      rw (some_bytes, check-Represents ps m b xs r)
        (prepend_bytes_lem (x ∷ src) _ m.cells xs (omega arith)
          (make_front_room_lem (length (x ∷ src)) m b xs (omega arith) room r))
