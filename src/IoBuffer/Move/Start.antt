-- ===== src/IoBuffer/Move/Start.antt =====
-- The first page of an empty `other`, and where it begins (iobuffer/io_buffer.cpp).
use npoller.Base.{
  ℕ, suc, ◌+◌, ◌-◌, ◌*◌, ◌/◌, ◌%◌, ◌^◌, ◌≤◌, ◌<◌, ◌≡◌, inl, inr, refl, sym, ap, ◌∙◌, true, false,
  Bool-cases, ◌==◌, ltb, List, [], ◌∷◌, ◌++◌, append-nil, length, length-init, init, init-last,
  last?, drop, Outcome, ok, checked, ◌>>=◌, npos, sub64, arith,
}
use npoller.PageStore.{PageStore}
use npoller.Pages.{default_size, page_at}
use npoller.Pages.Bytes.{bytes}
use npoller.IoBuffer.Block.{ControlBlock, Memory}
use npoller.IoBuffer.View.{Owns, Holds, bytes_none}
use npoller.IoBuffer.Move.{Two, lend_page, start_other}
use npoller.IoBuffer.Move.Span.{Span, Span-drop_page, Span-drop_last}
use npoller.IoBuffer.Move.Owned.{Moving, Owns-to_back, Owns-alloc}
use npoller.IoBuffer.Move.Beside.{Both}

module _ (ps : PageStore) where
  -- An `other` that has a page, beside a buffer of bytes `xs`.
  record Lent (t : Two ps) (xs : List ℕ) (out : Outcome (Two ps)) : Type 0 where
    after : Two ps
    runs : out ≡ ok after
    owns : Owns ps after.memory.store (after.this.buffer ++ after.other.buffer)
    span : Span after.memory.cells after.this.buffer after.this.begin after.this.end xs
    small : length after.this.buffer * default_size < 2 ^ 63
    other_small : length after.other.buffer * default_size < 2 ^ 63
    one_page : length after.other.buffer ≡ 1
    some_page : 0 < length after.other.buffer
    some_bytes : after.this.begin < after.this.end

  lend_last :
      (m : Memory ps.Store) (buffer : List ℕ) (b e b' e' : ℕ) (xs : List ℕ)
      → (e - 1) / default_size < length buffer - 1
      → b < e
      → Owns ps m.store (buffer ++ [])
      → Span m.cells buffer b e xs
      → length buffer * default_size < 2 ^ 63
      → Lent
          (record {
            memory = m;
            this = record { buffer = buffer; begin = b; end = e };
            other = record { buffer = []; begin = b'; end = e' };
          })
          xs
          (checked (last? buffer) >>= λ p. ok (record {
            memory = m;
            this = record { buffer = init buffer; begin = b; end = e };
            other = record { buffer = p ∷ []; begin = b'; end = e' };
          }))
  lend_last m [] b e b' e' xs free some_bytes o s small = absurd (omega arith)
  lend_last m (f ∷ rest) b e b' e' xs free some_bytes o s small =
      let (l, last, split) = init-last f rest in
      let len = length-init f rest in
      let o' : Owns ps m.store (init (f ∷ rest) ++ (l ∷ [])) = rw split (rw append-nil at o) in
      let s' : Span m.cells (init (f ∷ rest) ++ (l ∷ [])) b e xs = rw split s in
      record {
        after = record {
          memory = m;
          this = record { buffer = init (f ∷ rest); begin = b; end = e };
          other = record { buffer = l ∷ []; begin = b'; end = e' };
        };
        runs = rw last refl;
        owns = o';
        span = Span-drop_last m.cells (init (f ∷ rest)) l b e xs (omega arith) s';
        small = omega arith;
        other_small = omega arith;
        one_page = refl;
        some_page = omega arith;
        some_bytes = some_bytes;
      }

  lend_first :
      (m : Memory ps.Store) (buffer : List ℕ) (b e b' e' : ℕ) (xs : List ℕ)
      → default_size ≤ b
      → b < e
      → Owns ps m.store (buffer ++ [])
      → Span m.cells buffer b e xs
      → length buffer * default_size < 2 ^ 63
      → Lent
          (record {
            memory = m;
            this = record { buffer = buffer; begin = b; end = e };
            other = record { buffer = []; begin = b'; end = e' };
          })
          xs
          (page_at buffer 0 >>= λ p. ok (record {
            memory = m;
            this = record {
              buffer = drop 1 buffer;
              begin = sub64 b default_size;
              end = sub64 e default_size;
            };
            other = record { buffer = p ∷ []; begin = b'; end = e' };
          }))
  lend_first m [] b e b' e' xs free some_bytes o s small = let w = s.within in absurd (omega arith)
  lend_first m (f ∷ rest) b e b' e' xs free some_bytes o s small =
      let w = s.within in
      let eb : sub64 b default_size ≡ b - default_size = omega arith in
      let ee : sub64 e default_size ≡ e - default_size = omega arith in
      record {
        after = record {
          memory = m;
          this = record { buffer = rest; begin = b - default_size; end = e - default_size };
          other = record { buffer = f ∷ []; begin = b'; end = e' };
        };
        runs = rw (eb, ee) refl;
        owns = Owns-to_back ps m.store f rest (rw append-nil at o);
        span = Span-drop_page m.cells f rest b e xs free s;
        small = omega arith;
        other_small = omega arith;
        one_page = refl;
        some_page = omega arith;
        some_bytes = omega arith;
      }

  lend_page_lem :
      (m : Memory ps.Store) (this : ControlBlock) (b' e' : ℕ) (xs : List ℕ)
      → this.begin < this.end
      → Owns ps m.store (this.buffer ++ [])
      → Span m.cells this.buffer this.begin this.end xs
      → length this.buffer * default_size < 2 ^ 63
      → let t : Two ps = record {
        memory = m;
        this = this;
        other = record { buffer = []; begin = b'; end = e' };
      } in
        Lent t xs (lend_page ps t)
  unfolding lend_page
  lend_page_lem m this b' e' xs some_bytes o s small =
      let w = s.within in
      let ends : sub64 this.end 1 ≡ this.end - 1 = omega arith in
      let pages : sub64 (length this.buffer) 1 ≡ length this.buffer - 1 = omega arith in
      elim (Bool-cases (ltb (sub64 this.end 1 / default_size) (sub64 (length this.buffer) 1))) [
        | inl spare ↦ rw spare (
            lend_last m this.buffer this.begin this.end b' e' xs (let e = spare in ground arith)
              some_bytes o s small)
        | inr none ↦ elim (Bool-cases (ltb 0 (this.begin / default_size))) [
          | inl free ↦
              rw (none, free)
                (lend_first m this.buffer this.begin this.end b' e' xs
                  (let e = free in ground arith) some_bytes o s small)
          | inr used ↦
              rw (none, used)
                (record {
                  after = record {
                    memory = record m { store = (ps.alloc m.store).1 };
                    this = this;
                    other = record { buffer = (ps.alloc m.store).0 ∷ []; begin = b'; end = e' };
                  };
                  runs = refl;
                  owns =
                      Owns-to_back ps (ps.alloc m.store).1 (ps.alloc m.store).0 this.buffer
                        (Owns-alloc ps m.store this.buffer (rw append-nil at o));
                  span = s;
                  small = small;
                  other_small = omega arith;
                  one_page = refl;
                  some_page = omega arith;
                  some_bytes = some_bytes;
                })
        ]
      ]

  -- Both buffers with their bytes, and `other` not yet past the first page if it was empty.
  pub record Started (t : Two ps) (xs ys : List ℕ) (out : Outcome (Two ps)) : Type 0 where
    pub after : Two ps
    pub runs : out ≡ ok after
    pub moving : Moving ps after xs ys
    pub some_bytes : after.this.begin < after.this.end
    pub end_bound : after.other.end < t.other.end + default_size
    pub room : after.other.begin < length after.other.buffer * default_size
    pub no_more : length after.other.buffer ≤ length t.other.buffer + 1

  abbrev place : (ControlBlock → ℕ) → Two ps → Two ps
  place at_pos t = record t {
    other = record t.other {
      begin = at_pos t.this % default_size;
      end = at_pos t.this % default_size;
    };
  }

  -- `other` has a page, no byte, and begins within that page.
  placed :
      (at_pos : ControlBlock → ℕ) (t a : Two ps) (xs ys : List ℕ) (out : Outcome (Two ps))
      → ys ≡ []
      → out ≡ ok a
      → Owns ps a.memory.store (a.this.buffer ++ a.other.buffer)
      → Span a.memory.cells a.this.buffer a.this.begin a.this.end xs
      → length a.this.buffer * default_size < 2 ^ 63
      → length a.other.buffer * default_size < 2 ^ 63
      → 0 < length a.other.buffer
      → length a.other.buffer ≤ length t.other.buffer + 1
      → a.this.begin < a.this.end
      → Started t xs ys (out >>= λ a. ok (place at_pos a))
  placed at_pos t a xs ys out none runs o s small small' some_page no_more some_bytes =
      let b = at_pos a.this % default_size in
      let zero_bytes : b - b ≡ 0 = omega arith in
      record {
        after = place at_pos a;
        runs = rw runs refl;
        moving = record {
          owns = o;
          this_span = s;
          other_span = record {
            order = omega arith;
            within = omega arith;
            held =
                ap (bytes a.memory.cells a.other.buffer b) zero_bytes
                ∙ bytes_none a.memory.cells a.other.buffer b
                ∙ sym none;
          };
          this_small = small;
          other_small = small';
        };
        some_bytes = some_bytes;
        end_bound = omega arith;
        room = omega arith;
        no_more = omega arith;
      }

  start_empty :
      (at_pos : ControlBlock → ℕ) (m : Memory ps.Store) (this : ControlBlock) (buffer : List ℕ)
      (b' e' : ℕ) (xs ys : List ℕ)
      → b' ≡ npos
      → ys ≡ []
      → this.begin < this.end
      → Owns ps m.store (this.buffer ++ buffer)
      → Span m.cells this.buffer this.begin this.end xs
      → length this.buffer * default_size < 2 ^ 63
      → length buffer * default_size < 2 ^ 63
      → let t : Two ps = record {
        memory = m;
        this = this;
        other = record { buffer = buffer; begin = b'; end = e' };
      } in
        Started t xs ys (start_other ps at_pos t)
  unfolding start_other
  start_empty at_pos m this [] b' e' xs ys unset none some_bytes o s small small' =
      let t : Two ps = record {
        memory = m;
        this = this;
        other = record { buffer = []; begin = b'; end = e' };
      } in
      let l = lend_page_lem m this b' e' xs some_bytes o s small in
      let one_page = l.one_page in
      let is_unset : (b' == npos) ≡ true = ground arith in
      rw is_unset (
        placed at_pos t l.after xs ys (lend_page ps t) none l.runs l.owns l.span l.small
          l.other_small l.some_page (omega arith) l.some_bytes)
  start_empty at_pos m this (p ∷ rest) b' e' xs ys unset none some_bytes o s small small' =
      let t : Two ps = record {
        memory = m;
        this = this;
        other = record { buffer = p ∷ rest; begin = b'; end = e' };
      } in
      let is_unset : (b' == npos) ≡ true = ground arith in
      let has_page : (suc (length rest) == 0) ≡ false = ground arith in
      rw (is_unset, has_page)
        (placed at_pos t t xs ys (ok t) none refl o s small small' (omega arith) (omega arith)
          some_bytes)

  pub start_other_lem :
      (at_pos : ControlBlock → ℕ) (t : Two ps) (xs ys : List ℕ)
      → Holds t.memory.cells t.this xs
      → Both ps t xs ys
      → Started t xs ys (start_other ps at_pos t)
  unfolding start_other
  start_other_lem at_pos t xs ys h v =
      let ord = h.order in
      let s : Span t.memory.cells t.this.buffer t.this.begin t.this.end xs = record {
        order = omega arith;
        within = h.within;
        held = h.held;
      } in
      elim v.other_view [
        | inr h' ↦
            let w = h'.within in
            let o = h'.order in
            let small = v.other_small in
            let is_set : (t.other.begin == npos) ≡ false = ground arith in
            rw is_set (record {
              after = t;
              runs = refl;
              moving = record {
                owns = v.owns;
                this_span = s;
                other_span = record { order = omega arith; within = h'.within; held = h'.held };
                this_small = v.this_small;
                other_small = v.other_small;
              };
              some_bytes = h.order;
              end_bound = omega arith;
              room = omega arith;
              no_more = omega arith;
            })
        | inl e ↦
            start_empty at_pos t.memory t.this t.other.buffer t.other.begin t.other.end xs ys
              e.unset e.nothing ord v.owns s v.this_small v.other_small
      ]
