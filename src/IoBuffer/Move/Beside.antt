-- ===== src/IoBuffer/Move/Beside.antt =====
-- Two buffers that share the store (iobuffer/io_buffer.cpp): what they hold, and `check` and
-- `__shrink_size` on both.
use npoller.Base.{
  ℕ, ◌-◌, ◌*◌, ◌^◌, ◌<◌, ◌≡◌, ◌≢◌, ◌⊎◌, inl, inr, refl, sym, ap, subst, ◌∙◌, List, [], ◌∷◌, ◌++◌,
  length, append-nil, append_assoc, All, All-append, All-append_left, All-append_right, Distinct,
  Distinct-append_left, Distinct-append_right, In, not_In-All, Outcome, ok, err, ◌>>=◌, npos,
  dec_lt, arith,
}
use npoller.PageStore.{PageStore}
use npoller.Pages.{Cells, default_size}
use npoller.Pages.Bytes.{bytes}
use npoller.IoBuffer.Block.{ControlBlock, Memory, check, shrink_size, do_shrink_size}
use npoller.IoBuffer.View.{
  Owns, IsEmpty, Holds, check-Holds, check-IsEmpty, check_of_spent, bytes_none,
}
use npoller.IoBuffer.Shrink.{shrink_size_lem}
use npoller.IoBuffer.Move.{Two, check_both, shrink_both}
use npoller.IoBuffer.Move.Frame.{framed, framed-shrink_size}
use npoller.IoBuffer.Move.Span.{Span}
use npoller.IoBuffer.Move.Owned.{Moving, Owns-to_back}

Distinct-not_In : (xs ys : List ℕ) → Distinct (xs ++ ys) → All (λ x. ¬ In x ys) xs
Distinct-not_In [] ys d = tt
Distinct-not_In (x ∷ xs) ys d =
    (apart ys (All-append_right (λ y. x ≢ y) xs ys d.0), Distinct-not_In xs ys d.1)
  where
    apart : (zs : List ℕ) → All (λ y. x ≢ y) zs → ¬ In x zs
    apart [] h i = i
    apart (z ∷ zs) h (inl e) = h.0 e
    apart (z ∷ zs) h (inr i) = apart zs h.1 i

All-zip :
    {P Q R : ℕ → Type 0} (xs : List ℕ)
    → ((x : ℕ) → P x → Q x → R x)
    → All P xs
    → All Q xs
    → All R xs
All-zip [] f p q = tt
All-zip (x ∷ xs) f p q = (f x p.0 q.0, All-zip xs f p.1 q.1)

module _ (ps : PageStore) where
  Owns-exchange : (s : ps.Store) (xs ys : List ℕ) → Owns ps s (xs ++ ys) → Owns ps s (ys ++ xs)
  Owns-exchange s [] ys o = rw append-nil o
  Owns-exchange s (x ∷ xs) ys o =
      rw append_assoc at (
        Owns-exchange s xs (ys ++ (x ∷ [])) (rw append_assoc at (Owns-to_back ps s x (xs ++ ys) o)))

  -- The second buffer's pages as a frame.
  Owns-split : (s : ps.Store) (xs ys : List ℕ) → Owns ps s (xs ++ ys) → Owns (framed ps ys) s xs
  Owns-split s xs ys o = record {
    valid = (o.valid, All-append_right _ xs ys o.ours);
    distinct = Distinct-append_left xs ys o.distinct;
    ours =
        All-zip xs (λ x out apart own. out_of x out apart own) (All-append_left _ xs ys o.ours)
          (Distinct-not_In xs ys o.distinct);
  }
    where
      out_of : (x : ℕ) → ¬ ps.Owned s x → ¬ In x ys → ¬ (ps.Owned s x ⊎ In x ys)
      out_of x out apart (inl own) = out own
      out_of x out apart (inr i) = apart i

  Owns-join :
      (s : ps.Store) (xs ys : List ℕ)
      → Distinct ys
      → Owns (framed ps ys) s xs
      → Owns ps s (xs ++ ys)
  Owns-join s xs ys d o = record {
    valid = o.valid.0;
    distinct = go xs o.distinct o.ours;
    ours =
        All-append _ xs ys (All-zip xs (λ x out out' own. out (inl own)) o.ours o.ours) o.valid.1;
  }
    where
      ne_all : (x : ℕ) → (zs : List ℕ) → All (λ y. y ≢ x) zs → All (λ y. x ≢ y) zs
      ne_all x [] h = tt
      ne_all x (z ∷ zs) h = (λ e. h.0 (sym e), ne_all x zs h.1)

      go :
          (zs : List ℕ)
          → Distinct zs
          → All (λ x. ¬ (ps.Owned s x ⊎ In x ys)) zs
          → Distinct (zs ++ ys)
      go [] dz h = d
      go (z ∷ zs) dz h = (
        All-append (λ y. z ≢ y) zs ys dz.0 (ne_all z ys (not_In-All z ys (λ i. h.0 (inr i)))),
        go zs dz.1 h.1,
      )

  -- Two well-formed buffers, the first of bytes `xs` and the second of `ys`.
  pub record Both (t : Two ps) (xs ys : List ℕ) : Type 0 where
    pub owns : Owns ps t.memory.store (t.this.buffer ++ t.other.buffer)
    pub this_small : length t.this.buffer * default_size < 2 ^ 63
    pub other_small : length t.other.buffer * default_size < 2 ^ 63
    pub this_view : IsEmpty t.this xs ⊎ Holds t.memory.cells t.this xs
    pub other_view : IsEmpty t.other ys ⊎ Holds t.memory.cells t.other ys

  -- The call returns, and the buffers are then well-formed and hold `xs` and `ys`.
  pub record BecomeBoth (out : Outcome (Two ps)) (xs ys : List ℕ) : Type 0 where
    pub result : Two ps
    pub runs : out ≡ ok result
    pub both : Both result xs ys

  cells_or : Cells → Outcome (Memory ps.Store × ControlBlock) → Cells
  cells_or c (ok (m, b)) = m.cells
  cells_or c (err e) = c

  shrunk-cells :
      (m : Memory ps.Store) (o : Outcome (ps.Store × ControlBlock))
      → cells_or m.cells (o >>= λ r. ok (record m { store = r.0 }, r.1)) ≡ m.cells
  unfolding cells_or
  shrunk-cells m (ok r) = refl
  shrunk-cells m (err x) = refl

  -- No byte is written by `__shrink_size`.
  shrink_size-cells :
      (m m' : Memory ps.Store) (b b' : ControlBlock)
      → shrink_size ps m b ≡ ok (m', b')
      → m'.cells ≡ m.cells
  unfolding shrink_size cells_or
  shrink_size-cells m m' b b' e =
      sym (ap (cells_or m.cells) e) ∙ shrunk-cells m (do_shrink_size ps m.store b)

  -- `__shrink_size` on the first of two buffers.
  record Shrunk (m : Memory ps.Store) (pages : List ℕ)
      (out : Outcome (Memory ps.Store × ControlBlock)) (xs : List ℕ) : Type 0 where
    memory : Memory ps.Store
    block : ControlBlock
    runs : out ≡ ok (memory, block)
    owns : Owns ps memory.store (block.buffer ++ pages)
    small : length block.buffer * default_size < 2 ^ 63
    view : IsEmpty block xs ⊎ Holds memory.cells block xs
    same : memory.cells ≡ m.cells

  shrink_beside :
      (m : Memory ps.Store) (b : ControlBlock) (pages xs : List ℕ)
      → Owns ps m.store (b.buffer ++ pages)
      → length b.buffer * default_size < 2 ^ 63
      → IsEmpty b xs ⊎ Holds m.cells b xs
      → Shrunk m pages (shrink_size ps m b) xs
  shrink_beside m b pages xs o small v =
      let r =
        (shrink_size_lem (framed ps pages) m b xs
          (record { owns = Owns-split m.store b.buffer pages o; small = small; view = v })).0 in
      let runs = sym (framed-shrink_size ps pages m b) ∙ r.runs in
      record {
        memory = r.memory;
        block = r.block;
        runs = runs;
        owns =
            Owns-join r.memory.store r.block.buffer pages
              (Distinct-append_right b.buffer pages o.distinct) r.represents.owns;
        small = r.represents.small;
        view = r.represents.view;
        same = shrink_size-cells m r.memory b r.block runs;
      }

  shrink_both_lem :
      (t : Two ps) (xs ys : List ℕ) → Both t xs ys → BecomeBoth (shrink_both ps t) xs ys
  unfolding shrink_both
  shrink_both_lem t xs ys v =
      let r = shrink_beside t.memory t.this t.other.buffer xs v.owns v.this_small v.this_view in
      let view' : IsEmpty t.other ys ⊎ Holds r.memory.cells t.other ys =
        subst (λ c. IsEmpty t.other ys ⊎ Holds c t.other ys) (sym r.same) v.other_view in
      let q =
        shrink_beside r.memory t.other r.block.buffer ys
          (Owns-exchange r.memory.store r.block.buffer t.other.buffer r.owns) v.other_small view' in
      record {
        result = record { memory = q.memory; this = r.block; other = q.block };
        runs = rw (r.runs, q.runs) refl;
        both = record {
          owns = Owns-exchange q.memory.store q.block.buffer r.block.buffer q.owns;
          this_small = r.small;
          other_small = q.small;
          this_view = subst (λ c. IsEmpty r.block xs ⊎ Holds c r.block xs) (sym q.same) r.view;
          other_view = q.view;
        };
      }

  -- `check` on a buffer that may have been emptied.
  check_spanned :
      (c : Cells) (b : ControlBlock) (xs : List ℕ)
      → length b.buffer * default_size < 2 ^ 63
      → Span c b.buffer b.begin b.end xs
      → (b' : ControlBlock) × (check b ≡ ok b')
        × (b'.buffer ≡ b.buffer)
        × (IsEmpty b' xs ⊎ Holds c b' xs)
  check_spanned c b xs small s = elim (dec_lt b.begin b.end) [
    | yes some_bytes ↦
        let h : Holds c b xs = record { order = some_bytes; within = s.within; held = s.held } in
        (b, check-Holds c b xs small h, refl, inr h)
    | no none ↦
        let zero_bytes : b.end - b.begin ≡ 0 = omega arith in
        (
          record b { begin = npos; end = 0 },
          check_of_spent b (omega arith),
          refl,
          inl (record {
            unset = refl;
            at_zero = refl;
            nothing =
                sym s.held
                ∙ ap (bytes c b.buffer b.begin) zero_bytes
                ∙ bytes_none c b.buffer b.begin;
          }),
        )
  ]

  -- The end of each of the four moves.
  pub finish_lem :
      (t : Two ps) (xs ys : List ℕ)
      → Moving ps t xs ys
      → BecomeBoth (check_both ps t >>= λ t. shrink_both ps t) xs ys
  unfolding check_both
  finish_lem t xs ys v =
      let (this, e, same, view) = check_spanned t.memory.cells t.this xs v.this_small v.this_span in
      let (other, e', same', view') =
        check_spanned t.memory.cells t.other ys v.other_small v.other_span in
      rw (e, e')
        (shrink_both_lem (record t { this = this; other = other }) xs ys
          (record {
            owns = rw (same, same') v.owns;
            this_small = rw same v.this_small;
            other_small = rw same' v.other_small;
            this_view = view;
            other_view = view';
          }))

  -- `check` on both leaves well-formed buffers as they are.
  pub check_both_lem : (t : Two ps) (xs ys : List ℕ) → Both t xs ys → check_both ps t ≡ ok t
  unfolding check_both
  check_both_lem t xs ys v =
      rw
        (
          view_check t.memory.cells t.this xs v.this_small v.this_view,
          view_check t.memory.cells t.other ys v.other_small v.other_view,
        )
        refl
    where
      view_check :
          (c : Cells) (b : ControlBlock) (zs : List ℕ)
          → length b.buffer * default_size < 2 ^ 63
          → IsEmpty b zs ⊎ Holds c b zs
          → check b ≡ ok b
      view_check c b zs small (inl e) = check-IsEmpty b zs e
      view_check c b zs small (inr h) = check-Holds c b zs small h
