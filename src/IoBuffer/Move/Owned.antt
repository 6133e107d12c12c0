-- ===== src/IoBuffer/Move/Owned.antt =====
-- The pages of two buffers (iobuffer/io_buffer.cpp) as one list that differs from what the store hands out,
-- and a page that goes to another place in it.
use npoller.Base.{
  ℕ, ◌*◌, ◌^◌, ◌<◌, refl, subst, List, [], ◌∷◌, ◌++◌, length, append-nil, append_assoc, All-imp,
  All-append, All-append_left, All-append_right, Distinct-middle_front, Distinct-front_middle,
}
use npoller.PageStore.{PageStore}
use npoller.Pages.{default_size}
use npoller.IoBuffer.View.{Owns}
use npoller.IoBuffer.Move.{Two}
use npoller.IoBuffer.Move.Span.{Span}

module _ (ps : PageStore) where
  pub Owns-middle_front :
      (s : ps.Store) (xs : List ℕ) (p : ℕ) (ys : List ℕ)
      → Owns ps s (xs ++ (p ∷ ys))
      → Owns ps s (p ∷ (xs ++ ys))
  Owns-middle_front s xs p ys o = record {
    valid = o.valid;
    distinct = Distinct-middle_front xs p ys o.distinct;
    ours =
        let right = All-append_right _ xs (p ∷ ys) o.ours in
        (right.0, All-append _ xs ys (All-append_left _ xs (p ∷ ys) o.ours) right.1);
  }

  pub Owns-front_middle :
      (s : ps.Store) (xs : List ℕ) (p : ℕ) (ys : List ℕ)
      → Owns ps s (p ∷ (xs ++ ys))
      → Owns ps s (xs ++ (p ∷ ys))
  Owns-front_middle s xs p ys o = record {
    valid = o.valid;
    distinct = Distinct-front_middle xs p ys o.distinct;
    ours =
        All-append _ xs (p ∷ ys) (All-append_left _ xs ys o.ours.1)
          (o.ours.0, All-append_right _ xs ys o.ours.1);
  }

  -- From the front of all to the end, and back.
  pub Owns-to_back :
      (s : ps.Store) (p : ℕ) (xs : List ℕ) → Owns ps s (p ∷ xs) → Owns ps s (xs ++ (p ∷ []))
  Owns-to_back s p xs o = Owns-front_middle s xs p [] (rw append-nil o)

  pub Owns-to_front :
      (s : ps.Store) (p : ℕ) (xs : List ℕ) → Owns ps s (xs ++ (p ∷ [])) → Owns ps s (p ∷ xs)
  Owns-to_front s p xs o = rw append-nil at (Owns-middle_front s xs p [] o)

  -- Two pages change places.
  pub Owns-swap :
      (s : ps.Store) (front : List ℕ) (p : ℕ) (middle : List ℕ) (q : ℕ) (back : List ℕ)
      → Owns ps s (front ++ (p ∷ (middle ++ (q ∷ back))))
      → Owns ps s (front ++ (q ∷ (middle ++ (p ∷ back))))
  Owns-swap s front p middle q back o =
      let o1 : Owns ps s (p ∷ ((front ++ middle) ++ (q ∷ back))) =
        rw (append_assoc front middle) (Owns-middle_front s front p (middle ++ (q ∷ back)) o) in
      let o2 : Owns ps s (q ∷ (p ∷ ((front ++ middle) ++ back))) =
        Owns-middle_front s (p ∷ (front ++ middle)) q back o1 in
      let o3 : Owns ps s (p ∷ (q ∷ ((front ++ middle) ++ back))) =
        Owns-middle_front s (q ∷ []) p ((front ++ middle) ++ back) o2 in
      let o4 : Owns ps s (q ∷ ((front ++ middle) ++ (p ∷ back))) =
        Owns-front_middle s (q ∷ (front ++ middle)) p back o3 in
      Owns-front_middle s front q (middle ++ (p ∷ back))
        (rw (← append_assoc front middle (p ∷ back)) o4)

  -- A new page.
  pub Owns-alloc :
      (s : ps.Store) (xs : List ℕ) → Owns ps s xs → Owns ps (ps.alloc s).1 ((ps.alloc s).0 ∷ xs)
  Owns-alloc s xs o = record {
    valid = ps.alloc-IsValid s o.valid;
    distinct = (
      All-imp _ _ xs (λ q out e. out (subst (ps.Owned s) e (ps.alloc-Owned s o.valid))) o.ours,
      o.distinct,
    );
    ours = (
      λ own. (ps.Owned-alloc s (ps.alloc s).0 o.valid own).1 refl,
      All-imp _ _ xs (λ q out own. out (ps.Owned-alloc s q o.valid own).0) o.ours,
    );
  }

  -- Two buffers, one of bytes `xs` and one of `ys`.
  pub record Moving (t : Two ps) (xs ys : List ℕ) : Type 0 where
    pub owns : Owns ps t.memory.store (t.this.buffer ++ t.other.buffer)
    pub this_span : Span t.memory.cells t.this.buffer t.this.begin t.this.end xs
    pub other_span : Span t.memory.cells t.other.buffer t.other.begin t.other.end ys
    pub this_small : length t.this.buffer * default_size < 2 ^ 63
    pub other_small : length t.other.buffer * default_size < 2 ^ 63
