-- ===== src/IoBuffer/Move/Frame.antt =====
-- Pages of one buffer while another is worked on: a store that takes some pages for its own keeps the same
-- operations, so that a theorem about one buffer (iobuffer/io_buffer.cpp) holds beside a second one.
use npoller.Base.{ℕ, ◌≡◌, ◌≢◌, ◌⊎◌, inl, inr, refl, sym, subst, List, [], ◌∷◌, All, All-imp}
use npoller.PageStore.{PageStore}
use npoller.Base.{In, In-All}
use npoller.IoBuffer.Block.{
  ControlBlock, Memory, shrink_size, do_shrink_size, release_all, drop_front, drop_back,
}

module _ (ps : PageStore) (frame : List ℕ) where
  abbrev pub FramedValid : ps.Store → Type 0
  FramedValid s = ps.IsValid s × All (λ p. ¬ ps.Owned s p) frame

  abbrev pub FramedOwned : ps.Store → ℕ → Type 0
  FramedOwned s p = ps.Owned s p ⊎ In p frame

  pub framed_push-IsValid :
      (s : ps.Store) (p : ℕ) → FramedValid s → ¬ FramedOwned s p → FramedValid (ps.push s p)
  framed_push-IsValid s p v out = (
    ps.push-IsValid s p v.0 (λ o. out (inl o)),
    All-imp _ _ frame (λ q i. i) (keep frame (λ q i. i) v.1),
  )
    where
      keep :
          (qs : List ℕ)
          → ((q : ℕ) → In q qs → In q frame)
          → All (λ q. ¬ ps.Owned s q) qs
          → All (λ q. ¬ ps.Owned (ps.push s p) q) qs
      keep [] sub h = tt
      keep (q ∷ qs) sub h = (
        λ o. elim (ps.Owned-push s p q o) [
          | inl own ↦ h.0 own
          | inr e ↦ out (inr (subst (λ x. In x frame) e (sub q (inl refl))))
        ],
        keep qs (λ x i. sub x (inr i)) h.1,
      )

  pub framed_get-All : (s : ps.Store) → FramedValid s → All (λ p. ¬ ps.Owned (ps.get s).1 p) frame
  framed_get-All s v = All-imp _ _ frame (λ p out o. out (ps.Owned-get s p v.0 o).0) v.1

  pub framed_alloc-All :
      (s : ps.Store) → FramedValid s → All (λ p. ¬ ps.Owned (ps.alloc s).1 p) frame
  framed_alloc-All s v = All-imp _ _ frame (λ p out o. out (ps.Owned-alloc s p v.0 o).0) v.1

  -- A page of the frame is none that the store hands out.
  framed_apart : (s : ps.Store) (p q : ℕ) → FramedValid s → ps.Owned s q → In p frame → p ≢ q
  framed_apart s p q v own i e =
      In-All (λ x. ¬ ps.Owned s x) p frame v.1 i (subst (ps.Owned s) (sym e) own)

  pub framed_Owned-get :
      (s : ps.Store) (p : ℕ)
      → FramedValid s
      → FramedOwned (ps.get s).1 p
      → FramedOwned s p × (p ≢ (ps.get s).0)
  framed_Owned-get s p v (inl o) = let (own, ne) = ps.Owned-get s p v.0 o in (inl own, ne)
  framed_Owned-get s p v (inr i) = (inr i, framed_apart s p (ps.get s).0 v (ps.get-Owned s v.0) i)

  pub framed_Owned-alloc :
      (s : ps.Store) (p : ℕ)
      → FramedValid s
      → FramedOwned (ps.alloc s).1 p
      → FramedOwned s p × (p ≢ (ps.alloc s).0)
  framed_Owned-alloc s p v (inl o) = let (own, ne) = ps.Owned-alloc s p v.0 o in (inl own, ne)
  framed_Owned-alloc s p v (inr i) =
      (inr i, framed_apart s p (ps.alloc s).0 v (ps.alloc-Owned s v.0) i)

  pub framed_Owned-push :
      (s : ps.Store) (p q : ℕ) → FramedOwned (ps.push s p) q → FramedOwned s q ⊎ (q ≡ p)
  framed_Owned-push s p q (inl o) = elim (ps.Owned-push s p q o) [
    | inl own ↦ inl (inl own)
    | inr e ↦ inr e
  ]
  framed_Owned-push s p q (inr i) = inl (inr i)

  -- The store that counts the pages of the frame among its own.
  abbrev pub framed : PageStore
  framed = record {
    Store = ps.Store;
    get = ps.get;
    push = ps.push;
    alloc = ps.alloc;
    IsValid = FramedValid;
    Owned = FramedOwned;
    get-IsValid = λ s v. (ps.get-IsValid s v.0, framed_get-All s v);
    get-Owned = λ s v. inl (ps.get-Owned s v.0);
    Owned-get = framed_Owned-get;
    push-IsValid = framed_push-IsValid;
    Owned-push = framed_Owned-push;
    alloc-IsValid = λ s v. (ps.alloc-IsValid s v.0, framed_alloc-All s v);
    alloc-Owned = λ s v. inl (ps.alloc-Owned s v.0);
    Owned-alloc = framed_Owned-alloc;
  }

  pub framed-shrink_size :
      (m : Memory ps.Store) (b : ControlBlock) → shrink_size framed m b ≡ shrink_size ps m b
  unfolding shrink_size do_shrink_size release_all drop_front drop_back
  framed-shrink_size m b = refl
