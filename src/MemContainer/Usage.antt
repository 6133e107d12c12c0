-- ===== src/MemContainer/Usage.antt =====
-- The pages that the users of one `mem_container` (iobuffer/buffer.h) have, over any sequence of
-- calls of `get` and `push`.
use npoller.Base.{
  ℕ, ◌+◌, ◌^◌, ◌≤◌, ◌<◌, ◌≡◌, ◌≢◌, inl, refl, sym, ◌∙◌, List, [], ◌∷◌, ◌++◌, All, All-imp, Distinct,
  length, arith,
}
use npoller.MemContainer.{FreeQueue, MemContainer, new_container, get, push, alloc, clamp_capacity}
use npoller.Base.{In}
use npoller.MemContainer.Laws.{Owned, page_store}
use npoller.MemContainer.Capacity.{
  IsCounted, new_container-IsCounted, get-IsCounted, push-IsCounted,
}
use npoller.IoBuffer.View.{Owns, Owns-get_front, Owns-push_front}

-- One page out of the middle of a list.
All-middle {κ} :
    (P : ℕ → Type κ) (xs : List ℕ) (p : ℕ) (ys : List ℕ)
    → All P (xs ++ (p ∷ ys))
    → P p × All P (xs ++ ys)
All-middle P [] p ys h = h
All-middle P (x ∷ xs) p ys h = let (hp, rest) = All-middle P xs p ys h.1 in (hp, (h.0, rest))

Distinct-middle :
    (xs : List ℕ) (p : ℕ) (ys : List ℕ) → Distinct (xs ++ (p ∷ ys)) → Distinct (p ∷ (xs ++ ys))
Distinct-middle [] p ys h = h
Distinct-middle (x ∷ xs) p ys h =
    let (ne, rest) = All-middle (λ y. x ≢ y) xs p ys h.0 in
    let (apart, distinct) = Distinct-middle xs p ys h.1 in
    ((λ e. ne (sym e), apart), (rest, distinct))

module _ (fq : FreeQueue) where
  abbrev Container : Type 0
  Container = MemContainer fq.Queue

  -- From a container with some pages in use to another, by calls of `get`, and of `push` with a page
  -- that is in use.
  pub data Uses (start : Container) (started : List ℕ) : Container → List ℕ → Type 0 where
    here : Uses start started start started
    got :
        {m : Container} {used : List ℕ}
        → Uses start started m used
        → Uses start started (get fq m).1 ((get fq m).0 ∷ used)
    gave_back :
        {m : Container} (xs : List ℕ) (p : ℕ) (ys : List ℕ)
        → Uses start started m (xs ++ (p ∷ ys))
        → Uses start started (push fq m p) (xs ++ ys)

  gave_back-Owns :
      (m : Container) (xs : List ℕ) (p : ℕ) (ys : List ℕ)
      → Owns (page_store fq) m (xs ++ (p ∷ ys))
      → Owns (page_store fq) (push fq m p) (xs ++ ys)
  gave_back-Owns m xs p ys o = Owns-push_front (page_store fq) m p (xs ++ ys) (record {
    valid = o.valid;
    distinct = Distinct-middle xs p ys o.distinct;
    ours = All-middle (λ q. ¬ Owned fq m q) xs p ys o.ours;
  })

  max_size-get : (m : Container) → (get fq m).1.max_size ≡ m.max_size
  unfolding get alloc
  max_size-get m = ground arith

  max_size-push : (m : Container) (p : ℕ) → (push fq m p).max_size ≡ m.max_size
  unfolding push
  max_size-push m p = ground arith

  Uses-Inv :
      {start : Container} {started : List ℕ} {m : Container} {used : List ℕ}
      → Owns (page_store fq) start started
      → IsCounted fq start
      → Uses start started m used
      → Owns (page_store fq) m used × IsCounted fq m × (m.max_size ≡ start.max_size)
  Uses-Inv o v here = (o, v, refl)
  Uses-Inv {m = m} o v (got {m = before} {used = used} u) =
      let (owns, counted, same) = Uses-Inv o v u in
      (
        Owns-get_front (page_store fq) before used owns,
        get-IsCounted fq before counted,
        max_size-get before ∙ same,
      )
  Uses-Inv o v (gave_back {m = before} xs p ys u) =
      let (owns, counted, same) = Uses-Inv o v u in
      (
        gave_back-Owns before xs p ys owns,
        push-IsCounted fq before p counted,
        max_size-push before p ∙ same,
      )

  -- A new container, made for fewer than 2^31 - 1 pages over an empty queue, never gives out a page that is
  -- in use, as long as no two calls overlap: after any calls, one at a time, of `get`, and of `push` with
  -- pages in use, all pages in use differ, none of them is free, `size` is the number of free pages, and
  -- that is at most one more than the limit, which is the size asked for but at least `MIN_CAPACITY`.
  pub page_safety :
      (q : fq.Queue) (size next : ℕ) (m : Container) (used : List ℕ)
      → fq.items q ≡ []
      → size + 1 < 2 ^ 31
      → Uses (new_container fq q size next) [] m used
      → Distinct used
        × All (λ p. ¬ In p (fq.items m.container)) used
        × (m.size ≡ length (fq.items m.container))
        × (length (fq.items m.container) ≤ clamp_capacity size + 1)
  unfolding new_container
  page_safety q size next m used e room u =
      let (owns, counted, same) =
        Uses-Inv
          (record {
            valid = record { distinct = rw e tt; below = rw e tt };
            distinct = tt;
            ours = tt;
          })
          (new_container-IsCounted fq q size next e room).0 u in
      (
        owns.distinct,
        All-imp _ _ used (λ p free i. free (inl i)) owns.ours,
        counted.counted,
        omega (arith, counted.bounded),
      )
