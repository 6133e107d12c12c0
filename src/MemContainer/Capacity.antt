-- ===== src/MemContainer/Capacity.antt =====
-- How many free pages `mem_container` (iobuffer/buffer.h) keeps.
use npoller.Base.{
  ℕ, ◌+◌, ◌^◌, ◌≤◌, ◌<◌, ◌≡◌, Bool-cases, inl, inr, true, leb, [], ◌∷◌, length, length-append,
  arith,
}
use npoller.MemContainer.{
  FreeQueue, MemContainer, alloc, get, push, new_container, to_size, min_capacity,
}

module _ (fq : FreeQueue) where
  -- `size` counts the free pages, there is at most one more than `max_size`, and `int` has room.
  pub record IsCounted (m : MemContainer fq.Queue) : Type 0 where
    pub counted : m.size ≡ length (fq.items m.container)
    pub bounded : length (fq.items m.container) ≤ m.max_size + 1
    pub fits : m.max_size + 1 < 2 ^ 31

  -- A new container of an empty queue counts its pages and keeps room for at least `MIN_CAPACITY`.
  pub new_container-IsCounted :
      (q : fq.Queue) (size next : ℕ)
      → fq.items q ≡ []
      → size + 1 < 2 ^ 31
      → IsCounted (new_container fq q size next)
        × (min_capacity ≤ (new_container fq q size next).max_size)
  unfolding new_container
  new_container-IsCounted q size next e h =
      (record { counted = rw e; bounded = rw e (omega arith); fits = ground arith }, ground arith)

  -- `get` and `push` keep the count, and the number of free pages at most one above `max_size`.
  pub get-IsCounted : (m : MemContainer fq.Queue) → IsCounted m → IsCounted (get fq m).1
  unfolding get alloc
  get-IsCounted m v = elim (Bool-cases (fq.empty m.container)) [
    | inl e ↦ rw e (record { counted = v.counted; bounded = v.bounded; fits = v.fits })
    | inr e ↦
        let items = fq.pop-items m.container e in
        let counted = rw items at v.counted in
        let bounded = rw items at v.bounded in
        rw e (record { counted = omega (arith, v.fits); bounded = omega arith; fits = v.fits })
  ]

  pub push-IsCounted : (m : MemContainer fq.Queue) (p : ℕ) → IsCounted m → IsCounted (push fq m p)
  unfolding push
  push-IsCounted m p v = elim (Bool-cases (leb (to_size m.size) m.max_size)) [
    | inl e ↦
        let le : length (fq.items m.container) ≤ m.max_size =
          ground (arith, v.counted, v.fits, v.bounded) in
        let len = length-append (fq.items m.container) (p ∷ []) in
        rw e (record {
          counted = rw (fq.items-push m.container p) (omega (arith, v.counted, v.fits));
          bounded = rw (fq.items-push m.container p) (omega (arith, v.fits));
          fits = v.fits;
        })
    | inr e ↦ rw e v
  ]

  -- If a container that counts its pages has `max_size` of them free, `push` still keeps one more.
  push-at_limit :
      (m : MemContainer fq.Queue) (p : ℕ)
      → IsCounted m
      → length (fq.items m.container) ≡ m.max_size
      → length (fq.items (push fq m p).container) ≡ (push fq m p).max_size + 1
  unfolding push
  push-at_limit m p v full =
      let test : leb (to_size m.size) m.max_size ≡ true = ground (arith, v.counted, v.fits) in
      rw (test, fq.items-push m.container p)
        (omega (arith, length-append (fq.items m.container) (p ∷ [])))
